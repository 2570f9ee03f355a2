-- ===== src/Webhook/Mutate/Injection.antt =====
-- Which objects are mutated, and what becomes of an object that was mutated before.
use worker_operator.Base.{
  String, Bool, true, false, Option, none, some, Result, ok, err, ◌==◌, string_eq, if◌then◌else◌,
  Run, returned, panicked, lookup, insert, or_empty, lookup-insert, contains, ◌≡◌, ◌≢◌, ◌↔◌, refl,
  arith, List, ◌⊎◌, ap, ◌∙◌,
}
use worker_operator.Objects.{Labels}
use worker_operator.Webhook.Mutate.{
  ObjectMeta, Workload, SliceConfig, SliceInfo, mutation_required, has_value, is_excluded,
  is_injected, slice_of_labels, slice_of_label, if_configured, if_single, overlay_network_type,
  namespace_configured, is_among, mutate_pod, mutate_deployment, slice_key, status_key,
  control_plane_namespace, exclude_key, nsm_key1, nsm_key2,
}

-- A namespace of a slice with a single overlay network: it is labelled with the slice; the slice's
-- configuration, as it is read first, names no network type or the single network; as it is read
-- then, by a new client, it has the namespace among its application namespaces.
pub record IsOnboarded (I : SliceInfo) (single_net namespace slice : String) : Type 0 where
  pub labels : Labels
  pub found : I.get_namespace namespace ≡ ok (some labels)
  pub labelled : lookup slice_key labels ≡ some slice
  pub config : SliceConfig
  pub read_first : I.get_slice slice ≡ ok (some config)
  pub single :
      (config.overlay_network_deployment_mode ≡ "")
      ⊎ (config.overlay_network_deployment_mode ≡ single_net)
  pub config' : SliceConfig
  pub namespaces : List String
  pub connected : I.new_client ≡ ok tt
  pub read_anew : I.get_slice_anew slice ≡ ok (some config')
  pub profiled : config'.application_namespaces ≡ some namespaces
  pub configured : contains namespaces namespace ≡ true

-- When an object is mutated for a slice: it is not marked as excluded nor as injected, its namespace is
-- named, is not the control plane's, and is onboarded.
pub record IsDue (I : SliceInfo) (single_net : String) (meta : ObjectMeta) (slice : String)
    : Type 0 where
  pub included : is_excluded meta ≡ false
  pub named : meta.namespace ≢ ""
  pub fresh : is_injected meta ≡ false
  pub not_ours : meta.namespace ≢ control_plane_namespace
  pub onboarded : IsOnboarded I single_net meta.namespace slice

overlay_network_type-ok :
    (a : Result (Option SliceConfig)) (t : String)
    → overlay_network_type a ≡ returned (ok t)
    → (c : SliceConfig) × (a ≡ ok (some c)) × (c.overlay_network_deployment_mode ≡ t)
unfolding overlay_network_type
overlay_network_type-ok (err e) t h = cc
overlay_network_type-ok (ok none) t h = cc
overlay_network_type-ok (ok (some c)) t h = (c, refl, cc)

is_among-true :
    (n : String) (o : Option (List String))
    → is_among n o ≡ returned (ok true)
    → (ns : List String) × (o ≡ some ns) × (contains ns n ≡ true)
unfolding is_among
is_among-true n none h = cc
is_among-true n (some ns) h = (ns, refl, cc)

namespace_configured-true :
    (n : String) (c : Result (Unit {0})) (a : Result (Option SliceConfig))
    → namespace_configured n c a ≡ returned (ok true)
    → (k : SliceConfig) × (ns : List String) × (c ≡ ok tt)
      × (a ≡ ok (some k))
      × (k.application_namespaces ≡ some ns)
      × (contains ns n ≡ true)
unfolding namespace_configured
namespace_configured-true n (err e) a h = cc
namespace_configured-true n (ok u) (err e) h = cc
namespace_configured-true n (ok u) (ok none) h = cc
namespace_configured-true n (ok u) (ok (some k)) h =
    let p = is_among-true n k.application_namespaces h in (k, p.0, refl, refl, p.1, p.2)

if_configured-some :
    (s s' : String) (r : Run (Result Bool))
    → if_configured s r ≡ returned (some s')
    → (s ≡ s') × (r ≡ returned (ok true))
unfolding if_configured
if_configured-some s s' panicked h = cc
if_configured-some s s' (returned (err e)) h = cc
if_configured-some s s' (returned (ok true)) h = (cc, refl)
if_configured-some s s' (returned (ok false)) h = cc

if_single-some :
    (net s : String) (r : Run (Result String)) (rest : Run (Option String))
    → if_single net r rest ≡ returned (some s)
    → (t : String) × (r ≡ returned (ok t)) × ((t ≡ "") ⊎ (t ≡ net)) × (rest ≡ returned (some s))
unfolding if_single
if_single-some net s panicked rest h = cc
if_single-some net s (returned (err e)) rest h = cc
if_single-some net s (returned (ok t)) rest h = (t, refl, ground arith, ground arith)

slice_of_label-some :
    (I : SliceInfo) (net n s : String) (o : Option String)
    → slice_of_label I net n o ≡ returned (some s)
    → (o ≡ some s)
      × (t : String) × (overlay_network_type (I.get_slice s) ≡ returned (ok t))
      × ((t ≡ "") ⊎ (t ≡ net))
      × (namespace_configured n I.new_client (I.get_slice_anew s) ≡ returned (ok true))
unfolding slice_of_label
slice_of_label-some I net n s none h = cc
slice_of_label-some I net n s (some s') h =
    let p = if_single-some net s _ _ h in
    let q = if_configured-some s' s _ p.3 in rw (← q.0) (refl, p.0, p.1, p.2, q.1)

slice_of_labels-some :
    (I : SliceInfo) (net n s : String) (a : Result (Option Labels))
    → I.get_namespace n ≡ a
    → slice_of_labels I net n a ≡ returned (some s)
    → IsOnboarded I net n s
unfolding slice_of_labels
slice_of_labels-some I net n s (err e) g h = cc
slice_of_labels-some I net n s (ok none) g h = cc
slice_of_labels-some I net n s (ok (some l)) g h =
    let p = slice_of_label-some I net n s (lookup slice_key l) h in
    let c = overlay_network_type-ok (I.get_slice s) p.1 p.2 in
    let k = namespace_configured-true n I.new_client (I.get_slice_anew s) p.4 in
    record {
      labels = l;
      found = g;
      labelled = p.0;
      config = c.0;
      read_first = c.1;
      single = rw c.2 p.3;
      config' = k.0;
      namespaces = k.1;
      connected = k.2;
      read_anew = k.3;
      profiled = k.4;
      configured = k.5;
    }

unless :
    (b : Bool) (r : Run (Option String)) (s : String)
    → (if b then returned none else r) ≡ returned (some s)
    → (b ≡ false) × (r ≡ returned (some s))
unless true r s h = cc
unless false r s h = (refl, h)

single_rest :
    (net t : String) (rest : Run (Option String))
    → (t ≡ "") ⊎ (t ≡ net)
    → if_single net (returned (ok t)) rest ≡ rest
unfolding if_single
single_rest net t rest h = ground arith

IsOnboarded-slice_of_labels :
    (I : SliceInfo) (net n s : String)
    → IsOnboarded I net n s
    → slice_of_labels I net n (I.get_namespace n) ≡ returned (some s)
unfolding slice_of_labels slice_of_label if_configured overlay_network_type namespace_configured
    is_among
IsOnboarded-slice_of_labels I net n s o =
    ap (slice_of_labels I net n) o.found
    ∙ ap (slice_of_label I net n) o.labelled
    ∙ ap
        (λ a.
          if_single net (overlay_network_type a)
            (if_configured s (namespace_configured n I.new_client (I.get_slice_anew s))))
        o.read_first
    ∙ single_rest net _ _ o.single
    ∙ ap (λ c. if_configured s (namespace_configured n c (I.get_slice_anew s))) o.connected
    ∙ ap (λ a. if_configured s (namespace_configured n (ok tt) a)) o.read_anew
    ∙ ap (λ l. if_configured s (is_among n l)) o.profiled
    ∙ ap (λ (b : Bool). returned (if b then some s else none)) o.configured

IsDue-mutation_required :
    (I : SliceInfo) (net : String) (meta : ObjectMeta) (s : String)
    → IsDue I net meta s
    → mutation_required I net meta ≡ returned (some s)
unfolding mutation_required
IsDue-mutation_required I net meta s d =
    ground (arith, IsOnboarded-slice_of_labels I net meta.namespace s d.onboarded)

-- The webhook mutates an object for a slice exactly if the object is due for it: it is not marked
-- as excluded or injected, and its namespace is named, is not the control plane's, and is onboarded
-- to the slice, whose network is single.
pub mutation_required-IsDue :
    (I : SliceInfo) (single_net : String) (meta : ObjectMeta) (slice : String)
    → (mutation_required I single_net meta ≡ returned (some slice)) ↔ IsDue I single_net meta slice
unfolding mutation_required
mutation_required-IsDue I net meta s = (
  λ h.
      let a = unless (is_excluded meta) _ s h in
      let b = unless (meta.namespace == "") _ s a.1 in
      let c = unless (is_injected meta) _ s b.1 in
      let d = unless (meta.namespace == control_plane_namespace) _ s c.1 in
      record {
        included = a.0;
        named = ground (arith, b.0);
        fresh = c.0;
        not_ours = ground (arith, d.0);
        onboarded = slice_of_labels-some I net meta.namespace s _ refl d.1;
      },
  IsDue-mutation_required I net meta s,
)

status-injected :
    (v w : String) (m : Labels)
    → lookup status_key (insert nsm_key2 v (insert nsm_key1 w (insert status_key "injected" m)))
      ≡ some "injected"
unfolding string_eq
status-injected v w m =
    lookup-insert status_key nsm_key2 v _
    ∙ lookup-insert status_key nsm_key1 w _
    ∙ lookup-insert status_key status_key "injected" m

exclude-labelled :
    (v : String) (m : Labels) → lookup exclude_key (insert slice_key v m) ≡ lookup exclude_key m
unfolding string_eq
exclude-labelled v m = lookup-insert exclude_key slice_key v m

mutate_pod-is_injected :
    (pod : ObjectMeta) (slice : String) → is_injected (mutate_pod pod slice) ≡ true
unfolding mutate_pod is_injected has_value string_eq
mutate_pod-is_injected pod s = ap (has_value "injected") (status-injected _ _ _)

-- A pod that was mutated is not mutated again, for no slice.
pub mutate_pod-once :
    (I : SliceInfo) (single_net slice : String) (pod : ObjectMeta)
    → mutation_required I single_net (mutate_pod pod slice) ≡ returned none
unfolding mutation_required
mutate_pod-once I net s pod = ground (arith, mutate_pod-is_injected pod s)

-- A deployment that was mutated is mutated again as if it had not been: the mark of the injection
-- is set on its pod template, and looked for on the deployment itself.
pub mutate_deployment-again :
    (I : SliceInfo) (single_net slice : String) (deploy : Workload)
    → mutation_required I single_net (mutate_deployment deploy slice).meta
      ≡ mutation_required I single_net deploy.meta
unfolding mutation_required mutate_deployment is_excluded
mutate_deployment-again I net s deploy =
    ap
      (λ o.
        if has_value "true" o
        then returned none
        else if deploy.meta.namespace == ""
        then returned none
        else if is_injected deploy.meta
        then returned none
        else if deploy.meta.namespace == control_plane_namespace
        then returned none
        else slice_of_labels I net deploy.meta.namespace (I.get_namespace deploy.meta.namespace))
      (exclude-labelled s (or_empty deploy.meta.labels))
