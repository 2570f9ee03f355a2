-- ===== src/Tests/Webhook.antt =====
-- The pod webhook at concrete inputs.
use worker_operator.Base.{
  ℕ, String, none, some, List, [], ◌∷◌, Result, ok, ◌≡◌, ◌↔◌, refl, returned, lookup, string_eq,
  nat_eq, All,
}
use worker_operator.Webhook.Mutate.{
  ObjectMeta, Workload, SliceConfig, SliceInfo, mutate_pod, mutate_deployment, mutation_required,
  is_excluded, is_injected, has_value, slice_of_labels, slice_of_label, if_single, if_configured,
  overlay_network_type, namespace_configured, is_among,
}
use worker_operator.Webhook.Mutate.Injection.{
  IsDue, mutation_required-IsDue, mutate_pod-once, mutate_deployment-again,
}
use worker_operator.Webhook.Aliases.{
  Export, first_conflict, conflicting_alias, alias_exist, equal_fold, folded, equal_codes,
}
use worker_operator.Webhook.Aliases.Unique.{
  ApartFrom, others, Unique, first_conflict-none, first_conflict-Unique,
}
use worker_operator.Webhook.Handle.{Codec, AdmissionRequest, handle_export}
use worker_operator.Webhook.Handle.Verdict.{Verdict, handle_export-Verdict}

abbrev config : SliceConfig
config = record {
  overlay_network_deployment_mode = "";
  application_namespaces = some ("shop" ∷ []);
}

abbrev info : SliceInfo
info = record {
  get_namespace = λ n. ok (some (("kubeslice.io/slice", "red") ∷ []));
  get_slice = λ s. ok (some config);
  new_client = ok tt;
  get_slice_anew = λ s. ok (some config);
}

abbrev pod : ObjectMeta
pod = record { name = "p"; namespace = "shop"; labels = none; annotations = none }

abbrev deploy : Workload
deploy = record { meta = pod; template = pod }

mutation_required-IsDue_example :
    (mutation_required info "single" pod ≡ returned (some "red")) ↔ IsDue info "single" pod "red"
mutation_required-IsDue_example = mutation_required-IsDue info "single" pod "red"

-- It is due.
pod_is_mutated : mutation_required info "single" pod ≡ returned (some "red")
unfolding mutation_required is_excluded is_injected has_value slice_of_labels slice_of_label
    if_single if_configured overlay_network_type namespace_configured is_among lookup string_eq
pod_is_mutated = refl

mutate_pod-once_example : mutation_required info "single" (mutate_pod pod "red") ≡ returned none
mutate_pod-once_example = mutate_pod-once info "single" "red" pod

mutate_deployment-again_example :
    mutation_required info "single" (mutate_deployment deploy "red").meta
    ≡ mutation_required info "single" deploy.meta
mutate_deployment-again_example = mutate_deployment-again info "single" "red" deploy

abbrev lower : ℕ → ℕ
lower n = n

abbrev cart : Export
cart = record { name = "cart"; namespace = "shop"; slice = "red"; aliases = "cart.shop" ∷ [] }

abbrev user : Export
user = record { name = "user"; namespace = "shop"; slice = "red"; aliases = "user.shop" ∷ [] }

first_conflict-none_example :
    (first_conflict lower cart (user ∷ cart ∷ []) ≡ none)
    ↔ All (ApartFrom lower cart) (others lower cart (user ∷ cart ∷ []))
first_conflict-none_example = first_conflict-none lower cart (user ∷ cart ∷ [])

user_is_Unique : Unique lower (user ∷ [])
user_is_Unique = (tt, tt)

cart_is_valid : first_conflict lower cart (user ∷ []) ≡ none
unfolding first_conflict conflicting_alias alias_exist equal_fold folded equal_codes string_eq
    nat_eq
cart_is_valid = refl

first_conflict-Unique_example : Unique lower (cart ∷ others lower cart (user ∷ []))
first_conflict-Unique_example =
    first_conflict-Unique lower cart (user ∷ []) user_is_Unique cart_is_valid

abbrev codec : Codec
codec = record {
  Rest = Unit;
  decode_pod = λ s. ok (pod, tt);
  decode_workload = λ s. ok (deploy, tt);
  decode_export = λ s. ok cart;
  marshal_pod = λ p. ok "pod";
  marshal_workload = λ w. ok "workload";
}

abbrev request : AdmissionRequest
request = record { kind = "ServiceExport"; namespace = "shop"; raw = "{}" }

abbrev all_exports : String → Result (List Export)
all_exports s = ok (user ∷ [])

handle_export-Verdict_example :
    Verdict lower codec info "single" all_exports request
      (handle_export codec info "single" lower all_exports request)
handle_export-Verdict_example = handle_export-Verdict lower codec info "single" all_exports request
