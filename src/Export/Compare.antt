-- ===== src/Export/Compare.antt =====
-- The comparisons of utils.go and serviceexport.go.
use worker_operator.Base.{
  ℕ, String, ◌<>◌, Bool, true, false, ◌&&◌, Option, none, some, List, [], ◌∷◌, ◌==◌, ◌/=◌,
  string_eq, nat_eq, if◌then◌else◌, contains, length, lookup, insert, get_or, Dict, join, infix_of,
  map,
}
use worker_operator.Export.Calls.{ServicePod, AppPod, ServicePort, ServiceExport, RunningPod}

abbrev pub port_to_string : (ℕ → String) → ServicePort → String
port_to_string itoa p =
    itoa p.container_port <> ("/" <> (if p.protocol /= "" then p.protocol else "TCP"))

unfoldable pub port_list_to_display_string : (ℕ → String) → List ServicePort → String
port_list_to_display_string itoa ports = join "," (map (port_to_string itoa) ports)

unfoldable pub get_nsm_ip : RunningPod → List AppPod → String
get_nsm_ip pod [] = ""
get_nsm_ip pod (a ∷ as') =
    let rest = get_nsm_ip pod as' in
    if (pod.name == a.pod_name) && (pod.namespace == a.pod_namespace) then a.nsm_ip else rest

-- The map of the old pods by their names, and a pod of it, all empty for a missing name.
unfoldable pub by_name : List ServicePod → Dict String ServicePod → Dict String ServicePod
by_name [] m = m
by_name (p ∷ ps) m = by_name ps (insert p.name p m)

abbrev pub blank_pod : ServicePod
blank_pod = record { name = ""; nsm_ip = ""; pod_ip = ""; dns_name = "" }

unfoldable pub differs : Dict String ServicePod → List ServicePod → Bool
differs m [] = false
differs m (c ∷ cs) =
    let rest = differs m cs in
    if (get_or blank_pod (lookup c.name m)).nsm_ip /= c.nsm_ip
    then true
    else if (get_or blank_pod (lookup c.name m)).pod_ip /= c.pod_ip
    then true
    else rest

unfoldable pub is_service_app_pod_changed : List ServicePod → List ServicePod → Bool
unfolding by_name differs
is_service_app_pod_changed current old =
    if length current /= length old then true else differs (by_name old []) current

unfoldable pub all_listed : List String → List String → Bool
all_listed aliases [] = true
all_listed aliases (a ∷ rest) =
    let others = all_listed aliases rest in if contains aliases a then others else false

unfoldable pub is_alias_status_in_sync : List String → List String → Bool
unfolding all_listed
is_alias_status_in_sync in_status in_spec =
    if length in_status /= length in_spec then false else all_listed in_status in_spec

unfoldable pub app_pods_of :
    String → ServiceExport → List AppPod → List RunningPod → List ServicePod
unfolding get_nsm_ip
app_pods_of cluster x in_slice [] = []
app_pods_of cluster x in_slice (pod ∷ pods) =
    let rest = app_pods_of cluster x in_slice pods in
    if pod.phase == "Running"
    then (if get_nsm_ip pod in_slice == ""
        then rest
        else record {
          name = pod.name;
          nsm_ip = get_nsm_ip pod in_slice;
          pod_ip = pod.pod_ip;
          dns_name =
              pod.name
              <> ("."
                  <> (cluster
                      <> ("." <> (x.name <> ("." <> (x.namespace <> ".svc.slice.local"))))));
        }
          ∷ rest)
    else rest

-- The loop of `GetSliceIngressGwPod`.
unfoldable pub find_ingress : List AppPod → Option AppPod
find_ingress [] = none
find_ingress (p ∷ ps) =
    if (infix_of "ingressgateway" p.pod_name && (p.pod_namespace == "kubeslice-system"))
      && (p.nsm_ip /= "")
    then some p
    else find_ingress ps

unfoldable pub is_valid_namespace : String → String → List String → Bool
is_valid_namespace ns slice namespaces =
    if ns == slice <> "-vpc-access-gw-system" then true else contains namespaces ns
