-- ===== src/Tests/Export.antt =====
-- A service export at concrete inputs.
use worker_operator.Base.{
  All, length, insert, lookup, nat_eq, if◌then◌else◌, String, List, count, ◌==◌, ◌≤◌, ◌↔◌, arith,
  err, not_found, returned, ◌>>=◌, ◌>>◌, return, emit, perform, lookup, join, insert, infix_of,
  true, false, none, some, [], ◌∷◌, ok, no_requeue, ◌≡◌, refl, Post, string_eq, nat_eq,
}
use worker_operator.Export.Calls.{ServicePod, ServiceExport, SliceStatus, Env}
use worker_operator.Export.Compare.{
  port_list_to_display_string, is_service_app_pod_changed, app_pods_of, get_nsm_ip, by_name,
  differs, find_ingress, is_valid_namespace, all_listed, is_alias_status_in_sync,
}
use worker_operator.Export.Steps.{
  go_on, slice_label, finalizer_name, label_service_export_with_slice, set_label,
  set_initial_status, check_namespace, check_ports, reconcile_app_pod, compare_pods, by_config,
  compare_ingress, reconcile_ingress_gw_pod, reconcile_aliases, sync_svc_export_status, check_istio,
}
use worker_operator.Export.Reconcile.{
  after_flow, export_steps, delete_export, delete_resources, delete_service_export_resources,
  delete_istio_resources, remove_finalizer,
}
use mathlib.Core.List.{Perm}
use worker_operator.Export.Aliases.{is_alias_status_in_sync-Perm}
use worker_operator.Export.Hub.{
  Hub, get_hub_service_export_obj_name, get_hub_service_export_obj, update_service_export,
}
use worker_operator.Export.Published.{IfTold, IsPublished, update_service_export-IsPublished}
use worker_operator.Export.Changes.{IsKept, is_service_app_pod_changed-IsKept}
use worker_operator.Export.Deletion.{IfDone, DropsFinalizer, IsDeleted, delete_export-IsDeleted}

abbrev slice : SliceStatus
slice = record {
  name = "red";
  ingress_enabled = some true;
  application_namespaces = "shop" ∷ [];
  app_pods =
      record { pod_name = "cart-1"; pod_namespace = "shop"; nsm_ip = "10.1.0.5" }
      ∷ record {
        pod_name = "red-ingressgateway-0";
        pod_namespace = "kubeslice-system";
        nsm_ip = "10.1.0.9";
      }
      ∷ [];
}

unfoldable without : List String → String → List String
without [] n = []
without (f ∷ fs) n = let rest = without fs n in if f == n then rest else f ∷ rest

abbrev env : Env
env = record {
  cluster_name = "c1";
  itoa = λ n. "80";
  drop_finalizer = without;
  get_export = λ h n. err not_found;
  update_export = λ h x. ok tt;
  update_export_status = λ h x. ok tt;
  get_slice = λ h n. ok slice;
  list_pods = λ h n l.
      ok (
        record { name = "cart-1"; namespace = "shop"; phase = "Running"; pod_ip = "10.9.0.1" }
        ∷ []);
  hub_update_export = λ h x. ok tt;
  hub_update_endpoint = λ h x p. ok tt;
  hub_delete_export = λ h x. ok tt;
  reconcile_istio = λ h x. record { result = no_requeue; error = none; requeue = false };
  delete_istio = λ h x. ok tt;
  now = λ h. 7;
}

abbrev cart : ServiceExport
cart = record {
  name = "cart";
  namespace = "shop";
  deleting = false;
  finalizers = [];
  labels = some ((slice_label, "red") ∷ []);
  slice = "red";
  selector = some (("app", "cart") ∷ []);
  ports = [];
  aliases = "basket" ∷ [];
  dns_name = "cart.shop.svc.slice.local";
  export_status = "PENDING";
  exposed_ports = "";
  pods =
      record {
        name = "cart-1";
        nsm_ip = "10.1.0.5";
        pod_ip = "10.9.0.1";
        dns_name = "cart-1.c1.cart.shop.svc.slice.local";
      }
      ∷ [];
  available_endpoints = 1;
  ingress_gw_enabled = true;
  ingress_gw_name = "red-ingressgateway-0";
  ingress_gw_nsm_ip = "10.1.0.9";
  status_aliases = "basket" ∷ [];
  last_sync = 5;
}

cart-goes_on : (export_steps env cart []).0 ≡ returned go_on
unfolding export_steps ◌>>=◌ ◌>>◌ return emit perform lookup join insert infix_of string_eq nat_eq
    after_flow worker_operator.Base.cut_prefix label_service_export_with_slice set_label
    set_initial_status check_namespace is_valid_namespace check_ports port_list_to_display_string
    reconcile_app_pod compare_pods is_service_app_pod_changed app_pods_of get_nsm_ip by_name differs
    find_ingress by_config compare_ingress reconcile_ingress_gw_pod reconcile_aliases
    is_alias_status_in_sync all_listed sync_svc_export_status check_istio
cart-goes_on = refl

in_sync-repeated : is_alias_status_in_sync ("a" ∷ "b" ∷ []) ("a" ∷ "a" ∷ []) ≡ true
unfolding is_alias_status_in_sync nat_eq string_eq
in_sync-repeated = refl

abbrev deleted_cart : ServiceExport
deleted_cart = record cart { deleting = true; finalizers = finalizer_name ∷ [] }

deleted_cart-done : (delete_export env deleted_cart []).0 ≡ returned (no_requeue, none)
unfolding delete_export delete_resources delete_service_export_resources delete_istio_resources
    remove_finalizer ◌>>=◌ ◌>>◌ return emit perform string_eq
deleted_cart-done = refl

env-DropsFinalizer : DropsFinalizer env
unfolding without
env-DropsFinalizer [] = refl
env-DropsFinalizer (f ∷ fs) = let ih = env-DropsFinalizer fs in ground (arith, ih)

delete_export-IsDeleted_example :
    Post (IfDone (IsDeleted env deleted_cart)) (delete_export env deleted_cart [])
unfolding string_eq
delete_export-IsDeleted_example = delete_export-IsDeleted env deleted_cart env-DropsFinalizer refl

abbrev names : List String
names = "basket" ∷ "cart" ∷ []

other_name : ◌==◌ {A = String} "basket" "cart" ≡ false
unfolding string_eq
other_name = refl

names-distinct : (v : String) → count v names ≤ 1
unfolding count
names-distinct v = ground (arith, other_name)

is_alias_status_in_sync-Perm_example :
    (is_alias_status_in_sync ("cart" ∷ "basket" ∷ []) names ≡ true)
    ↔ Perm names ("cart" ∷ "basket" ∷ [])
is_alias_status_in_sync-Perm_example =
    is_alias_status_in_sync-Perm ("cart" ∷ "basket" ∷ []) names names-distinct

abbrev hub : Hub
hub = record {
  cluster_name = "c1";
  get_config = λ h n. err not_found;
  create_config = λ h c. ok tt;
  update_config = λ h c. ok tt;
  delete_config = λ h c. ok tt;
}

abbrev cart_with_port : ServiceExport
cart_with_port = record cart {
  ports =
      record {
        name = "web";
        container_port = 80;
        protocol = "TCP";
        service_protocol = "";
        service_port = 0;
      }
      ∷ [];
}

cart_with_port-told : (update_service_export hub cart_with_port []).0 ≡ returned (ok tt)
unfolding update_service_export get_hub_service_export_obj ◌>>=◌ return perform
cart_with_port-told = refl

update_service_export-IsPublished_example :
    Post (IfTold (IsPublished hub cart_with_port)) (update_service_export hub cart_with_port [])
update_service_export-IsPublished_example = update_service_export-IsPublished hub cart_with_port

-- Two exports in different namespaces have the same object on the hub.
same_object :
    get_hub_service_export_obj_name hub (record cart { name = "a"; namespace = "b-c" })
    ≡ get_hub_service_export_obj_name hub (record cart { name = "a-b"; namespace = "c" })
same_object = refl

abbrev one_pod : List ServicePod
one_pod =
    record { name = "cart-1"; nsm_ip = "10.1.0.5"; pod_ip = "10.9.0.1"; dns_name = "cart-1.c1" }
    ∷ []

is_service_app_pod_changed-IsKept_example :
    (length one_pod ≡ length cart.pods) × All (IsKept cart.pods) one_pod
unfolding is_service_app_pod_changed by_name differs insert lookup string_eq nat_eq
is_service_app_pod_changed-IsKept_example = is_service_app_pod_changed-IsKept one_pod cart.pods refl
