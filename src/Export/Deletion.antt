-- ===== src/Export/Deletion.antt =====
-- What a service export's deletion without an error has done.
use worker_operator.Base.{
  Holds-emit, String, Bool, true, false, Option, none, some, List, [], ◌∷◌, Result, ok, err, Error,
  is_not_found, string_eq, contains, ◌⊎◌, inl, inr, ◌≡◌, ◌≢◌, refl, arith, perform, Adds, same,
  more, Did, did_now, did_before, Did-Adds, Holds, Holds-return, Holds-bind, Holds-ask, Holds-if,
  Post,
}
use worker_operator.Export.Calls.{
  ServiceExport, SliceStatus, Call, updated_export, got_slice, hub_deleted_export, deleted_istio,
  Env,
}
use worker_operator.Export.Steps.{finalizer_name}
use worker_operator.Export.Reconcile.{
  Outcome, delete_istio_resources, delete_service_export_resources, remove_finalizer,
  delete_resources, delete_export,
}

abbrev Q : List Call → Call → Type 0
Q h c = Unit

-- A run without an error guarantees `P`; nothing is said of one with an error.
abbrev pub IfDone : (List Call → Type 0) → Outcome → List Call → Type 0
IfDone P (result, some e) k = Unit
IfDone P (result, none) k = P k

abbrev IfOk : (List Call → Type 0) → Result (Unit {0}) → List Call → Type 0
IfOk P (err e) k = Unit
IfOk P (ok u) k = P k

-- `controllerutil.RemoveFinalizer` leaves no finalizer of that name.
abbrev pub DropsFinalizer : Env → Type 0
DropsFinalizer E =
    (fs : List String) → contains (E.drop_finalizer fs finalizer_name) finalizer_name ≡ false

module _ (E : Env) (x : ServiceExport) where
  -- The slice is gone, or has no ingress gateway, or else the resources for Istio were deleted.
  abbrev pub AreResourcesGone : List Call → Type 0
  AreResourcesGone k =
      ((e : Error) × Did (λ c. c ≡ got_slice x.slice (err e)) k × (is_not_found e ≡ true))
      ⊎ (((s : SliceStatus) × Did (λ c. c ≡ got_slice x.slice (ok s)) k
            × (s.ingress_enabled ≢ some true))
          ⊎ Did (λ c. c ≡ deleted_istio x (ok tt)) k)

  -- The hub was told, the resources are gone, and the export was written without the finalizer.
  abbrev pub IsDeleted : List Call → Type 0
  IsDeleted k =
      Did (λ c. c ≡ hub_deleted_export x (ok tt)) k
      × (AreResourcesGone k
          × ((fs : List String) × Did
                (λ c. c ≡ updated_export (record x { finalizers = fs }) (ok tt)) k
              × (contains fs finalizer_name ≡ false)))

  Gone-Adds : (h k : List Call) → Adds Q h k → AreResourcesGone h → AreResourcesGone k
  Gone-Adds h k a (inl (e, d, n)) = inl (e, Did-Adds _ d a, n)
  Gone-Adds h k a (inr (inl (s, d, n))) = inr (inl (s, Did-Adds _ d a, n))
  Gone-Adds h k a (inr (inr d)) = inr (inr (Did-Adds _ d a))

  gone-deleted :
      (r : Result (Unit {0})) (h : List Call) → IfOk AreResourcesGone r (deleted_istio x r ∷ h)
  gone-deleted (err e) h = tt
  gone-deleted (ok u) h = inr (inr (did_now _ refl))

  Holds-istio_resources :
      (s : SliceStatus) (o : Option Bool) (h : List Call)
      → s.ingress_enabled ≡ o
      → Did (λ c. c ≡ got_slice x.slice (ok s)) h
      → Holds Q (IfOk AreResourcesGone) h (delete_istio_resources E x o h)
  unfolding delete_istio_resources perform
  Holds-istio_resources s none h e d =
      Holds-return Q (IfOk AreResourcesGone) (ok tt) h (inr (inl (s, d, ground (arith, e))))
  Holds-istio_resources s (some false) h e d =
      Holds-return Q (IfOk AreResourcesGone) (ok tt) h (inr (inl (s, d, ground (arith, e))))
  Holds-istio_resources s (some true) h e d = (more _ same tt, gone-deleted (E.delete_istio h x) h)

  Holds-resources :
      (h : List Call) → Holds Q (IfOk AreResourcesGone) h (delete_service_export_resources E x h)
  unfolding delete_service_export_resources
  Holds-resources h =
      let P = IfOk AreResourcesGone in
      Holds-ask Q P _ _ _ h (λ a. tt)
        (elim [
          | err e ↦
              Holds-if Q P (is_not_found e) _ _ _
                (λ n. Holds-return Q P (ok tt) _ (inl (e, did_now _ refl, n)))
                (λ _. Holds-return Q P (err e) _ tt)
          | ok s ↦ Holds-istio_resources s s.ingress_enabled _ refl (did_now _ refl)
        ])

  Holds-remove_finalizer :
      DropsFinalizer E
      → (h : List Call) → Did (λ c. c ≡ hub_deleted_export x (ok tt)) h
      → AreResourcesGone h
      → Holds Q (IfDone IsDeleted) h (remove_finalizer E x h)
  unfolding remove_finalizer
  Holds-remove_finalizer drops h d g =
      let P = IfDone IsDeleted in
      Holds-ask Q P _ _ _ h (λ a. tt)
        (elim [
          | err e ↦ Holds-return Q P _ _ tt
          | ok u ↦ Holds-emit Q P _ _ _ tt (
              Holds-return Q P _ _ (
                did_before _ (did_before _ d),
                (
                  Gone-Adds h _ (more _ (more _ same tt) tt) g,
                  (
                    E.drop_finalizer x.finalizers finalizer_name,
                    did_before _ (did_now _ refl),
                    drops x.finalizers,
                  ),
                ),
              ))
        ])

  Holds-delete_resources :
      DropsFinalizer E
      → (h : List Call) → Did (λ c. c ≡ hub_deleted_export x (ok tt)) h
      → Holds Q (IfDone IsDeleted) h (delete_resources E x h)
  unfolding delete_resources
  Holds-delete_resources drops h d =
      let P = IfDone IsDeleted in
      Holds-bind Q (IfOk AreResourcesGone) P (delete_service_export_resources E x) _ h
        (Holds-resources h)
        (elim [
          | err e ↦ λ k a g. Holds-emit Q P _ _ _ tt (Holds-return Q P _ _ tt)
          | ok u ↦ λ k a g. Holds-remove_finalizer drops k (Did-Adds _ d a) g
        ])

-- If the library leaves no finalizer of the name it is given to remove, a deletion of a service
-- export with the finalizer that ends without an error has told the hub to delete the export; has
-- found the slice missing or without an ingress gateway, or deleted the resources for Istio; and has
-- written the export without the finalizer.
pub delete_export-IsDeleted :
    (E : Env) (x : ServiceExport)
    → DropsFinalizer E
    → contains x.finalizers finalizer_name ≡ true
    → Post (IfDone (IsDeleted E x)) (delete_export E x [])
unfolding delete_export
delete_export-IsDeleted E x drops f =
    let P = IfDone (IsDeleted E x) in
    let run =
      Holds-if Q P (contains x.finalizers finalizer_name) _ _ []
        (λ _.
          Holds-ask Q P _ _ _ [] (λ a. tt)
            (elim [
              | err e ↦ Holds-return Q P _ _ tt
              | ok u ↦ Holds-delete_resources E x drops _ (did_now _ refl)
            ]))
        (λ e. ground (arith, e, f)) in
    run.1
