-- ===== src/Webhook/Handle.antt =====
-- `Handle` of pkg/webhook/pod/webhook.go. The decoder, the marshaller and the computation of the
-- patch are calls of other packages.
pub mod Verdict
use worker_operator.Base.{
  String, ◌<>◌, Option, none, some, List, Result, ok, err, Error, ◌==◌, string_eq, if◌then◌else◌,
  Run, returned, panicked, ℕ,
}
use worker_operator.Webhook.Mutate.{
  ObjectMeta, Workload, SliceInfo, mutation_required, mutate_pod, mutate_deployment,
  mutate_stateful_set, mutate_daemon_set,
}
use worker_operator.Webhook.Aliases.{Export, validate_service_export}

-- `admission.Response`, by the function that makes it.
pub data AdmissionResponse : Type 0 where
  errored : ℕ → Error → AdmissionResponse
  patched : String → String → AdmissionResponse
  denied : String → AdmissionResponse
  allowed : AdmissionResponse
  invalid_kind : AdmissionResponse

pub record AdmissionRequest : Type 0 where
  pub kind : String
  pub namespace : String
  pub raw : String

-- `admission.Decoder` and `json.Marshal`, for the kinds that are handled. A pod's object is its
-- metadata and the rest, which the handler passes on.
pub record Codec : Type 1 where
  pub Rest : Type 0
  pub decode_pod : String → Result (ObjectMeta × Rest)
  pub decode_workload : String → Result (Workload × Rest)
  pub decode_export : String → Result Export
  pub marshal_pod : ObjectMeta × Rest → Result String
  pub marshal_workload : Workload × Rest → Result String

abbrev pub patch : String → Result String → AdmissionResponse
patch raw (ok marshaled) = patched raw marshaled
patch raw (err e) = errored 500 e

module _ (K : Codec) (I : SliceInfo) (single_net : String) (fold : ℕ → ℕ) where
  -- A pod that a deployment creates has no namespace of its own.
  unfoldable pub with_namespace : String → ObjectMeta → ObjectMeta
  with_namespace namespace pod =
      if pod.namespace == "" then record pod { namespace = namespace } else pod

  unfoldable pub handle_pod : AdmissionRequest → Run AdmissionResponse
  unfolding with_namespace mutation_required mutate_pod
  handle_pod req = elim (K.decode_pod req.raw) [
    | err e ↦ returned (errored 400 e)
    | ok (meta, rest) ↦ elim (mutation_required I single_net (with_namespace req.namespace meta)) [
      | panicked ↦ panicked
      | returned none ↦
          returned (patch req.raw (K.marshal_pod (with_namespace req.namespace meta, rest)))
      | returned (some slice) ↦ returned (
          patch req.raw
            (K.marshal_pod (mutate_pod (with_namespace req.namespace meta) slice, rest)))
    ]
  ]

  -- The branches for the other kinds, which differ in the mutation only.
  unfoldable pub handle_workload :
      (Workload → String → Workload) → AdmissionRequest → Run AdmissionResponse
  unfolding mutation_required
  handle_workload mutate req = elim (K.decode_workload req.raw) [
    | err e ↦ returned (errored 400 e)
    | ok (w, rest) ↦ elim (mutation_required I single_net w.meta) [
      | panicked ↦ panicked
      | returned none ↦ returned (patch req.raw (K.marshal_workload (w, rest)))
      | returned (some slice) ↦ returned (patch req.raw (K.marshal_workload (mutate w slice, rest)))
    ]
  ]

  unfoldable pub handle_export :
      (String → Result (List Export)) → AdmissionRequest → AdmissionResponse
  unfolding validate_service_export
  handle_export all_exports req = elim (K.decode_export req.raw) [
    | err e ↦ errored 400 e
    | ok svcex ↦ elim (validate_service_export fold all_exports svcex) [
      | err e ↦ errored 500 e
      | ok (some alias) ↦ denied ("Alias " <> (alias <> " already exist"))
      | ok none ↦ allowed
    ]
  ]

  unfoldable pub handle_request :
      (String → Result (List Export)) → AdmissionRequest → Run AdmissionResponse
  unfolding handle_pod handle_workload handle_export mutate_deployment mutate_stateful_set
      mutate_daemon_set
  handle_request all_exports req =
      if req.kind == "Pod"
      then handle_pod req
      else if req.kind == "Deployment"
      then handle_workload mutate_deployment req
      else if req.kind == "StatefulSet"
      then handle_workload mutate_stateful_set req
      else if req.kind == "DaemonSet"
      then handle_workload mutate_daemon_set req
      else if req.kind == "ServiceExport"
      then returned (handle_export all_exports req)
      else returned invalid_kind
