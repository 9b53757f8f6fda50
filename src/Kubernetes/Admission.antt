-- ===== src/Kubernetes/Admission.antt =====
-- internal/kubernetes/admission_objects.go: the new and the old object of an admission request.
use connaisseur.Prelude.{
  ◌≡◌, ◌≢◌, ◌⊎◌, inl, inr, false, [], ◌++◌, arith, Text, lit, text_eq, text_eq_iff, if◌then◌else◌,
  Bool-cases, Result, ok, ◌>>=◌, map_err,
}
use connaisseur.Kubernetes.Workload.{
  GroupVersionKind, Deserialize, WorkloadObject, new_workload_object_from_bytes,
}

pub record AdmissionRequest : Type 0 where
  pub uid : Text
  pub kind : GroupVersionKind
  pub namespace : Text
  pub operation : Text
  pub object : Text
  pub old_object : Text

pub record AdmissionRequestObjects : Type 0 where
  pub new_obj : WorkloadObject
  pub old_obj : WorkloadObject
  pub kind : Text
  pub namespace : Text
  pub operation : Text

-- the old object of a request that is no update
abbrev pub no_object : WorkloadObject
no_object = record {
  name = [];
  kind = [];
  namespace = [];
  containers = [];
  init_containers = [];
  ephemeral_containers = [];
  owners = [];
  deleted = false;
}

abbrev old_error : Text → Text
old_error e = lit "error decoding old workload object: " ++ e

abbrev new_error : Text → Text
new_error e = lit "error decoding new workload object: " ++ e

unfoldable pub new_admission_request_objects :
    Deserialize → AdmissionRequest → Result AdmissionRequestObjects
new_admission_request_objects deserialize ar = do
  old ←
      if text_eq ar.operation (lit "UPDATE")
      then map_err old_error
          (new_workload_object_from_bytes deserialize ar.old_object ar.kind ar.namespace)
      else ok no_object
  new ←
      map_err new_error (new_workload_object_from_bytes deserialize ar.object ar.kind ar.namespace)
  ok (record {
    new_obj = new;
    old_obj = old;
    kind = ar.kind.kind;
    namespace = ar.namespace;
    operation = ar.operation;
  })

-- The new object is the one that is decoded from the request. The old object of an update is decoded
-- from the request's old object; that of any other request is not deleted and has no containers.
pub new_admission_request_objects-objects :
    (deserialize : Deserialize) (ar : AdmissionRequest) (aro : AdmissionRequestObjects)
    → new_admission_request_objects deserialize ar ≡ ok aro
    → (new_workload_object_from_bytes deserialize ar.object ar.kind ar.namespace ≡ ok aro.new_obj)
      × (((ar.operation ≡ lit "UPDATE")
            × (new_workload_object_from_bytes deserialize ar.old_object ar.kind ar.namespace
                ≡ ok aro.old_obj))
          ⊎ ((ar.operation ≢ lit "UPDATE") × (aro.old_obj ≡ no_object)))
unfolding new_admission_request_objects
new_admission_request_objects-objects deserialize ar aro h = (
  ground arith,
  elim (Bool-cases (text_eq ar.operation (lit "UPDATE"))) [
    | inl u ↦ inl ((text_eq_iff ar.operation (lit "UPDATE")).0 u, ground (arith, u))
    | inr u ↦ inr (λ e. cc (u, (text_eq_iff ar.operation (lit "UPDATE")).1 e), ground (arith, u))
  ],
)
