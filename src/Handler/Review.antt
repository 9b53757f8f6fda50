-- ===== src/Handler/Review.antt =====
-- internal/handler/mutate.go, mutateReview: the validation results of an admission request become its
-- response and its notification values.
pub mod Admitted
pub mod Patches
pub mod Uid
pub mod Live
use connaisseur.Prelude.{
  ℕ, zero, suc, ◌+◌, Bool, true, false, not, ◌&&◌, Option, none, some, List, [], ◌∷◌, ◌++◌, map,
  Text, lit, text_eq, join, decimal, if◌then◌else◌, length, Result, ok, err, panic,
}
use connaisseur.Constants.{
  mutate_mode, pod_name, notification_result_success, notification_result_error,
  notification_result_skip, notification_result_timeout, notification_result_invalid,
}
use connaisseur.Utils.Feature.{Env, getenv}
use connaisseur.Kubernetes.Workload.{Deserialize, WorkloadObject}
use connaisseur.Kubernetes.Containers.{IdxType, container_path}
use connaisseur.Kubernetes.Admission.{
  AdmissionRequest, AdmissionRequestObjects, new_admission_request_objects,
}
use connaisseur.Validation.Image.{ValidationInput, ValidationOutput}
use connaisseur.Validation.Workload.{validate_workload_object, Arrival, deadline, output}
use connaisseur.Alert.Evaluation.{NotificationValues}

-- `result` is the message of Result, `has_patch_type` whether PatchType is set
pub record AdmissionResponse : Type 0 where
  pub uid : Text
  pub allowed : Bool
  pub result : Option Text
  pub patch : Option Text
  pub has_patch_type : Bool
  pub warnings : List Text

-- an AdmissionResponse with a UID and a message, which does not allow
abbrev pub denied : Text → Text → AdmissionResponse
denied uid message = record {
  uid = uid;
  allowed = false;
  result = some message;
  patch = none;
  has_patch_type = false;
  warnings = [];
}

abbrev pub admitted : Text → AdmissionResponse
admitted uid = record {
  uid = uid;
  allowed = true;
  result = none;
  patch = none;
  has_patch_type = false;
  warnings = [];
}

-- how the loop over the validation channel ends
pub data Received : Type 0 where
  all : List ValidationOutput → Received
  timed_out : ℕ → Received
  failed : ValidationOutput → Text → Received

abbrev prepend : ValidationOutput → Received → Received
prepend o (all os) = all (o ∷ os)
prepend o (timed_out i) = timed_out i
prepend o (failed o' e) = failed o' e

abbrev receive_one : ValidationOutput → Option Text → Received → Received
receive_one o (some e) rest = failed o e
receive_one o none rest = prepend o rest

-- `n` results are still awaited, after `i`; with no more arrivals the loop waits for the deadline
unfoldable pub receive : ℕ → ℕ → List Arrival → Received
receive zero i arrivals = all []
receive (suc n) i [] = timed_out i
receive (suc n) i (deadline ∷ arrivals) = timed_out i
receive (suc n) i (output o ∷ arrivals) = receive_one o o.error (receive n (i + 1) arrivals)

pub record Patch : Type 0 where
  pub path : Text
  pub value : Text

-- the JSON patch of one container
unfoldable pub render_patch : Patch → Text
render_patch p =
    lit "{\"op\":\"replace\",\"path\":\""
    ++ (p.path ++ (lit "\",\"value\":\"" ++ (p.value ++ lit "\"}")))

abbrev pub is_changed : ValidationOutput → Bool
is_changed o = text_eq o.validation_mode mutate_mode && not (text_eq o.new_image o.old_image)

-- a patch for each place of an image that is to be mutated and has changed
unfoldable pub output_patches : WorkloadObject → ValidationOutput → List Patch
output_patches w o =
    if is_changed o
    then map (λ e. record { path = container_path w e; value = o.new_image }) o.idxs_types
    else []

unfoldable pub json_patches : WorkloadObject → List ValidationOutput → List Patch
unfolding output_patches
json_patches w [] = []
json_patches w (o ∷ os) = output_patches w o ++ json_patches w os

unfoldable pub patched_images : List ValidationOutput → List Text
patched_images [] = []
patched_images (o ∷ os) =
    (if is_changed o then map (λ _. o.raw_image) o.idxs_types else []) ++ patched_images os

unfoldable pub all_skipped : List ValidationOutput → Bool
all_skipped [] = true
all_skipped (o ∷ os) = o.skipped && all_skipped os

abbrev pub with_patches : AdmissionResponse → List Patch → AdmissionResponse
with_patches r [] = r
with_patches r (p ∷ ps) = record r {
  has_patch_type = true;
  patch = some (lit "[" ++ (join (map render_patch (p ∷ ps)) (lit ",") ++ lit "]"));
}

abbrev timeout_message : Text → ℕ → ℕ → Text
timeout_message uid i n =
    lit "validation of admission request "
    ++ (uid
        ++ (lit " timed out after validating "
            ++ (decimal i ++ (lit "/" ++ (decimal n ++ lit " images")))))

-- the response and the notification values, once the results are received
unfoldable pub respond :
    Text
    → WorkloadObject
    → ℕ
    → NotificationValues
    → Received
    → AdmissionResponse × NotificationValues
respond uid w n nv (timed_out i) =
    (denied uid (timeout_message uid i n), record nv { result = notification_result_timeout })
respond uid w n nv (failed o e) = (
  denied uid e,
  record nv { result = notification_result_error; error = some e; images = o.raw_image },
)
respond uid w n nv (all os) = (
  with_patches (admitted uid) (json_patches w os),
  record nv {
    images = join (patched_images os) (lit ", ");
    result = if all_skipped os then notification_result_skip else notification_result_success;
  },
)

abbrev values_of : Env → AdmissionRequest → NotificationValues
values_of env ar = record {
  result = [];
  error = none;
  images = [];
  request_id = ar.uid;
  priority = 0;
  connaisseur_pod_id = getenv env pod_name;
  cluster = [];
  namespace = ar.namespace;
  timestamp = [];
  alert_message = [];
}

-- the rest of the function, once the objects are decoded; `arrive` is what arrives for the inputs
abbrev review_objects :
    (List ValidationInput → List Arrival)
    → (WorkloadObject → Result (List Text))
    → Text
    → NotificationValues
    → Result AdmissionRequestObjects
    → Result (AdmissionResponse × NotificationValues)
review_objects arrive parents uid nv panic = panic
review_objects arrive parents uid nv (err e) =
    ok (denied uid e, record nv { result = notification_result_invalid })
review_objects arrive parents uid nv (ok aro) =
    let inputs = validate_workload_object aro.new_obj aro.old_obj (parents aro.new_obj) in
    ok (
      if aro.old_obj.deleted
      then (admitted uid, record nv { result = notification_result_success })
      else respond uid aro.new_obj (length inputs) nv (receive (length inputs) 0 (arrive inputs)))

unfoldable pub mutate_review :
    Env
    → Deserialize
    → (WorkloadObject → Result (List Text))
    → (List ValidationInput → List Arrival)
    → AdmissionRequest
    → Result (AdmissionResponse × NotificationValues)
mutate_review env deserialize parents arrive ar =
    review_objects arrive parents ar.uid (values_of env ar)
      (new_admission_request_objects deserialize ar)
