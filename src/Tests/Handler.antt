-- ===== src/Tests/Handler.antt =====
-- The review of a pod whose image is approved, its patches, and the notifications.
use connaisseur.Prelude.{
  ◌≡◌, refl, ◌↔◌, ◌⊎◌, inr, true, false, Option, none, some, List, [], ◌∷◌, lit, text_eq,
  has_prefix, trim_prefix, has_suffix, trim_suffix, split, join, index, contains, to_lower, decimal,
  In, Result, ok, err, panic,
}
use connaisseur.Constants.{mutate_mode, notification_result_success}
use connaisseur.Kubernetes.Workload.{Container}
use connaisseur.Kubernetes.Containers.{IdxType}
use connaisseur.Kubernetes.Containers.Places.{all_containers}
use connaisseur.Kubernetes.Admission.{AdmissionRequestObjects, new_admission_request_objects}
use connaisseur.Validation.Image.{ValidationInput, ValidationOutput, Metric, validate}
use connaisseur.Validation.Workload.{Arrival, output, IsRun, quiet, sends}
use connaisseur.Alert.Evaluation
use connaisseur.Alert.Evaluation.{
  NotificationValues, Sender, Config, Selected, select_receivers, message, notified,
  eval_and_send_notifications, message_of,
}
use connaisseur.Alert.Evaluation.Outcome.{
  KeepsReceivers, Succeeds, eval_and_send_notifications-Succeeds,
}
use connaisseur.Handler.Review.{AdmissionResponse, denied, Patch, json_patches, mutate_review}
use connaisseur.Handler.Review.Admitted.{IsAdmitted, mutate_review-IsAdmitted}
use connaisseur.Handler.Review.Patches.{IsPatchOf, In-json_patches_iff}
use connaisseur.Handler.Mutate.{final_response}
use connaisseur.Handler.Mutate.Decision.{IsDecision, final_response-IsDecision}
use connaisseur.Tests.Samples.{no_env, decode_pod, the_pod, create_request}
use connaisseur.Tests.Validation.{setup}

-- only the output of the first validation arrives
abbrev first_output :
    Result ((Option ValidationOutput × List Metric) × setup.cache.State) → List Arrival
first_output (ok ((some o, ms), st)) = output o ∷ []
first_output (ok ((none, ms), st)) = []
first_output (err e) = []
first_output panic = []

abbrev pub arrive : List ValidationInput → List Arrival
arrive [] = []
arrive (i ∷ is) = first_output (validate setup false i tt)

first_output-IsRun :
    (i : ValidationInput) (is : List ValidationInput)
    (r : Result ((Option ValidationOutput × List Metric) × setup.cache.State))
    → validate setup false i tt ≡ r
    → IsRun setup (i ∷ is) (first_output r)
first_output-IsRun i is (ok ((some o, ms), st)) h = sends [] i is tt st o ms refl h quiet
first_output-IsRun i is (ok ((none, ms), st)) h = quiet
first_output-IsRun i is (err e) h = quiet
first_output-IsRun i is panic h = quiet

pub arrive-IsRun : (inputs : List ValidationInput) → IsRun setup inputs (arrive inputs)
arrive-IsRun [] = quiet
arrive-IsRun (i ∷ is) = first_output-IsRun i is _ refl

abbrev pub no_values : NotificationValues
no_values = record {
  result = [];
  error = none;
  images = [];
  request_id = [];
  priority = 0;
  connaisseur_pod_id = [];
  cluster = [];
  namespace = [];
  timestamp = [];
  alert_message = [];
}

abbrev reviewed_of :
    Result (AdmissionResponse × NotificationValues) → AdmissionResponse × NotificationValues
reviewed_of (ok r) = r
reviewed_of (err e) = (denied [] [], no_values)
reviewed_of panic = (denied [] [], no_values)

abbrev reviewed : AdmissionResponse × NotificationValues
reviewed = reviewed_of (mutate_review no_env decode_pod (λ w. ok []) arrive create_request)

mutate_review_example :
    (aro : AdmissionRequestObjects) × (new_admission_request_objects decode_pod create_request
      ≡ ok aro)
    × ((aro.old_obj.deleted ≡ true)
        ⊎ ((c : Container)
            → In c (all_containers aro.new_obj)
            → IsAdmitted setup aro.old_obj (ok []) c.image))
unfolding mutate_review new_admission_request_objects validate lit text_eq
    connaisseur.Kubernetes.Workload.new_workload_object_from_bytes
    connaisseur.Kubernetes.Workload.parse_kind connaisseur.Kubernetes.Workload.convert
    connaisseur.Kubernetes.Workload.finish connaisseur.Kubernetes.Workload.has_no_containers
    connaisseur.Kubernetes.Workload.assemble connaisseur.Handler.Review.respond
    connaisseur.Handler.Review.receive connaisseur.Validation.Workload.validate_workload_object
    connaisseur.Kubernetes.Containers.consolidated_containers connaisseur.Image.new
    connaisseur.Config.matching_rule connaisseur.Policy.new_match connaisseur.Prelude.split
    connaisseur.Utils.Strings.longest_common_prefix connaisseur.Prelude.contains
    connaisseur.Image.name connaisseur.Caching.cache_errors connaisseur.Config.best_of
    connaisseur.Config.consider connaisseur.Config.find_validator connaisseur.Config.matches
    connaisseur.Config.validator_of connaisseur.Config.wrap_pattern
    connaisseur.Handler.Review.all_skipped json_patches connaisseur.Handler.Review.output_patches
    connaisseur.Handler.Review.patched_images connaisseur.Handler.Review.render_patch
    connaisseur.Image.cut_tag connaisseur.Image.set_digest connaisseur.Image.tag_and_digest
    connaisseur.Kubernetes.Containers.container_path connaisseur.Kubernetes.Containers.image_set
    connaisseur.Policy.compare connaisseur.Policy.compare_lengths connaisseur.Policy.shared_lengths
    connaisseur.Prelude.decimal connaisseur.Prelude.has_prefix connaisseur.Prelude.has_suffix
    connaisseur.Prelude.join connaisseur.Prelude.to_lower connaisseur.Prelude.trim_prefix
    connaisseur.Prelude.trim_suffix connaisseur.Utils.Feature.block_all_resources
    connaisseur.Utils.Feature.default_flag connaisseur.Utils.Feature.feature_flag_on
    connaisseur.Utils.Feature.parse_bool connaisseur.Utils.Json.escape_byte
    connaisseur.Utils.Json.json_escape_string connaisseur.Utils.Lists.has_key
    connaisseur.Utils.Lists.keys_from connaisseur.Utils.Lists.set_key
    connaisseur.Utils.Strings.common_bytes connaisseur.Utils.Strings.overlap_from
    connaisseur.Utils.Strings.sort connaisseur.Utils.Strings.string_overlap
    connaisseur.Validation.Image.entry_text connaisseur.Validation.Image.mode_of
    connaisseur.Validation.Image.run connaisseur.Validation.Image.settle
    connaisseur.Validation.Image.with_validator connaisseur.Validation.Skip.automatic_child
    connaisseur.Validation.Skip.automatic_unchanged connaisseur.Validation.Skip.get_cached_digest
    connaisseur.Validation.Skip.has_image connaisseur.Validation.Skip.skip
    connaisseur.Validation.Workload.input_of connaisseur.Validators.Interface.validate_image
    connaisseur.Validators.Static.validate_image
mutate_review_example =
    mutate_review-IsAdmitted setup arrive arrive-IsRun (λ w. ok []) no_env decode_pod create_request
      (reviewed.0) (reviewed.1) refl refl

abbrev first_place : IdxType
first_place = record { index = 0; type = lit "containers" }

abbrev pub mutated : ValidationOutput
mutated = record {
  idxs_types = first_place ∷ [];
  raw_image = lit "nginx";
  new_image = lit "nginx@sha256:abc";
  old_image = lit "nginx";
  error = none;
  validator = lit "default";
  skipped = false;
  skip_reason = [];
  validation_mode = mutate_mode;
}

abbrev first_patch : Patch
first_patch = record { path = lit "/spec/containers/0/image"; value = lit "nginx@sha256:abc" }

json_patches_example :
    In first_patch (json_patches the_pod (mutated ∷ []))
    ↔ ((o : ValidationOutput) × In o (mutated ∷ []) × IsPatchOf the_pod first_patch o)
json_patches_example = In-json_patches_iff the_pod (mutated ∷ []) first_patch

json_patches_run : json_patches the_pod (mutated ∷ []) ≡ first_patch ∷ []
unfolding json_patches lit text_eq connaisseur.Kubernetes.Containers.container_path
    connaisseur.Prelude.decimal
json_patches_run = refl

final_response_example :
    (final : AdmissionResponse) × (final_response no_env
        (lit "Pod")
        none
        (denied (lit "42") (lit "unsigned"))
      ≡ ok final)
    × IsDecision no_env (lit "Pod") none (denied (lit "42") (lit "unsigned")) final
final_response_example =
    final_response-IsDecision no_env (lit "Pod") none (denied (lit "42") (lit "unsigned"))
      (inr (lit "unsigned", refl))

abbrev receiver : Sender
receiver = record { name = lit "slack"; fail_on_error = true; send = λ opts. none }

abbrev alerting : Config
alerting = record { cluster_id = []; admit_requests = receiver ∷ []; reject_requests = [] }

abbrev success_values : NotificationValues
success_values = record no_values { result = notification_result_success }

abbrev first_message : List Sender → NotificationValues → List Evaluation.Arrival
first_message [] opts = []
first_message (s ∷ ss) opts = message (message_of opts s) ∷ []

first_message-IsRun :
    (opts : NotificationValues) (senders : List Sender)
    → Evaluation.IsRun opts senders (first_message senders opts)
first_message-IsRun opts [] = Evaluation.quiet
first_message-IsRun opts (s ∷ ss) =
    Evaluation.sends [] s ss (message_of opts s) refl refl Evaluation.quiet

notifications_example :
    ((s : Selected) × (select_receivers alerting success_values ≡ ok s)
      × ((r : Sender) → In r s.receivers → Succeeds (notified alerting success_values s) r))
    × KeepsReceivers alerting (eval_and_send_notifications alerting success_values first_message).1
unfolding eval_and_send_notifications select_receivers lit text_eq Evaluation.wait message_of
notifications_example =
    eval_and_send_notifications-Succeeds alerting success_values first_message
      (λ s. first_message-IsRun (notified alerting success_values s) s.receivers) refl
