-- ===== src/Tests/Admission.antt =====
-- An admission request from the body to the encoded response, and the review of outputs that all arrive.
use connaisseur.Prelude.{
  ◌≡◌, refl, ◌↔◌, inl, inr, true, false, Option, none, some, List, [], ◌∷◌, map, Text, lit, text_eq,
  has_prefix, trim_prefix, has_suffix, trim_suffix, split, join, contains, to_lower, decimal, In,
  Result, ok, err, panic,
}
use connaisseur.Kubernetes.Workload.{WorkloadObject}
use connaisseur.Kubernetes.Admission.{AdmissionRequestObjects, new_admission_request_objects}
use connaisseur.Validation.Image.{ValidationInput, ValidationOutput}
use connaisseur.Validation.Workload.{Arrival, output}
use connaisseur.Alert.Evaluation.{NotificationValues}
use connaisseur.Handler.Review.{
  AdmissionResponse, Patch, json_patches, with_patches, admitted, all_skipped, mutate_review,
}
use connaisseur.Handler.Review.Live.{response_to, response_to-order}
use connaisseur.Handler.Mutate.{
  AdmissionReview, HttpRequest, HttpResponse, written, Metric, Calls, received, handle_mutate,
}
use connaisseur.Handler.Mutate.Refined.{Refines, calls, handle_mutate-Refines}
use connaisseur.Tests.Samples.{no_env, decode_pod, the_pod, create_request}
use connaisseur.Tests.Validation.{setup}
use connaisseur.Tests.Handler.{arrive, arrive-IsRun, mutated, no_values}

abbrev review : AdmissionReview
review = record {
  request = some create_request;
  api_version = lit "admission.k8s.io/v1";
  kind = lit "AdmissionReview";
}

abbrev decode_review : Text → Result AdmissionReview
decode_review body = ok review

abbrev no_alerts : NotificationValues → Result (Option Text)
no_alerts nv = ok none

-- of the response, its UID
abbrev encode_uid : Text → Text → AdmissionResponse → Result Text
encode_uid api_version kind r = ok r.uid

abbrev post : HttpRequest
post = record { method = lit "POST"; content_type = lit "application/json"; body = ok (lit "{}") }

abbrev answer_of : Result (HttpResponse × List Metric) → List Metric
answer_of (ok a) = a.1
answer_of (err e) = []
answer_of panic = []

abbrev sample_calls : Calls
sample_calls =
    calls setup no_env decode_pod (λ w. ok []) arrive arrive-IsRun decode_review no_alerts
      encode_uid false

handle_mutate_example :
    Refines setup no_env decode_pod (λ w. ok []) decode_review encode_uid post (lit "42")
unfolding handle_mutate connaisseur.Prelude.text_eq lit mutate_review new_admission_request_objects
    connaisseur.Kubernetes.Workload.new_workload_object_from_bytes
    connaisseur.Kubernetes.Workload.parse_kind connaisseur.Kubernetes.Workload.convert
    connaisseur.Kubernetes.Workload.finish connaisseur.Kubernetes.Workload.has_no_containers
    connaisseur.Kubernetes.Workload.assemble connaisseur.Handler.Mutate.final_response
    connaisseur.Utils.Feature.feature_flag_on connaisseur.Handler.Review.respond
    connaisseur.Handler.Review.receive connaisseur.Validation.Workload.validate_workload_object
    connaisseur.Kubernetes.Containers.consolidated_containers
    connaisseur.Handler.Mutate.after_alerts connaisseur.Handler.Mutate.detect
    connaisseur.Handler.Mutate.validate_pods_only all_skipped json_patches
    connaisseur.Handler.Review.output_patches connaisseur.Handler.Review.patched_images
    connaisseur.Handler.Review.render_patch connaisseur.Kubernetes.Containers.container_path
    connaisseur.Kubernetes.Containers.image_set connaisseur.Prelude.decimal connaisseur.Prelude.join
    connaisseur.Prelude.to_lower connaisseur.Utils.Feature.block_all_resources
    connaisseur.Utils.Feature.default_flag connaisseur.Utils.Feature.parse_bool
    connaisseur.Utils.Lists.has_key connaisseur.Utils.Lists.keys_from
    connaisseur.Utils.Lists.set_key connaisseur.Validation.Workload.input_of
    connaisseur.Validation.Image.validate connaisseur.Image.new connaisseur.Config.matching_rule
    connaisseur.Policy.new_match connaisseur.Prelude.split
    connaisseur.Utils.Strings.longest_common_prefix connaisseur.Prelude.contains
    connaisseur.Image.name connaisseur.Caching.cache_errors connaisseur.Config.best_of
    connaisseur.Config.consider connaisseur.Config.find_validator connaisseur.Config.matches
    connaisseur.Config.validator_of connaisseur.Config.wrap_pattern connaisseur.Image.cut_tag
    connaisseur.Image.set_digest connaisseur.Image.tag_and_digest connaisseur.Policy.compare
    connaisseur.Policy.compare_lengths connaisseur.Policy.shared_lengths
    connaisseur.Prelude.has_prefix connaisseur.Prelude.has_suffix connaisseur.Prelude.trim_prefix
    connaisseur.Prelude.trim_suffix connaisseur.Utils.Json.escape_byte
    connaisseur.Utils.Json.json_escape_string connaisseur.Utils.Strings.common_bytes
    connaisseur.Utils.Strings.overlap_from connaisseur.Utils.Strings.sort
    connaisseur.Utils.Strings.string_overlap connaisseur.Validation.Image.entry_text
    connaisseur.Validation.Image.mode_of connaisseur.Validation.Image.run
    connaisseur.Validation.Image.settle connaisseur.Validation.Image.with_validator
    connaisseur.Validation.Skip.automatic_child connaisseur.Validation.Skip.automatic_unchanged
    connaisseur.Validation.Skip.get_cached_digest connaisseur.Validation.Skip.has_image
    connaisseur.Validation.Skip.skip connaisseur.Validators.Interface.validate_image
    connaisseur.Validators.Static.validate_image
handle_mutate_example =
    handle_mutate-Refines setup no_env decode_pod (λ w. ok []) arrive arrive-IsRun decode_review
      no_alerts encode_uid false post (lit "42")
      (answer_of (handle_mutate no_env sample_calls post)) refl

abbrev skipped : ValidationOutput
skipped = record mutated { skipped = true; idxs_types = [] }

-- the two outputs, in either order
abbrev one_way : List ValidationOutput
one_way = mutated ∷ skipped ∷ []

abbrev other_way : List ValidationOutput
other_way = skipped ∷ mutated ∷ []

listed_alike : (o : ValidationOutput) → In o one_way ↔ In o other_way
listed_alike o = (
  λ m. elim m [ inl a ↦ inr (inl a) | inr r ↦ elim r [ inl b ↦ inl b | inr n ↦ absurd n ] ],
  λ m. elim m [ inl a ↦ inr (inl a) | inr r ↦ elim r [ inl b ↦ inl b | inr n ↦ absurd n ] ],
)

order_example :
    (((response_to (lit "42") the_pod no_values one_way).allowed ≡ true)
      ↔ ((response_to (lit "42") the_pod no_values other_way).allowed ≡ true))
    × ((p : Patch) → In p (json_patches the_pod one_way) ↔ In p (json_patches the_pod other_way))
order_example =
    response_to-order (lit "42") the_pod no_values one_way other_way (refl, listed_alike)

abbrev arrive_mutated : List ValidationInput → List Arrival
arrive_mutated inputs = map (λ i. output mutated) inputs

abbrev objects_of : Result AdmissionRequestObjects → AdmissionRequestObjects
objects_of (ok aro) = aro
objects_of r = record {
  operation = [];
  namespace = [];
  kind = [];
  old_obj = the_pod;
  new_obj = the_pod;
}

abbrev objects : AdmissionRequestObjects
objects = objects_of (new_admission_request_objects decode_pod create_request)
