-- ===== src/Handler/Mutate.antt =====
-- internal/handler/mutate.go, handleMutate, with admission_metrics.go and health.go. Reading the body,
-- decoding the review and encoding the response are parameters.
pub mod Decision
pub mod Refined
use connaisseur.Prelude.{
  String, ℕ, Bool, true, false, not, ◌&&◌, Option, none, some, List, [], ◌∷◌, ◌++◌, Text, lit,
  text_eq, if◌then◌else◌, Result, ok, err, panic, ◌>>=◌,
}
use connaisseur.Constants.{detection_mode, method_not_allowed}
use connaisseur.Utils.Feature.{Env, feature_flag_on, block_all_resources}
use connaisseur.Kubernetes.Admission.{AdmissionRequest}
use connaisseur.Alert.Evaluation.{NotificationValues}
use connaisseur.Handler.Review.{AdmissionResponse}

pub record AdmissionReview : Type 0 where
  pub request : Option AdmissionRequest
  pub api_version : Text
  pub kind : Text

pub record HttpRequest : Type 0 where
  pub method : Text
  pub content_type : Text
  -- io.ReadAll of the body
  pub body : Result Text

-- http.Error with a message and a status, an encoded review, or a status alone
pub data HttpResponse : Type 0 where
  http_error : Text → ℕ → HttpResponse
  written : Text → HttpResponse
  header_only : ℕ → HttpResponse

pub data Metric : Type 0 where
  received : Metric
  admitted : Metric
  denied : Bool → Metric

-- HandleHealth
unfoldable pub handle_health : Text → HttpResponse
handle_health method =
    if text_eq method (lit "GET") then header_only 200 else http_error method_not_allowed 405

abbrev pub alert_message : Text → Text
alert_message e = lit " error sending notifications: " ++ e

-- an error of the notifications denies the request
unfoldable pub after_alerts : Option Text → AdmissionResponse → AdmissionResponse
after_alerts none r = r
after_alerts (some e) r = record r { allowed = false; result = some (alert_message e) }

-- `Result.Message` of a nil Result panics
abbrev message_of : Option Text → Result Text
message_of none = panic
message_of (some m) = ok m

abbrev warned : String → AdmissionResponse → Result AdmissionResponse
warned what r = message_of r.result >>= λ m. ok (record r { warnings = lit what ∷ m ∷ [] })

-- the resource validation mode: only pods are denied
unfoldable pub validate_pods_only : Env → Text → AdmissionResponse → Result AdmissionResponse
validate_pods_only env kind r =
    if not (text_eq kind (lit "Pod")) && not (block_all_resources env)
    then ((if not r.allowed then warned "pod-only validation active" r else ok r) >>= λ r'.
        ok (record r' { allowed = true; patch = none; has_patch_type = false }))
    else ok r

-- the detection mode: nothing is denied
unfoldable pub detect : Env → AdmissionResponse → Result AdmissionResponse
detect env r =
    if feature_flag_on env detection_mode && not r.allowed
    then (warned "detection mode active" r >>= λ r'. ok (record r' { allowed = true }))
    else ok r

-- the response that is sent, from the review's response and the error of the notifications
unfoldable pub final_response :
    Env → Text → Option Text → AdmissionResponse → Result AdmissionResponse
unfolding after_alerts validate_pods_only detect
final_response env kind alert_error r =
    validate_pods_only env kind (after_alerts alert_error r) >>= λ r'. detect env r'

-- What the handler calls: the review, the notifications, and the two codecs.
pub record Calls : Type 0 where
  pub decode : Text → Result AdmissionReview
  pub review : AdmissionRequest → Result (AdmissionResponse × NotificationValues)
  pub notify : NotificationValues → Result (Option Text)
  pub encode : Text → Text → AdmissionResponse → Result Text
  pub expired : Bool

abbrev admission_metric : Bool → Bool → Metric
admission_metric true expired = admitted
admission_metric false expired = denied expired

abbrev encoded : Result Text → Result HttpResponse
encoded (ok bytes) = ok (written bytes)
encoded (err e) = ok (http_error (lit "error marshalling response: " ++ e) 500)
encoded panic = panic

abbrev answer :
    Env → Calls → AdmissionReview → AdmissionRequest → Result (HttpResponse × List Metric)
answer env calls review request = do
  reviewed ← calls.review request
  alert_error ← calls.notify reviewed.1
  r ← final_response env request.kind.kind alert_error reviewed.0
  bytes ← encoded (calls.encode review.api_version review.kind r)
  ok (bytes, admission_metric r.allowed calls.expired ∷ [])

abbrev of_review : Env → Calls → Result AdmissionReview → Result (HttpResponse × List Metric)
of_review env calls (err e) = ok (http_error (lit "received invalid json: " ++ e) 400, [])
of_review env calls panic = panic
of_review env calls (ok review) = elim review.request [
  | none ↦ ok (http_error (lit "received empty admission request") 400, [])
  | some request ↦ answer env calls review request
]

abbrev of_body : Env → Calls → Result Text → Result (HttpResponse × List Metric)
of_body env calls (err e) = ok (http_error (lit "error reading request body: " ++ e) 500, [])
of_body env calls panic = panic
of_body env calls (ok body) = of_review env calls (calls.decode body)

unfoldable pub handle_mutate : Env → Calls → HttpRequest → Result (HttpResponse × List Metric)
handle_mutate env calls r =
    (if text_eq r.method (lit "POST")
      then (if text_eq r.content_type (lit "application/json")
          then of_body env calls r.body
          else ok (
            http_error (lit "wrong content type: expected json, got " ++ r.content_type) 400,
            [],
          ))
      else ok (http_error (method_not_allowed ++ (lit ": " ++ r.method)) 405, []))
    >>= λ answered. ok (answered.0, received ∷ answered.1)
