-- ===== src/Alert/Evaluation.antt =====
-- internal/alert/alerting.go: which receivers are notified, and when the request has to fail.
pub mod Outcome
use connaisseur.Prelude.{
  ℕ, ◌+◌, ◌≡◌, Bool, ◌||◌, Option, none, some, List, [], ◌∷◌, ◌++◌, Text, lit, text_eq, decimal,
  if◌then◌else◌, length, is_empty, Result, ok, err, panic, ◌>>=◌,
}
use connaisseur.Constants.{
  notification_result_success, notification_result_error, notification_result_skip,
  notification_result_timeout, notification_result_invalid,
}

pub record NotificationValues : Type 0 where
  pub result : Text
  pub error : Option Text
  pub images : Text
  pub request_id : Text
  pub priority : ℕ
  pub connaisseur_pod_id : Text
  pub cluster : Text
  pub namespace : Text
  pub timestamp : Text
  pub alert_message : Text

-- the interface Sender; `send` is the error that sending ends with
pub record Sender : Type 0 where
  pub name : Text
  pub fail_on_error : Bool
  pub send : NotificationValues → Option Text

pub record Config : Type 0 where
  pub cluster_id : Text
  pub admit_requests : List Sender
  pub reject_requests : List Sender

pub record Selected : Type 0 where
  pub receivers : List Sender
  pub stream : Text
  pub alert_message : Text

abbrev error_message : Option Text → Result Text
error_message (some e) = ok e
error_message none = panic

-- the switch on the result
unfoldable pub select_receivers : Config → NotificationValues → Result Selected
select_receivers a opts =
    if text_eq opts.result notification_result_success
      || text_eq opts.result notification_result_skip
    then ok (record {
      receivers = a.admit_requests;
      stream = lit "admit";
      alert_message = lit "CONNAISSEUR admitted a request";
    })
    else if text_eq opts.result notification_result_error
    then (error_message opts.error >>= λ e. ok (record {
      receivers = a.reject_requests;
      stream = lit "reject";
      alert_message = lit "CONNAISSEUR rejected a request: " ++ e;
    }))
    else if text_eq opts.result notification_result_timeout
    then ok (record {
      receivers = a.reject_requests;
      stream = lit "reject";
      alert_message =
          lit "CONNAISSEUR validation timed out for admission request " ++ opts.request_id;
    })
    else if text_eq opts.result notification_result_invalid
    then ok (record {
      receivers = a.reject_requests;
      stream = lit "reject";
      alert_message = lit "CONNAISSEUR failed to parse admission request " ++ opts.request_id;
    })
    else err (lit "unknown result type for alerting: " ++ opts.result)

-- what the waiting loop sees: the deadline, or a message on the error channel
pub data Arrival : Type 0 where
  deadline : Arrival
  message : Option Text → Arrival

abbrev timeout_error : ℕ → ℕ → Text → Text
timeout_error i n stream =
    lit "timeout during handling of receiver "
    ++ (decimal i ++ (lit "/" ++ (decimal n ++ (lit " of " ++ (stream ++ lit " alerts")))))

abbrev pub failure_error : Text → Text → Text
failure_error name e =
    lit "failed sending a notification for receiver "
    ++ (name ++ (lit " with FailOnError set: " ++ e))

-- `for i, rec := range receivers`; with no more arrivals the loop waits for the deadline
unfoldable pub wait : ℕ → Text → ℕ → List Sender → List Arrival → Option Text
wait n stream i [] arrivals = none
wait n stream i (rec ∷ recs) [] = some (timeout_error i n stream)
wait n stream i (rec ∷ recs) (deadline ∷ arrivals) = some (timeout_error i n stream)
wait n stream i (rec ∷ recs) (message none ∷ arrivals) = wait n stream (i + 1) recs arrivals
wait n stream i (rec ∷ recs) (message (some e) ∷ arrivals) = some (failure_error rec.name e)

abbrev pub with_cluster : Config → Config
with_cluster a = if is_empty a.cluster_id then record a { cluster_id = lit "not specified" } else a

-- the values that are sent
abbrev pub notified : Config → NotificationValues → Selected → NotificationValues
notified a opts s = record opts {
  cluster = (with_cluster a).cluster_id;
  alert_message = s.alert_message;
}

-- what the function returns once the receivers are selected
abbrev outcome :
    Config
    → NotificationValues
    → (List Sender → NotificationValues → List Arrival)
    → Result Selected
    → Result (Option Text)
outcome a opts arrive (ok s) =
    ok (wait (length s.receivers) s.stream 0 s.receivers (arrive s.receivers (notified a opts s)))
outcome a opts arrive (err e) = ok (some e)
outcome a opts arrive panic = panic

-- EvalAndSendNotifications: the error, if any, and the configuration that is left. What arrives depends
-- on the selected receivers and on the values that are sent to them.
unfoldable pub eval_and_send_notifications :
    Config
    → NotificationValues
    → (List Sender → NotificationValues → List Arrival)
    → Result (Option Text) × Config
eval_and_send_notifications a opts arrive =
    (outcome a opts arrive (select_receivers a opts), with_cluster a)

-- the message of a sender: at once that there is no error, or at the end the one that sending ends with
unfoldable pub message_of : NotificationValues → Sender → Option Text
message_of opts s = if s.fail_on_error then s.send opts else none

-- Each arrival is the deadline, or the message of a sender that is still running.
pub data IsRun (opts : NotificationValues) : List Sender → List Arrival → Type 0 where
  quiet : {senders : List Sender} → IsRun opts senders []
  times_out : {senders : List Sender} (rest : List Arrival) → IsRun opts senders (deadline ∷ rest)
  sends :
      {senders : List Sender} {rest : List Arrival} (before : List Sender) (s : Sender)
      (after : List Sender) (m : Option Text)
      → m ≡ message_of opts s
      → senders ≡ before ++ s ∷ after
      → IsRun opts (before ++ after) rest
      → IsRun opts senders (message m ∷ rest)
