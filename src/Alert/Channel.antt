-- ===== src/Alert/Channel.antt =====
-- internal/alert/channel.go: one notification over HTTP. The template engine, the HTTP client and
-- encoding/json are parameters.
use connaisseur.Prelude.{
  String, ℕ, suc, Bool, ◌||◌, Option, none, some, List, [], ◌∷◌, ◌++◌, Text, lit, text_eq, join,
  index, ltb, leb, if◌then◌else◌, take, drop, is_empty, Result, ok, err, panic, ◌>>=◌, map_err,
}
use connaisseur.Utils.Json.{json_escape_string}
use connaisseur.Alert.Evaluation.{NotificationValues, Sender}

-- a JSON object, by its keys, and payload fields
abbrev pub Fields : Type 0
Fields = List (Text × Text)

pub record Channel : Type 0 where
  pub channel_name : Text
  pub url : Text
  pub priority : Option ℕ
  pub payload_fields : Fields
  pub headers : List Text
  pub template_file : Text
  pub fail : Bool

pub record Request : Type 0 where
  pub url : Text
  pub header : List (Text × Text)
  pub body : Text

pub record Response : Type 0 where
  pub status_code : ℕ
  pub body : Text

pub record Outside : Type 0 where
  -- transformTemplate of the file, template.Parse and Execute
  pub transform_template : Text → Result Text
  pub parse_template : Text → Result Text
  pub render : Text → NotificationValues → Result Text
  pub unmarshal : Text → Result Fields
  pub marshal : Fields → Result Text
  pub new_request : Text → Text → Option Text
  pub do_request : Request → Result Response
  pub now : Text

-- JsonEscapeStruct: every field that is a string
unfoldable pub json_escape_struct : NotificationValues → NotificationValues
json_escape_struct v = record v {
  result = json_escape_string v.result;
  images = json_escape_string v.images;
  request_id = json_escape_string v.request_id;
  connaisseur_pod_id = json_escape_string v.connaisseur_pod_id;
  cluster = json_escape_string v.cluster;
  namespace = json_escape_string v.namespace;
  timestamp = json_escape_string v.timestamp;
  alert_message = json_escape_string v.alert_message;
}

-- template[key] = value
unfoldable pub set_field : Fields → Text → Text → Fields
set_field [] key value = (key, value) ∷ []
set_field ((k, v) ∷ m) key value =
    if text_eq k key then (k, value) ∷ m else (k, v) ∷ set_field m key value

unfoldable pub template_with_payload_fields : Fields → Fields → Fields
unfolding set_field
template_with_payload_fields template [] = template
template_with_payload_fields template ((key, value) ∷ rest) =
    template_with_payload_fields (set_field template key value) rest

abbrev about : String → Channel → Text → Text
about what ch e = lit what ++ (lit " for receiver " ++ (ch.channel_name ++ (lit ": " ++ e)))

-- an empty or trivial template gives an empty message
unfoldable pub generate_notification_message : Outside → Channel → NotificationValues → Result Text
unfolding json_escape_struct template_with_payload_fields
generate_notification_message out ch opts = do
  text ← map_err (about "failed to transform template" ch) (out.transform_template ch.template_file)
  tmpl ← map_err (λ e. lit "failed to parse template file: " ++ e) (out.parse_template text)
  rendered ←
      map_err (about "failed to render template" ch) (out.render tmpl (json_escape_struct opts))
  if is_empty rendered || text_eq rendered (lit "{}") then ok [] else do
    fields ← map_err (about "failed to unmarshal rendered template" ch) (out.unmarshal rendered)
    map_err (about "failed to marshal rendered template" ch)
        (out.marshal (template_with_payload_fields fields ch.payload_fields))

-- strings.SplitN(header, ":", 2) with two parts, and req.Header.Set
unfoldable pub add_headers : Channel → List Text → List (Text × Text) → Result (List (Text × Text))
add_headers ch [] header = ok header
add_headers ch (h ∷ hs) header = elim (index h b':') [
  | none ↦ err (
      lit "header configuration for notification of receiver "
      ++ (ch.channel_name
          ++ (lit " is invalid. Not all headers are valid: ["
              ++ (join ch.headers (lit " ") ++ lit "]"))))
  | some i ↦ add_headers ch hs (header ++ (take i h, drop (suc i) h) ∷ [])
]

abbrev of_response : Channel → Response → Result (Unit {0})
of_response ch resp =
    if ltb resp.status_code 200 || leb 300 resp.status_code
    then err (about "failed to send notification" ch resp.body)
    else ok tt

abbrev refused : Channel → Option Text → Result (Unit {0})
refused ch none = ok tt
refused ch (some e) = err (
    lit "failed to create request for notification of receiver "
    ++ (ch.channel_name ++ (lit ": " ++ e)))

abbrev deliver : Outside → Channel → Text → Result (Unit {0})
deliver out ch [] = ok tt
deliver out ch (c ∷ body) = do
  _ ← refused ch (out.new_request ch.url (c ∷ body))
  header ← add_headers ch ch.headers ((lit "Content-Type", lit "application/json") ∷ [])
  resp ←
      map_err (about "failed to send notification" ch)
        (out.do_request (record { url = ch.url; header = header; body = c ∷ body }))
  of_response ch resp

abbrev priority_of : Option ℕ → ℕ
priority_of none = 3
priority_of (some p) = p

abbrev stamped : Outside → Channel → NotificationValues → NotificationValues
stamped out ch opts = record opts { priority = priority_of ch.priority; timestamp = out.now }

abbrev error_of : Result (Unit {0}) → Option Text
error_of (ok u) = none
error_of (err e) = some e
error_of panic = some []

-- Send, up to its message on the error channel
unfoldable pub send : Outside → Channel → NotificationValues → Result (Unit {0})
unfolding generate_notification_message add_headers
send out ch opts = do
  body ← generate_notification_message out ch (stamped out ch opts)
  deliver out ch body

-- a Channel as a Sender
unfoldable pub sender : Outside → Channel → Sender
unfolding send
sender out ch = record {
  name = ch.channel_name;
  fail_on_error = ch.fail;
  send = λ opts. error_of (send out ch opts);
}
