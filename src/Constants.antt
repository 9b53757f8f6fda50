-- ===== src/Constants.antt =====
-- internal/constants/constants.go: the names of environment variables, modes, validator types and
-- notification results.
use connaisseur.Prelude.{ℕ, Text, lit}

abbrev pub automatic_child_approval : Text
automatic_child_approval = lit "AUTOMATIC_CHILD_APPROVAL"

abbrev pub automatic_unchanged_approval : Text
automatic_unchanged_approval = lit "AUTOMATIC_UNCHANGED_APPROVAL"

abbrev pub detection_mode : Text
detection_mode = lit "DETECTION_MODE"

abbrev pub resource_validation_mode : Text
resource_validation_mode = lit "RESOURCE_VALIDATION_MODE"

abbrev pub pod_name : Text
pod_name = lit "POD_NAME"

abbrev pub default_docker_registry : Text
default_docker_registry = lit "index.docker.io"

abbrev pub default_cache_expiry_seconds : ℕ
default_cache_expiry_seconds = 30

abbrev pub cache_expiry_seconds_key : Text
cache_expiry_seconds_key = lit "CACHE_EXPIRY_SECONDS"

abbrev pub cache_errors_key : Text
cache_errors_key = lit "CACHE_ERRORS"

abbrev pub empty_auth_registry : Text
empty_auth_registry = lit "EMPTYAUTH"

abbrev pub method_not_allowed : Text
method_not_allowed = lit "Method not allowed."

abbrev pub mutate_mode : Text
mutate_mode = lit "mutate"

abbrev pub validate_mode : Text
validate_mode = lit "insecureValidateOnly"

abbrev pub static_validator : Text
static_validator = lit "static"

abbrev pub cosign_validator : Text
cosign_validator = lit "cosign"

abbrev pub notary_v1_validator : Text
notary_v1_validator = lit "notaryv1"

abbrev pub notation_validator : Text
notation_validator = lit "notation"

abbrev pub notification_result_success : Text
notification_result_success = lit "success"

abbrev pub notification_result_error : Text
notification_result_error = lit "error"

abbrev pub notification_result_skip : Text
notification_result_skip = lit "skip"

abbrev pub notification_result_timeout : Text
notification_result_timeout = lit "timeout"

abbrev pub notification_result_invalid : Text
notification_result_invalid = lit "invalid"

abbrev pub default_notary_host : Text
default_notary_host = lit "notary.docker.io"

abbrev pub default_rekor_host : Text
default_rekor_host = lit "https://rekor.sigstore.dev"

abbrev pub log_level_key : Text
log_level_key = lit "LOG_LEVEL"

abbrev pub log_format_key : Text
log_format_key = lit "LOG_FORMAT"

abbrev pub alert_template_dir : Text
alert_template_dir = lit "/app/alerts/templates"

abbrev pub default_redis_port : ℕ
default_redis_port = 6379

abbrev pub http_timeout_seconds : ℕ
http_timeout_seconds = 30

abbrev pub config_dir : Text
config_dir = lit "/app/config"

abbrev pub cert_dir : Text
cert_dir = lit "/app/certs"

abbrev pub alert_dir : Text
alert_dir = lit "/app/alerts"

abbrev pub redis_cert_dir : Text
redis_cert_dir = lit "/app/redis-certs"
