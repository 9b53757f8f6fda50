-- ===== src/Tests/Samples.antt =====
-- What the runs share: an empty environment, images and rules.
use connaisseur.Prelude.{
  ◌≡◌, Bool, true, false, ◌&&◌, none, some, List, [], ◌∷◌, ◌++◌, arith, Text, lit, trim_suffix,
  contains, ltb, ◌==◌, if◌then◌else◌, All, ok,
}
use connaisseur.Utils.Strings.Prefix.{IsAscii}
use connaisseur.Utils.Feature.{Env}
use connaisseur.Policy.{Rule, no_options}
use connaisseur.Config.{Glob}
use connaisseur.Kubernetes.Workload.{
  Container, ObjectMeta, PodSpec, Object, GroupVersionKind, Deserialize, WorkloadObject,
}
use connaisseur.Kubernetes.Admission.{AdmissionRequest}
use connaisseur.Image.{Reference, ParseReference, Image}

abbrev pub no_env : Env
no_env = λ key. none

unfoldable pub is_ascii : Text → Bool
is_ascii [] = true
is_ascii (c ∷ s) = ltb c 128 && is_ascii s

pub is_ascii-IsAscii : (s : Text) → is_ascii s ≡ true → IsAscii s
unfolding is_ascii
is_ascii-IsAscii [] h = tt
is_ascii-IsAscii (c ∷ s) h = (ground arith, is_ascii-IsAscii s (ground arith))

-- a reference of Docker Hub, with the tag latest
abbrev pub hub_reference : Text → Reference
hub_reference t = record {
  context_name = lit "index.docker.io/" ++ t;
  context_string = lit "index.docker.io/" ++ t;
  registry = lit "index.docker.io";
  identifier = lit "latest";
}

abbrev pub parse_hub : ParseReference
parse_hub t = ok (hub_reference t)

abbrev pub hub_image : Text → Image
hub_image t = record { original = t; ref = hub_reference t; tag = lit "latest"; digest = [] }

abbrev pub rule_for : Text → Text → Rule
rule_for pattern validator = record {
  pattern = pattern;
  validator = validator;
  with_options = no_options;
}

abbrev strip_star : Text → Text
strip_star [] = []
strip_star (c ∷ s) = if c == b'*' then s else c ∷ s

-- a pattern that is a text between stars
abbrev pub substring_glob : Glob
substring_glob pattern = some (λ image. contains image (trim_suffix (strip_star pattern) (lit "*")))

unfoldable pub are_ascii : List Text → Bool
unfolding is_ascii
are_ascii [] = true
are_ascii (s ∷ ss) = is_ascii s && are_ascii ss

pub are_ascii-IsAscii : (ss : List Text) → are_ascii ss ≡ true → All IsAscii ss
unfolding are_ascii
are_ascii-IsAscii [] h = tt
are_ascii-IsAscii (s ∷ ss) h =
    (is_ascii-IsAscii s (ground arith), are_ascii-IsAscii ss (ground arith))

abbrev pub no_meta : ObjectMeta
no_meta = record {
  name = lit "app";
  generate_name = [];
  owner_references = [];
  deletion_timestamp = none;
}

abbrev pub container : Text → Container
container image = record { name = lit "main"; image = image }

abbrev pub pod_spec : PodSpec
pod_spec = record {
  containers = container (lit "nginx") ∷ [];
  init_containers = container (lit "nginx") ∷ [];
  ephemeral_containers = [];
}

abbrev pub pod_kind : GroupVersionKind
pod_kind = record { group = []; version = lit "v1"; kind = lit "Pod" }

-- every text is decoded to the same pod
abbrev pub decode_pod : Deserialize
decode_pod = λ raw gvk. record { object = some (Object.pod no_meta pod_spec); error = none }

abbrev pub the_pod : WorkloadObject
the_pod = record {
  name = lit "app";
  kind = lit "Pod";
  namespace = lit "default";
  containers = pod_spec.containers;
  init_containers = pod_spec.init_containers;
  ephemeral_containers = [];
  owners = [];
  deleted = false;
}

abbrev pub create_request : AdmissionRequest
create_request = record {
  uid = lit "42";
  kind = pod_kind;
  namespace = lit "default";
  operation = lit "CREATE";
  object = lit "pod";
  old_object = [];
}
