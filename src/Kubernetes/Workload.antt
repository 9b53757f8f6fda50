-- ===== src/Kubernetes/Workload.antt =====
-- internal/kubernetes/workload_object.go, NewWorkloadObjectFromBytes, and deserializer.go. The decoder
-- of Kubernetes is a library's, and a parameter here.
pub mod Decoding
use connaisseur.Prelude.{
  String, Bool, true, false, ◌&&◌, Option, none, some, List, [], ◌∷◌, ◌++◌, Text, lit, text_eq,
  if◌then◌else◌, is_empty, Result, ok, err, panic,
}

pub record Container : Type 0 where
  pub name : Text
  pub image : Text

pub record OwnerReference : Type 0 where
  pub api_version : Text
  pub kind : Text
  pub name : Text
  pub uid : Text

pub record ObjectMeta : Type 0 where
  pub name : Text
  pub generate_name : Text
  pub owner_references : List OwnerReference
  pub deletion_timestamp : Option Text

pub record PodSpec : Type 0 where
  pub containers : List Container
  pub init_containers : List Container
  pub ephemeral_containers : List Container

-- a runtime.Object, of the kinds that the program knows; the template of a replication controller is
-- a pointer and may be nil
pub data Object : Type 0 where
  pod deployment replica_set daemon_set stateful_set job cron_job : ObjectMeta → PodSpec → Object
  replication_controller : ObjectMeta → Option PodSpec → Object

pub record GroupVersionKind : Type 0 where
  pub group : Text
  pub version : Text
  pub kind : Text

-- Deserialize: the decoder returns an object and an error, either of which may be nil
pub record Decoded : Type 0 where
  pub object : Option Object
  pub error : Option Text

abbrev pub Deserialize : Type 0
Deserialize = Text → GroupVersionKind → Decoded

pub data Kind : Type 0 where
  pod deployment replica_set daemon_set stateful_set job cron_job replication_controller : Kind

-- the labels of the switch
unfoldable pub parse_kind : Text → Option Kind
parse_kind k =
    if text_eq k (lit "Pod")
    then some Kind.pod
    else if text_eq k (lit "Deployment")
    then some Kind.deployment
    else if text_eq k (lit "ReplicationController")
    then some Kind.replication_controller
    else if text_eq k (lit "ReplicaSet")
    then some Kind.replica_set
    else if text_eq k (lit "DaemonSet")
    then some Kind.daemon_set
    else if text_eq k (lit "StatefulSet")
    then some Kind.stateful_set
    else if text_eq k (lit "Job")
    then some Kind.job
    else if text_eq k (lit "CronJob")
    then some Kind.cron_job
    else none

-- obj.(*core.Pod) and the like: the metadata and the pointer to the pod's specification
unfoldable pub convert : Kind → Object → Option (ObjectMeta × Option PodSpec)
convert Kind.pod (Object.pod m s) = some (m, some s)
convert Kind.deployment (Object.deployment m s) = some (m, some s)
convert Kind.replica_set (Object.replica_set m s) = some (m, some s)
convert Kind.daemon_set (Object.daemon_set m s) = some (m, some s)
convert Kind.stateful_set (Object.stateful_set m s) = some (m, some s)
convert Kind.job (Object.job m s) = some (m, some s)
convert Kind.cron_job (Object.cron_job m s) = some (m, some s)
convert Kind.replication_controller (Object.replication_controller m s) = some (m, s)
convert _ _ = none

pub record WorkloadObject : Type 0 where
  pub name : Text
  pub kind : Text
  pub namespace : Text
  pub containers : List Container
  pub init_containers : List Container
  pub ephemeral_containers : List Container
  pub owners : List OwnerReference
  pub deleted : Bool

abbrev pub is_set : Option Text → Bool
is_set none = false
is_set (some t) = true

-- only a pod has a generated name and ephemeral containers
abbrev object_name : Kind → ObjectMeta → Text
object_name Kind.pod m = if is_empty m.name then m.generate_name else m.name
object_name _ m = m.name

abbrev ephemeral_of : Kind → PodSpec → List Container
ephemeral_of Kind.pod s = s.ephemeral_containers
ephemeral_of _ s = []

unfoldable pub assemble : Kind → GroupVersionKind → Text → ObjectMeta → PodSpec → WorkloadObject
assemble k gvk namespace m s = record {
  name = object_name k m;
  kind = gvk.kind;
  namespace = namespace;
  containers = s.containers;
  init_containers = s.init_containers;
  ephemeral_containers = ephemeral_of k s;
  owners = m.owner_references;
  deleted = is_set m.deletion_timestamp;
}

unfoldable pub has_no_containers : WorkloadObject → Bool
has_no_containers w =
    is_empty w.containers && is_empty w.init_containers && is_empty w.ephemeral_containers

abbrev quoted : String → Text → Text
quoted before s = lit before ++ (34 ∷ s ++ 34 ∷ [])

abbrev convert_error : Text → Text
convert_error k = quoted "deserialize conversion to " k ++ lit " has failed"

abbrev or_none : Option Object → Kind → Option (ObjectMeta × Option PodSpec)
or_none none k = none
or_none (some o) k = convert k o

-- after the switch: first the decoder's error, then the test for containers
unfoldable pub finish : Option Text → WorkloadObject → Result WorkloadObject
finish (some e) w = err e
finish none w =
    if has_no_containers w then err (lit "no containers found in workload object") else ok w

abbrev converted :
    Kind
    → GroupVersionKind
    → Text
    → Option Text
    → Option (ObjectMeta × Option PodSpec)
    → Result WorkloadObject
converted k gvk namespace error none = err (convert_error gvk.kind)
converted k gvk namespace error (some (m, none)) = panic
converted k gvk namespace error (some (m, some s)) = finish error (assemble k gvk namespace m s)

unfoldable pub new_workload_object_from_bytes :
    Deserialize → Text → GroupVersionKind → Text → Result WorkloadObject
new_workload_object_from_bytes deserialize raw gvk namespace = elim (parse_kind gvk.kind) [
  | none ↦ err (quoted "unknown workload kind " gvk.kind)
  | some k ↦
      let decoded = deserialize raw gvk in
      converted k gvk namespace decoded.error (or_none decoded.object k)
]
