-- ===== src/Tests/Kubernetes.antt =====
-- The decoding of a pod and of a replication controller, and the images of a parent.
use connaisseur.Prelude.{
  ◌≡◌, refl, ◌≢◌, ◌⊎◌, inl, none, some, List, [], ◌∷◌, Text, lit, text_eq, split, In, ok, panic,
}
use connaisseur.Kubernetes.Workload.{
  OwnerReference, Object, GroupVersionKind, Deserialize, WorkloadObject,
  new_workload_object_from_bytes,
}
use connaisseur.Kubernetes.Workload.Decoding.{
  IsDecoded, new_workload_object-IsDecoded, new_workload_object-panic,
}
use connaisseur.Kubernetes.Containers.{consolidated_containers}
use connaisseur.Kubernetes.Containers.Places.{get, places, get-consolidated_containers}
use connaisseur.Kubernetes.Parents.{Client, parent_container_images_from_kube_api}
use connaisseur.Kubernetes.Parents.Owners.{IsOf, parent_container_images-IsOf}
use connaisseur.Kubernetes.Admission.{
  AdmissionRequestObjects, no_object, new_admission_request_objects,
  new_admission_request_objects-objects,
}
use connaisseur.Tests.Samples.{no_meta, pod_kind, decode_pod, the_pod, create_request}

new_workload_object_example :
    IsDecoded decode_pod (lit "pod") pod_kind the_pod × (the_pod.namespace ≡ lit "default")
unfolding new_workload_object_from_bytes lit text_eq connaisseur.Kubernetes.Workload.parse_kind
    connaisseur.Kubernetes.Workload.convert connaisseur.Kubernetes.Workload.finish
    connaisseur.Kubernetes.Workload.has_no_containers connaisseur.Kubernetes.Workload.assemble
new_workload_object_example =
    new_workload_object-IsDecoded decode_pod (lit "pod") pod_kind (lit "default") {w = the_pod} refl

abbrev controller_kind : GroupVersionKind
controller_kind = record { group = []; version = lit "v1"; kind = lit "ReplicationController" }

abbrev decode_controller : Deserialize
decode_controller =
    λ raw gvk. record { object = some (Object.replication_controller no_meta none); error = none }

controller_example :
    new_workload_object_from_bytes decode_controller (lit "rc") controller_kind (lit "default")
    ≡ panic
controller_example =
    new_workload_object-panic decode_controller (lit "rc") controller_kind (lit "default") no_meta
      refl refl

places_example : get (consolidated_containers the_pod) (lit "nginx") ≡ places the_pod (lit "nginx")
places_example = get-consolidated_containers the_pod (lit "nginx")

places_run :
    get (consolidated_containers the_pod) (lit "nginx")
    ≡ record { index = 0; type = lit "containers" }
      ∷ record { index = 0; type = lit "initContainers" }
      ∷ []
unfolding consolidated_containers lit text_eq
places_run = refl

abbrev owner : OwnerReference
owner = record { api_version = lit "v1"; kind = lit "Pod"; name = lit "parent"; uid = lit "7" }

abbrev owned : WorkloadObject
owned = record the_pod { owners = owner ∷ [] }

-- the same resource for every name
abbrev one_resource : Client
one_resource = λ group version resource namespace name.
    ok (record { uid = lit "7"; gvk = pod_kind; marshalled = ok (lit "pod") })

abbrev parents_found : List Text
parents_found = lit "nginx" ∷ lit "nginx" ∷ []

parents_example :
    (c : Client) × (o : OwnerReference) × (some one_resource ≡ some c)
    × In o owned.owners
    × IsOf c decode_pod owned o (lit "nginx")
unfolding parent_container_images_from_kube_api new_workload_object_from_bytes lit text_eq split
    connaisseur.Kubernetes.Parents.fetch_kube_resource connaisseur.Kubernetes.Workload.parse_kind
    connaisseur.Kubernetes.Workload.convert connaisseur.Kubernetes.Workload.finish
    connaisseur.Kubernetes.Workload.has_no_containers connaisseur.Kubernetes.Workload.assemble
parents_example =
    parent_container_images-IsOf (some one_resource) decode_pod owned parents_found (lit "nginx")
      refl (inl refl)

abbrev decoded_objects : AdmissionRequestObjects
decoded_objects = record {
  new_obj = the_pod;
  old_obj = no_object;
  kind = lit "Pod";
  namespace = lit "default";
  operation = lit "CREATE";
}

objects_example :
    (new_workload_object_from_bytes decode_pod create_request.object create_request.kind
        create_request.namespace
      ≡ ok decoded_objects.new_obj)
    × (((create_request.operation ≡ lit "UPDATE")
          × (new_workload_object_from_bytes decode_pod create_request.old_object create_request.kind
                create_request.namespace
              ≡ ok decoded_objects.old_obj))
        ⊎ ((create_request.operation ≢ lit "UPDATE") × (decoded_objects.old_obj ≡ no_object)))
unfolding new_admission_request_objects new_workload_object_from_bytes lit text_eq
    connaisseur.Kubernetes.Workload.parse_kind connaisseur.Kubernetes.Workload.convert
    connaisseur.Kubernetes.Workload.finish connaisseur.Kubernetes.Workload.has_no_containers
    connaisseur.Kubernetes.Workload.assemble
objects_example =
    new_admission_request_objects-objects decode_pod create_request decoded_objects refl
