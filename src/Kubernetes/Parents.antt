-- ===== src/Kubernetes/Parents.antt =====
-- internal/kubernetes/workload_object.go, ParentContainerImagesFromKubeAPI, and kube_api.go. The
-- client of the Kubernetes API is a parameter.
pub mod Owners
use connaisseur.Prelude.{
  not, Option, none, some, List, [], ◌∷◌, ◌++◌, Text, lit, text_eq, split, to_lower, if◌then◌else◌,
  Result, ok, err, panic, ◌>>=◌, map_err,
}
use connaisseur.Kubernetes.Workload.{
  OwnerReference, GroupVersionKind, Deserialize, WorkloadObject, new_workload_object_from_bytes,
}
use connaisseur.Kubernetes.Containers.{images}

-- an unstructured resource: GetUID, GroupVersionKind, MarshalJSON
pub record Resource : Type 0 where
  pub uid : Text
  pub gvk : GroupVersionKind
  pub marshalled : Result Text

-- client.Resource(group, version, resource).Namespace(namespace).Get(name)
abbrev pub Client : Type 0
Client = Text → Text → Text → Text → Text → Result Resource

unfoldable pub fetch_kube_resource : Client → Text → Text → Text → Text → Text → Result Resource
fetch_kube_resource client group version resource namespace name =
    map_err (λ e. lit "error getting resource: " ++ e)
      (client group version (to_lower resource ++ lit "s") namespace name)

-- group and version of an API version
unfoldable pub group_version : Text → Text × Text
group_version api_version = elim (split api_version b'/') [
  | [] ↦ ([], [])
  | v ∷ rest ↦ elim rest [ [] ↦ ([], v) | w ∷ _ ↦ (v, w) ]
]

abbrev or_skip : Result WorkloadObject → Result (List Text)
or_skip (ok w) =
    ok (images w.containers ++ (images w.init_containers ++ images w.ephemeral_containers))
or_skip (err e) = ok []
or_skip panic = panic

abbrev resource_images :
    Deserialize → WorkloadObject → GroupVersionKind → Result Text → Result (List Text)
resource_images deserialize w gvk (ok bytes) =
    or_skip (new_workload_object_from_bytes deserialize bytes gvk w.namespace)
resource_images deserialize w gvk (err e) = ok []
resource_images deserialize w gvk panic = panic

abbrev parent_images :
    Deserialize → WorkloadObject → OwnerReference → Result Resource → Result (List Text)
parent_images deserialize w owner (err e) = ok []
parent_images deserialize w owner panic = panic
parent_images deserialize w owner (ok parent) =
    if not (text_eq parent.uid owner.uid)
    then ok []
    else resource_images deserialize w parent.gvk parent.marshalled

-- one round of the loop; an owner that cannot be used is passed over
unfoldable pub owner_images :
    Client → Deserialize → WorkloadObject → OwnerReference → Result (List Text)
unfolding group_version
owner_images client deserialize w owner =
    let (group, version) = group_version owner.api_version in
    parent_images deserialize w owner
      (fetch_kube_resource client group version owner.kind w.namespace owner.name)

unfoldable pub owners_images :
    Client → Deserialize → WorkloadObject → List OwnerReference → Result (List Text)
owners_images client deserialize w [] = ok []
owners_images client deserialize w (owner ∷ owners) = do
  these ← owner_images client deserialize w owner
  others ← owners_images client deserialize w owners
  ok (these ++ others)

-- the client is missing if the context holds none
unfoldable pub parent_container_images_from_kube_api :
    Option Client → Deserialize → WorkloadObject → Result (List Text)
unfolding owner_images owners_images
parent_container_images_from_kube_api none deserialize w = ok []
parent_container_images_from_kube_api (some client) deserialize w =
    owners_images client deserialize w w.owners
