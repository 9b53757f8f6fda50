-- ===== src/Kubernetes/Containers.antt =====
-- internal/kubernetes/workload_object.go: the containers of a workload object by their images, and
-- the path of a container. A Go map is the list of its entries in the order of insertion.
pub mod Places
use connaisseur.Prelude.{
  ℕ, suc, List, [], ◌∷◌, ◌++◌, map, Text, lit, text_eq, index, decimal, if◌then◌else◌,
}
use connaisseur.Utils.Lists.{keys_from}
use connaisseur.Kubernetes.Workload.{Container, WorkloadObject}

pub record IdxType : Type 0 where
  pub index : ℕ
  pub type : Text

abbrev pub ImageMap : Type 0
ImageMap = List (Text × List IdxType)

-- the entry of an image, appended to the list that is there
unfoldable pub add_entry : ImageMap → Text → IdxType → ImageMap
add_entry [] image new_entry = (image, new_entry ∷ []) ∷ []
add_entry ((k, es) ∷ m) image new_entry =
    if text_eq k image then (k, es ++ new_entry ∷ []) ∷ m else (k, es) ∷ add_entry m image new_entry

-- `for idx, container := range containerList`
pub add_containers : ImageMap → Text → ℕ → List Container → ImageMap
unfolding add_entry
add_containers m type idx [] = m
add_containers m type idx (c ∷ cs) =
    add_containers (add_entry m c.image (record { index = idx; type = type })) type (suc idx) cs

unfoldable pub consolidated_containers : WorkloadObject → ImageMap
unfolding add_containers
consolidated_containers w =
    let m = add_containers [] (lit "containers") 0 w.containers in
    let m' = add_containers m (lit "initContainers") 0 w.init_containers in
    add_containers m' (lit "ephemeralContainers") 0 w.ephemeral_containers

abbrev pub images : List Container → List Text
images = map (λ c. c.image)

unfoldable pub image_set : WorkloadObject → List Text
unfolding keys_from
image_set w =
    keys_from (keys_from (keys_from [] (images w.containers)) (images w.init_containers))
      (images w.ephemeral_containers)

abbrev path_of : Text → IdxType → Text
path_of prefix e = prefix ++ (e.type ++ (lit "/" ++ (decimal e.index ++ lit "/image")))

-- ContainerPathFormatString, with the type and the index put in
unfoldable pub container_path : WorkloadObject → IdxType → Text
container_path w e =
    if text_eq w.kind (lit "Pod")
    then path_of (lit "/spec/") e
    else if text_eq w.kind (lit "CronJob")
    then path_of (lit "/spec/jobTemplate/spec/template/spec/") e
    else path_of (lit "/spec/template/spec/") e
