-- ===== src/Kubernetes/Parents/Owners.antt =====
-- Whose images a workload object may inherit the approval of.
use connaisseur.Prelude.{
  ◌≡◌, refl, sym, subst, inl, inr, Option, none, some, List, [], ◌∷◌, ◌++◌, arith, Text, text_eq,
  text_eq_iff, Bool-cases, In, In-append_cases, Result, ok, err, panic, >>=-eq-ok, ok-injective,
}
use connaisseur.Kubernetes.Workload.{
  OwnerReference, GroupVersionKind, Deserialize, WorkloadObject, new_workload_object_from_bytes,
}
use connaisseur.Kubernetes.Containers.{images}
use connaisseur.Kubernetes.Parents.{
  Resource, Client, or_skip, resource_images, group_version, fetch_kube_resource, parent_images,
  owner_images, owners_images, parent_container_images_from_kube_api,
}

-- The image stands in the workload object of a resource that the API returns for the owner, with the
-- owner's UID.
pub record IsOf (client : Client) (deserialize : Deserialize) (w : WorkloadObject)
    (owner : OwnerReference) (image : Text) : Type 0 where
  pub parent : Resource
  pub parent_object : WorkloadObject
  pub bytes : Text
  pub fetched :
      fetch_kube_resource client
        (group_version owner.api_version).0
        (group_version owner.api_version).1
        owner.kind
        w.namespace
        owner.name
      ≡ ok parent
  pub same_uid : parent.uid ≡ owner.uid
  pub marshalled : parent.marshalled ≡ ok bytes
  pub decoded :
      new_workload_object_from_bytes deserialize bytes parent.gvk w.namespace ≡ ok parent_object
  pub has_image : In image (
      images parent_object.containers
      ++ (images parent_object.init_containers ++ images parent_object.ephemeral_containers))

module _ (client : Client) (deserialize : Deserialize) (w : WorkloadObject) (image : Text) where
  or_skip-image :
      (r : Result WorkloadObject) (these : List Text)
      → or_skip r ≡ ok these
      → In image these
      → (p : WorkloadObject) × (r ≡ ok p)
        × In image
            (images p.containers ++ (images p.init_containers ++ images p.ephemeral_containers))
  or_skip-image (ok p) these h m = (p, refl, subst (In image) (sym (ok-injective h)) m)
  or_skip-image (err e) these h m = absurd (subst (In image) (sym (ok-injective h)) m)
  or_skip-image panic these h m = absurd (ground arith)

  resource_images-image :
      (gvk : GroupVersionKind) (r : Result Text) (these : List Text)
      → resource_images deserialize w gvk r ≡ ok these
      → In image these
      → (bytes : Text) × (r ≡ ok bytes)
        × (or_skip (new_workload_object_from_bytes deserialize bytes gvk w.namespace) ≡ ok these)
  resource_images-image gvk (ok bytes) these h m = (bytes, refl, h)
  resource_images-image gvk (err e) these h m = absurd (subst (In image) (sym (ok-injective h)) m)
  resource_images-image gvk panic these h m = absurd (ground arith)

  parent_images-IsOf :
      (owner : OwnerReference) (r : Result Resource) (these : List Text)
      → fetch_kube_resource client
          (group_version owner.api_version).0
          (group_version owner.api_version).1
          owner.kind
          w.namespace
          owner.name
        ≡ r
      → parent_images deserialize w owner r ≡ ok these
      → In image these
      → IsOf client deserialize w owner image
  parent_images-IsOf owner (err e) these f h m = absurd (subst (In image) (sym (ok-injective h)) m)
  parent_images-IsOf owner panic these f h m = absurd (ground arith)
  parent_images-IsOf owner (ok parent) these f h m =
      elim (Bool-cases (text_eq parent.uid owner.uid)) [
        | inl e ↦
            let (bytes, b, q) =
              resource_images-image parent.gvk parent.marshalled these (rw e at h) m in
            let (p, d, i) = or_skip-image _ these q m in
            record {
              parent = parent;
              parent_object = p;
              bytes = bytes;
              fetched = f;
              same_uid = (text_eq_iff parent.uid owner.uid).0 e;
              marshalled = b;
              decoded = d;
              has_image = i;
            }
        | inr e ↦ absurd (subst (In image) (sym (ok-injective (rw e at h))) m)
      ]

  owners_images-IsOf :
      (owners : List OwnerReference) (found : List Text)
      → owners_images client deserialize w owners ≡ ok found
      → In image found
      → (owner : OwnerReference) × In owner owners × IsOf client deserialize w owner image
  unfolding owners_images
  owners_images-IsOf [] found h m = absurd (subst (In image) (sym (ok-injective h)) m)
  owners_images-IsOf (owner ∷ owners) found h m =
      let (these, a, h1) = >>=-eq-ok (owner_images client deserialize w owner) _ h in
      let (others, b, h2) = >>=-eq-ok (owners_images client deserialize w owners) _ h1 in
      elim (In-append_cases image these others (subst (In image) (sym (ok-injective h2)) m)) [
        | inl i ↦
            (owner, inl refl, parent_images-IsOf owner _ these refl (unfold owner_images in a) i)
        | inr i ↦ let (o, at, is) = owners_images-IsOf owners others b i in (o, inr at, is)
      ]

-- Every image of whose parent's approval a workload object can make use is an image of a resource that
-- the API returns for one of its owner references, and whose UID is the one of the reference.
pub parent_container_images-IsOf :
    (client : Option Client) (deserialize : Deserialize) (w : WorkloadObject) (found : List Text)
    (image : Text)
    → parent_container_images_from_kube_api client deserialize w ≡ ok found
    → In image found
    → (c : Client) × (owner : OwnerReference) × (client ≡ some c)
      × In owner w.owners
      × IsOf c deserialize w owner image
unfolding parent_container_images_from_kube_api
parent_container_images-IsOf none deserialize w found image h m =
    absurd (subst (In image) (sym (ok-injective h)) m)
parent_container_images-IsOf (some c) deserialize w found image h m =
    let (owner, i, is) = owners_images-IsOf c deserialize w image w.owners found h m in
    (c, owner, refl, i, is)
