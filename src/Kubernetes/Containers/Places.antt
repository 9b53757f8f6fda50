-- ===== src/Kubernetes/Containers/Places.antt =====
-- The consolidated map holds, for each image, the places of the containers that have it.
use connaisseur.Prelude.{
  ℕ, suc, ◌≡◌, refl, sym, ap, subst, ◌∙◌, inl, inr, List, [], ◌∷◌, ◌++◌, map, arith, Text, lit,
  text_eq, text_eq_iff, text_eq_refl, if◌then◌else◌, Bool-cases, In, In-append_left,
  In-append_right, In-append_cases,
}
use mathlib.Core.List.{append-nil, append_assoc}
use connaisseur.Utils.Lists.{keys_from}
use connaisseur.Utils.Lists.Subtract.{keys_from_In}
use connaisseur.Kubernetes.Workload.{Container, WorkloadObject}
use connaisseur.Kubernetes.Containers.{
  IdxType, ImageMap, images, image_set, add_entry, add_containers, consolidated_containers,
}

-- the entry of a map, empty where it has none
abbrev pub get : ImageMap → Text → List IdxType
get [] image = []
get ((k, es) ∷ m) image = let later = get m image in if text_eq k image then es else later

-- The places of the containers of a list that have the image, in their order.
abbrev pub places_in : Text → ℕ → List Container → Text → List IdxType
places_in type idx [] image = []
places_in type idx (c ∷ cs) image =
    let later = places_in type (suc idx) cs image in
    if text_eq c.image image then record { index = idx; type = type } ∷ later else later

abbrev pub places : WorkloadObject → Text → List IdxType
places w image =
    places_in (lit "containers") 0 w.containers image
    ++ (places_in (lit "initContainers") 0 w.init_containers image
        ++ places_in (lit "ephemeralContainers") 0 w.ephemeral_containers image)

get-add_entry :
    (m : ImageMap) (k : Text) (e : IdxType) (j : Text)
    → get (add_entry m k e) j ≡ (if text_eq k j then get m j ++ e ∷ [] else get m j)
unfolding add_entry
get-add_entry [] k e j = ground arith
get-add_entry ((i, es) ∷ m) k e j =
    ground (arith, get-add_entry m k e j, text_eq_iff i k, text_eq_iff i j, text_eq_iff k j)

get-add_containers :
    (m : ImageMap) (type : Text) (idx : ℕ) (cs : List Container) (j : Text)
    → get (add_containers m type idx cs) j ≡ get m j ++ places_in type idx cs j
unfolding add_containers
get-add_containers m type idx [] j = sym (append-nil (get m j))
get-add_containers m type idx (c ∷ cs) j =
    let e : IdxType = record { index = idx; type = type } in
    get-add_containers (add_entry m c.image e) type (suc idx) cs j
    ∙ rw (get-add_entry m c.image e j) (elim (Bool-cases (text_eq c.image j)) [
      | inl h ↦ rw h (append_assoc (get m j) (e ∷ []) _)
      | inr h ↦ rw h refl
    ])

-- For every image the consolidated map gives the places of exactly the containers with that image:
-- first of the containers, then of the init containers and the ephemeral ones, each in order.
pub get-consolidated_containers :
    (w : WorkloadObject) (image : Text) → get (consolidated_containers w) image ≡ places w image
unfolding consolidated_containers
get-consolidated_containers w image = simp (get-add_containers, append_assoc)

abbrev pub IsKey : Text → ImageMap → Type 0
IsKey image m = In image (map (λ e. e.0) m)

In-get : (m : ImageMap) (image : Text) (e : IdxType) → In e (get m image) → IsKey image m
In-get [] image e h = absurd h
In-get ((k, es) ∷ m) image e h = elim (Bool-cases (text_eq k image)) [
  | inl q ↦ inl (sym ((text_eq_iff k image).0 q))
  | inr q ↦ inr (In-get m image e (rw q at h))
]

abbrev pub all_containers : WorkloadObject → List Container
all_containers w = w.containers ++ (w.init_containers ++ w.ephemeral_containers)

In-images :
    (cs : List Container) (i : Text) → In i (images cs) → (c : Container) × In c cs × (c.image ≡ i)
In-images [] i m = absurd m
In-images (c ∷ cs) i (inl e) = (c, inl refl, sym e)
In-images (c ∷ cs) i (inr m) = let (d, n, e) = In-images cs i m in (d, inr n, e)

-- The image set of an object has the images of its containers only.
pub image_set-In :
    (w : WorkloadObject) (i : Text)
    → In i (image_set w)
    → (c : Container) × In c (all_containers w) × (c.image ≡ i)
unfolding image_set
image_set-In w i m =
    let first = keys_from [] (images w.containers) in
    let second = keys_from first (images w.init_containers) in
    elim (keys_from_In second (images w.ephemeral_containers) i m) [
      | inr a ↦
          let (c, n, e) = In-images w.ephemeral_containers i a in
          (c, In-append_right c w.containers _ (In-append_right c w.init_containers _ n), e)
      | inl b ↦ elim (keys_from_In first (images w.init_containers) i b) [
        | inr a ↦
            let (c, n, e) = In-images w.init_containers i a in
            (c, In-append_right c w.containers _ (In-append_left c w.init_containers _ n), e)
        | inl d ↦ elim (keys_from_In [] (images w.containers) i d) [
          | inr a ↦
              let (c, n, e) = In-images w.containers i a in
              (c, In-append_left c w.containers _ n, e)
          | inl none_there ↦ absurd none_there
        ]
      ]
    ]

In-places_in :
    (type : Text) (idx : ℕ) (cs : List Container) (c : Container)
    → In c cs
    → (e : IdxType) × In e (places_in type idx cs c.image)
In-places_in type idx [] c h = absurd h
In-places_in type idx (d ∷ cs) c h = elim (Bool-cases (text_eq d.image c.image)) [
  | inl q ↦ (record { index = idx; type = type }, rw q (inl refl))
  | inr q ↦ elim h [
    | inl same ↦
        absurd (cc (q, text_eq_refl c.image, ap (λ (x : Container). text_eq x.image c.image) same))
    | inr m ↦ rw q (In-places_in type (suc idx) cs c m)
  ]
]

-- The image of every container is a key of the consolidated map.
pub IsKey-consolidated :
    (w : WorkloadObject) (c : Container)
    → In c (all_containers w)
    → IsKey c.image (consolidated_containers w)
IsKey-consolidated w c h =
    let (e, m) = place h in
    In-get (consolidated_containers w) c.image e
      (subst (In e) (sym (get-consolidated_containers w c.image)) m)
  where
    place : In c (all_containers w) → (e : IdxType) × In e (places w c.image)
    place h = elim (In-append_cases c w.containers _ h) [
      | inl a ↦
          let (e, m) = In-places_in (lit "containers") 0 w.containers c a in
          (e, In-append_left e _ _ m)
      | inr b ↦ elim (In-append_cases c w.init_containers _ b) [
        | inl a ↦
            let (e, m) = In-places_in (lit "initContainers") 0 w.init_containers c a in
            (
              e,
              In-append_right e (places_in (lit "containers") 0 w.containers c.image) _
                  (In-append_left e _ _ m),
            )
        | inr a ↦
            let (e, m) = In-places_in (lit "ephemeralContainers") 0 w.ephemeral_containers c a in
            (
              e,
              In-append_right e (places_in (lit "containers") 0 w.containers c.image) _ (
                  In-append_right e (places_in (lit "initContainers") 0 w.init_containers c.image) _
                    m),
            )
      ]
    ]
