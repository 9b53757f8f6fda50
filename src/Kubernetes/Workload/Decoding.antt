-- ===== src/Kubernetes/Workload/Decoding.antt =====
-- What NewWorkloadObjectFromBytes guarantees of the object that it returns.
use connaisseur.Prelude.{
  ◌≡◌, refl, sym, ap, subst, ◌∙◌, ◌↔◌, inl, inr, true, false, ◌&&◌, Option, none, some, List, [],
  ◌∷◌, ◌++◌, arith, Text, lit, text_eq, text_eq_iff, Bool-cases, Option-cases, is_empty, In, ok,
  panic,
}
use mathlib.Core.Option.{some-injective}
use connaisseur.Kubernetes.Workload.{
  true, is_set, Container, ObjectMeta, PodSpec, Object, GroupVersionKind, Deserialize, Kind,
  parse_kind, convert, WorkloadObject, assemble, has_no_containers, or_none, finish, converted,
  new_workload_object_from_bytes,
}

-- The kinds of workloads that Kubernetes has.
abbrev pub known_kinds : List Text
known_kinds =
    lit "Pod"
    ∷ lit "Deployment"
    ∷ lit "ReplicationController"
    ∷ lit "ReplicaSet"
    ∷ lit "DaemonSet"
    ∷ lit "StatefulSet"
    ∷ lit "Job"
    ∷ lit "CronJob"
    ∷ []

parse_kind-known : (t : Text) (k : Kind) → parse_kind t ≡ some k → In t known_kinds
unfolding parse_kind
parse_kind-known t k h = elim (Bool-cases (text_eq t (lit "Pod"))) [
  | inl e ↦ inl ((text_eq_iff t _).0 e)
  | inr e1 ↦ elim (Bool-cases (text_eq t (lit "Deployment"))) [
    | inl e ↦ inr (inl ((text_eq_iff t _).0 e))
    | inr e2 ↦ elim (Bool-cases (text_eq t (lit "ReplicationController"))) [
      | inl e ↦ inr (inr (inl ((text_eq_iff t _).0 e)))
      | inr e3 ↦ elim (Bool-cases (text_eq t (lit "ReplicaSet"))) [
        | inl e ↦ inr (inr (inr (inl ((text_eq_iff t _).0 e))))
        | inr e4 ↦ elim (Bool-cases (text_eq t (lit "DaemonSet"))) [
          | inl e ↦ inr (inr (inr (inr (inl ((text_eq_iff t _).0 e)))))
          | inr e5 ↦ elim (Bool-cases (text_eq t (lit "StatefulSet"))) [
            | inl e ↦ inr (inr (inr (inr (inr (inl ((text_eq_iff t _).0 e))))))
            | inr e6 ↦ elim (Bool-cases (text_eq t (lit "Job"))) [
              | inl e ↦ inr (inr (inr (inr (inr (inr (inl ((text_eq_iff t _).0 e)))))))
              | inr e7 ↦ elim (Bool-cases (text_eq t (lit "CronJob"))) [
                | inl e ↦ inr (inr (inr (inr (inr (inr (inr (inl ((text_eq_iff t _).0 e))))))))
                | inr e8 ↦ absurd (ground (arith, rw (e1, e2, e3, e4, e5, e6, e7, e8) at h))
              ]
            ]
          ]
        ]
      ]
    ]
  ]
]

some_of-containers :
    (a b c : List Container)
    → (is_empty a && is_empty b && is_empty c) ≡ false
    → (x : Container) × In x (a ++ (b ++ c))
some_of-containers (x ∷ a) b c h = (x, inl refl)
some_of-containers [] (x ∷ b) c h = (x, inl refl)
some_of-containers [] [] (x ∷ c) h = (x, inl refl)
some_of-containers [] [] [] h = absurd (ground arith)

has_no_containers-some :
    (w : WorkloadObject)
    → has_no_containers w ≡ false
    → (x : Container) × In x (w.containers ++ (w.init_containers ++ w.ephemeral_containers))
unfolding has_no_containers
has_no_containers-some w h =
    some_of-containers w.containers w.init_containers w.ephemeral_containers h

pub record IsDecoded (deserialize : Deserialize) (raw : Text) (gvk : GroupVersionKind)
    (w : WorkloadObject) : Type 0 where
  pub kind_known : In gvk.kind known_kinds
  pub no_error : (deserialize raw gvk).error ≡ none
  pub kind_kept : w.kind ≡ gvk.kind
  pub object : Object
  pub decoded : (deserialize raw gvk).object ≡ some object
  pub meta : ObjectMeta
  pub spec : PodSpec
  pub converted_to :
      (k : Kind) × (parse_kind gvk.kind ≡ some k) × (convert k object ≡ some (meta, some spec))
  pub containers : w.containers ≡ spec.containers
  pub init_containers : w.init_containers ≡ spec.init_containers
  pub ephemeral_containers :
      gvk.kind ≡ lit "Pod" → w.ephemeral_containers ≡ spec.ephemeral_containers
  pub owners : w.owners ≡ meta.owner_references
  pub marked : (w.deleted ≡ true) ↔ ((t : Text) × (meta.deletion_timestamp ≡ some t))
  pub some_container :
      (c : Container) × In c (w.containers ++ (w.init_containers ++ w.ephemeral_containers))

finish-ok :
    (error : Option Text) (w : WorkloadObject) {w' : WorkloadObject}
    → finish error w ≡ ok w'
    → (error ≡ none) × (w ≡ w') × (has_no_containers w ≡ false)
unfolding finish
finish-ok (some e) w h = ground arith
finish-ok none w h = elim (Bool-cases (has_no_containers w)) [
  | inl e ↦ absurd (ground (arith, e))
  | inr e ↦ (refl, ground (arith, e), e)
]

converted-ok :
    (k : Kind) (gvk : GroupVersionKind) (namespace : Text) (error : Option Text)
    (c : Option (ObjectMeta × Option PodSpec)) {w : WorkloadObject}
    → converted k gvk namespace error c ≡ ok w
    → (m : ObjectMeta) × (s : PodSpec) × (c ≡ some (m, some s))
      × (finish error (assemble k gvk namespace m s) ≡ ok w)
converted-ok k gvk namespace error none h = absurd (ground arith)
converted-ok k gvk namespace error (some (m, none)) h = absurd (ground arith)
converted-ok k gvk namespace error (some (m, some s)) h = (m, s, refl, h)

or_none-some :
    (o : Option Object) (k : Kind) (p : ObjectMeta × Option PodSpec)
    → or_none o k ≡ some p
    → (object : Object) × (o ≡ some object) × (convert k object ≡ some p)
or_none-some none k p h = absurd (ground arith)
or_none-some (some object) k p h = (object, refl, h)

assemble-ephemeral :
    (k : Kind) (gvk : GroupVersionKind) (namespace : Text) (m : ObjectMeta) (s : PodSpec)
    → parse_kind gvk.kind ≡ some k
    → gvk.kind ≡ lit "Pod"
    → (assemble k gvk namespace m s).ephemeral_containers ≡ s.ephemeral_containers
unfolding assemble parse_kind lit text_eq
assemble-ephemeral k gvk namespace m s h e =
    let is_pod : Kind.pod ≡ k = some-injective _ _ (sym (ap parse_kind e) ∙ h) in
    subst (λ x. (assemble x gvk namespace m s).ephemeral_containers ≡ s.ephemeral_containers) is_pod
      refl

is_set_iff : (o : Option Text) → (is_set o ≡ true) ↔ ((t : Text) × (o ≡ some t))
is_set_iff none = (λ h. absurd (ground arith), λ (t, q). absurd (ground arith))
is_set_iff (some t) = (λ h. (t, refl), λ q. refl)

-- A workload object is returned only for a kind that is known and a text that is decoded without an
-- error; it has that kind and namespace, the containers, init containers and owners of what was decoded,
-- and the ephemeral containers of a pod; it is marked as deleted exactly where what was decoded has a time
-- of deletion; and it has at least one container.
pub new_workload_object-IsDecoded :
    (deserialize : Deserialize) (raw : Text) (gvk : GroupVersionKind) (namespace : Text)
    {w : WorkloadObject}
    → new_workload_object_from_bytes deserialize raw gvk namespace ≡ ok w
    → IsDecoded deserialize raw gvk w × (w.namespace ≡ namespace)
unfolding new_workload_object_from_bytes assemble
new_workload_object-IsDecoded deserialize raw gvk namespace {w} h =
    elim (Option-cases (parse_kind gvk.kind)) [
      | inl e ↦ absurd (ground (arith, e))
      | inr (k, e) ↦
          let decoded = deserialize raw gvk in
          let (m, s, c, f) =
            converted-ok k gvk namespace decoded.error (or_none decoded.object k)
              (ground (arith, e)) in
          let (object, its, kind) = or_none-some decoded.object k (m, some s) c in
          let (no_error, same, some_container) =
            finish-ok decoded.error (assemble k gvk namespace m s) f in
          subst (λ w. IsDecoded deserialize raw gvk w × (w.namespace ≡ namespace)) same
            (
              record {
                kind_known = parse_kind-known gvk.kind k e;
                no_error = no_error;
                kind_kept = refl;
                object = object;
                decoded = its;
                meta = m;
                spec = s;
                converted_to = (k, e, kind);
                containers = refl;
                init_containers = refl;
                ephemeral_containers = assemble-ephemeral k gvk namespace m s e;
                owners = refl;
                marked = is_set_iff m.deletion_timestamp;
                some_container =
                    has_no_containers-some (assemble k gvk namespace m s) some_container;
              },
              refl,
            )
    ]

parse_kind-replication_controller :
    (k : Text) → k ≡ lit "ReplicationController" → parse_kind k ≡ some Kind.replication_controller
unfolding parse_kind lit text_eq
parse_kind-replication_controller k e = rw e refl

-- A replication controller that is decoded without a template makes the function panic.
pub new_workload_object-panic :
    (deserialize : Deserialize) (raw : Text) (gvk : GroupVersionKind) (namespace : Text)
    (m : ObjectMeta)
    → gvk.kind ≡ lit "ReplicationController"
    → (deserialize raw gvk).object ≡ some (Object.replication_controller m none)
    → new_workload_object_from_bytes deserialize raw gvk namespace ≡ panic
unfolding new_workload_object_from_bytes convert
new_workload_object-panic deserialize raw gvk namespace m k o =
    ground (arith, o, parse_kind-replication_controller gvk.kind k)
