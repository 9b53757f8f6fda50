-- ===== src/Handler/Mutate/Decision.antt =====
-- What the handler answers, given the review and the notifications.
use connaisseur.Prelude.{
  ◌≡◌, refl, ap, ◌∙◌, inl, inr, Bool, true, false, not, ◌&&◌, ◌||◌, Option, none, some, [], ◌∷◌,
  arith, Text, lit, text_eq, if◌then◌else◌, Bool-cases, Result, ok, ◌>>=◌,
}
use connaisseur.Constants.{detection_mode}
use connaisseur.Utils.Feature.{Env, feature_flag_on, block_all_resources}
use connaisseur.Handler.Review.{AdmissionResponse}
use connaisseur.Handler.Review.Patches.{IsExplained}
use connaisseur.Handler.Mutate.{after_alerts, warned, validate_pods_only, detect, final_response}

-- the resource validation mode leaves the kind alone
abbrev pub is_exempt : Env → Text → Bool
is_exempt env kind = not (text_eq kind (lit "Pod")) && not (block_all_resources env)

abbrev is_sent : Option Text → Bool
is_sent none = true
is_sent (some e) = false

-- What the final response is, by the review's response and the error of the notifications.
pub record IsDecision (env : Env) (kind : Text) (alert_error : Option Text)
    (r final : AdmissionResponse) : Type 0 where
  pub allows : final.allowed ≡ (
      ((r.allowed && is_sent alert_error) || is_exempt env kind)
      || feature_flag_on env detection_mode)
  pub keeps_uid : final.uid ≡ r.uid
  pub patches : final.patch ≡ (if is_exempt env kind then none else r.patch)

after_alerts-IsExplained :
    (e : Option Text) (r : AdmissionResponse)
    → IsExplained r
    → IsExplained (after_alerts e r)
      × ((after_alerts e r).allowed ≡ (r.allowed && is_sent e))
      × ((after_alerts e r).uid ≡ r.uid)
      × ((after_alerts e r).patch ≡ r.patch)
unfolding after_alerts
after_alerts-IsExplained none r h = (h, ground arith, refl, refl)
after_alerts-IsExplained (some e) r h = (inr (_, refl), ground arith, refl, refl)

-- One stage: it returns, says why it denies, and allows where the stage before or the flag does.
record IsStage (flag : Bool) (patch : Option Text) (r : AdmissionResponse)
    (out : Result AdmissionResponse) : Type 0 where
  after : AdmissionResponse
  returned : out ≡ ok after
  explained : IsExplained after
  allows : after.allowed ≡ (r.allowed || flag)
  keeps_uid : after.uid ≡ r.uid
  patches : after.patch ≡ patch

abbrev cleared : AdmissionResponse → Result AdmissionResponse
cleared r = ok (record r { allowed = true; patch = none; has_patch_type = false })

exempt-IsStage :
    (b : Bool) (r : AdmissionResponse)
    → IsExplained r
    → IsStage b (if b then none else r.patch) r (
        if b
        then ((if not r.allowed then warned "pod-only validation active" r else ok r) >>= cleared)
        else ok r)
exempt-IsStage false r h = record {
  after = r;
  returned = refl;
  explained = h;
  allows = ground arith;
  keeps_uid = refl;
  patches = refl;
}
exempt-IsStage true r (inl a) = record {
  after = record r { allowed = true; patch = none; has_patch_type = false };
  returned = rw a refl;
  explained = inl refl;
  allows = ground arith;
  keeps_uid = refl;
  patches = refl;
}
exempt-IsStage true r (inr (m, e)) = elim (Bool-cases r.allowed) [
  | inl a ↦ record {
    after = record r { allowed = true; patch = none; has_patch_type = false };
    returned = rw a refl;
    explained = inl refl;
    allows = ground arith;
    keeps_uid = refl;
    patches = refl;
  }
  | inr a ↦ record {
    after = record r {
      allowed = true;
      patch = none;
      has_patch_type = false;
      warnings = lit "pod-only validation active" ∷ m ∷ [];
    };
    returned = rw (a, e) refl;
    explained = inl refl;
    allows = ground arith;
    keeps_uid = refl;
    patches = refl;
  }
]

detected-IsStage :
    (b : Bool) (r : AdmissionResponse)
    → IsExplained r
    → IsStage b r.patch r (
        if b && not r.allowed
        then (warned "detection mode active" r >>= λ r'. ok (record r' { allowed = true }))
        else ok r)
detected-IsStage false r h = record {
  after = r;
  returned = refl;
  explained = h;
  allows = ground arith;
  keeps_uid = refl;
  patches = refl;
}
detected-IsStage true r (inl a) = record {
  after = r;
  returned = rw a refl;
  explained = inl a;
  allows = ground arith;
  keeps_uid = refl;
  patches = refl;
}
detected-IsStage true r (inr (m, e)) = elim (Bool-cases r.allowed) [
  | inl a ↦ record {
    after = r;
    returned = rw a refl;
    explained = inl a;
    allows = ground arith;
    keeps_uid = refl;
    patches = refl;
  }
  | inr a ↦ record {
    after = record r { allowed = true; warnings = lit "detection mode active" ∷ m ∷ [] };
    returned = rw (a, e) refl;
    explained = inl refl;
    allows = ground arith;
    keeps_uid = refl;
    patches = refl;
  }
]

-- If the review's response says why it denies, where it does, the handler's final response exists. It
-- allows exactly where the review allows and the notifications had no error, or the kind is exempt (not
-- a pod, in the pods-only mode), or the detection mode is on. It keeps the UID, and it keeps the review's
-- patch but for an exempt kind, which has none.
pub final_response-IsDecision :
    (env : Env) (kind : Text) (alert_error : Option Text) (r : AdmissionResponse)
    → IsExplained r
    → (final : AdmissionResponse) × (final_response env kind alert_error r ≡ ok final)
      × IsDecision env kind alert_error r final
unfolding final_response validate_pods_only detect
final_response-IsDecision env kind alert_error r h =
    let (explained, allows, uid, patch) = after_alerts-IsExplained alert_error r h in
    let r1 = after_alerts alert_error r in
    let s = exempt-IsStage (is_exempt env kind) r1 explained in
    let t = detected-IsStage (feature_flag_on env detection_mode) s.after s.explained in
    (
      t.after,
      ap (λ x. x >>= λ r'. detect env r') s.returned ∙ t.returned,
      record {
        allows =
            t.allows
            ∙ ap (λ x. x || feature_flag_on env detection_mode)
                (s.allows ∙ ap (λ x. x || is_exempt env kind) allows);
        keeps_uid = t.keeps_uid ∙ (s.keeps_uid ∙ uid);
        patches = t.patches ∙ (s.patches ∙ ap (λ x. if is_exempt env kind then none else x) patch);
      },
    )
