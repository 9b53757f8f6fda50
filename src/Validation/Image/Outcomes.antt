-- ===== src/Validation/Image/Outcomes.antt =====
-- What an output of ValidateImage without an error means.
use connaisseur.Prelude.{
  ◌≡◌, refl, sym, ap, subst, ◌∙◌, false, Option, none, some, List, arith, Text, Result, ok, err,
  panic, >>=-eq-ok, ok-injective,
}
use mathlib.Core.Option.{some-injective}
use connaisseur.Image
use connaisseur.Image.{Image, ParseReference}
use connaisseur.Validation.Image.{
  ValidationInput, ValidationOutput, Metric, Locals, Setup, run, settle, checked, check_reference,
  output_of, validate,
}
use connaisseur.Validation.Image.Accepted.{IsAccepted, run-IsAccepted}

-- the fields of an output that come from the variables
abbrev pub IsSentFrom : ValidationInput → ValidationOutput → Locals → Type 0
IsSentFrom input o l =
    (o.idxs_types ≡ input.idxs_types)
    × (o.raw_image ≡ input.image)
    × (o.new_image ≡ l.new_img)
    × (o.old_image ≡ l.old_img)
    × (o.skipped ≡ l.skipped)
    × (o.validation_mode ≡ l.validation_mode)

check_reference-none :
    (l : Locals) (r : Result Image) → check_reference l r ≡ ok none → (i : Image) × (r ≡ ok i)
check_reference-none l (ok i) h = (i, refl)
check_reference-none l (err e) h = absurd (cc (ok-injective h))
check_reference-none l panic h = absurd (ground arith)

checked-none :
    (parse : ParseReference) (l : Locals) (e : Option Text)
    → checked parse l e ≡ ok none
    → (e ≡ none) × (i : Image) × (Image.new parse l.new_img ≡ ok i)
checked-none parse l (some e) h = absurd (cc (ok-injective h))
checked-none parse l none h = let (i, p) = check_reference-none l _ h in (refl, i, p)

settle-sent :
    (parse : ParseReference) (input : ValidationInput) (l : Locals) (o : ValidationOutput)
    (ms : List Metric)
    → settle parse false input l ≡ ok (some o, ms)
    → o.error ≡ none
    → (l.err_out ≡ none) × (i : Image) × (Image.new parse l.new_img ≡ ok i) × IsSentFrom input o l
unfolding settle
settle-sent parse input l o ms h e =
    let (e', a, b) = >>=-eq-ok (checked parse l l.err_out) _ h in
    let same : output_of input l e' ≡ o = some-injective _ _ (ap (λ p. p.0) (ok-injective b)) in
    let none_left : e' ≡ none = ap (λ (q : ValidationOutput). q.error) same ∙ e in
    let (clean, i, p) = checked-none parse l l.err_out (a ∙ ap ok none_left) in
    (clean, i, p, subst (λ q. IsSentFrom input q l) same (refl, refl, refl, refl, refl, refl))

-- An output without an error is sent, before the deadline, only for an image that is accepted: its
-- reference parses, the output's places and old and new image are those of the accepted validation,
-- and the new image is again a valid reference.
pub validate-IsAccepted :
    (setup : Setup) (input : ValidationInput) (st st' : setup.cache.State) (o : ValidationOutput)
    (ms : List Metric)
    → validate setup false input st ≡ ok ((some o, ms), st')
    → o.error ≡ none
    → (l : Locals) × IsAccepted setup input st l
      × IsSentFrom input o l
      × (i : Image) × (Image.new setup.parse o.new_image ≡ ok i)
unfolding validate
validate-IsAccepted setup input st st' o ms h e =
    let (ran, a, h1) = >>=-eq-ok (run setup input st) _ h in
    let (sent, b, h2) = >>=-eq-ok (settle setup.parse false input ran.0) _ h1 in
    let same : sent ≡ (some o, ms) = ap (λ p. p.0) (ok-injective h2) in
    let (clean, i, p, from) = settle-sent setup.parse input ran.0 o ms (b ∙ ap ok same) e in
    (
      ran.0,
      run-IsAccepted setup input st ran.0 ran.1 a clean,
      from,
      i,
      subst (λ t. Image.new setup.parse t ≡ ok i) (sym from.2) p,
    )
