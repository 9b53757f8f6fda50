-- ===== src/Config/Matching.antt =====
-- `matching_rule` returns the most specific of the rules that match.
use connaisseur.Prelude.{
  ℕ, ◌≡◌, refl, sym, ap, subst, ◌⊎◌, inl, inr, true, false, List, [], ◌∷◌, ◌++◌, Text, Bool-cases,
  is_empty, All, In, In-append_right, All-In, ok, err, panic,
}
use connaisseur.Utils.Strings.{text_le}
use connaisseur.Utils.Strings.Sorting.{text_le_trans, text_le_total}
use connaisseur.Policy.{Rule, Match, new_match}
use connaisseur.Policy.Order.{key, IsMatch, compare-key}
use connaisseur.Policy.Build.{Fits, new_match-Fits, start_match, start_least}
use connaisseur.Config.{Glob, matches, consider, best_of, matching_rule, no_matching_rule}

-- What a rule's match looks at, in the order in which the comparison looks.
abbrev pub specificity : Text → Rule → List ℕ
specificity image rule = elim (new_match rule image) [ ok m ↦ key m | err _ ↦ [] | panic ↦ [] ]

abbrev pub Matched : Glob → Text → Rule → Type 0
Matched glob image rule = matches glob rule image ≡ ok true

specificity-key :
    (image : Text) (rule : Rule) (m : Match)
    → new_match rule image ≡ ok m
    → specificity image rule ≡ key m
specificity-key image rule m e = rw (e, specificity) refl

-- The pattern compiles, is not empty, and fits an image that it matches.
pub record IsUsable (glob : Glob) (image : Text) (rule : Rule) : Type 0 where
  pub compiles : (matches glob rule image ≡ ok true) ⊎ (matches glob rule image ≡ ok false)
  pub not_empty : is_empty rule.pattern ≡ false
  pub fits : Matched glob image rule → Fits rule.pattern image

module _ (glob : Glob) (image : Text) where
  abbrev AtMost : List ℕ → List Rule → Type 0
  AtMost k = All (λ r. Matched glob image r → text_le (specificity image r) k ≡ true)

  abbrev Below : List ℕ → List Rule → Type 0
  Below k = All (λ r. Matched glob image r → text_le k (specificity image r) ≡ false)

  -- A match of the list won against the others and against the match before.
  record IsTaken (rules : List Rule) (best m : Match) : Type 0 where
    before : List Rule
    rule : Rule
    after : List Rule
    parts : rules ≡ before ++ rule ∷ after
    matched : Matched glob image rule
    its_match : new_match rule image ≡ ok m
    is_rule : m.rule ≡ rule
    at_most : AtMost (key m) before
    below : Below (key m) after
    beats : text_le (key best) (key m) ≡ true

  abbrev Chosen : List Rule → Match → Match → Type 0
  Chosen rules best m = ((m ≡ best) × Below (key best) rules) ⊎ IsTaken rules best m

  Chosen-skip :
      (r : Rule) (rules : List Rule) (best m : Match)
      → (Matched glob image r → text_le (key best) (specificity image r) ≡ false)
      → Chosen rules best m
      → Chosen (r ∷ rules) best m
  Chosen-skip r rules best m lost (inl (e, b)) = inl (e, (lost, b))
  Chosen-skip r rules best m lost (inr t) = inr (record {
    before = r ∷ t.before;
    rule = t.rule;
    after = t.after;
    parts = ap (λ rs. r ∷ rs) t.parts;
    matched = t.matched;
    its_match = t.its_match;
    is_rule = t.is_rule;
    below = t.below;
    beats = t.beats;
    at_most = (
      λ h. text_le_trans _ (key best) _ (text_le_total (key best) _ (lost h)) t.beats,
      t.at_most,
    );
  })

  Chosen-win :
      (r : Rule) (rules : List Rule) (best n m : Match)
      → Matched glob image r
      → new_match r image ≡ ok n
      → n.rule ≡ r
      → text_le (key best) (key n) ≡ true
      → Chosen rules n m
      → Chosen (r ∷ rules) best m
  Chosen-win r rules best n m hit e same won (inl (q, b)) = rw q (
      inr (record {
        before = [];
        rule = r;
        after = rules;
        parts = refl;
        matched = hit;
        its_match = e;
        is_rule = same;
        at_most = tt;
        below = b;
        beats = won;
      }))
  Chosen-win r rules best n m hit e same won (inr t) = inr (record {
    before = r ∷ t.before;
    rule = t.rule;
    after = t.after;
    parts = ap (λ rs. r ∷ rs) t.parts;
    matched = t.matched;
    its_match = t.its_match;
    is_rule = t.is_rule;
    below = t.below;
    at_most = (λ _. rw (specificity-key image r n e) t.beats, t.at_most);
    beats = text_le_trans (key best) (key n) (key m) won t.beats;
  })

  best_of-Chosen :
      (rules : List Rule) (best : Match)
      → IsMatch best
      → All (IsUsable glob image) rules
      → (m : Match) × (best_of glob image rules best ≡ ok m) × Chosen rules best m
  unfolding best_of consider
  best_of-Chosen [] best w u = (best, refl, inl (refl, tt))
  best_of-Chosen (r ∷ rules) best w (u, us) = elim u.compiles [
    | inr e ↦
        let (m, q, c) = best_of-Chosen rules best w us in
        (m, rw e q, Chosen-skip r rules best m (λ h. cc) c)
    | inl e ↦
        let (n, made, wn, same) = new_match-Fits r image (u.fits e) in
        let chosen = compare-key n best wn w in
        elim (Bool-cases (text_le (key best) (key n))) [
          | inl won ↦
              let (m, q, c) = best_of-Chosen rules n wn us in
              (m, rw (e, made, chosen, won) q, Chosen-win r rules best n m e made same won c)
          | inr lost ↦
              let (m, q, c) = best_of-Chosen rules best w us in
              (
                m,
                rw (e, made, chosen, lost) q,
                Chosen-skip r rules best m (λ _. rw (specificity-key image r n made) lost) c,
              )
        ]
  ]

-- `rule` matches the image, no rule before it is more specific, and every matching rule after it is
-- less specific.
pub record IsMostSpecific (glob : Glob) (image : Text) (rules : List Rule) (rule : Rule)
    : Type 0 where
  pub before : List Rule
  pub after : List Rule
  pub parts : rules ≡ before ++ rule ∷ after
  pub matched : Matched glob image rule
  pub at_most : AtMost glob image (specificity image rule) before
  pub below : Below glob image (specificity image rule) after

none-Matched :
    (glob : Glob) (image : Text) (rules : List Rule)
    → All (IsUsable glob image) rules
    → Below glob image (1 ∷ 0 ∷ 0 ∷ []) rules
    → All (λ r. ¬ Matched glob image r) rules
none-Matched glob image [] u b = tt
none-Matched glob image (r ∷ rules) (u, us) (b, bs) = (
  λ h.
      let (n, made, w, _) = new_match-Fits r image (u.fits h) in
      cc (start_least n w, specificity-key image r n made, b h),
  none-Matched glob image rules us bs,
)

-- Every rule's pattern compiles, is not empty, and has no more components than an image that it
-- matches, in ASCII. Then the function returns: the most specific of the rules that match the image,
-- the last of them where several are, or the error that no rule matches, and then none does.
pub matching_rule-IsMostSpecific :
    (glob : Glob) (rules : List Rule) (image : Text)
    → All (IsUsable glob image) rules
    → ((rule : Rule) × (matching_rule glob rules image ≡ ok rule)
        × IsMostSpecific glob image rules rule)
      ⊎ ((matching_rule glob rules image ≡ err no_matching_rule)
          × All (λ r. ¬ Matched glob image r) rules)
unfolding matching_rule
matching_rule-IsMostSpecific glob rules image u =
    let (start, made, w, k, empty) = start_match in
    let (m, e, c) = best_of-Chosen glob image rules start w u in
    elim c [
      | inl (q, b) ↦ inr (rw (made, e, q, empty) refl, none-Matched glob image rules u (rw k at b))
      | inr t ↦ inl (
        t.rule,
        rw (made, e, t.is_rule)
            (rw
              (All-In (IsUsable glob image) t.rule rules u (
                subst (In t.rule) (sym t.parts)
                  (In-append_right t.rule t.before (t.rule ∷ t.after) (inl refl)))).not_empty
              refl),
        record {
          before = t.before;
          after = t.after;
          parts = t.parts;
          matched = t.matched;
          at_most = rw (specificity-key image t.rule m t.its_match) t.at_most;
          below = rw (specificity-key image t.rule m t.its_match) t.below;
        },
      )
    ]
