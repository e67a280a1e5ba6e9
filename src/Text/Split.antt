-- ===== src/Text/Split.antt =====
-- strings.Split and its inverse.
use prequal_nc.Base.{
  ℕ, ◌≡◌, ◌≢◌, refl, ap, ◌∙◌, inl, inr, true, false, List, [], ◌∷◌, ◌++◌, arith, All, Bool-cases,
  ◌==◌,
}
use prequal_nc.Text.{Text, push_head, split_on}

abbrev pub Lacks : ℕ → Text → Type 0
Lacks sep = All (λ c. c ≢ sep)

-- The parts with the separator between them.
abbrev pub join : ℕ → List Text → Text
join sep [] = []
join sep (p ∷ []) = p
join sep (p ∷ q ∷ parts) = p ++ (sep ∷ join sep (q ∷ parts))

push_head-Lacks :
    (sep c : ℕ) (parts : List Text)
    → c ≢ sep
    → All (Lacks sep) parts
    → All (Lacks sep) (push_head c parts)
push_head-Lacks sep c [] n h = ((n, tt), tt)
push_head-Lacks sep c (p ∷ parts) n h = ((n, h.0), h.1)

-- No part holds the separator.
pub split_on-Lacks : (sep : ℕ) (s : Text) → All (Lacks sep) (split_on sep s)
unfolding split_on
split_on-Lacks sep [] = (tt, tt)
split_on-Lacks sep (c ∷ s) = elim (Bool-cases (c == sep)) [
  | inl e ↦ rw e (tt, split_on-Lacks sep s)
  | inr e ↦ rw e (push_head-Lacks sep c (split_on sep s) (ground arith) (split_on-Lacks sep s))
]

split_on-last : (sep : ℕ) (p : Text) → Lacks sep p → split_on sep p ≡ p ∷ []
unfolding split_on
split_on-last sep [] h = refl
split_on-last sep (c ∷ p) h =
    let e : (c == sep) ≡ false = ground (arith, h.0) in rw (e, split_on-last sep p h.1) refl

split_on-append :
    (sep : ℕ) (p s : Text) → Lacks sep p → split_on sep (p ++ (sep ∷ s)) ≡ p ∷ split_on sep s
unfolding split_on
split_on-append sep [] s h = let e : (sep == sep) ≡ true = ground arith in rw e refl
split_on-append sep (c ∷ p) s h =
    let e : (c == sep) ≡ false = ground (arith, h.0) in rw (e, split_on-append sep p s h.1) refl

-- Splitting undoes joining.
pub split_on-join :
    (sep : ℕ) (p : Text) (parts : List Text)
    → All (Lacks sep) (p ∷ parts)
    → split_on sep (join sep (p ∷ parts)) ≡ p ∷ parts
split_on-join sep p [] h = split_on-last sep p h.0
split_on-join sep p (q ∷ parts) h =
    split_on-append sep p (join sep (q ∷ parts)) h.0 ∙ ap (◌∷◌ p) (split_on-join sep q parts h.1)
