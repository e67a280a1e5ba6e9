-- ===== src/Text/Trim.antt =====
-- strings.TrimSpace: what it keeps, and that a trimmed text stays as it is.
use prequal_nc.Base.{ℕ, ◌≡◌, refl, ap, inl, inr, false, [], ◌∷◌, arith, All, Bool-cases, ◌&&◌}
use prequal_nc.Text.{Text, is_empty, is_space, trim_left, trim_right, trim_space}

-- The text is empty or begins with a code point that is no white space.
abbrev Begins : Text → Type 0
Begins [] = Unit
Begins (c ∷ s) = is_space c ≡ false

trim_left-Begins : (s : Text) → Begins (trim_left s)
unfolding trim_left
trim_left-Begins [] = tt
trim_left-Begins (c ∷ s) = elim (Bool-cases (is_space c)) [
  | inl e ↦ rw e (trim_left-Begins s)
  | inr e ↦ rw e e
]

trim_left-id : (s : Text) → Begins s → trim_left s ≡ s
unfolding trim_left
trim_left-id [] h = refl
trim_left-id (c ∷ s) h = rw h refl

trim_right-cons : (c : ℕ) (s : Text) → is_space c ≡ false → trim_right (c ∷ s) ≡ c ∷ trim_right s
unfolding trim_right
trim_right-cons c s h = rw h refl

trim_right-Begins : (s : Text) → Begins s → Begins (trim_right s)
trim_right-Begins [] h = unfold trim_right in tt
trim_right-Begins (c ∷ s) h = rw (trim_right-cons c s h) h

trim_right_idem : (s : Text) → trim_right (trim_right s) ≡ trim_right s
unfolding trim_right
trim_right_idem [] = refl
trim_right_idem (c ∷ s) = elim (Bool-cases (is_space c && is_empty (trim_right s))) [
  | inl e ↦ rw e refl
  | inr e ↦ rw (e, trim_right_idem s, e) refl
]

-- Trimming a trimmed text changes nothing.
pub trim_space_idem : (s : Text) → trim_space (trim_space s) ≡ trim_space s
unfolding trim_space
trim_space_idem s =
    let h = trim_right-Begins (trim_left s) (trim_left-Begins s) in
    rw (trim_left-id (trim_right (trim_left s)) h) (trim_right_idem (trim_left s))

module _ (P : ℕ → Type 0) where
  All-trim_left : (s : Text) → All P s → All P (trim_left s)
  unfolding trim_left
  All-trim_left [] h = tt
  All-trim_left (c ∷ s) h = ground (arith, All-trim_left s h.1)

  All-trim_right : (s : Text) → All P s → All P (trim_right s)
  unfolding trim_right
  All-trim_right [] h = tt
  All-trim_right (c ∷ s) h = ground (arith, All-trim_right s h.1)

  pub All-trim_space : (s : Text) → All P s → All P (trim_space s)
  unfolding trim_space
  All-trim_space s h = All-trim_right (trim_left s) (All-trim_left s h)

trim_right-id : (s : Text) → All (λ c. is_space c ≡ false) s → trim_right s ≡ s
unfolding trim_right
trim_right-id [] h = refl
trim_right-id (c ∷ s) h = rw h.0 (ap (◌∷◌ c) (trim_right-id s h.1))

-- A text without white space is trimmed.
pub trim_space-id : (s : Text) → All (λ c. is_space c ≡ false) s → trim_space s ≡ s
unfolding trim_space
trim_space-id [] h = unfold trim_left in unfold trim_right in refl
trim_space-id (c ∷ s) h = rw (trim_left-id (c ∷ s) h.0) (trim_right-id (c ∷ s) h)
