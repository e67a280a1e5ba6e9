-- ===== src/Base/Best.antt =====
-- A loop that keeps the best element seen so far, the first among equals, and what it finds.
use mathlib.Core.List.{append_assoc, append-nil}
use mathlib.Core.Path.{◌≡◌, refl, ap, sym, ◌∙◌, subst}
use mathlib.Core.Logic.{inl, inr}
use mathlib.Core.Bool.{Bool, true, false}
use mathlib.Core.Option.{Option, none, some}
use mathlib.Core.List.{List, [], ◌∷◌, ◌++◌}
use Prim.Native.Nat.{ℕ, suc}
use native.Mathlib.Omega.{arith}
use prequal_nc.Base.Tests.{if◌then◌else◌, Bool-cases}
use prequal_nc.Base.Lists.{length, All, All-map, All-append, length-append}
use prequal_nc.Base.Int.{ℤ, ltb_ℤ}

-- `if best == nil || better(k, bestKey) { best = b; bestKey = k }`.
unfoldable pub improve : {B : Type 0} → (ℤ → ℤ → Bool) → B → ℤ → Option (B × ℤ) → Option (B × ℤ)
improve better b k none = some (b, k)
improve better b k (some (c, l)) = if better k l then some (b, k) else some (c, l)

-- What "better" must satisfy: it is a strict order in which incomparable keys are alike.
pub record IsBetter (better : ℤ → ℤ → Bool) : Type 0 where
  pub trans : (k l m : ℤ) → better k l ≡ true → better l m ≡ true → better k m ≡ true
  pub weaken : (k l m : ℤ) → better k l ≡ true → better m l ≡ false → better k m ≡ true

pub less-IsBetter : IsBetter ltb_ℤ
less-IsBetter = record { trans = λ k l m h j. ground arith; weaken = λ k l m h j. ground arith }

abbrev pub greater : ℤ → ℤ → Bool
greater k l = ltb_ℤ l k

pub greater-IsBetter : IsBetter greater
greater-IsBetter = record { trans = λ k l m h j. ground arith; weaken = λ k l m h j. ground arith }

module _ {A B : Type 0} (better : ℤ → ℤ → Bool) (p : A → Bool) (f : A → ℤ) (tag : ℕ → A → B) where
  -- The loop over the elements that pass `p`, from index `i` on; `tag` is what it keeps of one.
  unfoldable pub best_loop : ℕ → Option (B × ℤ) → List A → Option (B × ℤ)
  unfolding improve
  best_loop i acc [] = acc
  best_loop i acc (x ∷ xs) =
      best_loop (suc i) (if p x then improve better (tag i x) (f x) acc else acc) xs

  -- `b` is kept of the first of the best elements among those of `xs` that pass.
  pub record Chosen (xs : List A) (b : B) (k : ℤ) : Type 0 where
    pub before : List A
    pub best : A
    pub after : List A
    pub split : xs ≡ before ++ best ∷ after
    pub kept : b ≡ tag (length before) best
    pub key : k ≡ f best
    pub passes : p best ≡ true
    pub beats : All (λ y. p y ≡ true → better k (f y) ≡ true) before
    pub unbeaten : All (λ z. p z ≡ true → better (f z) k ≡ false) after

  abbrev pub IsBest : List A → Option (B × ℤ) → Type 0
  IsBest xs none = All (λ x. p x ≡ false) xs
  IsBest xs (some (b, k)) = Chosen xs b k

  module _ (strict : IsBetter better) where
    -- One more element that does not pass.
    skip-IsBest :
        (xs : List A) (x : A) (o : Option (B × ℤ))
        → p x ≡ false
        → IsBest xs o
        → IsBest (xs ++ x ∷ []) o
    skip-IsBest xs x none e h = All-append _ xs (x ∷ []) h (e, tt)
    skip-IsBest xs x (some (b, k)) e h = record {
      before = h.before;
      best = h.best;
      after = h.after ++ x ∷ [];
      split = ap (λ l. l ++ x ∷ []) h.split ∙ append_assoc h.before (h.best ∷ h.after) (x ∷ []);
      kept = h.kept;
      key = h.key;
      passes = h.passes;
      beats = h.beats;
      unbeaten = All-append _ h.after (x ∷ []) h.unbeaten (λ t. cc, tt);
    }

    take_over :
        (xs : List A) (x : A)
        → p x ≡ true
        → All (λ y. p y ≡ true → better (f x) (f y) ≡ true) xs
        → Chosen (xs ++ x ∷ []) (tag (length xs) x) (f x)
    take_over xs x e h = record {
      before = xs;
      best = x;
      after = [];
      split = refl;
      kept = refl;
      key = refl;
      passes = e;
      beats = h;
      unbeaten = tt;
    }

    beats_all :
        (xs : List A) (b : B) (k l : ℤ)
        → better k l ≡ true
        → Chosen xs b l
        → All (λ y. p y ≡ true → better k (f y) ≡ true) xs
    beats_all xs b k l e h = subst (All (λ y. p y ≡ true → better k (f y) ≡ true)) (sym h.split) (
        All-append _ h.before (h.best ∷ h.after)
          (All-map _ _ h.before (λ y t q. strict.trans k l (f y) e (t q)) h.beats)
          (
            λ q. subst (λ j. better k j ≡ true) h.key e,
            All-map _ _ h.after (λ z t q. strict.weaken k l (f z) e (t q)) h.unbeaten,
          ))

    -- One more element that passes.
    improve-IsBest :
        (xs : List A) (x : A) (o : Option (B × ℤ))
        → p x ≡ true
        → IsBest xs o
        → IsBest (xs ++ x ∷ []) (improve better (tag (length xs) x) (f x) o)
    unfolding improve
    improve-IsBest xs x none e h = take_over xs x e (All-map _ _ xs (λ y t q. cc) h)
    improve-IsBest xs x (some (b, l)) e h = elim (Bool-cases (better (f x) l)) [
      | inl t ↦ rw t (take_over xs x e (beats_all xs b (f x) l t h))
      | inr t ↦ rw t (record {
        before = h.before;
        best = h.best;
        after = h.after ++ x ∷ [];
        split = ap (λ l. l ++ x ∷ []) h.split ∙ append_assoc h.before (h.best ∷ h.after) (x ∷ []);
        kept = h.kept;
        key = h.key;
        passes = h.passes;
        beats = h.beats;
        unbeaten = All-append _ h.after (x ∷ []) h.unbeaten (λ q. t, tt);
      })
    ]

    best_loop-IsBest_from :
        (xs ys : List A) (i : ℕ) (o : Option (B × ℤ))
        → i ≡ length xs
        → IsBest xs o
        → IsBest (xs ++ ys) (best_loop i o ys)
    unfolding best_loop
    best_loop-IsBest_from xs [] i o e h = rw append-nil h
    best_loop-IsBest_from xs (y ∷ ys) i o e h =
        let i' : suc i ≡ length (xs ++ y ∷ []) = omega (arith, length-append xs (y ∷ [])) in
        subst (λ l. IsBest l (best_loop i o (y ∷ ys))) (append_assoc xs (y ∷ []) ys)
          (elim (Bool-cases (p y)) [
            | inl t ↦ rw t (
                best_loop-IsBest_from (xs ++ y ∷ []) ys (suc i) _ i'
                  (rw e (improve-IsBest xs y o t h)))
            | inr t ↦
                rw t (best_loop-IsBest_from (xs ++ y ∷ []) ys (suc i) o i' (skip-IsBest xs y o t h))
          ])

    -- The loop finds the first best element, or none if none passes.
    pub best_loop-IsBest : (xs : List A) → IsBest xs (best_loop 0 none xs)
    best_loop-IsBest xs = best_loop-IsBest_from [] xs 0 none refl tt
