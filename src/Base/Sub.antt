-- ===== src/Base/Sub.antt =====
-- Parts of a list in their order (the library's `Sublistᴰ`), and what they keep of it.
use mathlib.Core.List.{Sublistᴰ}
use mathlib.Core.List.Sublistᴰ
use mathlib.Core.Path.{refl, subst, sym}
use mathlib.Core.Logic.{◌≢◌, inl, inr}
use mathlib.Core.Bool.{Bool}
use mathlib.Core.List.{List, [], ◌∷◌, ◌++◌}
use Prim.Native.Nat.{ℕ, zero, suc, ◌≤◌}
use native.Mathlib.Omega.{arith}
use prequal_nc.Base.Tests.{Bool-cases}
use prequal_nc.Base.Lists.{length, All, All-append, IsDistinct, keep, drop}

module _ {ℓ} {A : Type ℓ} where
  pub All-sublist {κ} : (P : A → Type κ) {xs ys : List A} → Sublistᴰ xs ys → All P ys → All P xs
  All-sublist P Sublistᴰ.slnil h = tt
  All-sublist P (Sublistᴰ.cons s) h = All-sublist P s h.1
  All-sublist P (Sublistᴰ.cons-cons e s) h = (subst P (sym e) h.0, All-sublist P s h.1)

  pub IsDistinct-sublist : {xs ys : List A} → Sublistᴰ xs ys → IsDistinct ys → IsDistinct xs
  IsDistinct-sublist Sublistᴰ.slnil h = tt
  IsDistinct-sublist (Sublistᴰ.cons s) h = IsDistinct-sublist s h.1
  IsDistinct-sublist (Sublistᴰ.cons-cons {l₁ = l} e s) h =
      (subst (λ x. All (λ y. x ≢ y) l) (sym e) (All-sublist _ s h.0), IsDistinct-sublist s h.1)

  pub length-sublist : {xs ys : List A} → Sublistᴰ xs ys → length xs ≤ length ys
  length-sublist Sublistᴰ.slnil = omega arith
  length-sublist (Sublistᴰ.cons s) = omega (arith, length-sublist s)
  length-sublist (Sublistᴰ.cons-cons e s) = omega (arith, length-sublist s)

  pub keep-sublist : (p : A → Bool) (xs : List A) → Sublistᴰ (keep p xs) xs
  keep-sublist p [] = Sublistᴰ.slnil
  keep-sublist p (x ∷ xs) = elim (Bool-cases (p x)) [
    | inl e ↦ rw e (Sublistᴰ.cons-cons refl (keep-sublist p xs))
    | inr e ↦ rw e (Sublistᴰ.cons (keep-sublist p xs))
  ]

  pub drop-sublist : (n : ℕ) (xs : List A) → Sublistᴰ (drop n xs) xs
  drop-sublist zero xs = Sublistᴰ.refl xs
  drop-sublist (suc n) [] = Sublistᴰ.slnil
  drop-sublist (suc n) (x ∷ xs) = Sublistᴰ.cons (drop-sublist n xs)

  pub without-sublist : (xs : List A) (v : A) (ys : List A) → Sublistᴰ (xs ++ ys) (xs ++ v ∷ ys)
  without-sublist [] v ys = Sublistᴰ.cons (Sublistᴰ.refl ys)
  without-sublist (x ∷ xs) v ys = Sublistᴰ.cons-cons refl (without-sublist xs v ys)

  -- A new element at the end.
  pub IsDistinct-append :
      (xs : List A) (a : A) → All (λ x. x ≢ a) xs → IsDistinct xs → IsDistinct (xs ++ a ∷ [])
  IsDistinct-append [] a h d = (tt, tt)
  IsDistinct-append (x ∷ xs) a h d =
      (All-append (λ y. x ≢ y) xs (a ∷ []) d.0 (h.0, tt), IsDistinct-append xs a h.1 d.1)
