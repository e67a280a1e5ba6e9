-- ===== src/Base/Sort.antt =====
-- `sort.Slice` at a slice of integers under `<`: equal integers are the same value, so the result does
-- not depend on the algorithm, and insertion sort stands for it.
use mathlib.Core.List.{Perm}
use mathlib.Core.List.Perm
use mathlib.Core.Path.{◌≡◌, refl}
use mathlib.Core.Logic.{inl, inr, ◌≢◌}
use mathlib.Core.Bool.{Bool}
use mathlib.Core.List.{List, [], ◌∷◌}
use Prim.Native.Nat.{suc, ◌+◌}
use native.Mathlib.Omega.{arith}
use prequal_nc.Base.Tests.{if◌then◌else◌}
use prequal_nc.Base.Lists.{length, All, All-map, In, IsDistinct, count_of}
use prequal_nc.Base.Int.{ℤ, ◌≤ℤ◌, ◌<ℤ◌, leb_ℤ, eq_of_parts}

unfoldable pub insert_int : ℤ → List ℤ → List ℤ
insert_int x [] = x ∷ []
insert_int x (y ∷ ys) = if leb_ℤ x y then x ∷ y ∷ ys else y ∷ insert_int x ys

unfoldable pub sort_ints : List ℤ → List ℤ
unfolding insert_int
sort_ints [] = []
sort_ints (x ∷ xs) = insert_int x (sort_ints xs)

-- Ascending, with repetitions.
abbrev pub IsSorted : List ℤ → Type 0
IsSorted [] = Unit
IsSorted (x ∷ xs) = All (λ y. x ≤ℤ y) xs × IsSorted xs

-- Ascending, without repetitions.
abbrev pub IsAscending : List ℤ → Type 0
IsAscending [] = Unit
IsAscending (x ∷ xs) = All (λ y. x <ℤ y) xs × IsAscending xs

module _ (P : ℤ → Type 0) where
  All-insert_int : (x : ℤ) (ys : List ℤ) → P x → All P ys → All P (insert_int x ys)
  unfolding insert_int
  All-insert_int x [] h k = (h, tt)
  All-insert_int x (y ∷ ys) h k = ground (arith, All-insert_int x ys h k.1)

  pub All-sort_ints : (xs : List ℤ) → All P xs → All P (sort_ints xs)
  unfolding sort_ints
  All-sort_ints [] h = tt
  All-sort_ints (x ∷ xs) h = All-insert_int x (sort_ints xs) h.0 (All-sort_ints xs h.1)

insert_int-IsSorted : (x : ℤ) (ys : List ℤ) → IsSorted ys → IsSorted (insert_int x ys)
unfolding insert_int
insert_int-IsSorted x [] s = (tt, tt)
insert_int-IsSorted x (y ∷ ys) s = ground (
  arith,
  insert_int-IsSorted x ys s.1,
  All-insert_int (λ z. y ≤ℤ z) x ys,
  λ (h : x ≤ℤ y). All-map (λ z. y ≤ℤ z) (λ z. x ≤ℤ z) ys (λ z k. omega arith) s.0,
)

pub sort_ints-IsSorted : (xs : List ℤ) → IsSorted (sort_ints xs)
unfolding sort_ints
sort_ints-IsSorted [] = tt
sort_ints-IsSorted (x ∷ xs) = insert_int-IsSorted x (sort_ints xs) (sort_ints-IsSorted xs)

insert_int-IsAscending :
    (x : ℤ) (ys : List ℤ) → All (λ y. x ≢ y) ys → IsAscending ys → IsAscending (insert_int x ys)
unfolding insert_int
insert_int-IsAscending x [] d s = (tt, tt)
insert_int-IsAscending x (y ∷ ys) d s = ground (
  arith,
  insert_int-IsAscending x ys d.1 s.1,
  eq_of_parts x y,
  All-insert_int (λ z. y <ℤ z) x ys,
  λ (h : x ≤ℤ y). All-map (λ z. y <ℤ z) (λ z. x <ℤ z) ys (λ z k. omega arith) s.0,
)

pub sort_ints-IsAscending : (xs : List ℤ) → IsDistinct xs → IsAscending (sort_ints xs)
unfolding sort_ints
sort_ints-IsAscending [] d = tt
sort_ints-IsAscending (x ∷ xs) d =
    insert_int-IsAscending x (sort_ints xs) (All-sort_ints (λ y. x ≢ y) xs d.0)
      (sort_ints-IsAscending xs d.1)

count_of-insert_int :
    (p : ℤ → Bool) (x : ℤ) (ys : List ℤ)
    → count_of p (insert_int x ys) ≡ (if p x then 1 else 0) + count_of p ys
unfolding insert_int
count_of-insert_int p x [] = refl
count_of-insert_int p x (y ∷ ys) = ground (arith, count_of-insert_int p x ys)

pub count_of-sort_ints : (p : ℤ → Bool) (xs : List ℤ) → count_of p (sort_ints xs) ≡ count_of p xs
unfolding sort_ints
count_of-sort_ints p [] = refl
count_of-sort_ints p (x ∷ xs) =
    omega (arith, count_of-insert_int p x (sort_ints xs), count_of-sort_ints p xs)

length-insert_int : (x : ℤ) (ys : List ℤ) → length (insert_int x ys) ≡ suc (length ys)
unfolding insert_int
length-insert_int x [] = refl
length-insert_int x (y ∷ ys) = ground (arith, length-insert_int x ys)

pub length-sort_ints : (xs : List ℤ) → length (sort_ints xs) ≡ length xs
unfolding sort_ints
length-sort_ints [] = refl
length-sort_ints (x ∷ xs) = omega (arith, length-insert_int x (sort_ints xs), length-sort_ints xs)

insert_int-perm : (x : ℤ) (ys : List ℤ) → Perm (insert_int x ys) (x ∷ ys)
unfolding insert_int
insert_int-perm x [] = Perm.refl _
insert_int-perm x (y ∷ ys) =
    let rest = Perm.trans (Perm.cons y (insert_int-perm x ys)) (Perm.swap x y ys) in
    ground (arith, rest, Perm.refl (x ∷ y ∷ ys))

-- The sorted list is a rearrangement.
pub sort_ints-perm : (xs : List ℤ) → Perm (sort_ints xs) xs
unfolding sort_ints
sort_ints-perm [] = Perm.refl _
sort_ints-perm (x ∷ xs) =
    Perm.trans (insert_int-perm x (sort_ints xs)) (Perm.cons x (sort_ints-perm xs))

In-insert_int_self : (x : ℤ) (ys : List ℤ) → In x (insert_int x ys)
unfolding insert_int
In-insert_int_self x [] = inl refl
In-insert_int_self x (y ∷ ys) = ground (arith, In-insert_int_self x ys)

In-insert_int : (a x : ℤ) (ys : List ℤ) → In a ys → In a (insert_int x ys)
unfolding insert_int
In-insert_int a x [] h = elim h [ ]
In-insert_int a x (y ∷ ys) h = ground (arith, In-insert_int a x ys)

pub In-sort_ints : (a : ℤ) (xs : List ℤ) → In a xs → In a (sort_ints xs)
unfolding sort_ints
In-sort_ints a [] h = elim h [ ]
In-sort_ints a (x ∷ xs) (inl e) = rw e (In-insert_int_self x (sort_ints xs))
In-sort_ints a (x ∷ xs) (inr h) = In-insert_int a x (sort_ints xs) (In-sort_ints a xs h)
