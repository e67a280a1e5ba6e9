-- ===== src/Base/Rank.antt =====
-- Order statistics: what the element at an index of a sorted list says about the unsorted one.
use mathlib.Core.List.{List, [], ◌∷◌}
use Prim.Native.Nat.{ℕ, zero, suc, ◌≤◌, ◌<◌}
use native.Mathlib.Omega.{arith}
use prequal_nc.Base.Lists.{
  length, get_or, get_or-In, All-map, All-of-In, In, In-All, count_of, count_of-zero,
}
use prequal_nc.Base.Int.{ℤ, ◌≤ℤ◌, leb_ℤ, ltb_ℤ}
use prequal_nc.Base.Sort.{
  sort_ints, IsSorted, sort_ints-IsSorted, All-sort_ints, count_of-sort_ints, length-sort_ints,
}

-- `v` is the element at index `i` in the order of `xs`.
pub record IsAtRank (xs : List ℤ) (i : ℕ) (v : ℤ) : Type 0 where
  pub member : In v xs
  pub fewer_below : count_of (λ y. ltb_ℤ y v) xs ≤ i
  pub more_up_to : i < count_of (λ y. leb_ℤ y v) xs

sorted-rank :
    (xs : List ℤ) (i : ℕ) (d : ℤ)
    → IsSorted xs
    → i < length xs
    → (count_of (λ y. ltb_ℤ y (get_or xs i d)) xs ≤ i)
      × (i < count_of (λ y. leb_ℤ y (get_or xs i d)) xs)
sorted-rank [] i d s h = absurd (omega arith)
sorted-rank (x ∷ xs) zero d s h =
    ground (arith, count_of-zero (λ y. ltb_ℤ y x) xs (All-map _ _ xs (λ y k. ground arith) s.0))
sorted-rank (x ∷ xs) (suc i) d s h =
    let v = get_or xs i d in
    let x_le : x ≤ℤ v = In-All (λ y. x ≤ℤ y) v xs s.0 (get_or-In xs i d (omega arith)) in
    ground (arith, sorted-rank xs i d s.1 (omega arith))

-- The element at index `i` of the sorted list.
pub sort_ints-IsAtRank :
    (xs : List ℤ) (i : ℕ) (d : ℤ) → i < length xs → IsAtRank xs i (get_or (sort_ints xs) i d)
sort_ints-IsAtRank xs i d h =
    let ys = sort_ints xs in
    let within : i < length ys = omega (arith, length-sort_ints xs) in
    let v = get_or ys i d in
    let r = sorted-rank ys i d (sort_ints-IsSorted xs) within in
    record {
      member =
          In-All (λ y. In y xs) v ys (All-sort_ints _ xs (All-of-In _ xs (λ y m. m)))
            (get_or-In ys i d within);
      fewer_below = omega (arith, count_of-sort_ints (λ y. ltb_ℤ y v) xs);
      more_up_to = omega (arith, count_of-sort_ints (λ y. leb_ℤ y v) xs);
    }
