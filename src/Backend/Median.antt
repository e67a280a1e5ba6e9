-- ===== src/Backend/Median.antt =====
-- backend/main.go, medianLatencyUs: the latency estimate is a function of the last 256 samples, whatever
-- slots of the ring they stand in, and it is a median.
use mathlib.Core.List.{append-nil}
use prequal_nc.Base.{
  ℕ, suc, ◌+◌, ◌/◌, ◌≤◌, ◌<◌, ◌^◌, ◌≡◌, refl, ap, subst, sym, ◌∙◌, inl, inr, ℤ, pos, eq_of_parts,
  Bool, true, false, List, [], ◌∷◌, ◌++◌, arith, Bool-cases, length, length-append, keep, sort_ints,
  insert_int, All, if◌then◌else◌, ◌==◌,
}
use prequal_nc.Base.Rank.{IsAtRank, sort_ints-IsAtRank}
use prequal_nc.Backend.{
  LatencySample, latency_ring_size, empty_ring, is_near, latencies, middle, median_of,
  median_latency_us,
}
use prequal_nc.Backend.Recent.{recent, record_all, record_all-Rotated}

insert_int_comm :
    (x y : ℤ) (l : List ℤ) → insert_int x (insert_int y l) ≡ insert_int y (insert_int x l)
unfolding insert_int
insert_int_comm x y [] = ground (arith, eq_of_parts x y)
insert_int_comm x y (z ∷ l) = ground (arith, eq_of_parts x y, insert_int_comm x y l)

sort_ints-middle :
    (xs : List ℤ) (y : ℤ) (ys : List ℤ)
    → sort_ints (xs ++ (y ∷ ys)) ≡ insert_int y (sort_ints (xs ++ ys))
unfolding sort_ints
sort_ints-middle [] y ys = refl
sort_ints-middle (x ∷ xs) y ys =
    ap (insert_int x) (sort_ints-middle xs y ys) ∙ insert_int_comm x y (sort_ints (xs ++ ys))

sort_ints-cons : (y : ℤ) (ys : List ℤ) → sort_ints (y ∷ ys) ≡ insert_int y (sort_ints ys)
unfolding sort_ints
sort_ints-cons y ys = refl

-- Sorting does not see a rotation.
sort_ints-rotated : (xs ys : List ℤ) → sort_ints (xs ++ ys) ≡ sort_ints (ys ++ xs)
sort_ints-rotated xs [] = ap sort_ints (append-nil xs)
sort_ints-rotated xs (y ∷ ys) =
    sort_ints-middle xs y ys
    ∙ ap (insert_int y) (sort_ints-rotated xs ys)
    ∙ sym (sort_ints-cons y (ys ++ xs))

length-rotated {ℓ} : {A : Type ℓ} (xs ys : List A) → length (xs ++ ys) ≡ length (ys ++ xs)
length-rotated xs ys = omega (arith, length-append xs ys, length-append ys xs)

middle-rotated : (xs ys : List ℤ) → middle (xs ++ ys) ≡ middle (ys ++ xs)
middle-rotated xs ys = rw (sort_ints-rotated xs ys, length-rotated xs ys) refl

latencies-append :
    (xs ys : List LatencySample) → latencies (xs ++ ys) ≡ latencies xs ++ latencies ys
latencies-append [] ys = refl
latencies-append (x ∷ xs) ys = ap (◌∷◌ x.latency_us) (latencies-append xs ys)

keep-append :
    (p : LatencySample → Bool) (xs ys : List LatencySample)
    → keep p (xs ++ ys) ≡ keep p xs ++ keep p ys
keep-append p [] ys = refl
keep-append p (x ∷ xs) ys = elim (Bool-cases (p x)) [
  | inl e ↦ rw e (ap (◌∷◌ x) (keep-append p xs ys))
  | inr e ↦ rw e (keep-append p xs ys)
]

near-append :
    (current : ℤ) (xs ys : List LatencySample)
    → latencies (keep (is_near current) (xs ++ ys))
      ≡ latencies (keep (is_near current) xs) ++ latencies (keep (is_near current) ys)
near-append current xs ys =
    ap latencies (keep-append (is_near current) xs ys)
    ∙ latencies-append (keep (is_near current) xs) (keep (is_near current) ys)

-- The part of medianLatencyUs behind the two slices.
abbrev chosen : List ℤ → List ℤ → ℤ
chosen near all =
    if length near == 0 then if length all == 0 then pos 0 else middle all else middle near

chosen-rotated : (a b c d : List ℤ) → chosen (a ++ b) (c ++ d) ≡ chosen (b ++ a) (d ++ c)
chosen-rotated a b c d =
    rw (middle-rotated a b, middle-rotated c d, length-rotated a b, length-rotated c d) refl

median_of-rotated :
    (current : ℤ) (xs ys : List LatencySample)
    → median_of current (xs ++ ys) ≡ median_of current (ys ++ xs)
unfolding median_of
median_of-rotated current xs ys =
    let near = λ (l : List LatencySample). latencies (keep (is_near current) l) in
    ap (λ n. chosen n (latencies (xs ++ ys))) (near-append current xs ys)
    ∙ ap (chosen (near xs ++ near ys)) (latencies-append xs ys)
    ∙ chosen-rotated (near xs) (near ys) (latencies xs) (latencies ys)
    ∙ ap (chosen (near ys ++ near xs)) (sym (latencies-append ys xs))
    ∙ ap (λ n. chosen n (latencies (ys ++ xs))) (sym (near-append current ys xs))

-- After any samples on a new ring, medianLatencyUs is the median of the last 256 of them, oldest first:
-- where they stand in the ring does not matter.
pub median_latency_us-recent :
    (current : ℤ) (samples : List LatencySample)
    → median_latency_us current (record_all samples empty_ring)
      ≡ median_of current (recent latency_ring_size samples)
unfolding median_latency_us
median_latency_us-recent current samples =
    let r = record_all-Rotated samples in
    ap (median_of current) r.used
    ∙ median_of-rotated current r.front r.back
    ∙ ap (median_of current) (sym r.kept)

-- What the estimate is: 0 on no samples; the median of the latencies whose RIF is near the current one,
-- if there are any; and otherwise the median of all latencies.
pub data IsEstimate (current : ℤ) (samples : List LatencySample) (v : ℤ) : Type 0 where
  unknown : samples ≡ [] → v ≡ pos 0 → IsEstimate current samples v
  overall :
      All (λ s. is_near current s ≡ false) samples
      → IsAtRank (latencies samples) (length samples / 2) v
      → IsEstimate current samples v
  nearby :
      (near : List LatencySample)
      → near ≡ keep (is_near current) samples
      → 0 < length near
      → IsAtRank (latencies near) (length near / 2) v
      → IsEstimate current samples v

length-latencies : (samples : List LatencySample) → length (latencies samples) ≡ length samples
length-latencies [] = refl
length-latencies (s ∷ samples) = ap suc (length-latencies samples)

none_kept :
    (p : LatencySample → Bool) (xs : List LatencySample)
    → length (keep p xs) ≡ 0
    → All (λ x. p x ≡ false) xs
none_kept p [] h = tt
none_kept p (x ∷ xs) h = elim (Bool-cases (p x)) [
  | inl e ↦ let some_kept = rw e at h in absurd (omega arith)
  | inr e ↦ (e, none_kept p xs (rw e at h))
]

middle-IsAtRank :
    (samples : List LatencySample)
    → 0 < length samples
    → IsAtRank (latencies samples) (length samples / 2) (middle (latencies samples))
middle-IsAtRank samples h =
    let same = length-latencies samples in
    subst (λ n. IsAtRank (latencies samples) (n / 2) (middle (latencies samples))) same
      (sort_ints-IsAtRank (latencies samples) (length (latencies samples) / 2) (pos 0)
        (omega arith))

nothing : (xs : List LatencySample) → length xs ≡ 0 → xs ≡ []
nothing [] h = refl
nothing (x ∷ xs) h = absurd (omega arith)

-- The estimate of medianLatencyUs is 0 on no samples; the median of the latencies whose RIF is near the
-- current one, if there are any; and otherwise the median of all latencies.
pub median_of-IsEstimate :
    (current : ℤ) (samples : List LatencySample)
    → IsEstimate current samples (median_of current samples)
unfolding median_of
median_of-IsEstimate current samples =
    let near = keep (is_near current) samples in
    let size = length-latencies samples in
    let near_size = length-latencies near in
    elim (Bool-cases (length (latencies near) == 0)) [
      | inl none_near ↦ elim (Bool-cases (length (latencies samples) == 0)) [
        | inl empty ↦ unknown (nothing samples (ground arith)) (rw (none_near, empty) refl)
        | inr more ↦
            rw (none_near, more)
              (overall (none_kept (is_near current) samples (ground arith))
                (middle-IsAtRank samples (ground arith)))
      ]
      | inr some_near ↦
          rw some_near (nearby near refl (ground arith) (middle-IsAtRank near (ground arith)))
    ]

-- On RIFs that are not negative the test is the distance of the two numbers.
pub is_near-distance :
    (current rif : ℕ) (s : LatencySample)
    → current < 2 ^ 31
    → rif < 2 ^ 31
    → s.rif_at_arrival ≡ pos rif
    → (is_near (pos current) s ≡ true → (current ≤ rif + 2) × (rif ≤ current + 2))
      × ((current ≤ rif + 2) × (rif ≤ current + 2) → is_near (pos current) s ≡ true)
unfolding is_near
is_near-distance current rif s h k e = ((λ t. ground arith), (λ d. ground arith))
