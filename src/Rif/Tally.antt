-- ===== src/Rif/Tally.antt =====
-- rif_distribution.go, the map `counts`: its laws, and that it always tallies the samples.
use prequal_nc.Base.{
  ℕ, zero, suc, ◌+◌, ◌<◌, ◌≡◌, refl, ap, ℤ, pos, ◌+ℤ◌, ◌-ℤ◌, ◌==ℤ◌, ==ℤ→eq, Option, none, some,
  List, [], ◌∷◌, ◌++◌, arith, if◌then◌else◌, count_of,
}
use prequal_nc.Rif.{RifSample, Counts, lookup, count_at, put, delete, increment, decrement}

-- No key comes twice.
abbrev pub IsMap : Counts → Type 0
IsMap [] = Unit
IsMap ((k, v) ∷ m) = (lookup k m ≡ none) × IsMap m

pub lookup-put :
    (r k v : ℤ) (m : Counts) → lookup r (put k v m) ≡ (if k ==ℤ r then some v else lookup r m)
unfolding lookup put
lookup-put r k v [] = refl
lookup-put r k v ((j, w) ∷ m) =
    ground (arith, lookup-put r k v m, ==ℤ→eq j k, ==ℤ→eq k r, ==ℤ→eq j r)

pub lookup-delete :
    (r k : ℤ) (m : Counts) → lookup r (delete k m) ≡ (if k ==ℤ r then none else lookup r m)
unfolding lookup delete
lookup-delete r k [] = ground arith
lookup-delete r k ((j, w) ∷ m) =
    ground (arith, lookup-delete r k m, ==ℤ→eq j k, ==ℤ→eq k r, ==ℤ→eq j r)

count_at-put : (k v : ℤ) (m : Counts) → count_at k (put k v m) ≡ v
unfolding count_at
count_at-put k v m = ground (arith, lookup-put k k v m)

put-IsMap : (k v : ℤ) (m : Counts) → IsMap m → IsMap (put k v m)
unfolding lookup put
put-IsMap k v [] h = (refl, tt)
put-IsMap k v ((j, w) ∷ m) h = ground (arith, put-IsMap k v m h.1, lookup-put j k v m, ==ℤ→eq k j)

delete-IsMap : (k : ℤ) (m : Counts) → IsMap m → IsMap (delete k m)
unfolding delete
delete-IsMap k [] h = tt
delete-IsMap k ((j, w) ∷ m) h =
    unfold delete in ground (arith, delete-IsMap k m h.1, lookup-delete j k m)

-- How many of the samples have the value `r`.
abbrev pub tally : ℤ → List RifSample → ℕ
tally r = count_of (λ s. s.rif ==ℤ r)

-- The map holds exactly the values that the samples have, each with its number.
abbrev pub to_entry : ℕ → Option ℤ
to_entry zero = none
to_entry (suc n) = some (pos (suc n))

pub record IsTally (samples : List RifSample) (m : Counts) : Type 0 where
  pub is_map : IsMap m
  pub tallied : (r : ℤ) → lookup r m ≡ to_entry (tally r samples)

pub empty-IsTally : IsTally [] []
unfolding lookup
empty-IsTally = record { is_map = tt; tallied = λ r. refl }

pub count_at-tally :
    (r : ℤ) (samples : List RifSample) (m : Counts)
    → IsTally samples m
    → count_at r m ≡ pos (tally r samples)
unfolding count_at
count_at-tally r samples m h = rw (h.tallied r, count_at) (read (tally r samples))
  where
    read : (n : ℕ) → elim (to_entry n) [ none ↦ pos 0 | some v ↦ v ] ≡ pos n
    read zero = refl
    read (suc n) = refl

tally-append :
    (r : ℤ) (samples : List RifSample) (s : RifSample)
    → tally r (samples ++ s ∷ []) ≡ tally r samples + (if s.rif ==ℤ r then 1 else 0)
tally-append r [] s = ground arith
tally-append r (x ∷ samples) s = ground (arith, tally-append r samples s)

to_entry-pos : (n : ℕ) → 0 < n → to_entry n ≡ some (pos n)
to_entry-pos zero h = elim h [ ]
to_entry-pos (suc n) h = refl

-- Counting one more sample.
pub increment-IsTally :
    (samples : List RifSample) (s : RifSample) (m : Counts)
    → IsTally samples m
    → IsTally (samples ++ s ∷ []) (increment s.rif m)
unfolding increment ◌+ℤ◌
increment-IsTally samples s m h = record {
  is_map = put-IsMap s.rif _ m h.is_map;
  tallied = λ r. ground (
    arith,
    lookup-put r s.rif (count_at s.rif m +ℤ pos 1) m,
    count_at-tally s.rif samples m h,
    tally-append r samples s,
    h.tallied r,
    ==ℤ→eq s.rif r,
    to_entry-pos (tally r samples + 1),
  );
}

one_less :
    (s : RifSample) (rest : List RifSample) (m : Counts)
    → IsTally (s ∷ rest) m
    → count_at s.rif m -ℤ pos 1 ≡ pos (tally s.rif rest)
unfolding ◌-ℤ◌
one_less s rest m h = ground (arith, count_at-tally s.rif (s ∷ rest) m h)

decrement-IsMap : (k : ℤ) (m : Counts) → IsMap m → IsMap (decrement k m)
unfolding decrement
decrement-IsMap k m h =
    let v : ℤ = count_at k m -ℤ pos 1 in
    let kept = put-IsMap k v m h in ground (arith, kept, delete-IsMap k (put k v m) kept)

lookup-decrement :
    (r k v : ℤ) (m : Counts)
    → count_at k m -ℤ pos 1 ≡ v
    → lookup r (decrement k m)
      ≡ (if k ==ℤ r then if v ==ℤ pos 0 then none else some v else lookup r m)
unfolding decrement
lookup-decrement r k v m e =
    rw (e, decrement)
      (ground (arith, lookup-put r k v m, count_at-put k v m, lookup-delete r k (put k v m)))

-- Taking the oldest sample out.
pub decrement-IsTally :
    (s : RifSample) (rest : List RifSample) (m : Counts)
    → IsTally (s ∷ rest) m
    → IsTally rest (decrement s.rif m)
decrement-IsTally s rest m h = record {
  is_map = decrement-IsMap s.rif m h.is_map;
  tallied = λ r. ground (
    arith,
    lookup-decrement r s.rif (pos (tally s.rif rest)) m (one_less s rest m h),
    h.tallied r,
    ==ℤ→eq s.rif r,
    to_entry-pos (tally r rest),
    ap to_entry,
  );
}
