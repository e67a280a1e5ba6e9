-- ===== src/Rif/Quantile.antt =====
-- rif_distribution.go, computeQuantile: what it answers on every branch.
use prequal_nc.Base.{
  ◌≤◌, ◌<◌, ◌^◌, ◌≡◌, ◌≢◌, refl, ap, subst, sym, ◌∙◌, inl, inr, ℤ, pos, max_int32, ◌<ℤ◌, ltb_ℤ,
  ◌==ℤ◌, ==ℤ→eq, ==ℤ_refl, Bool, true, false, Option, none, some, List, [], ◌∷◌, map, arith, ltb,
  Bool-cases, length, count_of-zero, All, All-map, All-of-In, In, In-All, IsAscending, IsDistinct,
  sort_ints, sort_ints-IsAscending, In-sort_ints, length-sort_ints, All-sort_ints, if◌then◌else◌,
}
use native.Mathlib.Nat.{le_trans}
use prequal_nc.Float.{Float64, FloatLaws}
use prequal_nc.Time.{Time, time_back}
use prequal_nc.Rif.{
  RifSample, RifDistribution, Counts, lookup, min_rif_samples, scan, last_key, or_else, quantile_of,
  compute_quantile, evict_locked,
}
use prequal_nc.Rif.Tally.{IsTally, IsMap, tally, to_entry}
use prequal_nc.Rif.Scan.{IsQuantile, ScanInv, scan-IsQuantile}
use prequal_nc.Rif.Window.{
  Evicted, evict_locked-Evicted, from_first_recent, length-from_first_recent,
}

abbrev keys : Counts → List ℤ
keys = map (λ (kv : ℤ × ℤ). kv.0)

abbrev rifs : List RifSample → List ℤ
rifs = map (λ (s : RifSample). s.rif)

fresh-keys : (k : ℤ) (m : Counts) → lookup k m ≡ none → All (λ j. k ≢ j) (keys m)
unfolding lookup
fresh-keys k [] h = tt
fresh-keys k ((j, v) ∷ m) h = (λ e. ground (arith, ==ℤ_refl k), ground (arith, fresh-keys k m))

keys-IsDistinct : (m : Counts) → IsMap m → IsDistinct (keys m)
keys-IsDistinct [] h = tt
keys-IsDistinct ((k, v) ∷ m) h = (fresh-keys k m h.0, keys-IsDistinct m h.1)

In-keys : (r : ℤ) (m : Counts) → lookup r m ≢ none → In r (keys m)
unfolding lookup
In-keys r [] h = absurd (h refl)
In-keys r ((k, v) ∷ m) h = elim (Bool-cases (k ==ℤ r)) [
  | inl e ↦ inl (sym (==ℤ→eq k r e))
  | inr e ↦ inr (In-keys r m λ n. h (rw e n))
]

lookup-In : (r : ℤ) (m : Counts) → In r (keys m) → lookup r m ≢ none
unfolding lookup
lookup-In r [] h n = elim h [ ]
lookup-In r ((k, v) ∷ m) (inl e) n = ground (arith, ==ℤ_refl k)
lookup-In r ((k, v) ∷ m) (inr h) n = ground (arith, lookup-In r m h)

tally-pos : (s : RifSample) (samples : List RifSample) → In s samples → 0 < tally s.rif samples
tally-pos s [] h = elim h [ ]
tally-pos s (u ∷ samples) (inl e) = rw e (ground (arith, ==ℤ_refl u.rif))
tally-pos s (u ∷ samples) (inr h) = omega (arith, tally-pos s samples h)

In-rifs : (r : ℤ) (samples : List RifSample) → tally r samples ≢ 0 → In r (rifs samples)
In-rifs r [] h = absurd (h refl)
In-rifs r (s ∷ samples) h = elim (Bool-cases (s.rif ==ℤ r)) [
  | inl e ↦ inl (sym (==ℤ→eq s.rif r e))
  | inr e ↦ inr (In-rifs r samples λ z. h (ground arith))
]

module _ (samples : List RifSample) (m : Counts) (tallied : IsTally samples m) where
  samples-In-keys : All (λ s. In s.rif (keys m)) samples
  samples-In-keys = All-of-In _ samples λ s h.
      let some_of = tally-pos s samples h in In-keys s.rif m (ground (arith, tallied.tallied s.rif))

  keys-In-rifs : All (λ k. In k (rifs samples)) (keys m)
  keys-In-rifs =
      All-of-In _ (keys m)
        λ k h. In-rifs k samples λ z. lookup-In k m h (tallied.tallied k ∙ ap to_entry z)

  -- At the least key nothing is added up and nothing is passed.
  start-ScanInv :
      {F : Type 0} (of_int : ℤ → F) (fle : F → F → Bool) (target : F) (k : ℤ) (ks : List ℤ)
      → IsAscending (k ∷ ks)
      → All (λ s. In s.rif (k ∷ ks)) samples
      → All (λ j. In j (rifs samples)) (k ∷ ks)
      → ScanInv of_int fle target samples k ks (pos 0)
  start-ScanInv of_int fle target k ks asc inside occurs = record {
    ascending = asc;
    added =
        ap pos
          (sym (count_of-zero _ samples (All-map _ _ samples (λ s h. not_below s.rif h) inside)));
    placed = All-map _ _ samples (λ s h. inr h) inside;
    passed =
        All-map _ _ samples (λ s h b. absurd (let n = not_below s.rif h in ground arith)) inside;
    occurs = occurs;
  }
    where
      not_below : (x : ℤ) → In x (k ∷ ks) → ltb_ℤ x k ≡ false
      not_below x (inl e) = rw e (ground arith)
      not_below x (inr h) = let above : k <ℤ x = In-All (λ y. k <ℤ y) x ks asc.0 h in ground arith

-- The answer of computeQuantile at `q` on the samples of the window.
pub data QuantileSpec (fl : Float64) (q : fl.F) (samples : List RifSample)
    (answer : Option (ℤ × Bool)) : Type 0 where
  too_few :
      length samples < min_rif_samples
      → answer ≡ some (pos 0, false)
      → QuantileSpec fl q samples answer
  top :
      min_rif_samples ≤ length samples
      → fl.fle (fl.of_int (pos 1)) q ≡ true
      → answer ≡ some (max_int32, true)
      → QuantileSpec fl q samples answer
  ranked :
      (r : ℤ)
      → min_rif_samples ≤ length samples
      → IsQuantile fl.of_int fl.fle (fl.fmul q (fl.of_int (pos (length samples)))) samples r
      → answer ≡ some (r, true)
      → QuantileSpec fl q samples answer

module _ (fl : Float64) (laws : FloatLaws fl) where
  open fl use {F, of_int, fmul, flt, fle}

  ranked_answer :
      (q : F) (samples : List RifSample) (m : Counts)
      → IsTally samples m
      → min_rif_samples ≤ length samples
      → length samples ≤ 2 ^ 53
      → fle (of_int (pos 0)) q ≡ true
      → fle (of_int (pos 1)) q ≡ false
      → (r : ℤ) × (scan of_int fle m
            (fmul q (of_int (pos (length samples))))
            (sort_ints (keys m))
            (pos 0)
          ≡ some r)
        × IsQuantile of_int fle (fmul q (of_int (pos (length samples)))) samples r
  ranked_answer q samples m t many few low high =
      from_keys (sort_ints (keys m)) (sort_ints-IsAscending (keys m) (keys-IsDistinct m t.is_map))
        (All-map _ _ samples (λ s h. In-sort_ints s.rif (keys m) h) (samples-In-keys samples m t))
        (All-sort_ints _ (keys m) (keys-In-rifs samples m t))
    where
      target : F
      target = fmul q (of_int (pos (length samples)))

      from_keys :
          (ks : List ℤ)
          → IsAscending ks
          → All (λ s. In s.rif ks) samples
          → All (λ k. In k (rifs samples)) ks
          → (r : ℤ) × (scan of_int fle m target ks (pos 0) ≡ some r)
            × IsQuantile of_int fle target samples r
      from_keys [] asc inside occurs = absurd (no_sample samples many inside)
        where
          no_sample :
              (l : List RifSample) → min_rif_samples ≤ length l → All (λ s. In s.rif []) l → ⊥
          no_sample [] h i = omega arith
          no_sample (s ∷ l) h i = i.0
      from_keys (k ∷ ks) asc inside occurs =
          scan-IsQuantile of_int fle target samples m t k ks (pos 0)
            (laws.scale_le q (length samples) few low high)
            (start-ScanInv samples m t of_int fle target k ks asc inside occurs)

  -- For a q of at least 0, and samples that the counters tally, computeQuantile answers (0, false) below 16
  -- samples, (MaxInt32, true) for q of 1 or more, and otherwise the least observed value r with
  -- #{samples ≤ r} ≥ q * #samples; it never indexes an empty slice of keys.
  pub quantile_of-QuantileSpec :
      (q : F) (samples : List RifSample) (m : Counts)
      → IsTally samples m
      → length samples ≤ 2 ^ 53
      → fle (of_int (pos 0)) q ≡ true
      → QuantileSpec fl q samples (quantile_of fl q samples m)
  unfolding quantile_of
  quantile_of-QuantileSpec q samples m t few low =
      elim (Bool-cases (ltb (length samples) min_rif_samples)) [
        | inl e ↦ too_few (ground arith) (rw e refl)
        | inr e ↦ elim (Bool-cases (fle (of_int (pos 1)) q)) [
          | inl h ↦ top (ground arith) h (rw (e, h) refl)
          | inr h ↦
              let (r, found, spec) = ranked_answer q samples m t (ground arith) few low h in
              ranked r (ground arith) spec (
                let nonneg = laws.flt_of_fle (of_int (pos 0)) q low in
                ground (arith, nonneg, found))
        ]
      ]

  -- Under the laws of float64, for a distribution of at most 2^53 samples that its counters tally, and
  -- q not negative: computeQuantile evicts the samples before the first one after now - maxAge and
  -- answers on those that stay: not valid below 16 samples, MaxInt32 for q of 1 or more, and otherwise
  -- the least observed RIF whose number of samples at or below it reaches q times their number.
  pub compute_quantile-QuantileSpec :
      (q : F) (now : Time) (d : RifDistribution F)
      → IsTally d.samples d.counts
      → length d.samples ≤ 2 ^ 53
      → fle (of_int (pos 0)) q ≡ true
      → Evicted F (time_back now d.max_age) d (compute_quantile fl q now d).0
        × QuantileSpec fl q
            (from_first_recent (time_back now d.max_age) d.samples)
            (compute_quantile fl q now d).1
  unfolding compute_quantile
  compute_quantile-QuantileSpec q now d t few low =
      let cutoff = time_back now d.max_age in
      let d' = evict_locked fl cutoff d in
      let v = evict_locked-Evicted fl cutoff d t in
      let fewer : length d'.samples ≤ 2 ^ 53 =
        rw v.window (le_trans (length-from_first_recent cutoff d.samples) few) in
      (
        v,
        subst (λ l. QuantileSpec fl q l (quantile_of fl q d'.samples d'.counts)) v.window
            (quantile_of-QuantileSpec q d'.samples d'.counts v.tallied fewer low),
      )

last_key-some : (k : ℤ) (ks : List ℤ) → last_key (k ∷ ks) ≢ none
unfolding last_key
last_key-some k [] = λ e. cc
last_key-some k (j ∷ ks) = last_key-some j ks

or_else-some : (o p : Option ℤ) → p ≢ none → or_else o p ≢ none
or_else-some none p h = h
or_else-some (some a) p h = λ e. cc

last_key-sorted : (ks : List ℤ) → 0 < length ks → last_key (sort_ints ks) ≢ none
last_key-sorted ks h = nonempty (sort_ints ks) (rw (length-sort_ints ks) h)
  where
    nonempty : (l : List ℤ) → 0 < length l → last_key l ≢ none
    nonempty [] p = absurd (omega arith)
    nonempty (k ∷ l) p = last_key-some k l

length-keys :
    (samples : List RifSample) (m : Counts)
    → IsTally samples m
    → 0 < length samples
    → 0 < length (keys m)
length-keys [] m t h = absurd (omega arith)
length-keys (s ∷ samples) m t h = nonempty (keys m) (samples-In-keys (s ∷ samples) m t).0
  where
    nonempty : (l : List ℤ) → In s.rif l → 0 < length l
    nonempty [] i = elim i [ ]
    nonempty (k ∷ l) i = omega arith

-- Whatever q is, a NaN included, computeQuantile returns: on samples that the counters tally it never
-- takes the last of no keys.
pub quantile_of-ne-none :
    (fl : Float64) (q : fl.F) (samples : List RifSample) (m : Counts)
    → IsTally samples m
    → quantile_of fl q samples m ≢ none
unfolding quantile_of
quantile_of-ne-none fl q samples m t e =
    let q' : fl.F = if fl.flt q (fl.of_int (pos 0)) then fl.of_int (pos 0) else q in
    let target = fl.fmul q' (fl.of_int (pos (length samples))) in
    let ks = sort_ints (keys m) in
    ground (
      arith,
      or_else-some (scan fl.of_int fl.fle m target ks (pos 0)) (last_key ks),
      last_key-sorted (keys m),
      length-keys samples m t,
    )
