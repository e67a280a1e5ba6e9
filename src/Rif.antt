-- ===== src/Rif.antt =====
-- pkg/loadbalancer/rif_distribution.go: the requests-in-flight values of recent probes in a sliding
-- window, their tallies, and the cached quantile. `now` and the window are arguments; the mutex makes
-- each method one step.
pub mod Tally
pub mod Window
pub mod Scan
pub mod Quantile
pub mod Cache
pub mod History
pub mod Tests
use prequal_nc.Base.{
  ℕ, ◌+◌, ◌-◌, ◌*◌, ◌/◌, ℤ, pos, max_int32, ◌+ℤ◌, ◌-ℤ◌, ◌==ℤ◌, ltb_ℤ, Bool, true, false, not,
  Option, none, some, List, [], ◌∷◌, ◌++◌, map, ◌&&◌, ltb, leb, ◌==◌, if◌then◌else◌, length, keep,
  take, drop, sort_ints,
}
use prequal_nc.Float.{Float64}
use prequal_nc.Time.{Time, Duration, is_after, time_sub, time_back, millisecond}

abbrev pub min_rif_samples : ℕ
min_rif_samples = 16

abbrev pub quantile_cache_ttl : Duration
quantile_cache_ttl = pos (100 * 1_000_000)

pub record RifSample : Type 0 where
  pub rif : ℤ
  pub t : Time

-- `counts map[int32]int`, in the order in which its keys were inserted. The tallies never pass the
-- number of samples, so they are integers without wrap-around.
abbrev pub Counts : Type 0
Counts = List (ℤ × ℤ)

unfoldable pub lookup : ℤ → Counts → Option ℤ
lookup r [] = none
lookup r ((k, v) ∷ m) = if k ==ℤ r then some v else lookup r m

-- `m[r]`: a missing key reads as 0.
unfoldable pub count_at : ℤ → Counts → ℤ
unfolding lookup
count_at r m = elim (lookup r m) [ none ↦ pos 0 | some v ↦ v ]

-- `m[r] = v`.
unfoldable pub put : ℤ → ℤ → Counts → Counts
put r v [] = (r, v) ∷ []
put r v ((k, w) ∷ m) = if k ==ℤ r then (k, v) ∷ m else (k, w) ∷ put r v m

-- `delete(m, r)`.
unfoldable pub delete : ℤ → Counts → Counts
delete r = keep λ kv. not (kv.0 ==ℤ r)

-- `m[r]++`.
unfoldable pub increment : ℤ → Counts → Counts
unfolding count_at put ◌+ℤ◌
increment r m = put r (count_at r m +ℤ pos 1) m

-- `m[r]--`, and the key is deleted when it falls to 0.
unfoldable pub decrement : ℤ → Counts → Counts
unfolding count_at put delete ◌-ℤ◌
decrement r m =
    let m' = put r (count_at r m -ℤ pos 1) m in if count_at r m' ==ℤ pos 0 then delete r m' else m'

pub record QuantileCache (F : Type 0) : Type 0 where
  pub q : F
  pub theta : ℤ
  pub valid : Bool
  pub computed_at : Time

pub record RifDistribution (F : Type 0) : Type 0 where
  pub samples : List RifSample
  pub counts : Counts
  pub max_age : Duration
  pub cache : Option (QuantileCache F)

-- The loop of evictLocked over the samples that are left: how many it passes, and the tallies after it.
unfoldable pub evict_loop : Time → List RifSample → Counts → ℕ × Counts
unfolding decrement
evict_loop cutoff [] m = (0, m)
evict_loop cutoff (s ∷ rest) m =
    let later = evict_loop cutoff rest (decrement s.rif m) in
    if is_after s.t cutoff then (0, m) else (later.0 + 1, later.1)

-- copy(dst, src), for src no longer than dst.
abbrev pub copy {ℓ} : {A : Type ℓ} → List A → List A → List A
copy dst src = src ++ drop (length src) dst

-- What evictLocked does with the slice after a loop that passed `cut` samples.
unfoldable pub cut_samples : ℕ → List RifSample → List RifSample
cut_samples cut samples =
    if cut == 0
    then samples
    else if leb (length samples) cut
    then []
    else if ltb (length samples / 2) cut
    then take (length samples - cut) (copy samples (drop cut samples))
    else drop cut samples

-- The loop of computeQuantile over the sorted keys; `none` if it ends with no return.
unfoldable pub scan : {F : Type 0} → (ℤ → F) → (F → F → Bool) → Counts → F → List ℤ → ℤ → Option ℤ
unfolding count_at ◌+ℤ◌
scan of_int fle m target [] acc = none
scan of_int fle m target (r ∷ keys) acc =
    let acc' = acc +ℤ count_at r m in
    let rest = scan of_int fle m target keys acc' in
    if fle target (of_int acc') then some r else rest

-- `keys[len(keys)-1]`; `none` is the panic on an empty slice.
unfoldable pub last_key : List ℤ → Option ℤ
last_key [] = none
last_key (k ∷ []) = some k
last_key (k ∷ l ∷ keys) = last_key (l ∷ keys)

abbrev pub or_else {ℓ} : {A : Type ℓ} → Option A → Option A → Option A
or_else (some a) o = some a
or_else none o = o

module _ (fl : Float64) where
  open fl use {F, of_int, fmul, flt, fle, feq}

  -- NewRIFDistribution.
  unfoldable pub new_rif_distribution : Duration → RifDistribution F
  new_rif_distribution window = record { samples = []; counts = []; max_age = window; cache = none }

  -- Observe.
  unfoldable pub observe : ℤ → Time → RifDistribution F → RifDistribution F
  unfolding increment
  observe rif now d = record d {
    samples = d.samples ++ record { rif = rif; t = now } ∷ [];
    counts = increment rif d.counts;
  }

  -- evictLocked.
  unfoldable pub evict_locked : Time → RifDistribution F → RifDistribution F
  unfolding evict_loop cut_samples
  evict_locked cutoff d =
      let r = evict_loop cutoff d.samples d.counts in
      record d { samples = cut_samples r.0 d.samples; counts = r.1 }

  -- The part of computeQuantile after the eviction. `none` is the panic of an index out of range.
  unfoldable pub quantile_of : F → List RifSample → Counts → Option (ℤ × Bool)
  unfolding scan last_key sort_ints
  quantile_of q samples m =
      if ltb (length samples) min_rif_samples
      then some (pos 0, false)
      else if fle (of_int (pos 1)) q
      then some (max_int32, true)
      else let q' = if flt q (of_int (pos 0)) then of_int (pos 0) else q in
        let keys = sort_ints (map (λ (kv : ℤ × ℤ). kv.0) m) in
        let target = fmul q' (of_int (pos (length samples))) in
        elim (or_else (scan of_int fle m target keys (pos 0)) (last_key keys)) [
          | none ↦ none
          | some r ↦ some (r, true)
        ]

  -- computeQuantile: the distribution after the eviction, and the result.
  unfoldable pub compute_quantile :
      F → Time → RifDistribution F → RifDistribution F × Option (ℤ × Bool)
  unfolding evict_locked quantile_of time_back
  compute_quantile q now d =
      let d' = evict_locked (time_back now d.max_age) d in (d', quantile_of q d'.samples d'.counts)

  -- The test by which Quantile answers from its cache.
  unfoldable pub is_cached : F → Time → Option (QuantileCache F) → Bool
  unfolding time_sub
  is_cached q now none = false
  is_cached q now (some c) = feq c.q q && ltb_ℤ (time_sub now c.computed_at) quantile_cache_ttl

  -- The value in the cache.
  unfoldable pub cached_value : Option (QuantileCache F) → Option (ℤ × Bool)
  cached_value none = none
  cached_value (some c) = some (c.theta, c.valid)

  -- Quantile's path past the cache: a panic of computeQuantile leaves the cache as it was.
  unfoldable pub store_quantile :
      F → Time → RifDistribution F × Option (ℤ × Bool) → RifDistribution F × Option (ℤ × Bool)
  store_quantile q now (d, none) = (d, none)
  store_quantile q now (d, some (theta, valid)) = (
    record d { cache = some (record { q = q; theta = theta; valid = valid; computed_at = now }) },
    some (theta, valid),
  )

  -- Quantile.
  unfoldable pub quantile : F → Time → RifDistribution F → RifDistribution F × Option (ℤ × Bool)
  unfolding is_cached cached_value compute_quantile store_quantile
  quantile q now d =
      if is_cached q now d.cache
      then (d, cached_value d.cache)
      else store_quantile q now (compute_quantile q now d)
