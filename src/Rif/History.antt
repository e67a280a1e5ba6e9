-- ===== src/Rif/History.antt =====
-- rif_distribution.go, Observe and Quantile in a history of calls: what an answer of Quantile rests on.
use prequal_nc.Base.{
  ◌≡◌, ◌⊎◌, refl, ap, subst, inl, inr, ℤ, ◌<ℤ◌, Bool, true, Option, none, some, List, [], ◌∷◌, ◌++◌,
  arith, Bool-cases,
}
use mathlib.Core.Option.{some-injective}
use prequal_nc.Float.{Float64}
use prequal_nc.Time.{Time, Duration, time_sub, time_back}
use prequal_nc.Rif.{
  RifDistribution, QuantileCache, quantile_cache_ttl, new_rif_distribution, observe,
  compute_quantile, is_cached, cached_value, store_quantile, quantile,
}
use prequal_nc.Rif.Window.{evict_locked-Evicted}
use prequal_nc.Rif.Cache.{
  Reached, new, observed, asked, Reached-IsTally, compute_quantile-state, store_quantile-answer,
}

-- A call of Observe or of Quantile.
pub data Event (F : Type 0) : Type 0 where
  observes : ℤ → Time → Event F
  asks : F → Time → Event F

module _ (fl : Float64) (window : Duration) where
  open fl use {F, feq}

  -- The distribution behind a history, whose last call stands first.
  unfoldable pub after : List (Event F) → RifDistribution F
  unfolding observe quantile new_rif_distribution
  after [] = new_rif_distribution fl window
  after (observes rif now ∷ h) = observe fl rif now (after h)
  after (asks q now ∷ h) = (quantile fl q now (after h)).0

  after-Reached : (h : List (Event F)) → Reached fl window (after h)
  unfolding after
  after-Reached [] = new
  after-Reached (observes rif now ∷ h) = observed rif now (after-Reached h)
  after-Reached (asks q now ∷ h) = asked q now (after-Reached h)

  -- The history has a call of Quantile for `q` at `at`, and `answer` is what computeQuantile gives on the
  -- distribution in front of that call.
  pub record Computed (h : List (Event F)) (q : F) (at : Time) (answer : Option (ℤ × Bool))
      : Type 0 where
    pub behind : List (Event F)
    pub before : List (Event F)
    pub call : h ≡ behind ++ asks q at ∷ before
    pub computed : answer ≡ (compute_quantile fl q at (after before)).1

  Computed-later :
      (e : Event F) (h : List (Event F)) (q : F) (at : Time) (answer : Option (ℤ × Bool))
      → Computed h q at answer
      → Computed (e ∷ h) q at answer
  Computed-later e h q at answer c = record {
    behind = e ∷ c.behind;
    before = c.before;
    call = ap (λ l. e ∷ l) c.call;
    computed = c.computed;
  }

  abbrev IsComputed : List (Event F) → QuantileCache F → Type 0
  IsComputed h c = Computed h c.q c.computed_at (some (c.theta, c.valid))

  abbrev AreComputed : List (Event F) → Option (QuantileCache F) → Type 0
  AreComputed h o = (c : QuantileCache F) → o ≡ some c → IsComputed h c

  stored-AreComputed :
      (h : List (Event F)) (q : F) (now : Time) (d : RifDistribution F) (answer : Option (ℤ × Bool))
      → AreComputed (asks q now ∷ h) d.cache
      → answer ≡ (compute_quantile fl q now (after h)).1
      → AreComputed (asks q now ∷ h) (store_quantile fl q now (d, answer)).0.cache
  unfolding store_quantile
  stored-AreComputed h q now d none v e = v
  stored-AreComputed h q now d (some (theta, valid)) v e = λ c s.
      subst (IsComputed (asks q now ∷ h)) (some-injective _ _ s)
        (record { behind = []; before = h; call = refl; computed = e })

  recomputed-AreComputed :
      (h : List (Event F)) (q : F) (now : Time)
      → AreComputed (asks q now ∷ h) (after h).cache
      → AreComputed
          (asks q now ∷ h)
          (store_quantile fl q now (compute_quantile fl q now (after h))).0.cache
  recomputed-AreComputed h q now v =
      let d = after h in
      let same =
        (evict_locked-Evicted fl (time_back now d.max_age) d
          (Reached-IsTally fl window (after-Reached h))).same_cache in
      stored-AreComputed h q now (compute_quantile fl q now d).0 (compute_quantile fl q now d).1
        (rw (compute_quantile-state fl q now d, same) v) refl

  asked-AreComputed :
      (h : List (Event F)) (q : F) (now : Time)
      → AreComputed h (after h).cache
      → AreComputed (asks q now ∷ h) (quantile fl q now (after h)).0.cache
  unfolding quantile
  asked-AreComputed h q now v =
      let later : AreComputed (asks q now ∷ h) (after h).cache =
        λ c e. Computed-later (asks q now) h c.q c.computed_at _ (v c e) in
      elim (Bool-cases (is_cached fl q now (after h).cache)) [
        | inl e ↦ rw e later
        | inr e ↦ rw e (recomputed-AreComputed h q now later)
      ]

  -- However Observe and Quantile follow one another, the cache holds what computeQuantile gave in a call of the
  -- history.
  after-AreComputed : (h : List (Event F)) → AreComputed h (after h).cache
  unfolding after new_rif_distribution observe
  after-AreComputed [] = λ c e. cc
  after-AreComputed (observes rif now ∷ h) =
      λ c e. Computed-later (observes rif now) h c.q c.computed_at _ (after-AreComputed h c e)
  after-AreComputed (asks q now ∷ h) = asked-AreComputed h q now (after-AreComputed h)

  -- What a caller may rely on: the answer was computed in this call of Quantile or in an earlier one of the
  -- history, less than 100 ms before, for the same q up to the comparison of floats or for q itself, on the
  -- distribution that the calls in front of it left.
  pub record Fresh (h : List (Event F)) (q : F) (now : Time) (answer : Option (ℤ × Bool))
      : Type 0 where
    pub asked_for : F
    pub same_q : (asked_for ≡ q) ⊎ (feq asked_for q ≡ true)
    pub at : Time
    pub recent : time_sub now at <ℤ quantile_cache_ttl
    pub source : Computed (asks q now ∷ h) asked_for at answer

  time_sub_self : (t : Time) → time_sub t t <ℤ quantile_cache_ttl
  unfolding time_sub
  time_sub_self t = ground arith

  cached-Fresh :
      (h : List (Event F)) (q : F) (now : Time) (o : Option (QuantileCache F))
      → AreComputed h o
      → is_cached fl q now o ≡ true
      → Fresh h q now (cached_value fl o)
  unfolding is_cached cached_value
  cached-Fresh h q now none v e = cc
  cached-Fresh h q now (some c) v e = record {
    asked_for = c.q;
    same_q = inr (ground arith);
    at = c.computed_at;
    recent = ground arith;
    source = Computed-later (asks q now) h c.q c.computed_at _ (v c refl);
  }

  -- Behind any calls of Observe and Quantile, an answer of Quantile is what computeQuantile gives in that call
  -- or gave in an earlier call of Quantile of these, for the same q and less than 100 ms before, on the
  -- distribution as the calls in front of that one had left it.
  pub quantile-Fresh :
      (h : List (Event F)) (q : F) (now : Time) → Fresh h q now (quantile fl q now (after h)).1
  unfolding quantile
  quantile-Fresh h q now =
      let d = after h in
      elim (Bool-cases (is_cached fl q now d.cache)) [
        | inl e ↦ rw e (cached-Fresh h q now d.cache (after-AreComputed h) e)
        | inr e ↦
            rw (e, store_quantile-answer fl q now (compute_quantile fl q now d))
              (record {
                asked_for = q;
                same_q = inl refl;
                at = now;
                recent = time_sub_self now;
                source = record { behind = []; before = h; call = refl; computed = refl };
              })
      ]
