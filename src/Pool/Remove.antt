-- ===== src/Pool/Remove.antt =====
-- balancer.go, removeWorst and the loop of applyRRemove: which entries leave the pool.
use prequal_nc.Base.{
  ℕ, suc, ◌+◌, ◌<◌, ◌≡◌, refl, ap, sym, subst, ◌∙◌, inl, inr, ℤ, pos, ◌≤ℤ◌, ◌<ℤ◌, ltb_ℤ, Bool, true,
  false, not, Option, none, some, List, [], ◌∷◌, ◌++◌, map, arith, Bool-cases, length, take, drop,
  All, All-map, All-split, All-zip, sort_ints, length-sort_ints, length-map,
}
use prequal_nc.Base.Best.{greater, greater-IsBetter, best_loop, best_loop-IsBest, Chosen, IsBest}
use prequal_nc.Base.Rank.{IsAtRank, sort_ints-IsAtRank}
use prequal_nc.Float.{Float64}
use prequal_nc.Types.{EntryRef}
use prequal_nc.Pool.{
  Heap, Worst, worst_loop, victim, drop_victim, without, quantile_index, rif_threshold,
  remove_worst,
}

module _ (at : Heap) (threshold : ℤ) where
  abbrev is_hot : EntryRef → Bool
  is_hot e = ltb_ℤ threshold (at e).rif

  abbrev hot_loop : ℕ → Option (ℕ × ℤ) → List EntryRef → Option (ℕ × ℤ)
  hot_loop = best_loop greater is_hot (λ e. (at e).rif) (λ i e. i)

  abbrev cold_loop : ℕ → Option (ℕ × ℤ) → List EntryRef → Option (ℕ × ℤ)
  cold_loop = best_loop greater (λ e. not (is_hot e)) (λ e. (at e).latency) (λ i e. i)

  -- The one loop is two: over the entries above the threshold, and over the others.
  worst_loop-loops :
      (i : ℕ) (w : Worst) (pool : List EntryRef)
      → ((worst_loop at threshold i w pool).hot ≡ hot_loop i w.hot pool)
        × ((worst_loop at threshold i w pool).cold ≡ cold_loop i w.cold pool)
  unfolding worst_loop best_loop
  worst_loop-loops i w [] = (refl, refl)
  worst_loop-loops i w (e ∷ pool) = elim (Bool-cases (is_hot e)) [
    | inl h ↦ rw (h, worst_loop) (worst_loop-loops (suc i) _ pool)
    | inr h ↦ rw (h, worst_loop) (worst_loop-loops (suc i) _ pool)
  ]

  -- `v` is the entry to remove: the first of the greatest RIF if some RIF is above the threshold, and
  -- otherwise the first of the greatest latency.
  pub data IsWorst (before : List EntryRef) (v : EntryRef) (after : List EntryRef) : Type 0 where
    hottest :
        threshold <ℤ (at v).rif
        → All (λ e. (at e).rif <ℤ (at v).rif) before
        → All (λ e. (at e).rif ≤ℤ (at v).rif) after
        → IsWorst before v after
    slowest :
        All (λ e. (at e).rif ≤ℤ threshold) (before ++ v ∷ after)
        → All (λ e. (at e).latency <ℤ (at v).latency) before
        → All (λ e. (at e).latency ≤ℤ (at v).latency) after
        → IsWorst before v after

  pub record Removed (pool rest : List EntryRef) : Type 0 where
    pub before : List EntryRef
    pub gone : EntryRef
    pub after : List EntryRef
    pub split : pool ≡ before ++ gone ∷ after
    pub left : rest ≡ before ++ after
    pub worst : IsWorst before gone after

without-append :
    (before : List EntryRef) (v : EntryRef) (after : List EntryRef)
    → without (length before) (before ++ v ∷ after) ≡ before ++ after
without-append [] v after = refl
without-append (b ∷ before) v after =
    ap (λ k. b ∷ (take (length before) (before ++ v ∷ after) ++ drop k (b ∷ (before ++ v ∷ after))))
      {y = suc (length before + 1)} (omega arith)
    ∙ ap (◌∷◌ b) (without-append before v after)

module _ (at : Heap) (threshold : ℤ) where
  abbrev no_worst : Worst
  no_worst = record { hot = none; cold = none }

  hot-IsWorst :
      (pool : List EntryRef) (i : ℕ) (k : ℤ)
      → Chosen greater (is_hot at threshold) (λ e. (at e).rif) (λ i e. i) pool i k
      → Removed at threshold pool (without i pool)
  hot-IsWorst pool i k c = record {
    before = c.before;
    gone = c.best;
    after = c.after;
    split = c.split;
    left =
        ap (without i) c.split
        ∙ ap (λ j. without j (c.before ++ c.best ∷ c.after)) c.kept
        ∙ without-append c.before c.best c.after;
    worst =
        hottest (ground (arith, c.passes))
          (All-map _ _ c.before (λ y t. above_all y (λ h. t h)) c.beats)
          (All-map _ _ c.after (λ y t. not_above y (λ h. t h)) c.unbeaten);
  }
    where
      above_all :
          (y : EntryRef)
          → (is_hot at threshold y ≡ true → greater k (at y).rif ≡ true)
          → (at y).rif <ℤ (at c.best).rif
      above_all y t = elim (Bool-cases (is_hot at threshold y)) [
        | inl h ↦ ground (arith, subst (λ j. greater j (at y).rif ≡ true) c.key (t h))
        | inr h ↦ ground (arith, c.passes)
      ]

      not_above :
          (y : EntryRef)
          → (is_hot at threshold y ≡ true → greater (at y).rif k ≡ false)
          → (at y).rif ≤ℤ (at c.best).rif
      not_above y t = elim (Bool-cases (is_hot at threshold y)) [
        | inl h ↦ ground (arith, subst (λ j. greater (at y).rif j ≡ false) c.key (t h))
        | inr h ↦ ground (arith, c.passes)
      ]

  cold-IsWorst :
      (pool : List EntryRef) (i : ℕ) (k : ℤ)
      → All (λ e. is_hot at threshold e ≡ false) pool
      → Chosen greater (λ e. not (is_hot at threshold e)) (λ e. (at e).latency) (λ i e. i) pool i k
      → Removed at threshold pool (without i pool)
  cold-IsWorst pool i k none_hot c =
      let all_cold = subst (All (λ e. is_hot at threshold e ≡ false)) c.split none_hot in
      let cold_parts = All-split _ c.before (c.best ∷ c.after) all_cold in
      record {
        before = c.before;
        gone = c.best;
        after = c.after;
        split = c.split;
        left =
            ap (without i) c.split
            ∙ ap (λ j. without j (c.before ++ c.best ∷ c.after)) c.kept
            ∙ without-append c.before c.best c.after;
        worst =
            slowest (All-map _ _ (c.before ++ c.best ∷ c.after) (λ y h. ground arith) all_cold)
              (All-map _ _ c.before
                (λ y t.
                  ground
                    (arith, subst (λ j. greater j (at y).latency ≡ true) c.key (t.1 (ap not t.0))))
                (All-zip _ _ c.before cold_parts.0 c.beats))
              (All-map _ _ c.after
                (λ y t.
                  ground
                    (arith, subst (λ j. greater (at y).latency j ≡ false) c.key (t.1 (ap not t.0))))
                (All-zip _ _ c.after cold_parts.1.1 c.unbeaten));
      }

  drop_victim-Removed :
      (e : EntryRef) (rest : List EntryRef) (hot cold : Option (ℕ × ℤ))
      → IsBest greater (is_hot at threshold) (λ e. (at e).rif) (λ i e. i) (e ∷ rest) hot
      → IsBest greater
          (λ e. not (is_hot at threshold e))
          (λ e. (at e).latency)
          (λ i e. i)
          (e ∷ rest)
          cold
      → Removed at threshold
          (e ∷ rest)
          (drop_victim (victim (record { hot = hot; cold = cold })) (e ∷ rest))
  unfolding victim drop_victim
  drop_victim-Removed e rest (some (i, k)) cold h c = hot-IsWorst (e ∷ rest) i k h
  drop_victim-Removed e rest none (some (i, k)) h c = cold-IsWorst (e ∷ rest) i k h c
  drop_victim-Removed e rest none none h c = absurd (both (is_hot at threshold e) h.0 c.0)
    where
      both : (b : Bool) → b ≡ false → not b ≡ false → ⊥
      both true x y = cc
      both false x y = cc

module _ (fl : Float64) (at : Heap) (qrif : fl.F) where
  remove_worst-cons :
      (e : EntryRef) (rest : List EntryRef)
      → remove_worst fl at qrif (e ∷ rest)
        ≡ drop_victim
            (victim (
              worst_loop at
                (rif_threshold fl at qrif (e ∷ rest))
                0
                (record { hot = none; cold = none })
                (e ∷ rest)))
            (e ∷ rest)
  unfolding remove_worst
  remove_worst-cons e rest = refl

  -- On a pool that is not empty removeWorst takes out exactly one entry and keeps the others in order:
  -- the first of the greatest RIF if some RIF is above the threshold, and otherwise the first of the
  -- greatest latency.
  pub remove_worst-Removed :
      (e : EntryRef) (rest : List EntryRef)
      → Removed at
          (rif_threshold fl at qrif (e ∷ rest))
          (e ∷ rest)
          (remove_worst fl at qrif (e ∷ rest))
  remove_worst-Removed e rest =
      let pool = e ∷ rest in
      let threshold = rif_threshold fl at qrif pool in
      let w = worst_loop at threshold 0 (no_worst at threshold) pool in
      let (hot, cold) = worst_loop-loops at threshold 0 (no_worst at threshold) pool in
      rw (remove_worst-cons e rest) (
        drop_victim-Removed at threshold e rest w.hot w.cold
          (subst (IsBest greater (is_hot at threshold) (λ e. (at e).rif) (λ i e. i) pool) (sym hot)
            (best_loop-IsBest _ _ _ _ greater-IsBetter pool))
          (subst
            (IsBest greater (λ e. not (is_hot at threshold e)) (λ e. (at e).latency) (λ i e. i)
              pool)
            (sym cold) (best_loop-IsBest _ _ _ _ greater-IsBetter pool)))

  pub quantile_index-lt : (n : ℕ) → 0 < n → quantile_index fl qrif n < n
  unfolding quantile_index
  quantile_index-lt n h = ground arith

  -- On a pool that is not empty, the threshold of removeWorst is the RIF at index qIdx in the order of
  -- the RIFs of the pool, and qIdx is an index of the pool, whatever the quantile is.
  rif_threshold-IsAtRank :
      (pool : List EntryRef)
      → 0 < length pool
      → (quantile_index fl qrif (length pool) < length pool)
        × IsAtRank
            (map (λ e. (at e).rif) pool)
            (quantile_index fl qrif (length pool))
            (rif_threshold fl at qrif pool)
  unfolding rif_threshold
  rif_threshold-IsAtRank pool h =
      let rifs = map (λ e. (at e).rif) pool in
      let same : length (sort_ints rifs) ≡ length pool =
        length-sort_ints rifs ∙ length-map (λ e. (at e).rif) pool in
      let i = quantile_index fl qrif (length pool) in
      let within = quantile_index-lt (length pool) h in
      (
        within,
        rw same (
            sort_ints-IsAtRank rifs i (pos 0)
              (omega (arith, length-map (λ (e : EntryRef). (at e).rif) pool))),
      )
