-- ===== src/Balancer/Select/Scan.antt =====
-- balancer.go, the loop of selectServerPrequal: the hot-cold rule.
use prequal_nc.Base.{
  ℕ, suc, ◌+◌, ◌<◌, ◌≡◌, refl, ap, sym, subst, ◌∙◌, inl, inr, ℤ, ltb_ℤ, Bool, false, not, ◌&&◌,
  Option, none, some, List, [], ◌∷◌, arith, Bool-cases, count_of, count_of-zero, All, All-map,
  All-zip, if◌then◌else◌,
}
use prequal_nc.Base.Best.{improve, less-IsBetter, best_loop, best_loop-IsBest, Chosen, IsBest}
use prequal_nc.Time.{Time, Duration}
use prequal_nc.Types.{EntryRef}
use prequal_nc.Pool.{Heap}
use prequal_nc.Balancer.{PickClass, cold, hot}
use prequal_nc.Balancer.Select.{Best, is_stale, select_step, select_loop, winner_of}

module _ (at : Heap) (theta : ℤ) (ttl : Duration) (now : Time) where
  -- Entries younger than the TTL, whose RIF is above the threshold or not.
  abbrev pub is_fresh : EntryRef → Bool
  is_fresh e = not (is_stale at ttl now e)

  abbrev pub is_hot : EntryRef → Bool
  is_hot e = is_fresh e && ltb_ℤ theta (at e).rif

  abbrev pub is_cold : EntryRef → Bool
  is_cold e = is_fresh e && not (ltb_ℤ theta (at e).rif)

  abbrev hot_loop : ℕ → Option (EntryRef × ℤ) → List EntryRef → Option (EntryRef × ℤ)
  hot_loop = best_loop ltb_ℤ is_hot (λ e. (at e).rif) (λ i e. e)

  abbrev cold_loop : ℕ → Option (EntryRef × ℤ) → List EntryRef → Option (EntryRef × ℤ)
  cold_loop = best_loop ltb_ℤ is_cold (λ e. (at e).latency) (λ i e. e)

  step_fields :
      (i : ℕ) (e : EntryRef) (b : Best)
      → ((select_step at theta ttl now e b).hot
          ≡ (if is_hot e then improve ltb_ℤ e (at e).rif b.hot else b.hot))
        × ((select_step at theta ttl now e b).cold
            ≡ (if is_cold e then improve ltb_ℤ e (at e).latency b.cold else b.cold))
        × ((select_step at theta ttl now e b).fresh ≡ b.fresh + (if is_fresh e then 1 else 0))
  unfolding select_step
  step_fields i e b = elim (Bool-cases (is_stale at ttl now e)) [
    | inl s ↦ rw s (refl, refl, omega arith)
    | inr s ↦ elim (Bool-cases (ltb_ℤ theta (at e).rif)) [
      | inl h ↦ rw (s, h) (refl, refl, refl)
      | inr h ↦ rw (s, h) (refl, refl, refl)
    ]
  ]

  select_loop-loops :
      (i : ℕ) (entries : List EntryRef) (b : Best)
      → ((select_loop at theta ttl now entries b).hot ≡ hot_loop i b.hot entries)
        × ((select_loop at theta ttl now entries b).cold ≡ cold_loop i b.cold entries)
        × ((select_loop at theta ttl now entries b).fresh ≡ b.fresh + count_of is_fresh entries)
  unfolding select_loop best_loop
  select_loop-loops i [] b = (refl, refl, omega arith)
  select_loop-loops i (e ∷ entries) b =
      let b' = select_step at theta ttl now e b in
      let (eh, ec, ef) = step_fields i e b in
      let (h, c, f) = select_loop-loops (suc i) entries b' in
      (
        h ∙ ap (λ o. hot_loop (suc i) o entries) eh,
        c ∙ ap (λ o. cold_loop (suc i) o entries) ec,
        omega arith,
      )

  -- The hot-cold rule: the first cold entry of least latency, and where no fresh entry is cold the first
  -- hot entry of least RIF.
  pub data IsHotCold (entries : List EntryRef) (e : EntryRef) : PickClass → Type 0 where
    cold_pick :
        {class : PickClass} (k : ℤ)
        → Chosen ltb_ℤ is_cold (λ f. (at f).latency) (λ i f. f) entries e k
        → class ≡ cold
        → IsHotCold entries e class
    hot_pick :
        {class : PickClass} (k : ℤ)
        → All (λ f. is_cold f ≡ false) entries
        → Chosen ltb_ℤ is_hot (λ f. (at f).rif) (λ i f. f) entries e k
        → class ≡ hot
        → IsHotCold entries e class

  abbrev pub scan_entries : List EntryRef → Best
  scan_entries entries =
      select_loop at theta ttl now entries (record { hot = none; cold = none; fresh = 0 })

  both_cases : (e : EntryRef) → is_hot e ≡ false → is_cold e ≡ false → is_fresh e ≡ false
  both_cases e h c = ground arith

  winner-IsHotCold :
      (entries : List EntryRef) (h c : Option (EntryRef × ℤ)) (n : ℕ)
      → IsBest ltb_ℤ is_hot (λ f. (at f).rif) (λ i f. f) entries h
      → IsBest ltb_ℤ is_cold (λ f. (at f).latency) (λ i f. f) entries c
      → 0 < count_of is_fresh entries
      → (e : EntryRef) × (class : PickClass) × (winner_of (record { hot = h; cold = c; fresh = n })
          ≡ some (e, class))
        × IsHotCold entries e class
  unfolding winner_of
  winner-IsHotCold entries h (some (e, k)) n hb cb one = (e, cold, refl, cold_pick k cb refl)
  winner-IsHotCold entries (some (e, k)) none n hb cb one = (e, hot, refl, hot_pick k cb hb refl)
  winner-IsHotCold entries none none n hb cb one =
      let stale = All-map _ _ entries (λ e t. both_cases e t.0 t.1) (All-zip _ _ entries hb cb) in
      absurd (let z = count_of-zero is_fresh entries stale in omega arith)

  -- The loop counts the fresh entries, and where there is one, the winner is never nil and is the one of
  -- the hot-cold rule.
  pub scan_entries-IsHotCold :
      (entries : List EntryRef)
      → ((scan_entries entries).fresh ≡ count_of is_fresh entries)
        × (0 < count_of is_fresh entries
            → (e : EntryRef) × (class : PickClass) × (winner_of (scan_entries entries)
                ≡ some (e, class))
              × IsHotCold entries e class)
  scan_entries-IsHotCold entries =
      let (h, c, f) = select_loop-loops 0 entries (record { hot = none; cold = none; fresh = 0 }) in
      let b = scan_entries entries in
      (
        omega arith,
        λ some_fresh.
            winner-IsHotCold entries b.hot b.cold b.fresh
              (subst (IsBest ltb_ℤ is_hot (λ f. (at f).rif) (λ i f. f) entries) (sym h)
                (best_loop-IsBest _ _ _ _ less-IsBetter entries))
              (subst (IsBest ltb_ℤ is_cold (λ f. (at f).latency) (λ i f. f) entries) (sym c)
                (best_loop-IsBest _ _ _ _ less-IsBetter entries))
              some_fresh,
      )
