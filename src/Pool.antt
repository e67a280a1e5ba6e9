-- ===== src/Pool.antt =====
-- pkg/loadbalancer/balancer.go, the operations on the probe pool: a list of pointers to entries, oldest
-- first. `at` is the heap of entries, which the operations read.
pub mod Remove
pub mod Loop
pub mod Prune
pub mod Tests
use prequal_nc.Base.{
  ℕ, zero, suc, ◌+◌, ◌-◌, ℤ, pos, negsuc, pos_part, ltb_ℤ, leb_ℤ, Bool, not, Option, none, some,
  List, [], ◌∷◌, ◌++◌, map, ltb, if◌then◌else◌, length, get_or, take, drop, sort_ints, keep, ◌==◌,
}
use prequal_nc.Base.Best.{improve, greater}
use prequal_nc.Float.{Float64}
use prequal_nc.Time.{Time, Duration, is_after, time_back}
use prequal_nc.Types.{EntryRef, ProbePoolEntry}

abbrev pub Heap : Type 0
Heap = EntryRef → ProbePoolEntry

-- appendPool.
unfoldable pub append_pool : List EntryRef → EntryRef → ℕ → List EntryRef
append_pool pool entry cap =
    let next = pool ++ entry ∷ [] in if ltb cap (length next) then drop 1 next else next

-- The expiry of old entries in handleProbeResult.
unfoldable pub prune : Heap → Duration → Time → List EntryRef → List EntryRef
unfolding time_back
prune at ttl now cur =
    if ltb_ℤ (pos 0) ttl
    then keep (λ e. is_after (at e).received_at (time_back now ttl)) cur
    else cur

-- removeOldest.
unfoldable pub remove_oldest : List EntryRef → List EntryRef
remove_oldest [] = []
remove_oldest (e ∷ pool) = pool

-- worstHotIdx with worstHotRIF, and worstColdIdx with worstColdLatency; `none` is the index -1.
pub record Worst : Type 0 where
  pub hot : Option (ℕ × ℤ)
  pub cold : Option (ℕ × ℤ)

-- The loop of removeWorst over the entries from index `i` on.
unfoldable pub worst_loop : Heap → ℤ → ℕ → Worst → List EntryRef → Worst
unfolding improve
worst_loop at threshold i w [] = w
worst_loop at threshold i w (e ∷ pool) =
    worst_loop at threshold (suc i)
      (if ltb_ℤ threshold (at e).rif
        then record w { hot = improve greater i (at e).rif w.hot }
        else record w { cold = improve greater i (at e).latency w.cold })
      pool

-- `victimIdx`.
unfoldable pub victim : Worst → Option (ℕ × ℤ)
victim w = elim w.hot [ some v ↦ some v | none ↦ w.cold ]

-- The pool without the element at an index.
abbrev pub without : ℕ → List EntryRef → List EntryRef
without i pool = take i pool ++ drop (i + 1) pool

-- The slice without the victim; the pool itself if there is none.
unfoldable pub drop_victim : Option (ℕ × ℤ) → List EntryRef → List EntryRef
drop_victim none pool = pool
drop_victim (some (i, k)) pool = without i pool

module _ (fl : Float64) where
  open fl use {F, of_int, trunc, fmul}

  -- qIdx, for a pool of `n` entries.
  unfoldable pub quantile_index : F → ℕ → ℕ
  quantile_index qrif n =
      let i = trunc (fmul (of_int (pos (n - 1))) qrif) in
      let i' = if ltb_ℤ i (pos 0) then pos 0 else i in
      if leb_ℤ (pos n) i' then n - 1 else pos_part i'

  -- The threshold of removeWorst. The index is within the sorted slice of a pool that is not empty.
  unfoldable pub rif_threshold : Heap → F → List EntryRef → ℤ
  unfolding quantile_index sort_ints
  rif_threshold at qrif pool =
      let rifs = sort_ints (map (λ e. (at e).rif) pool) in
      get_or rifs (quantile_index qrif (length rifs)) (pos 0)

  -- removeWorst.
  unfoldable pub remove_worst : Heap → F → List EntryRef → List EntryRef
  unfolding rif_threshold worst_loop victim drop_victim
  remove_worst at qrif [] = []
  remove_worst at qrif (e ∷ rest) =
      let pool = e ∷ rest in
      let w =
        worst_loop at (rif_threshold at qrif pool) 0 (record { hot = none; cold = none }) pool in
      drop_victim (victim w) pool

  -- The loop of applyRRemove: `n` removals at most, by turns of the oldest and of the worst entry.
  unfoldable pub remove_loop : Heap → F → ℕ → Bool → List EntryRef → List EntryRef × Bool
  remove_loop at qrif zero alt pool = (pool, alt)
  remove_loop at qrif (suc n) alt [] = ([], alt)
  remove_loop at qrif (suc n) alt (e ∷ rest) =
      remove_loop at qrif n (not alt)
        (if alt then remove_oldest (e ∷ rest) else remove_worst at qrif (e ∷ rest))
