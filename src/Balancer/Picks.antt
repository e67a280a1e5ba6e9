-- ===== src/Balancer/Picks.antt =====
-- balancer.go, recordPick and the picks of DebugSnapshot: the ring of the last 100 picks.
pub mod History
use prequal_nc.Base.{ℕ, zero, suc, ◌+◌, ◌-◌, ◌%◌, ℤ, List, [], ◌∷◌, ltb, if◌then◌else◌, set, get_or}
use prequal_nc.Balancer.{PickRecord, PickRing, recent_picks_cap, empty_pick}

-- recordPick, behind the construction of the record. The index is below 100.
unfoldable pub record_pick : PickRecord → PickRing → PickRing
record_pick rec r = record {
  recent_picks = set r.recent_picks r.recent_picks_idx rec;
  recent_picks_idx = (r.recent_picks_idx + 1) % recent_picks_cap;
  recent_picks_len =
      if ltb r.recent_picks_len recent_picks_cap
      then r.recent_picks_len + 1
      else r.recent_picks_len;
}

-- The index of the pick that is `k` picks back; the sum `idx - 1 - k + 100` is not negative.
abbrev pub pick_index : PickRing → ℕ → ℕ
pick_index r k = (r.recent_picks_idx + recent_picks_cap - 1 - k) % recent_picks_cap

-- The loop of DebugSnapshot over the picks, from `k` on, with `n` rounds left.
unfoldable pub picks_from : PickRing → ℕ → ℕ → List PickRecord
picks_from r zero k = []
picks_from r (suc n) k = get_or r.recent_picks (pick_index r k) empty_pick ∷ picks_from r n (suc k)

-- The picks that DebugSnapshot shows.
unfoldable pub recent_picks : PickRing → List PickRecord
unfolding picks_from
recent_picks r = picks_from r r.recent_picks_len 0
