-- ===== src/Pool/Tests.antt =====
-- Operations on a small pool, and their theorems at it.
use prequal_nc.Base.{◌+◌, ◌-◌, ◌≡◌, refl, pos, true, false, List, [], ◌∷◌}
use prequal_nc.Centi.{Centi}
use prequal_nc.Types.{EntryRef}
use prequal_nc.Pool.{Heap, rif_threshold, remove_oldest, remove_worst, remove_loop}
use prequal_nc.Pool.Remove.{Removed, remove_worst-Removed}

-- Entry n was received at n, has RIF 3, 4, 5 or 6 and the latency 20 - n.
abbrev heap : Heap
heap e = record {
  server = e;
  received_at = pos e;
  rif = pos (3 + e);
  latency = pos (20 - e);
  remaining_uses = pos 2;
}

abbrev small_pool : List EntryRef
small_pool = 1 ∷ 3 ∷ 0 ∷ 2 ∷ []

-- The threshold is the RIF 5 at index 2 of 3 4 5 6, so entry 3 is hot and leaves.
hottest_leaves : remove_worst Centi heap (pos 84) small_pool ≡ 1 ∷ 0 ∷ 2 ∷ []
unfolding remove_worst
hottest_leaves = refl

-- With the threshold at the greatest RIF no entry is hot, and the slowest leaves.
slowest_leaves : remove_worst Centi heap (pos 100) small_pool ≡ 1 ∷ 3 ∷ 2 ∷ []
unfolding remove_worst
slowest_leaves = refl

by_turns : remove_loop Centi heap (pos 84) 3 false small_pool ≡ (0 ∷ [], true)
unfolding remove_loop remove_worst remove_oldest
by_turns = refl

remove_worst-Removed_example :
    Removed heap
      (rif_threshold Centi heap (pos 84) small_pool)
      small_pool
      (remove_worst Centi heap (pos 84) small_pool)
remove_worst-Removed_example = remove_worst-Removed Centi heap (pos 84) 1 (3 ∷ 0 ∷ 2 ∷ [])
