-- ===== src/Balancer/Counts.antt =====
-- balancer.go: the counters that ServeHTTP keeps.
use prequal_nc.Base.{◌≡◌}
use prequal_nc.Balancer.{LoadBalancer}

-- The request counters and the number of forwards in flight are as they were.
abbrev pub SameCounts : {F : Type 0} → LoadBalancer F → LoadBalancer F → Type 0
SameCounts after before =
    (after.stats ≡ before.stats) × (after.active_forwards ≡ before.active_forwards)
