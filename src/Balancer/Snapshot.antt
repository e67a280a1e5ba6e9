-- ===== src/Balancer/Snapshot.antt =====
-- balancer.go, DebugSnapshot: what /debug/pool shows. sort.Slice is an argument, as the permutation of a list
-- that it makes for a test of two elements.
pub mod Order
pub mod View
pub mod Tests
use prequal_nc.Base.{
  ℕ, suc, ◌+◌, ◌-◌, ◌/◌, ◌≤◌, ◌<◌, ◌≡◌, refl, ap, subst, sym, ◌∙◌, inl, inr, ℤ, pos, negsuc, ◌<ℤ◌,
  ◌-ℤ◌, Bool, true, false, List, [], ◌∷◌, map, arith, length, All, In,
}
use prequal_nc.Time.{Time, time_sub}
use prequal_nc.Text.{Text, codes, text_ltb}
use prequal_nc.Types.{
  ServerRef, EntryRef, Server, ProbePoolEntry, Algorithm, prequal, round_robin, other_algorithm,
}
use prequal_nc.Balancer.{LoadBalancer, ProbeStats, PickRecord}
use prequal_nc.Balancer.Picks.{recent_picks}
use prequal_nc.Balancer.Invariant.{PoolInv, IsUsable}

pub record PoolEntrySnapshot : Type 0 where
  pub server : Text
  pub rif : ℤ
  pub latency_us : ℤ
  pub age_ms : ℤ
  pub reuses_left : ℤ

-- PickSnapshot has the fields of a PickRecord, and ProbeStatsSnapshot those of ProbeStats.
pub record DebugSnapshot : Type 0 where
  pub algorithm : Text
  pub servers : List Text
  pub pool_cap : ℕ
  pub pool_size : ℕ
  pub pool : List PoolEntrySnapshot
  pub recent_picks : List PickRecord
  pub probe_stats : ProbeStats

-- d.Milliseconds(), which drops the fraction.
unfoldable pub milliseconds_of : ℤ → ℤ
unfolding ◌-ℤ◌
milliseconds_of (pos n) = pos (n / 1_000_000)
milliseconds_of (negsuc n) = pos 0 -ℤ pos (suc n / 1_000_000)

abbrev pub algorithm_text : Algorithm → Text
algorithm_text prequal = codes "prequal"
algorithm_text round_robin = codes "roundrobin"
algorithm_text (other_algorithm s) = s

-- The test that the pool is sorted by.
abbrev pub by_server : PoolEntrySnapshot → PoolEntrySnapshot → Bool
by_server a b = text_ltb a.server b.server

abbrev pub Sorter : Type 0
Sorter =
    (PoolEntrySnapshot → PoolEntrySnapshot → Bool) → List PoolEntrySnapshot → List PoolEntrySnapshot

-- The loop over the servers.
abbrev pub server_ids : (ServerRef → Server) → List ServerRef → List Text
server_ids servers = map (λ s. (servers s).id)

module _ {F : Type 0} where
  unfoldable pub entry_snapshot : Time → LoadBalancer F → EntryRef → PoolEntrySnapshot
  unfolding milliseconds_of time_sub
  entry_snapshot now lb e = record {
    server = (lb.server_at (lb.entry_at e).server).id;
    rif = (lb.entry_at e).rif;
    latency_us = (lb.entry_at e).latency;
    age_ms = milliseconds_of (time_sub now (lb.entry_at e).received_at);
    reuses_left = (lb.entry_at e).remaining_uses;
  }

  -- The loop over the entries.
  abbrev pub pool_snapshot : Time → LoadBalancer F → List PoolEntrySnapshot
  pool_snapshot now lb = map (entry_snapshot now lb) lb.entries

  unfoldable pub debug_snapshot : Sorter → Time → LoadBalancer F → DebugSnapshot
  unfolding entry_snapshot recent_picks
  debug_snapshot sort now lb =
      let pool = sort by_server (pool_snapshot now lb) in
      record {
        algorithm = algorithm_text lb.config.algorithm;
        servers = server_ids lb.server_at lb.servers;
        pool_cap = lb.config.pool_cap;
        pool_size = length pool;
        pool = pool;
        recent_picks = recent_picks lb.picks;
        probe_stats = lb.probe_stats;
      }
