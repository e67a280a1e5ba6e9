-- ===== src/Balancer.antt =====
-- pkg/loadbalancer/balancer.go: the state of the load balancer and its construction. A method is a
-- function from the state to the next one; the draws of math/rand and the readings of the clock are its
-- arguments. The calls on Prometheus stand in Metrics, and slog calls are left out.
pub mod Picks
pub mod Probe
pub mod Select
pub mod Debt
pub mod Invariant
pub mod Accept
pub mod Choice
pub mod Prequal
pub mod Counts
pub mod History
pub mod Serve
pub mod Loops
pub mod Snapshot
pub mod Shared
pub mod Tests
use prequal_nc.Base.{
  ℕ, suc, ◌+◌, ◌%◌, ◌^◌, ℤ, pos, leb_ℤ, Bool, false, List, [], ◌∷◌, ◌++◌, if◌then◌else◌, replicate,
}
use prequal_nc.Float.{Float64}
use prequal_nc.Time.{Time, Duration}
use prequal_nc.Text.{Text}
use prequal_nc.Types.{
  ServerRef, EntryRef, Server, ProbePoolEntry, Config, Algorithm, prequal, round_robin,
  other_algorithm, ProbeMode, per_query, ticker, other_mode,
}
use prequal_nc.Rif.{RifDistribution, new_rif_distribution}
use prequal_nc.Pool.{Heap}

-- atomic.AddUint64(&x, 1) and atomic.AddUint32(&x, 1).
abbrev pub inc_uint64 : ℕ → ℕ
inc_uint64 n = (n + 1) % 2 ^ 64

abbrev pub inc_uint32 : ℕ → ℕ
inc_uint32 n = (n + 1) % 2 ^ 32

pub record Stats : Type 0 where
  pub total_requests : ℕ
  pub successful_requests : ℕ
  pub failed_requests : ℕ

pub record ProbeStats : Type 0 where
  pub triggered : ℕ
  pub succeeded : ℕ
  pub failed_error : ℕ
  pub failed_http : ℕ
  pub pool_empty : ℕ
  pub no_winner : ℕ

-- The strings "cold", "hot" and "no-pool"; the empty string stands in a slot not yet written.
pub data PickClass : Type 0 where
  cold hot no_pool no_class : PickClass

pub record PickRecord : Type 0 where
  pub time : Time
  pub winner : Text
  pub class : PickClass
  pub q_rif_threshold : ℤ
  pub pool_size : ℕ
  pub eligible_count : ℕ

abbrev pub recent_picks_cap : ℕ
recent_picks_cap = 100

-- The array recentPicks with its two numbers.
pub record PickRing : Type 0 where
  pub recent_picks : List PickRecord
  pub recent_picks_len : ℕ
  pub recent_picks_idx : ℕ

-- `server_at` and `entry_at` are the heaps; the entries below `next_entry` are allocated. `entries` is
-- the slice that poolPtr points to.
pub record LoadBalancer (F : Type 0) : Type 0 where
  pub servers : List ServerRef
  pub server_at : ServerRef → Server
  pub entries : List EntryRef
  pub entry_at : Heap
  pub next_entry : EntryRef
  pub remove_debt : F
  pub remove_alt_oldest : Bool
  pub picks : PickRing
  pub rif_dist : RifDistribution F
  pub config : Config F
  pub stats : Stats
  pub rr_index : ℕ
  pub last_probe_nanos : ℤ
  pub active_forwards : ℤ
  pub probe_stats : ProbeStats

-- The goroutine that the constructor starts.
pub data Background : Type 0 where
  ticker_probe_loop idle_probe_loop no_loop : Background

abbrev pub empty_pick : PickRecord
empty_pick = record {
  time = pos 0;
  winner = [];
  class = no_class;
  q_rif_threshold = pos 0;
  pool_size = 0;
  eligible_count = 0;
}

module _ (fl : Float64) where
  open fl use {F, of_int, flt}

  -- `window` in NewLoadBalancer.
  unfoldable pub rif_window_of : Config F → Duration
  rif_window_of cfg = if leb_ℤ cfg.rif_window (pos 0) then cfg.pool_ttl else cfg.rif_window

  -- The switch on the probe mode.
  unfoldable pub prequal_loop : ProbeMode → F → Background
  prequal_loop ticker rate = ticker_probe_loop
  prequal_loop per_query rate = if flt (of_int (pos 0)) rate then idle_probe_loop else no_loop
  prequal_loop (other_mode s) rate = if flt (of_int (pos 0)) rate then idle_probe_loop else no_loop

  unfoldable pub background : Algorithm → ProbeMode → F → Background
  unfolding prequal_loop
  background prequal mode rate = prequal_loop mode rate
  background round_robin mode rate = no_loop
  background (other_algorithm s) mode rate = no_loop

  -- NewLoadBalancer, on the heaps of the process.
  unfoldable pub new_load_balancer :
      (ServerRef → Server) → Heap → Config F → LoadBalancer F × Background
  unfolding rif_window_of background new_rif_distribution
  new_load_balancer servers entries cfg = (
    record {
      servers = [];
      server_at = servers;
      entries = [];
      entry_at = entries;
      next_entry = 0;
      remove_debt = of_int (pos 0);
      remove_alt_oldest = false;
      picks = record {
        recent_picks = replicate recent_picks_cap empty_pick;
        recent_picks_len = 0;
        recent_picks_idx = 0;
      };
      rif_dist = new_rif_distribution fl (rif_window_of cfg);
      config = cfg;
      stats = record { total_requests = 0; successful_requests = 0; failed_requests = 0 };
      rr_index = 0;
      last_probe_nanos = pos 0;
      active_forwards = pos 0;
      probe_stats = record {
        triggered = 0;
        succeeded = 0;
        failed_error = 0;
        failed_http = 0;
        pool_empty = 0;
        no_winner = 0;
      };
    },
    background cfg.algorithm cfg.probe_mode cfg.min_probe_rate,
  )

  -- AddServer.
  unfoldable pub add_server : ServerRef → LoadBalancer F → LoadBalancer F
  add_server s lb = record lb { servers = lb.servers ++ s ∷ [] }
