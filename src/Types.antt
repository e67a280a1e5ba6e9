-- ===== src/Types.antt =====
-- pkg/loadbalancer/types.go, and the record types of balancer.go: the data that the load balancer keeps.
-- A pointer to a Server or to a ProbePoolEntry is a number, and the heaps of the state say what it
-- points to. Strings are the texts of Text. int32 and int64 fields are integers.
use prequal_nc.Base.{ℕ, ◌*◌, ℤ, pos, Bool, false, [], ◌∷◌}
use prequal_nc.Float.{Float64}
use prequal_nc.Text.{Text}
use prequal_nc.Time.{Time, Duration, second}

-- `*Server` and `*ProbePoolEntry`, where they are not nil.
abbrev pub ServerRef : Type 0
ServerRef = ℕ

abbrev pub EntryRef : Type 0
EntryRef = ℕ

pub record Server : Type 0 where
  pub id : Text
  pub address : Text
  pub rif : ℤ
  pub latency : ℤ

pub record ProbeResult : Type 0 where
  pub timestamp : Time
  pub rif : ℤ
  pub latency : ℤ

pub record ProbePoolEntry : Type 0 where
  pub server : ServerRef
  pub received_at : Time
  pub rif : ℤ
  pub latency : ℤ
  pub remaining_uses : ℤ

-- The two constants, and any other string.
pub data Algorithm : Type 0 where
  prequal round_robin : Algorithm
  other_algorithm : Text → Algorithm

pub data ProbeMode : Type 0 where
  per_query ticker : ProbeMode
  other_mode : Text → ProbeMode

-- PoolCap is a natural number: `make` panics on a capacity below 0.
pub record Config (F : Type 0) : Type 0 where
  pub probe_timeout : Duration
  pub health_check_path : Text
  pub algorithm : Algorithm
  pub q_rif : F
  pub r_probe : F
  pub min_probe_rate : F
  pub pool_cap : ℕ
  pub pool_ttl : Duration
  pub r_remove : F
  pub delta : F
  pub max_reuse_pool : ℤ
  pub rif_window : Duration
  pub forward_timeout : Duration
  pub enable_metrics : Bool
  pub enable_pick_log : Bool
  pub probe_mode : ProbeMode
  pub probe_interval : Duration
  pub adaptive_probe : Bool
  pub r_probe_min : F
  pub probe_load_low : ℤ
  pub probe_load_high : ℤ

module _ (fl : Float64) where
  open fl use {F, of_int, fdiv}

  -- DefaultConfig. 0.84 is the float64 nearest to 84 / 100, which is what the division gives.
  unfoldable pub default_config : Config F
  default_config = record {
    probe_timeout = second;
    health_check_path = b'/' ∷ b'h' ∷ b'e' ∷ b'a' ∷ b'l' ∷ b't' ∷ b'h' ∷ [];
    algorithm = prequal;
    q_rif = fdiv (of_int (pos 84)) (of_int (pos 100));
    r_probe = of_int (pos 3);
    min_probe_rate = of_int (pos 10);
    pool_cap = 16;
    pool_ttl = second;
    r_remove = of_int (pos 1);
    delta = of_int (pos 1);
    rif_window = second;
    max_reuse_pool = pos 3;
    forward_timeout = pos (5 * 1_000_000_000);
    enable_metrics = false;
    enable_pick_log = false;
    probe_mode = per_query;
    probe_interval = second;
    adaptive_probe = false;
    r_probe_min = of_int (pos 1);
    probe_load_low = pos 100;
    probe_load_high = pos 1000;
  }
