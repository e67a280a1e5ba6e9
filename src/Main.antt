-- ===== src/Main.antt =====
-- cmd/server/main.go: the configuration from the environment, the list of the backends, and the load
-- balancer that the program sets up. The environment, ParseFloat and ParseDuration are arguments; logging
-- and the routes of the HTTP server are left out. Main/Shutdown is how the program ends on a signal.
pub mod Backends
pub mod Settings
pub mod Numbers
pub mod Fleet
pub mod Start
pub mod Shutdown
pub mod Tests
use prequal_nc.Base.{
  ℕ, suc, ◌+◌, ◌*◌, ℤ, pos, negsuc, ◌*ℤ◌, leb_ℤ, wrap32, wrap64, Bool, true, false, ◌||◌, Option,
  none, some, List, [], ◌∷◌, ◌++◌, ◌==◌, if◌then◌else◌,
}
use prequal_nc.Float.{Float64}
use prequal_nc.Time.{Duration, millisecond}
use prequal_nc.Text.{
  Text, codes, text_eq, is_empty, trim_space, to_lower, split_on, atoi, format_int,
}
use prequal_nc.Types.{
  ServerRef, Server, Config, default_config, Algorithm, prequal, round_robin, other_algorithm,
  per_query, ticker, ProbeMode,
}
use prequal_nc.Pool.{Heap}
use prequal_nc.Balancer.{LoadBalancer, new_load_balancer, add_server}

-- os.Exit(1) with its message, or the program goes on.
pub data Exit : Type 0 where
  invalid_algorithm : Text → Exit
  invalid_probe_mode no_backend_servers : Exit

pub data Outcome (A : Type 0) : Type 0 where
  exits : Exit → Outcome A
  goes : A → Outcome A

-- os.LookupEnv and os.Getenv.
abbrev pub Environment : Type 0
Environment = Text → Option Text

abbrev pub getenv : Option Text → Text
getenv none = []
getenv (some v) = v

-- parseBool.
unfoldable pub parse_bool : Text → Bool
unfolding to_lower trim_space
parse_bool v =
    let s = to_lower (trim_space v) in
    text_eq s (codes "1")
    || text_eq s (codes "true")
    || text_eq s (codes "yes")
    || text_eq s (codes "on")

-- The loop of parseBackends.
unfoldable pub keep_backends : List Text → List Text
unfolding trim_space
keep_backends [] = []
keep_backends (p ∷ parts) =
    let out = keep_backends parts in let p' = trim_space p in if is_empty p' then out else p' ∷ out

unfoldable pub parse_backends : Text → List Text
unfolding keep_backends split_on
parse_backends raw = if is_empty raw then [] else keep_backends (split_on b',' raw)

-- The conversion loadbalancer.Algorithm(algo).
unfoldable pub algorithm_of : Text → Algorithm
algorithm_of s =
    if text_eq s (codes "prequal")
    then prequal
    else if text_eq s (codes "roundrobin")
    then round_robin
    else other_algorithm s

-- `algo`: LB_ALGORITHM goes before the flag.
unfoldable pub algorithm_name : Environment → Text → Text
algorithm_name env flag =
    let env_algo = getenv (env (codes "LB_ALGORITHM")) in
    if is_empty env_algo then flag else env_algo

-- The switch on LB_PROBE_MODE; `none` is its default case.
unfoldable pub probe_mode_of : Text → Option ProbeMode
unfolding to_lower trim_space
probe_mode_of v =
    let s = to_lower (trim_space v) in
    if text_eq s (codes "ticker")
    then some ticker
    else if text_eq s (codes "per_query") || text_eq s (codes "perquery") || is_empty s
    then some per_query
    else none

-- strconv.Atoi with the test `n >= 0`.
abbrev not_negative : Option ℤ → Option ℤ
not_negative none = none
not_negative (some n) = if leb_ℤ (pos 0) n then some n else none

unfoldable pub read_count : Text → Option ℤ
read_count v = not_negative (atoi (trim_space v))

-- A setting that is missing or not accepted leaves the configuration as it is.
abbrev pub set_from : {A B : Type 0} → Option A → (A → B → B) → B → B
set_from none f cfg = cfg
set_from (some v) f cfg = f v cfg

-- fmt.Sprintf("server-%d", i).
unfoldable pub server_name : ℕ → Text
unfolding format_int
server_name i = codes "server-" ++ format_int i

abbrev pub new_server : ℕ → Text → Server
new_server i addr = record { id = server_name i; address = addr; rif = pos 0; latency = pos 0 }

abbrev pub alloc : ServerRef → Server → (ServerRef → Server) → ServerRef → Server
alloc s v servers k = if k == s then v else servers k

module _ (fl : Float64) where
  open fl use {F}

  -- The loop over `backends` from the index `i` on: the i-th server that is allocated has the number `i`.
  unfoldable pub register : ℕ → List Text → LoadBalancer F → LoadBalancer F
  unfolding server_name add_server
  register i [] lb = lb
  register i (addr ∷ backends) lb =
      register (suc i) backends
        (add_server fl i (record lb { server_at = alloc i (new_server i addr) lb.server_at }))

module _ (fl : Float64) (parse_float : Text → Option fl.F)
    (parse_duration : Text → Option Duration) where
  open fl use {F, of_int, flt}

  abbrev positive_float : Option F → Option F
  positive_float none = none
  positive_float (some f) = if flt (of_int (pos 0)) f then some f else none

  -- strconv.ParseFloat with the test `f > 0`.
  unfoldable pub read_rate : Text → Option F
  read_rate v = positive_float (parse_float (trim_space v))

  abbrev positive_duration : Option Duration → Option Duration
  positive_duration none = none
  positive_duration (some d) = if leb_ℤ (pos 1) d then some d else none

  -- time.ParseDuration with the test `ms > 0`.
  unfoldable pub read_interval : Text → Option Duration
  read_interval v = positive_duration (parse_duration (v ++ codes "ms"))

  -- What the program does with the value of each variable.
  abbrev pub with_metrics : Text → Config F → Config F
  with_metrics v cfg = record cfg { enable_metrics = parse_bool v }

  abbrev pub with_pick_log : Text → Config F → Config F
  with_pick_log v cfg = record cfg { enable_pick_log = parse_bool v }

  abbrev pub with_r_probe : Text → Config F → Config F
  with_r_probe v = set_from (read_rate v) (λ f cfg. record cfg { r_probe = f })

  abbrev pub with_adaptive : Text → Config F → Config F
  with_adaptive v cfg = record cfg { adaptive_probe = parse_bool v }

  abbrev pub with_r_probe_min : Text → Config F → Config F
  with_r_probe_min v = set_from (read_rate v) (λ f cfg. record cfg { r_probe_min = f })

  abbrev pub with_load_low : Text → Config F → Config F
  with_load_low v = set_from (read_count v) (λ n cfg. record cfg { probe_load_low = wrap32 n })

  abbrev pub with_load_high : Text → Config F → Config F
  with_load_high v = set_from (read_count v) (λ n cfg. record cfg { probe_load_high = wrap32 n })

  abbrev pub with_forward_timeout : Text → Config F → Config F
  with_forward_timeout v =
      set_from (read_count v)
        (λ ms cfg. record cfg { forward_timeout = wrap64 (ms *ℤ millisecond) })

  abbrev pub with_interval : Text → Config F → Config F
  with_interval v = set_from (read_interval v) (λ d cfg. record cfg { probe_interval = d })

  -- The settings before LB_PROBE_MODE, in the order of the source.
  unfoldable pub apply_settings : Environment → Config F → Config F
  unfolding parse_bool read_rate read_count wrap32 wrap64 ◌*ℤ◌
  apply_settings env cfg0 =
      let cfg1 = set_from (env (codes "LB_METRICS")) with_metrics cfg0 in
      let cfg2 = set_from (env (codes "LB_PICK_LOG")) with_pick_log cfg1 in
      let cfg3 = set_from (env (codes "LB_RPROBE")) with_r_probe cfg2 in
      let cfg4 = set_from (env (codes "LB_RPROBE_ADAPTIVE")) with_adaptive cfg3 in
      let cfg5 = set_from (env (codes "LB_RPROBE_MIN")) with_r_probe_min cfg4 in
      let cfg6 = set_from (env (codes "LB_PROBE_LOAD_LOW")) with_load_low cfg5 in
      let cfg7 = set_from (env (codes "LB_PROBE_LOAD_HIGH")) with_load_high cfg6 in
      set_from (env (codes "LB_FORWARD_TIMEOUT_MS")) with_forward_timeout cfg7

  -- LB_PROBE_MODE and LB_PROBE_INTERVAL_MS.
  abbrev pub with_mode : Option ProbeMode → Config F → Outcome (Config F)
  with_mode none cfg = exits invalid_probe_mode
  with_mode (some m) cfg = goes (record cfg { probe_mode = m })

  unfoldable pub apply_mode : Option Text → Config F → Outcome (Config F)
  unfolding probe_mode_of
  apply_mode none cfg = goes cfg
  apply_mode (some v) cfg = with_mode (probe_mode_of v) cfg

  unfoldable pub apply_interval : Environment → Config F → Config F
  unfolding read_interval
  apply_interval env = set_from (env (codes "LB_PROBE_INTERVAL_MS")) with_interval

  abbrev pub then_interval : Environment → Outcome (Config F) → Outcome (Config F)
  then_interval env (exits e) = exits e
  then_interval env (goes cfg) = goes (apply_interval env cfg)

  abbrev pub known_algorithm : Environment → Algorithm → Outcome (Config F)
  known_algorithm env a = then_interval env (
      apply_mode (env (codes "LB_PROBE_MODE"))
        (apply_settings env (record (default_config fl) { algorithm = a })))

  abbrev pub configure_with : Environment → Algorithm → Outcome (Config F)
  configure_with env prequal = known_algorithm env prequal
  configure_with env round_robin = known_algorithm env round_robin
  configure_with env (other_algorithm s) = exits (invalid_algorithm s)

  -- `config`, by the default of the flag -algorithm or its value, and the environment.
  unfoldable pub configure : Environment → Text → Outcome (Config F)
  unfolding algorithm_of algorithm_name apply_settings apply_mode apply_interval default_config
  configure env flag = configure_with env (algorithm_of (algorithm_name env flag))

  abbrev pub with_backends : List Text → LoadBalancer F → Outcome (LoadBalancer F)
  with_backends [] lb = exits no_backend_servers
  with_backends (addr ∷ backends) lb = goes (register fl 0 (addr ∷ backends) lb)

  abbrev pub with_config :
      (ServerRef → Server) → Heap → Text → Outcome (Config F) → Outcome (LoadBalancer F)
  with_config servers entries raw (exits e) = exits e
  with_config servers entries raw (goes cfg) =
      with_backends (parse_backends raw) (new_load_balancer fl servers entries cfg).0

  -- `main` up to the load balancer that it serves.
  unfoldable pub start : (ServerRef → Server) → Heap → Environment → Text → Outcome (LoadBalancer F)
  unfolding configure parse_backends register new_load_balancer
  start servers entries env flag =
      with_config servers entries (getenv (env (codes "BACKEND_SERVERS"))) (configure env flag)
