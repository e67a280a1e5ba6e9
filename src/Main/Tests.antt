-- ===== src/Main/Tests.antt =====
-- The load balancer's binary in a small environment, and its theorems at it.
use prequal_nc.Base.{
  ◌+◌, ◌*◌, ◌^◌, ◌≤◌, ◌≡◌, ◌⊎◌, inl, refl, false, ℤ, pos, negsuc, true, Option, some, none, List,
  [], ◌∷◌, arith, All, if◌then◌else◌,
}
use prequal_nc.Centi.{Centi, Centi-laws}
use prequal_nc.Time.{Duration}
use prequal_nc.Text.{Text, codes, text_eq, split_on, parse_int, atoi, format_int, trim_space}
use prequal_nc.Types.{ServerRef, Server, default_config}
use prequal_nc.Pool.{Heap}
use prequal_nc.Main.{
  Environment, exits, invalid_algorithm, invalid_probe_mode, no_backend_servers, parse_bool,
  parse_backends, read_count, apply_settings, start,
}
use prequal_nc.Main.Backends.{IsBackend, parse_backends-join}
use prequal_nc.Main.Numbers.{Narrowed, unset, refused, printed, apply_settings-numbers}
use prequal_nc.Main.Shutdown.{
  Process, launched, listening, starting, shutting_down, stopped, here, then_step, bound,
  request_in, request_out, signal, shutdown, drained, stop, serving, Runs, IsOrderly,
  Runs-IsOrderly, abandoned, listening-abandoned,
}
use prequal_nc.Main.Start.{Started, start-Started}

abbrev env_of : List (Text × Text) → Environment
env_of [] name = none
env_of (v ∷ vars) name = if text_eq name v.0 then some v.1 else env_of vars name

-- Whole numbers, in hundredths.
abbrev in_centi : Option ℤ → Option ℤ
in_centi none = none
in_centi (some (pos n)) = some (pos (100 * n))
in_centi (some (negsuc n)) = some (negsuc (100 * n + 99))

abbrev parse_whole : Text → Option ℤ
parse_whole s = in_centi (atoi s)

-- A whole number of milliseconds.
abbrev in_nanos : Option ℤ → Option Duration
in_nanos none = none
in_nanos (some (pos n)) = some (pos (1_000_000 * n))
in_nanos (some (negsuc n)) = none

abbrev first_part : List Text → Text
first_part [] = []
first_part (p ∷ parts) = p

abbrev parse_millis : Text → Option Duration
parse_millis s = in_nanos (atoi (first_part (split_on b'm' s)))

-- The print of 2147483653 is the finding's number.
abbrev variables : List (Text × Text)
variables =
    (codes "BACKEND_SERVERS", codes " a:80,b:81 ,, c:82")
    ∷ (codes "LB_PROBE_MODE", codes " Ticker")
    ∷ (codes "LB_RPROBE", codes "2")
    ∷ (codes "LB_METRICS", codes "YES")
    ∷ (codes "LB_PROBE_INTERVAL_MS", codes "250")
    ∷ (codes "LB_PROBE_LOAD_LOW", format_int 2_147_483_653)
    ∷ (codes "LB_PROBE_LOAD_HIGH", format_int 50)
    ∷ (codes "LB_FORWARD_TIMEOUT_MS", format_int 1500)
    ∷ []

abbrev env : Environment
env = env_of variables

abbrev no_servers : ServerRef → Server
no_servers s = record { id = []; address = []; rif = pos 0; latency = pos 0 }

abbrev no_entries : Heap
no_entries e = record {
  server = 0;
  received_at = pos 0;
  rif = pos 0;
  latency = pos 0;
  remaining_uses = pos 0;
}

parse_bool_test : parse_bool (codes " On\n") ≡ true
unfolding parse_bool
parse_bool_test = refl

parse_backends_test :
    parse_backends (codes " a:80,b:81 ,, c:82") ≡ codes "a:80" ∷ codes "b:81" ∷ codes "c:82" ∷ []
unfolding parse_backends
parse_backends_test = refl

two_addrs-All : All IsBackend (codes "a:80" ∷ codes "b:81" ∷ [])
unfolding trim_space
two_addrs-All = (
  record {
    is_some = refl;
    trimmed = refl;
    one = (omega arith, (omega arith, (omega arith, (omega arith, tt))));
  },
  (
    record {
      is_some = refl;
      trimmed = refl;
      one = (omega arith, (omega arith, (omega arith, (omega arith, tt))));
    },
    tt,
  ),
)

parse_backends-join_example : parse_backends (codes "a:80,b:81") ≡ codes "a:80" ∷ codes "b:81" ∷ []
parse_backends-join_example = parse_backends-join (codes "a:80" ∷ codes "b:81" ∷ []) two_addrs-All

start_test :
    start Centi parse_whole parse_millis no_servers no_entries
      (env_of ((codes "LB_ALGORITHM", codes "random") ∷ variables))
      (codes "prequal")
    ≡ exits (invalid_algorithm (codes "random"))
unfolding start
start_test = refl

start_mode_test :
    start Centi parse_whole parse_millis no_servers no_entries
      (env_of ((codes "LB_PROBE_MODE", codes "tick") ∷ variables))
      (codes "prequal")
    ≡ exits invalid_probe_mode
unfolding start
start_mode_test = refl

start_empty_test :
    start Centi parse_whole parse_millis no_servers no_entries
      (env_of ((codes "BACKEND_SERVERS", codes " , ,") ∷ variables))
      (codes "prequal")
    ≡ exits no_backend_servers
unfolding start
start_empty_test = refl

-- LB_PROBE_LOAD_HIGH is not set, and the timeout is no number.
abbrev some_env : Environment
some_env = env_of (
    (codes "LB_PROBE_LOAD_LOW", format_int 2_147_483_653)
    ∷ (codes "LB_FORWARD_TIMEOUT_MS", codes "1.5s")
    ∷ [])

not_a_count : read_count (codes "1.5s") ≡ none
unfolding read_count parse_int trim_space
not_a_count = refl

apply_settings-numbers_example :
    let cfg = default_config Centi in
    let after = apply_settings Centi parse_whole parse_millis some_env cfg in
    Narrowed (2 ^ 31) (2_147_483_653 * 1) after.probe_load_low
    × (after.probe_load_high ≡ cfg.probe_load_high)
    × (after.forward_timeout ≡ cfg.forward_timeout)
apply_settings-numbers_example =
    apply_settings-numbers Centi parse_whole parse_millis some_env (default_config Centi)
      (some 2_147_483_653) none none (printed 2_147_483_653 refl (omega arith)) (unset refl)
      (refused (codes "1.5s") refl not_a_count)

start-Started_example :
    Started Centi Centi-laws parse_whole parse_millis no_servers no_entries env
      (codes "prequal")
      (start Centi parse_whole parse_millis no_servers no_entries env (codes "prequal"))
start-Started_example =
    start-Started Centi Centi-laws parse_whole parse_millis refl refl no_servers no_entries env
      (codes "prequal")

-- The second request comes in between the signal and the call of Shutdown.
abbrev two_open : Process
two_open = record listening { signal_at = shutting_down; is_listening = false; open_requests = 2 }

two_interrupted : Runs launched two_open
two_interrupted =
    then_step
      (then_step
        (then_step (then_step (then_step here (bound refl (inl refl))) (request_in refl refl))
          (signal (λ e. cc) refl))
        (request_in refl refl))
      (shutdown (λ e. cc) refl)

-- A request ends behind the signal, and Stop is called.
in_order : Runs two_open (record listening { signal_at = stopped; is_listening = false; stops = 1 })
in_order =
    then_step
      (then_step
        (then_step (then_step here (request_out refl (omega arith)))
          (request_out refl (omega arith)))
        (drained (λ e. cc) refl refl))
      (stop (λ e. cc) refl)

Runs-IsOrderly_example :
    IsOrderly (record listening { signal_at = stopped; is_listening = false; stops = 1 })
    × ((serving ≡ starting) ⊎ ((false ≡ true) ⊎ (0 ≤ 2)))
Runs-IsOrderly_example = Runs-IsOrderly two_interrupted in_order

listening-abandoned_example : Runs listening (abandoned 3)
listening-abandoned_example = listening-abandoned 3
