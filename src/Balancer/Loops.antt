-- ===== src/Balancer/Loops.antt =====
-- balancer.go, runTickerProbeLoop, idleProbeLoop and Stop: the goroutines that probe in the background. What
-- the `select` of a loop receives is a list of signals; between two of them other calls go on.
pub mod Ticker
pub mod Idle
pub mod Tests
use prequal_nc.Base.{
  ℕ, ◌/◌, ℤ, pos, pos_part, leb_ℤ, Option, none, some, List, [], ◌∷◌, length, ltb, if◌then◌else◌,
}
use prequal_nc.Float.{Float64}
use prequal_nc.Time.{Time, Duration, second, time_sub}
use prequal_nc.Types.{ServerRef, Config}
use prequal_nc.Balancer.{LoadBalancer}
use prequal_nc.Balancer.Probe.{trigger_probes}

-- A tick, with what rand.Perm and time.Now return in the round that it starts, or the closed channel stopCh.
pub data Signal : Type 0 where
  tick : List ℕ → Time → Signal
  stopped : Signal

-- How a loop begins: it returns at once, time.NewTicker panics on an interval that is not positive, or there
-- is a tick at every interval.
pub data Pace : Type 0 where
  returns_at_once panics : Pace
  ticks_every : Duration → Pace

module _ (fl : Float64) where
  open fl use {F, of_int, trunc, fdiv}

  unfoldable pub ticker_pace : Config F → Pace
  ticker_pace cfg =
      if leb_ℤ cfg.probe_interval (pos 0)
      then ticks_every second
      else ticks_every cfg.probe_interval

  -- A round of runTickerProbeLoop, and the loop: it ends with Stop. `none` is a panic.
  unfoldable pub ticker_round :
      List ℕ → Time → LoadBalancer F → Option (LoadBalancer F × List ServerRef)
  unfolding trigger_probes
  ticker_round perm now lb = trigger_probes fl perm now (pos (length lb.servers)) lb

  abbrev pub go_on :
      Option (LoadBalancer F × List ServerRef)
      → (LoadBalancer F → Option (LoadBalancer F))
      → Option (LoadBalancer F)
  go_on none rest = none
  go_on (some (lb, targets)) rest = rest lb

  unfoldable pub ticker_loop : List Signal → LoadBalancer F → Option (LoadBalancer F)
  unfolding ticker_round
  ticker_loop [] lb = some lb
  ticker_loop (stopped ∷ signals) lb = some lb
  ticker_loop (tick perm now ∷ signals) lb = go_on (ticker_round perm now lb) (ticker_loop signals)

  -- `maxIdle`.
  unfoldable pub max_idle : Config F → Duration
  max_idle cfg = trunc (fdiv (of_int second) cfg.min_probe_rate)

  unfoldable pub idle_pace : Config F → Pace
  unfolding max_idle
  idle_pace cfg =
      let d = max_idle cfg in
      if leb_ℤ d (pos 0)
      then returns_at_once
      else let half = pos (pos_part d / 2) in
        if leb_ℤ half (pos 0) then panics else ticks_every half

  -- A round of idleProbeLoop: `now` is read by time.Since, and `sent` by triggerProbes.
  unfoldable pub idle_round :
      List ℕ → Time → Time → LoadBalancer F → Option (LoadBalancer F × List ServerRef)
  unfolding time_sub max_idle trigger_probes
  idle_round perm now sent lb =
      if leb_ℤ (max_idle lb.config) (time_sub now lb.last_probe_nanos)
      then trigger_probes fl perm sent (trunc lb.config.r_probe) lb
      else some (lb, [])
