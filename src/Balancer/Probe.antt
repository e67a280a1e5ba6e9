-- ===== src/Balancer/Probe.antt =====
-- balancer.go: how often and whom the load balancer probes, and what it does with an answer.
pub mod Reuse
pub mod Rate
pub mod Effect
pub mod Arrival
pub mod Tests
use prequal_nc.Base.{
  ℕ, suc, ◌+◌, ◌/◌, ◌%◌, ◌^◌, ℤ, pos, pos_part, ltb_ℤ, leb_ℤ, ◌==ℤ◌, ◌+ℤ◌, ◌-ℤ◌, wrap32, Bool, not,
  true, false, ◌&&◌, ◌||◌, Option, none, some, List, [], ◌∷◌, map, ltb, ◌==◌, if◌then◌else◌, length,
  take, get_elem?,
}
use prequal_nc.Float.{Float64}
use prequal_nc.Time.{Time, Duration}
use prequal_nc.Types.{ServerRef, EntryRef, Server, ProbeResult, ProbePoolEntry, Config}
use prequal_nc.Rif.{observe}
use prequal_nc.Pool.{Heap, append_pool, prune}
use prequal_nc.Balancer.{LoadBalancer, ProbeStats, inc_uint64}
use prequal_nc.Balancer.Select.{store_entry}

-- What probeClient.Do and the headers of the response come to; net/http is not modelled.
pub data Reply : Type 0 where
  build_error transport_error : Reply
  -- The status code, and the two headers as strconv.ParseInt reads them; `none` where it fails or the
  -- header is absent.
  response : ℕ → Option ℤ → Option ℤ → Reply

abbrev pub parsed : Option ℤ → ℤ
parsed none = pos 0
parsed (some v) = v

module _ (fl : Float64) where
  open fl use {F, of_int, trunc, fadd, fsub, fmul, fdiv, flt, fle}

  -- `int(x)`, and one more with the probability of the fraction: `draw` is rand.Float64().
  unfoldable pub round_randomly : F → F → ℤ
  unfolding ◌+ℤ◌
  round_randomly draw x =
      let n = trunc x in
      let frac = fsub x (of_int n) in
      if flt (of_int (pos 0)) frac && flt draw frac then n +ℤ pos 1 else n

  -- `bReuse` of computeBReuse, before it is rounded.
  unfoldable pub reuse_budget : Config F → F
  reuse_budget cfg =
      let most = of_int cfg.max_reuse_pool in
      let denom = fsub cfg.r_probe cfg.r_remove in
      let v = fdiv (fadd (of_int (pos 1)) cfg.delta) denom in
      let b = if flt (of_int (pos 0)) denom && flt v most then v else most in
      if flt b (of_int (pos 1)) then of_int (pos 1) else b

  -- computeBReuse.
  unfoldable pub compute_b_reuse : F → Config F → ℕ → ℤ
  compute_b_reuse draw cfg n =
      if n == 0
      then pos 1
      else let floor = round_randomly draw (reuse_budget cfg) in
        if ltb_ℤ floor (pos 1) then pos 1 else floor

  -- effectiveRProbe. The loads are int32, and so are their differences.
  unfoldable pub effective_r_probe : LoadBalancer F → F
  unfolding wrap32 ◌-ℤ◌
  effective_r_probe lb =
      let r_max = lb.config.r_probe in
      let r_min = if flt r_max lb.config.r_probe_min then r_max else lb.config.r_probe_min in
      let lo = lb.config.probe_load_low in
      let hi = lb.config.probe_load_high in
      let inflight = lb.active_forwards in
      let frac = fdiv (of_int (wrap32 (inflight -ℤ lo))) (of_int (wrap32 (hi -ℤ lo))) in
      if not lb.config.adaptive_probe
      then r_max
      else if leb_ℤ hi lo || leb_ℤ inflight lo
      then r_max
      else if leb_ℤ hi inflight
      then r_min
      else fsub r_max (fmul frac (fsub r_max r_min))

  -- The count that onQueryArrival hands to triggerProbes; `none` where it returns before.
  unfoldable pub query_probe_count : F → LoadBalancer F → Option ℤ
  unfolding effective_r_probe round_randomly
  query_probe_count draw lb =
      let r = effective_r_probe lb in
      if fle r (of_int (pos 0))
      then none
      else let count = round_randomly draw r in if count ==ℤ pos 0 then none else some count

  -- The targets of triggerProbes; `perm` is rand.Perm(n). The slice of a negative count panics, and so
  -- would an index out of range.
  unfoldable pub targets_of : List ℕ → List ServerRef → Option (List ServerRef)
  targets_of [] servers = some []
  targets_of (i ∷ perm) servers =
      let rest = targets_of perm servers in
      elim (get_elem? servers i) [
        | none ↦ none
        | some s ↦ elim rest [ none ↦ none | some l ↦ some (s ∷ l) ]
      ]

  -- triggerProbes: the servers to probe, each by a goroutine of its own; `none` is a panic.
  unfoldable pub trigger_probes :
      List ℕ → Time → ℤ → LoadBalancer F → Option (LoadBalancer F × List ServerRef)
  unfolding targets_of
  trigger_probes perm now count lb =
      let n = length lb.servers in
      let count' = if ltb_ℤ (pos n) count then pos n else count in
      if n == 0
      then some (lb, [])
      else if ltb_ℤ count' (pos 0)
      then none
      else elim (targets_of (take (pos_part count') perm) lb.servers) [
        | none ↦ none
        | some targets ↦ some (
          record lb {
            last_probe_nanos = now;
            probe_stats = record lb.probe_stats {
              triggered = (lb.probe_stats.triggered + length targets) % 2 ^ 64;
            };
          },
          targets,
        )
      ]

  abbrev pub trigger_count :
      List ℕ → Time → Option ℤ → LoadBalancer F → Option (LoadBalancer F × List ServerRef)
  trigger_count perm now none lb = some (lb, [])
  trigger_count perm now (some count) lb = trigger_probes perm now count lb

  -- onQueryArrival.
  unfoldable pub on_query_arrival :
      F → List ℕ → Time → LoadBalancer F → Option (LoadBalancer F × List ServerRef)
  unfolding query_probe_count trigger_probes
  on_query_arrival draw perm now lb = trigger_count perm now (query_probe_count draw lb) lb

  -- probeServer: the counters that it moves, and the result.
  unfoldable pub probe_server : Time → Reply → ProbeStats → ProbeStats × Option ProbeResult
  probe_server now build_error st = (record st { failed_error = inc_uint64 st.failed_error }, none)
  probe_server now transport_error st =
      (record st { failed_error = inc_uint64 st.failed_error }, none)
  probe_server now (response status rif latency) st =
      if status / 100 == 2
      then (st, some (record { timestamp = now; rif = parsed rif; latency = parsed latency }))
      else (record st { failed_http = inc_uint64 st.failed_http }, none)

  -- handleProbeResult for a result that is not nil.
  unfoldable pub accept_probe : F → Time → ServerRef → ProbeResult → LoadBalancer F → LoadBalancer F
  accept_probe draw now srv result lb =
      let server = record (lb.server_at srv) { rif = result.rif; latency = result.latency } in
      let e = lb.next_entry in
      let entry : ProbePoolEntry = record {
        server = srv;
        received_at = result.timestamp;
        rif = result.rif;
        latency = result.latency;
        remaining_uses = wrap32 (compute_b_reuse draw lb.config (length lb.servers));
      } in
      let at = store_entry lb.entry_at e entry in
      record lb {
        server_at = λ s. if srv == s then server else lb.server_at s;
        entry_at = at;
        next_entry = suc e;
        entries =
            append_pool (prune lb.entry_at lb.config.pool_ttl now lb.entries) e lb.config.pool_cap;
        rif_dist = observe fl result.rif result.timestamp lb.rif_dist;
        probe_stats = record lb.probe_stats { succeeded = inc_uint64 lb.probe_stats.succeeded };
      }

  -- handleProbeResult.
  unfoldable pub handle_probe_result :
      F → Time → ServerRef → Option ProbeResult → LoadBalancer F → LoadBalancer F
  handle_probe_result draw now srv none lb = lb
  handle_probe_result draw now srv (some result) lb = accept_probe draw now srv result lb
