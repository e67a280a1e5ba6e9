-- ===== src/Balancer/Tests.antt =====
-- The load balancer on a small fleet, and its theorems at it.
use mathlib.Core.List.{reverse}
use prequal_nc.Base.{
  ◌+◌, ◌-◌, ◌*◌, ◌%◌, ◌<◌, ◌≡◌, refl, inl, inr, ℤ, pos, ◌≤ℤ◌, Option, some, none, [], ◌∷◌, arith,
  count_of, take, In, IsDistinct,
}
use prequal_nc.Centi.{Centi, Centi-laws}
use prequal_nc.Types.{ServerRef, EntryRef, Server, ProbeResult, Config, round_robin, default_config}
use prequal_nc.Rif.{observe, new_rif_distribution}
use prequal_nc.Rif.Tests.{window, window-Reached}
use prequal_nc.Pool.{Heap}
use prequal_nc.Balancer.{
  LoadBalancer, PickClass, recent_picks_cap, empty_pick, new_load_balancer, add_server, cold,
}
use prequal_nc.Balancer.Picks.{recent_picks}
use prequal_nc.Balancer.Picks.History.{record_all, empty_ring, recent_picks-record_all}
use prequal_nc.Balancer.Probe.{compute_b_reuse, accept_probe, handle_probe_result}
use prequal_nc.Balancer.Probe.Reuse.{reuse_limit, compute_b_reuse-bounds}
use prequal_nc.Balancer.Select.{apply_r_remove, consume_entry, select_server, winner_of}
use prequal_nc.Balancer.Select.Scan.{is_fresh, IsHotCold, scan_entries, scan_entries-IsHotCold}
use prequal_nc.Balancer.Select.Consume.{Consumed, consume_entry-Consumed}
use prequal_nc.Balancer.Select.RoundRobin.{rr_run, from_index, rr_run-from_index}
use prequal_nc.Balancer.Debt.{RRemoved, apply_r_remove-RRemoved}
use prequal_nc.Balancer.Invariant.{PoolInv}
use prequal_nc.Balancer.Accept.{IsReuseBound, Accepted, accept_probe-Accepted}
use prequal_nc.Balancer.Prequal.{IsRegistered, Picks, select_server_prequal-Picks}
use prequal_nc.Balancer.Probe.Rate.{IsPermutation, Triggered, trigger_probes-Triggered}
use prequal_nc.Balancer.Select.{select_server_rr, select_server_prequal}
use prequal_nc.Balancer.Serve.{relayed, enter, leave, begin_request, after_select}
use prequal_nc.Balancer.Serve.Counting.{Requests, ended_by, AreCounts}
use prequal_nc.Balancer.Serve.Traffic.{Served, opened, joined, forwarding, ended, Served-AreCounts}
use prequal_nc.Balancer.Probe.{trigger_probes}
use prequal_nc.Balancer.History.{
  LbInv, LbReached, started, added, answered, LbReached-LbInv, select_server-IsRegistered,
}

abbrev pub servers_at : ServerRef → Server
servers_at s = record { id = s ∷ []; address = []; rif = pos 0; latency = pos 0 }

-- Two entries of server 0 and one of server 1, each with two uses left.
abbrev pub pool_at : Heap
pool_at e = record {
  server = e % 2;
  received_at = pos (2_000_000_000 + e);
  rif = pos (4 * e);
  latency = pos (30 - e);
  remaining_uses = pos 2;
}

abbrev pub fleet : LoadBalancer ℤ
fleet = record (new_load_balancer Centi servers_at pool_at (default_config Centi)).0 {
  servers = 0 ∷ 1 ∷ [];
  entries = 0 ∷ 1 ∷ 2 ∷ [];
  next_entry = 3;
  rif_dist = window;
}

fleet-IsDistinct : IsDistinct fleet.entries
fleet-IsDistinct =
    (((λ e. omega arith), ((λ e. omega arith), tt)), (((λ e. omega arith), tt), (tt, tt)))

pub fleet-PoolInv : PoolInv fleet
unfolding new_load_balancer default_config
fleet-PoolInv = record {
  bounded = omega arith;
  distinct = fleet-IsDistinct;
  usable = (
    (omega arith, omega arith, omega arith, inl refl),
    (
      (omega arith, omega arith, omega arith, inr (inl refl)),
      ((omega arith, omega arith, omega arith, inl refl), tt),
    ),
  );
}

pub fleet-IsReuseBound : IsReuseBound fleet.config
unfolding new_load_balancer default_config
fleet-IsReuseBound = record { most = 3; is_most = refl; fits = omega arith }

abbrev chosen : Option (LoadBalancer ℤ × Option ServerRef) → Option ServerRef
chosen none = none
chosen (some (lb, s)) = s

-- applyRRemove drops entry 2, whose RIF 8 is above the 4 of its threshold; at the threshold 9 of the window
-- the entries 0 and 1 are cold, and entry 1 is the faster one.
faster_server :
    chosen (select_server_prequal Centi (pos 20) (pos 2_000_000_100) (pos 2_000_000_200) 7 fleet)
    ≡ some 1
unfolding select_server_prequal new_load_balancer default_config observe new_rif_distribution
    prequal_nc.Balancer.Select.select_with prequal_nc.Rif.quantile apply_r_remove
    prequal_nc.Balancer.Select.select_from prequal_nc.Balancer.Select.select_loop
    prequal_nc.Pool.remove_loop prequal_nc.Pool.remove_worst prequal_nc.Balancer.Select.select_step
    winner_of consume_entry prequal_nc.Base.add_int32 prequal_nc.Balancer.Select.charge
faster_server = refl

select_server_prequal-Picks_example :
    Picks Centi (pos 20) (pos 2_000_000_100) (pos 2_000_000_200) 7 fleet
select_server_prequal-Picks_example =
    select_server_prequal-Picks Centi (pos 1000) (pos 20) (pos 2_000_000_100) (pos 2_000_000_200) 7
      fleet window-Reached fleet-PoolInv

abbrev result : ProbeResult
result = record { timestamp = pos 2_000_000_050; rif = pos 6; latency = pos 12 }

accept_probe-Accepted_example :
    Accepted Centi Centi-laws
      (pos 2_000_000_060)
      1
      result
      fleet
      (accept_probe Centi (pos 30) (pos 2_000_000_060) 1 result fleet)
accept_probe-Accepted_example =
    accept_probe-Accepted Centi Centi-laws (pos 30) (pos 2_000_000_060) 1 result fleet
      fleet-IsReuseBound fleet-PoolInv.bounded

consume_entry-Consumed_example : Consumed ℤ 2 fleet (consume_entry Centi 2 fleet)
consume_entry-Consumed_example =
    consume_entry-Consumed Centi 2 fleet fleet-IsDistinct (inr (inr (inl refl)))

scan_entries-IsHotCold_example :
    ((scan_entries pool_at (pos 5) (pos 100) (pos 2_000_000_100) fleet.entries).fresh
      ≡ count_of (is_fresh pool_at (pos 5) (pos 100) (pos 2_000_000_100)) fleet.entries)
    × (0 < count_of (is_fresh pool_at (pos 5) (pos 100) (pos 2_000_000_100)) fleet.entries
        → (e : EntryRef) × (class : PickClass) × (winner_of
              (scan_entries pool_at (pos 5) (pos 100) (pos 2_000_000_100) fleet.entries)
            ≡ some (e, class))
          × IsHotCold pool_at (pos 5) (pos 100) (pos 2_000_000_100) fleet.entries e class)
scan_entries-IsHotCold_example =
    scan_entries-IsHotCold pool_at (pos 5) (pos 100) (pos 2_000_000_100) fleet.entries

apply_r_remove-RRemoved_example : RRemoved Centi fleet (apply_r_remove Centi fleet)
apply_r_remove-RRemoved_example = apply_r_remove-RRemoved Centi fleet

recent_picks-record_all_example :
    recent_picks (record_all (empty_pick ∷ record empty_pick { class = cold } ∷ []) empty_ring)
    ≡ take recent_picks_cap (reverse (empty_pick ∷ record empty_pick { class = cold } ∷ []))
recent_picks-record_all_example =
    recent_picks-record_all (empty_pick ∷ record empty_pick { class = cold } ∷ [])

compute_b_reuse-bounds_example :
    (pos 1 ≤ℤ compute_b_reuse Centi (pos 30) (default_config Centi) 2)
    × (compute_b_reuse Centi (pos 30) (default_config Centi) 2 ≤ℤ pos (reuse_limit 3))
unfolding default_config
compute_b_reuse-bounds_example =
    compute_b_reuse-bounds Centi Centi-laws (pos 30) (default_config Centi) 2 3 refl (omega arith)

rr_run-from_index_example :
    rr_run Centi 5 fleet
    ≡ some (
      record fleet { rr_index = fleet.rr_index + 5 },
      from_index Centi 5 fleet.rr_index fleet.servers,
    )
unfolding new_load_balancer
rr_run-from_index_example = rr_run-from_index Centi 5 fleet (omega arith) (omega arith)

pub in_order : IsPermutation 2 (1 ∷ 0 ∷ [])
in_order = record {
  size = refl;
  below = (omega arith, (omega arith, tt));
  distinct = (((λ e. omega arith), tt), (tt, tt));
}

trigger_probes-Triggered_example : Triggered Centi (1 ∷ 0 ∷ []) (pos 5) 3 fleet
trigger_probes-Triggered_example =
    trigger_probes-Triggered Centi (1 ∷ 0 ∷ []) (pos 5) 3 fleet in_order

abbrev after_probes : LoadBalancer ℤ
after_probes = record fleet {
  last_probe_nanos = pos 5;
  probe_stats = record fleet.probe_stats { triggered = 2 };
}

both_probed :
    trigger_probes Centi (1 ∷ 0 ∷ []) (pos 5) (pos 3) fleet ≡ some (after_probes, 1 ∷ 0 ∷ [])
unfolding trigger_probes new_load_balancer
both_probed = refl

-- Two servers are registered, and server 1 answers a probe.
abbrev with_servers : LoadBalancer ℤ
with_servers =
    add_server Centi 1
      (add_server Centi 0 (new_load_balancer Centi servers_at pool_at (default_config Centi)).0)

abbrev with_answer : LoadBalancer ℤ
with_answer = handle_probe_result Centi (pos 30) (pos 2_000_000_060) 1 (some result) with_servers

default-IsReuseBound : IsReuseBound (default_config Centi)
unfolding default_config
default-IsReuseBound = record { most = 3; is_most = refl; fits = omega arith }

one_registered : In 1 with_servers.servers
unfolding add_server new_load_balancer
one_registered = inr (inl refl)

with_answer-LbReached : LbReached Centi Centi-laws with_answer
with_answer-LbReached =
    answered (pos 30) (pos 2_000_000_060) 1 (some result) one_registered
      (added 1 (added 0 (started servers_at pool_at (default_config Centi) default-IsReuseBound)))

LbReached-LbInv_example : LbInv Centi Centi-laws with_answer
LbReached-LbInv_example = LbReached-LbInv Centi Centi-laws with_answer-LbReached

select_server-IsRegistered_example :
    (after : LoadBalancer ℤ) × (srv : Option ServerRef) × (select_server Centi
        (pos 70)
        (pos 2_000_000_070)
        (pos 2_000_000_070)
        5
        with_answer
      ≡ some (after, srv))
    × IsRegistered Centi with_answer.servers srv
select_server-IsRegistered_example =
    select_server-IsRegistered Centi Centi-laws (pos 70) (pos 2_000_000_070) (pos 2_000_000_070) 5
      with_answer-LbReached

-- Two servers in rotation.
abbrev rotation : Config ℤ
rotation = record (default_config Centi) { algorithm = round_robin }

rotation-IsReuseBound : IsReuseBound rotation
unfolding default_config
rotation-IsReuseBound = record { most = 3; is_most = refl; fits = omega arith }

abbrev idle : LoadBalancer ℤ
idle =
    add_server Centi 1 (add_server Centi 0 (new_load_balancer Centi servers_at pool_at rotation).0)

abbrev busy : LoadBalancer ℤ
busy = record (begin_request idle) { rr_index = 1 }

first_server : enter Centi (pos 1) (pos 2) (pos 3) 0 idle ≡ some (busy, some 0)
unfolding enter select_server select_server_rr add_server new_load_balancer begin_request
    after_select default_config
first_server = refl

abbrev one_in_flight : Requests
one_in_flight = record { in_flight = 1; successful = 0; failed = 0; broken = 0 }

one_request : Served Centi Centi-laws (leave relayed busy) (ended_by relayed one_in_flight)
one_request = ended relayed (omega arith) (
    forwarding (pos 1) (pos 2) (pos 3) 0 0 first_server
      (joined 1 (joined 0 (opened servers_at pool_at rotation rotation-IsReuseBound))))

Served-AreCounts_example : AreCounts (leave relayed busy) (ended_by relayed one_in_flight)
Served-AreCounts_example = Served-AreCounts Centi Centi-laws one_request
