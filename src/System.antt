-- ===== src/System.antt =====
-- The load balancer and the replicas behind it: pkg/loadbalancer/balancer.go (triggerProbes and the goroutine
-- of a probe, SelectServer, AddServer) with backend/main.go (the handlers of "/" and "/health"), as one
-- transition system. A probe travels in two hops, and anything may happen between them: the replica answers
-- it from the state that it has then, and the load balancer reads the answer later, or loses it.
pub mod Reads
pub mod Provenance
pub mod Steps
pub mod Reading
pub mod Invariant
pub mod Probes
pub mod Choice
pub mod Tests
use prequal_nc.Base.{
  ℕ, suc, ◌+◌, ◌-◌, ◌^◌, ◌<◌, ◌≡◌, ℤ, Bool, true, false, Option, none, some, List, [], ◌∷◌, ◌++◌,
  ◌==◌, if◌then◌else◌,
}
use prequal_nc.Float.{Float64}
use prequal_nc.Time.{Time}
use prequal_nc.Text.Decimal.{IsWithin}
use prequal_nc.Types.{ServerRef, Server, ProbeResult, Config}
use prequal_nc.Pool.{Heap}
use prequal_nc.Balancer.{LoadBalancer, ProbeStats, new_load_balancer, add_server}
use prequal_nc.Balancer.Probe.{
  Reply, transport_error, probe_server, trigger_probes, handle_probe_result,
}
use prequal_nc.Balancer.Select.{select_server}
use prequal_nc.Balancer.Accept.{IsReuseBound}
use prequal_nc.Backend.{
  Backend, HealthHeaders, new_backend, begin_work, work_loop, finish_work, health,
}
use prequal_nc.Backend.Health.{health_reply}
use prequal_nc.Backend.Traffic.{Work}

-- A moment at which a replica answered a probe: its state, the requests that it had seen, and how often the
-- load balancer had chosen it.
pub record Answer : Type 0 where
  pub server : ServerRef
  pub replica : Backend
  pub work : Work
  pub chosen_before : ℕ

-- The requests of probes under way, the responses under way, and the record of what has happened: the
-- requests at each replica, the answers, how many of them never came back, and how often SelectServer
-- returned each server.
pub record System (F : Type 0) : Type 0 where
  pub lb : LoadBalancer F
  pub replica : ServerRef → Backend
  pub work : ServerRef → Work
  pub probes : List ServerRef
  pub replies : List (ServerRef × HealthHeaders)
  pub answers : List Answer
  pub lost : ℕ
  pub chosen : ServerRef → ℕ

-- A map from servers with one value replaced.
abbrev pub at_server : {A : Type 0} → ServerRef → A → (ServerRef → A) → ServerRef → A
at_server srv a f s = if srv == s then a else f s

abbrev pub no_work : Work
no_work = record { in_flight = 0; given_up = 0; samples = [] }

abbrev pub count_choice : Option ServerRef → (ServerRef → ℕ) → ServerRef → ℕ
count_choice none chosen s = chosen s
count_choice (some srv) chosen s = if srv == s then suc (chosen s) else chosen s

-- The requests at a replica when one more begins, is answered, or is given up.
abbrev pub one_begun : Work → Work
one_begun t = record t { in_flight = suc t.in_flight }

abbrev pub one_answered : ℤ → ℤ → Work → Work
one_answered duration_us rif t = record t {
  in_flight = t.in_flight - 1;
  samples = t.samples ++ (record { latency_us = duration_us; rif_at_arrival = rif } ∷ []);
}

abbrev pub one_given_up : Work → Work
one_given_up t = record t { in_flight = t.in_flight - 1; given_up = suc t.given_up }

module _ (fl : Float64) where
  open fl use {F}

  -- The rest of a probe's goroutine behind probeServer, which handed over its counters and its result.
  unfoldable pub handle_probed :
      F → Time → ServerRef → ProbeStats × Option ProbeResult → LoadBalancer F → LoadBalancer F
  unfolding handle_probe_result
  handle_probed draw now srv (st, result) lb =
      handle_probe_result fl draw now srv result (record lb { probe_stats = st })

  -- The goroutine that triggerProbes starts for each target, from the response on.
  unfoldable pub finish_probe :
      F → Time → Time → ServerRef → Reply → LoadBalancer F → LoadBalancer F
  unfolding handle_probed probe_server
  finish_probe draw read_at now srv reply lb =
      handle_probed draw now srv (probe_server fl read_at reply lb.probe_stats) lb

  -- The states that a history brings about: registration; probes sent, answered by a replica while the load
  -- balancer waits for the answer, failed without such an answer, read, and failed behind the answer, which is
  -- lost on its way or too late for the timeout; requests that begin and end at a replica; and choices. The clock, the draws and the order
  -- of the steps are arbitrary.
  pub data Run : System F → Type 0 where
    started :
        (servers : ServerRef → Server) (entries : Heap) (cfg : Config F)
        → IsReuseBound cfg
        → Run (record {
          lb = (new_load_balancer fl servers entries cfg).0;
          replica = λ s. new_backend;
          work = λ s. no_work;
          probes = [];
          replies = [];
          answers = [];
          lost = 0;
          chosen = λ s. 0;
        })
    registered :
        {y : System F} (s : ServerRef) → Run y → Run (record y { lb = add_server fl s y.lb })
    triggered :
        {y : System F} (perm : List ℕ) (now : Time) (count : ℤ) (after : LoadBalancer F)
        (targets : List ServerRef)
        → trigger_probes fl perm now count y.lb ≡ some (after, targets)
        → Run y
        → Run (record y { lb = after; probes = y.probes ++ targets })
    probe_answered :
        {y : System F} (before : List ServerRef) (s : ServerRef) (behind : List ServerRef)
        → y.probes ≡ before ++ s ∷ behind
        → Run y
        → Run (record y {
          probes = before ++ behind;
          replies = y.replies ++ (s, health (y.replica s)) ∷ [];
          answers =
              record {
                server = s;
                replica = y.replica s;
                work = y.work s;
                chosen_before = y.chosen s;
              }
              ∷ y.answers;
        })
    probe_failed :
        {y : System F} (before : List ServerRef) (s : ServerRef) (behind : List ServerRef)
        (draw : F) (read_at now : Time) (reply : Reply)
        → y.probes ≡ before ++ s ∷ behind
        → (probe_server fl read_at reply y.lb.probe_stats).1 ≡ none
        → Run y
        → Run (record y {
          lb = finish_probe draw read_at now s reply y.lb;
          probes = before ++ behind;
        })
    reply_read :
        {y : System F} (before : List (ServerRef × HealthHeaders)) (s : ServerRef)
        (headers : HealthHeaders) (behind : List (ServerRef × HealthHeaders)) (draw : F)
        (read_at now : Time)
        → y.replies ≡ before ++ (s, headers) ∷ behind
        → Run y
        → Run (record y {
          lb = finish_probe draw read_at now s (health_reply headers) y.lb;
          replies = before ++ behind;
        })
    reply_lost :
        {y : System F} (before : List (ServerRef × HealthHeaders)) (s : ServerRef)
        (headers : HealthHeaders) (behind : List (ServerRef × HealthHeaders)) (draw : F)
        (read_at now : Time)
        → y.replies ≡ before ++ (s, headers) ∷ behind
        → Run y
        → Run (record y {
          lb = finish_probe draw read_at now s transport_error y.lb;
          replies = before ++ behind;
          lost = suc y.lost;
        })
    request_begun :
        {y : System F} (s : ServerRef)
        → Run y
        → Run (record y {
          replica = at_server s (begin_work (y.replica s)).0 y.replica;
          work = at_server s (one_begun (y.work s)) y.work;
        })
    request_answered :
        {y : System F} (s : ServerRef) (is_done : ℕ → Bool) (work : ℕ) (duration_us rif : ℤ)
        → 0 < (y.work s).in_flight
        → work_loop is_done work 0 ≡ true
        → IsWithin (2 ^ 63) duration_us
        → Run y
        → Run (record y {
          replica = at_server s (finish_work is_done work duration_us rif (y.replica s)) y.replica;
          work = at_server s (one_answered duration_us rif (y.work s)) y.work;
        })
    request_given_up :
        {y : System F} (s : ServerRef) (is_done : ℕ → Bool) (work : ℕ) (duration_us rif : ℤ)
        → 0 < (y.work s).in_flight
        → work_loop is_done work 0 ≡ false
        → Run y
        → Run (record y {
          replica = at_server s (finish_work is_done work duration_us rif (y.replica s)) y.replica;
          work = at_server s (one_given_up (y.work s)) y.work;
        })
    chose :
        {y : System F} (now_q now_ttl now_log : Time) (draw : ℕ) (after : LoadBalancer F)
        (srv : Option ServerRef)
        → select_server fl now_q now_ttl now_log draw y.lb ≡ some (after, srv)
        → Run y
        → Run (record y { lb = after; chosen = count_choice srv y.chosen })
