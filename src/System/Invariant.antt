-- ===== src/System/Invariant.antt =====
-- The load balancer with its replicas: what holds in every history, wherever the probes are on their way.
use prequal_nc.Base.{[], All, All-append}
use prequal_nc.Float.{Float64, FloatLaws}
use prequal_nc.Types.{ServerRef, Server, Config}
use prequal_nc.Pool.{Heap}
use prequal_nc.Balancer.{new_load_balancer}
use prequal_nc.Balancer.Accept.{IsReuseBound}
use prequal_nc.Balancer.History.{new-LbInv}
use prequal_nc.Backend.{Backend, new_backend}
use prequal_nc.Backend.Traffic.{Work, Worked, idle, begun, answered, abandoned}
use prequal_nc.System.{
  System, at_server, no_work, Run, started, registered, triggered, probe_answered, probe_failed,
  reply_read, reply_lost, request_begun, request_answered, request_given_up, chose,
}
use prequal_nc.System.Reads.{IsInt64}
use prequal_nc.System.Provenance.{AreFrom}
use prequal_nc.System.Steps.{
  at_server-All, at_server-Worked, SystemInv, registered-SystemInv, triggered-SystemInv,
  answered-SystemInv, failed-SystemInv,
}
use prequal_nc.System.Reading.{read-SystemInv, lost-SystemInv, chose-SystemInv}

module _ (fl : Float64) (laws : FloatLaws fl) where
  open fl use {F}

  started-SystemInv :
      (servers : ServerRef → Server) (entries : Heap) (cfg : Config F)
      → IsReuseBound cfg
      → SystemInv fl laws (record {
        lb = (new_load_balancer fl servers entries cfg).0;
        replica = λ s. new_backend;
        work = λ s. no_work;
        probes = [];
        replies = [];
        answers = [];
        lost = 0;
        chosen = λ s. 0;
      })
  unfolding new_load_balancer AreFrom
  started-SystemInv servers entries cfg r = record {
    lb = new-LbInv fl laws servers entries cfg r;
    replicas = λ s. idle;
    in_range = λ s. tt;
    probes = tt;
    answers = tt;
    replies = tt;
    pool = tt;
  }

  -- What happens at a replica, away from the load balancer.
  at_replica-SystemInv :
      (y : System F) (s : ServerRef) (b : Backend) (t : Work)
      → Worked b t
      → All IsInt64 t.samples
      → SystemInv fl laws y
      → SystemInv fl laws
          (record y { replica = at_server s b y.replica; work = at_server s t y.work })
  at_replica-SystemInv y s b t w h v = record {
    lb = v.lb;
    replicas = at_server-Worked s b t y.replica y.work w v.replicas;
    in_range = at_server-All (λ (u : Work). All IsInt64 u.samples) s t y.work h v.in_range;
    probes = v.probes;
    answers = v.answers;
    replies = v.replies;
    pool = v.pool;
  }

  -- Under the laws of float64, with a reuse bound that is an int32 and not negative, however the probes, the
  -- requests at the replicas and the choices interleave: the load balancer keeps its invariant, only registered
  -- servers are probed, every replica has a history of its own, every response to a probe is what its replica
  -- printed at some moment, and every entry of the pool goes back to such an answer of its server: its latency
  -- is the estimate at that moment, and its RIF is the requests then in flight at the replica plus, as an
  -- int32, at most one for each time that SelectServer has returned the server since.
  pub Run-SystemInv : {y : System F} → Run fl y → SystemInv fl laws y
  Run-SystemInv (started servers entries cfg r) = started-SystemInv servers entries cfg r
  Run-SystemInv (registered {y = y} s h) = registered-SystemInv fl laws y s (Run-SystemInv h)
  Run-SystemInv (triggered {y = y} perm now count after targets e h) =
      triggered-SystemInv fl laws y perm now count after targets e (Run-SystemInv h)
  Run-SystemInv (probe_answered {y = y} before s behind e h) =
      answered-SystemInv fl laws y before s behind e (Run-SystemInv h)
  Run-SystemInv (probe_failed {y = y} before s behind draw read_at now reply e q h) =
      failed-SystemInv fl laws y before s behind draw read_at now reply e q (Run-SystemInv h)
  Run-SystemInv (reply_read {y = y} before s headers behind draw read_at now e h) =
      read-SystemInv fl laws y before s headers behind draw read_at now e (Run-SystemInv h)
  Run-SystemInv (reply_lost {y = y} before s headers behind draw read_at now e h) =
      lost-SystemInv fl laws y before s headers behind draw read_at now e (Run-SystemInv h)
  Run-SystemInv (request_begun {y = y} s h) =
      let v = Run-SystemInv h in
      at_replica-SystemInv y s _ _ (begun (v.replicas s)) (v.in_range s) v
  Run-SystemInv (request_answered {y = y} s is_done work duration_us rif busy q within h) =
      let v = Run-SystemInv h in
      at_replica-SystemInv y s _ _ (answered is_done work duration_us rif busy q (v.replicas s))
        (All-append IsInt64 (y.work s).samples _ (v.in_range s) (within, tt)) v
  Run-SystemInv (request_given_up {y = y} s is_done work duration_us rif busy q h) =
      let v = Run-SystemInv h in
      at_replica-SystemInv y s _ _ (abandoned is_done work duration_us rif busy q (v.replicas s))
        (v.in_range s) v
  Run-SystemInv (chose {y = y} now_q now_ttl now_log draw after srv e h) =
      chose-SystemInv fl laws y now_q now_ttl now_log draw after srv e (Run-SystemInv h)
