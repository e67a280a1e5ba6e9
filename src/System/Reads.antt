-- ===== src/System/Reads.antt =====
-- What the load balancer reads from a replica's answer to a probe, and what a choice does to the pool.
use prequal_nc.Base.{
  ◌-◌, ◌^◌, ◌≡◌, ap, ℤ, pos, wrap32, List, [], ◌∷◌, arith, length, All, All-keep, All-drop, In-All,
}
use prequal_nc.Float.{Float64}
use prequal_nc.Time.{Time}
use prequal_nc.Text.Decimal.{IsWithin}
use prequal_nc.Types.{ServerRef}
use prequal_nc.Balancer.{LoadBalancer}
use prequal_nc.Balancer.Probe.{accept_probe}
use prequal_nc.Backend.{
  LatencySample, latency_ring_size, Backend, health, is_near, latencies, median_of,
}
use prequal_nc.Backend.Recent.{recent}
use prequal_nc.Backend.Median.{unknown, overall, nearby, median_of-IsEstimate}
use prequal_nc.Backend.Health.{health_reply, probe_server-health}
use prequal_nc.Backend.Traffic.{Work, Worked}
use prequal_nc.System.{handle_probed, finish_probe}

-- The durations of the work loop are int64.
abbrev pub IsInt64 : LatencySample → Type 0
IsInt64 s = IsWithin (2 ^ 63) s.latency_us

All-latencies :
    (samples : List LatencySample)
    → All IsInt64 samples
    → All (IsWithin (2 ^ 63)) (latencies samples)
All-latencies [] h = tt
All-latencies (s ∷ samples) h = (h.0, All-latencies samples h.1)

-- The median of int64 numbers is one of them.
median_of-IsWithin :
    (current : ℤ) (samples : List LatencySample)
    → All IsInt64 samples
    → IsWithin (2 ^ 63) (median_of current samples)
median_of-IsWithin current samples h = elim (median_of-IsEstimate current samples) [
  | unknown e z ↦ rw z (omega arith)
  | overall n r ↦
      In-All (IsWithin (2 ^ 63)) _ (latencies samples) (All-latencies samples h) r.member
  | nearby near e n r ↦
      In-All (IsWithin (2 ^ 63)) _ (latencies near)
        (All-latencies near (rw e (All-keep IsInt64 (is_near current) samples h))) r.member
]

-- The two numbers that a replica answers after these requests.
abbrev pub rif_after : Work → ℤ
rif_after t = wrap32 (pos t.in_flight)

abbrev pub estimate_after : Work → ℤ
estimate_after t = median_of (rif_after t) (recent latency_ring_size t.samples)

module _ (fl : Float64) where
  open fl use {F}

  -- Reading the answer of a replica puts these two numbers into the pool.
  pub finish_probe-health :
      {b : Backend} {t : Work} (draw : F) (read_at now : Time) (s : ServerRef) (lb : LoadBalancer F)
      → Worked b t
      → All IsInt64 t.samples
      → finish_probe fl draw read_at now s (health_reply (health b)) lb
        ≡ accept_probe fl draw now s
            (record { timestamp = read_at; rif = rif_after t; latency = estimate_after t })
            lb
  unfolding finish_probe handle_probed
  finish_probe-health {b} {t} draw read_at now s lb w h =
      let within : IsWithin (2 ^ 63) (median_of b.inflight (recent latency_ring_size t.samples)) =
        median_of-IsWithin b.inflight (recent latency_ring_size t.samples)
          (All-drop IsInt64 (length t.samples - latency_ring_size) t.samples h) in
      let read = probe_server-health fl read_at lb.probe_stats w within in
      ap (λ r. handle_probed fl draw now s r lb) read
