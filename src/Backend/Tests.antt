-- ===== src/Backend/Tests.antt =====
-- A replica with a few requests, and its theorems at it.
use prequal_nc.Base.{
  ℕ, ◌+◌, ◌-◌, ◌*◌, ◌%◌, ◌^◌, ◌<◌, ◌≤◌, ◌≡◌, refl, pos, wrap32, add_int32, Bool, true, false, some,
  List, [], ◌∷◌, arith, ltb, leb, get_elem?,
}
use prequal_nc.Centi.{Centi}
use prequal_nc.Text.{codes, parse_int}
use prequal_nc.Text.Decimal.{IsWithin}
use prequal_nc.Balancer.{ProbeStats}
use prequal_nc.Balancer.Probe.{probe_server}
use prequal_nc.Backend.{
  LatencySample, latency_ring_size, empty_ring, record_latency, Backend, new_backend, begin_work,
  finish_work, work_loop, median_of, median_latency_us, health,
}
use prequal_nc.Backend.Recent.{recent, record_all}
use prequal_nc.Backend.Median.{median_latency_us-recent, IsEstimate, median_of-IsEstimate}
use prequal_nc.Backend.Traffic.{Work, Worked, idle, begun, answered, AreCounts, Worked-AreCounts}
use prequal_nc.Backend.Health.{health_reply, probe_server-health}
use prequal_nc.Backend.Antagonist.{extract_server_num, delay_to_start, timeline, phase_offset}
use prequal_nc.Backend.Antagonist.Schedule.{timeline-at}

abbrev sample : ℕ → ℕ → LatencySample
sample us rif = record { latency_us = pos us; rif_at_arrival = pos rif }

-- A history of three samples; the last one is far from the others.
abbrev samples : List LatencySample
samples = sample 30 1 ∷ sample 10 2 ∷ sample 500 9 ∷ []

median_test : median_of (pos 1) samples ≡ pos 30
unfolding median_of
median_test = refl

ring_test : median_latency_us (pos 20) (record_all samples empty_ring) ≡ pos 30
unfolding median_latency_us record_all record_latency
ring_test = refl

median_latency_us-recent_example :
    median_latency_us (pos 1) (record_all samples empty_ring)
    ≡ median_of (pos 1) (recent latency_ring_size samples)
median_latency_us-recent_example = median_latency_us-recent (pos 1) samples

median_of-IsEstimate_example : IsEstimate (pos 1) samples (median_of (pos 1) samples)
median_of-IsEstimate_example = median_of-IsEstimate (pos 1) samples

-- The context is done from round 300 on.
abbrev done_at_300 : ℕ → Bool
done_at_300 i = leb 300 i

done_at_300-after : (i : ℕ) → 300 ≤ i → done_at_300 i ≡ true
done_at_300-after i h = ground arith

-- Two requests come in, one of them is answered.
abbrev after_two : Backend
after_two = (begin_work (begin_work new_backend).0).0

abbrev two_begun : Work
two_begun = record { in_flight = 2; given_up = 0; samples = [] }

abbrev after_one : Backend
after_one = finish_work (λ i. false) 5 (pos 40) (pos 1) after_two

abbrev one_answered : Work
one_answered = record { in_flight = 1; given_up = 0; samples = sample 40 1 ∷ [] }

after_one-Worked : Worked after_one one_answered
unfolding work_loop
after_one-Worked = answered (λ i. false) 5 (pos 40) (pos 1) (omega arith) refl (begun (begun idle))

Worked-AreCounts_example : AreCounts after_one one_answered
Worked-AreCounts_example = Worked-AreCounts after_one-Worked

abbrev no_probes : ProbeStats
no_probes = record {
  triggered = 0;
  succeeded = 0;
  failed_error = 0;
  failed_http = 0;
  pool_empty = 0;
  no_winner = 0;
}

after_one_median :
    median_of after_one.inflight (recent latency_ring_size one_answered.samples) ≡ pos 40
unfolding median_of begin_work finish_work add_int32
after_one_median = refl

after_one-IsWithin :
    IsWithin (2 ^ 63) (median_of after_one.inflight (recent latency_ring_size one_answered.samples))
after_one-IsWithin = rw after_one_median (omega arith)

probe_server-health_example :
    probe_server Centi (pos 9) (health_reply (health after_one)) no_probes ≡ (
      no_probes,
      some (record {
        timestamp = pos 9;
        rif = wrap32 (pos 1);
        latency = median_of (wrap32 (pos 1)) (recent latency_ring_size one_answered.samples);
      }),
    )
probe_server-health_example =
    probe_server-health Centi (pos 9) no_probes after_one-Worked after_one-IsWithin

extract_server_num_test : extract_server_num (codes "server") ≡ pos 0
unfolding extract_server_num
extract_server_num_test = refl

phase_test : phase_offset (codes "server-17") (codes "-3") ≡ pos 7
unfolding phase_offset parse_int
phase_test = refl

-- A load of 30 percent at phase 7, started at second 1004: it sleeps 3 seconds and runs 3 of every 10.
timeline-at_example :
    (d : ℕ) × (delay_to_start (pos 7) 1004 ≡ pos d)
    × (d < 10)
    × (15 < d → get_elem? (timeline (pos 7) 1004 3 2) 15 ≡ some false)
    × (d ≤ 15
        → 15 < d + 10 * 2
        → get_elem? (timeline (pos 7) 1004 3 2) 15 ≡ some (ltb ((1004 + 15 + (10 - 7)) % 10) 3))
timeline-at_example = timeline-at 7 1004 3 2 15 (omega arith) (omega arith)
