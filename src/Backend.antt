-- ===== src/Backend.antt =====
-- backend/main.go: a replica. Its ring of latencies, the estimate that it answers probes with, and its
-- handlers. The global variables are the fields of the state.
pub mod Recent
pub mod Median
pub mod Work
pub mod Traffic
pub mod Health
pub mod Antagonist
pub mod Tests
use prequal_nc.Base.{
  ℕ, zero, suc, ◌+◌, ◌-◌, ◌/◌, ◌%◌, ◌^◌, ℤ, pos, negsuc, pos_part, ltb_ℤ, leb_ℤ, ◌-ℤ◌, wrap32,
  add_int32, Bool, true, false, ◌&&◌, List, [], ◌∷◌, map, length, take, set, get_or, keep,
  replicate, sort_ints, ltb, ◌==◌, if◌then◌else◌,
}
use prequal_nc.Float.{Float64}
use prequal_nc.Text.{Text, format_signed}

abbrev pub latency_ring_size : ℕ
latency_ring_size = 256

abbrev pub rif_window_delta : ℤ
rif_window_delta = pos 2

abbrev pub cancel_check_every : ℕ
cancel_check_every = 256

pub record LatencySample : Type 0 where
  pub latency_us : ℤ
  pub rif_at_arrival : ℤ

-- The array latencyRing with its two numbers.
pub record LatencyRing : Type 0 where
  pub latency_ring : List LatencySample
  pub latency_ring_idx : ℕ
  pub latency_ring_fill : ℕ

abbrev pub empty_sample : LatencySample
empty_sample = record { latency_us = pos 0; rif_at_arrival = pos 0 }

abbrev pub empty_ring : LatencyRing
empty_ring = record {
  latency_ring = replicate latency_ring_size empty_sample;
  latency_ring_idx = 0;
  latency_ring_fill = 0;
}

-- recordLatency.
unfoldable pub record_latency : LatencySample → LatencyRing → LatencyRing
record_latency s r = record {
  latency_ring = set r.latency_ring r.latency_ring_idx s;
  latency_ring_idx = (r.latency_ring_idx + 1) % latency_ring_size;
  latency_ring_fill =
      if ltb r.latency_ring_fill latency_ring_size
      then r.latency_ring_fill + 1
      else r.latency_ring_fill;
}

-- `d <= rifWindowDelta`, for the difference of two int32 and its absolute value.
unfoldable pub is_near : ℤ → LatencySample → Bool
unfolding wrap32 ◌-ℤ◌
is_near current s =
    let d = wrap32 (s.rif_at_arrival -ℤ current) in
    let d' = if ltb_ℤ d (pos 0) then wrap32 (pos 0 -ℤ d) else d in leb_ℤ d' rif_window_delta

-- The slices `all` and `near`.
abbrev pub latencies : List LatencySample → List ℤ
latencies = map (λ (s : LatencySample). s.latency_us)

abbrev pub middle : List ℤ → ℤ
middle xs = get_or (sort_ints xs) (length xs / 2) (pos 0)

unfoldable pub median_of : ℤ → List LatencySample → ℤ
unfolding is_near sort_ints
median_of current samples =
    let all = latencies samples in
    let near = latencies (keep (is_near current) samples) in
    if length near == 0 then if length all == 0 then pos 0 else middle all else middle near

-- medianLatencyUs: the loop reads the slots below latencyRingFill.
unfoldable pub median_latency_us : ℤ → LatencyRing → ℤ
unfolding median_of
median_latency_us current r = median_of current (take r.latency_ring_fill r.latency_ring)

pub record Backend : Type 0 where
  pub inflight : ℤ
  pub requests_total : ℕ
  pub cancelled_total : ℕ
  pub ring : LatencyRing

abbrev pub new_backend : Backend
new_backend = record {
  inflight = pos 0;
  requests_total = 0;
  cancelled_total = 0;
  ring = empty_ring;
}

-- `work`, for a draw of rand.NormFloat64; workMean is 4000.
unfoldable pub work_of : (fl : Float64) → fl.F → ℕ
work_of fl draw =
    let mean = fl.of_int (pos 4000) in
    let work = fl.trunc (fl.fadd (fl.fmul draw mean) mean) in
    if ltb_ℤ work (pos 0) then 0 else pos_part work

-- The loop of the handler with `rounds` rounds left, where `is_done i` says whether ctx.Err() is not nil
-- in round i. The hashes are not modelled: nothing reads them. The answer is whether the loop ended by
-- its test; otherwise the handler returns from inside.
unfoldable pub work_loop : (ℕ → Bool) → ℕ → ℕ → Bool
work_loop is_done zero i = true
work_loop is_done (suc rounds) i =
    let rest = work_loop is_done rounds (i + 1) in
    if i % cancel_check_every == 0 && is_done i then false else rest

-- The beginning of the handler of "/"; the new number in flight is rifAtArrival.
unfoldable pub begin_work : Backend → Backend × ℤ
begin_work b =
    let rif = add_int32 b.inflight (pos 1) in
    (record b { inflight = rif; requests_total = (b.requests_total + 1) % 2 ^ 64 }, rif)

-- The deferred decrement.
unfoldable pub end_work : Backend → Backend
end_work b = record b { inflight = add_int32 b.inflight (negsuc 0) }

-- What follows the loop: the time that it took is `duration_us`.
unfoldable pub after_work : Bool → ℤ → ℤ → Backend → Backend
unfolding record_latency end_work
after_work true duration_us rif b = end_work (record b {
  ring = record_latency (record { latency_us = duration_us; rif_at_arrival = rif }) b.ring;
})
after_work false duration_us rif b =
    end_work (record b { cancelled_total = (b.cancelled_total + 1) % 2 ^ 64 })

-- The handler of "/" behind its beginning.
unfoldable pub finish_work : (ℕ → Bool) → ℕ → ℤ → ℤ → Backend → Backend
unfolding work_loop after_work
finish_work is_done work duration_us rif b = after_work (work_loop is_done work 0) duration_us rif b

-- The headers of the handler of "/health".
pub record HealthHeaders : Type 0 where
  pub requests_in_flight : Text
  pub latency_estimate_us : Text

unfoldable pub health : Backend → HealthHeaders
unfolding format_signed median_latency_us
health b = record {
  requests_in_flight = format_signed b.inflight;
  latency_estimate_us = format_signed (median_latency_us b.inflight b.ring);
}
