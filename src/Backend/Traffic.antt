-- ===== src/Backend/Traffic.antt =====
-- backend/main.go, the handler of "/": the counters and the ring over any interleaving of requests.
use prequal_nc.Base.{
  ℕ, suc, ◌+◌, ◌-◌, ◌%◌, ◌^◌, ◌<◌, ◌≡◌, refl, ap, sym, ◌∙◌, ℤ, pos, negsuc, wrap32, wrap32_id,
  add_int32, add_int32-suc, add_int32-pred, Bool, true, false, List, [], ◌∷◌, ◌++◌, arith, length,
  length-append,
}
use prequal_nc.Backend.{
  LatencySample, LatencyRing, latency_ring_size, empty_ring, record_latency, Backend, new_backend,
  work_loop, begin_work, end_work, after_work, finish_work, median_of, median_latency_us,
}
use prequal_nc.Backend.Recent.{recent, record_all}
use prequal_nc.Backend.Median.{median_latency_us-recent}

-- The requests that came in: those in flight, how many were given up, and the samples of those that were
-- answered, oldest first.
pub record Work : Type 0 where
  pub in_flight : ℕ
  pub given_up : ℕ
  pub samples : List LatencySample

-- Histories of requests. Their beginnings and ends interleave as they like.
pub data Worked : Backend → Work → Type 0 where
  idle : Worked new_backend (record { in_flight = 0; given_up = 0; samples = [] })
  begun :
      {b : Backend} {t : Work}
      → Worked b t
      → Worked (begin_work b).0 (record t { in_flight = suc t.in_flight })
  answered :
      {b : Backend} {t : Work} (is_done : ℕ → Bool) (work : ℕ) (duration_us rif : ℤ)
      → 0 < t.in_flight
      → work_loop is_done work 0 ≡ true
      → Worked b t
      → Worked (finish_work is_done work duration_us rif b) (record t {
        in_flight = t.in_flight - 1;
        samples = t.samples ++ (record { latency_us = duration_us; rif_at_arrival = rif } ∷ []);
      })
  abandoned :
      {b : Backend} {t : Work} (is_done : ℕ → Bool) (work : ℕ) (duration_us rif : ℤ)
      → 0 < t.in_flight
      → work_loop is_done work 0 ≡ false
      → Worked b t
      → Worked
          (finish_work is_done work duration_us rif b)
          (record t { in_flight = t.in_flight - 1; given_up = suc t.given_up })

pub record AreCounts (b : Backend) (t : Work) : Type 0 where
  pub inflight : b.inflight ≡ wrap32 (pos t.in_flight)
  pub total : b.requests_total ≡ (t.in_flight + t.given_up + length t.samples) % 2 ^ 64
  pub cancelled : b.cancelled_total ≡ t.given_up % 2 ^ 64
  pub ring : b.ring ≡ record_all t.samples empty_ring

next_count : (n : ℕ) → (n % 2 ^ 64 + 1) % 2 ^ 64 ≡ suc n % 2 ^ 64
next_count n = omega arith

record_all-snoc :
    (samples : List LatencySample) (s : LatencySample) (r : LatencyRing)
    → record_all (samples ++ (s ∷ [])) r ≡ record_latency s (record_all samples r)
unfolding record_all
record_all-snoc [] s r = refl
record_all-snoc (x ∷ samples) s r = record_all-snoc samples s (record_latency x r)

one_less :
    (b : Backend) (t : Work)
    → 0 < t.in_flight
    → AreCounts b t
    → add_int32 b.inflight (negsuc 0) ≡ wrap32 (pos (t.in_flight - 1))
one_less b t h c =
    let n : t.in_flight ≡ suc (t.in_flight - 1) = omega arith in
    ap (λ a. add_int32 a (negsuc 0)) (c.inflight ∙ ap (λ k. wrap32 (pos k)) n)
    ∙ add_int32-pred (t.in_flight - 1)

begun-AreCounts :
    (b : Backend) (t : Work)
    → AreCounts b t
    → AreCounts (begin_work b).0 (record t { in_flight = suc t.in_flight })
unfolding begin_work
begun-AreCounts b t c = record {
  inflight = ap (λ a. add_int32 a (pos 1)) c.inflight ∙ add_int32-suc t.in_flight;
  total =
      ap (λ n. (n + 1) % 2 ^ 64) c.total
      ∙ next_count (t.in_flight + t.given_up + length t.samples)
      ∙ omega arith;
  cancelled = c.cancelled;
  ring = c.ring;
}

answered-AreCounts :
    (b : Backend) (t : Work) (duration_us rif : ℤ)
    → 0 < t.in_flight
    → AreCounts b t
    → AreCounts (after_work true duration_us rif b) (record t {
      in_flight = t.in_flight - 1;
      samples = t.samples ++ (record { latency_us = duration_us; rif_at_arrival = rif } ∷ []);
    })
unfolding after_work end_work
answered-AreCounts b t duration_us rif h c =
    let s : LatencySample = record { latency_us = duration_us; rif_at_arrival = rif } in
    record {
      inflight = one_less b t h c;
      total = c.total ∙ omega (arith, length-append t.samples (s ∷ []));
      cancelled = c.cancelled;
      ring = ap (record_latency s) c.ring ∙ sym (record_all-snoc t.samples s empty_ring);
    }

abandoned-AreCounts :
    (b : Backend) (t : Work) (duration_us rif : ℤ)
    → 0 < t.in_flight
    → AreCounts b t
    → AreCounts
        (after_work false duration_us rif b)
        (record t { in_flight = t.in_flight - 1; given_up = suc t.given_up })
unfolding after_work end_work
abandoned-AreCounts b t duration_us rif h c = record {
  inflight = one_less b t h c;
  total = c.total ∙ omega arith;
  cancelled = ap (λ n. (n + 1) % 2 ^ 64) c.cancelled ∙ next_count t.given_up;
  ring = c.ring;
}

-- However requests begin and end: inflight is the number of those in the handler, as an int32; the
-- requests counted are these, those given up and those answered together, modulo 2^64; those given up are
-- counted, modulo 2^64; and the ring has recorded the answered ones, in order.
pub Worked-AreCounts : {b : Backend} {t : Work} → Worked b t → AreCounts b t
unfolding finish_work record_all
Worked-AreCounts idle = record {
  inflight = sym (wrap32_id (pos 0) (omega arith) (omega arith));
  total = refl;
  cancelled = refl;
  ring = refl;
}
Worked-AreCounts (begun {b = b} {t = t} w) = begun-AreCounts b t (Worked-AreCounts w)
Worked-AreCounts (answered {b = b} {t = t} is_done work duration_us rif h e w) =
    rw e (answered-AreCounts b t duration_us rif h (Worked-AreCounts w))
Worked-AreCounts (abandoned {b = b} {t = t} is_done work duration_us rif h e w) =
    rw e (abandoned-AreCounts b t duration_us rif h (Worked-AreCounts w))

-- In every history the estimate for probes is the median of the last 256 answered requests.
pub median_latency_us-answered :
    {b : Backend} {t : Work} (current : ℤ)
    → Worked b t
    → median_latency_us current b.ring ≡ median_of current (recent latency_ring_size t.samples)
median_latency_us-answered {b} {t} current w =
    ap (median_latency_us current) (Worked-AreCounts w).ring
    ∙ median_latency_us-recent current t.samples
