-- ===== src/Backend/Health.antt =====
-- backend/main.go, the handler of "/health", and balancer.go, probeServer, at the two ends of a probe.
use prequal_nc.Base.{
  ℕ, ◌-◌, ◌^◌, ◌<◌, ◌≡◌, refl, inl, inr, ℤ, pos, negsuc, wrap32, wrap32_bounds, ◌≤ℤ◌, true, Option,
  none, some, [], ◌∷◌, arith, Bool-cases, if◌then◌else◌,
}
use prequal_nc.Float.{Float64}
use prequal_nc.Time.{Time}
use prequal_nc.Text.{Text, is_empty, parse_int, format_signed}
use prequal_nc.Text.Decimal.{IsWithin, parse_int-format_signed}
use prequal_nc.Balancer.{ProbeStats}
use prequal_nc.Balancer.Probe.{Reply, response, probe_server}
use prequal_nc.Backend.{
  latency_ring_size, Backend, HealthHeaders, health, median_of, median_latency_us,
}
use prequal_nc.Backend.Recent.{recent}
use prequal_nc.Backend.Traffic.{Work, Worked, Worked-AreCounts, median_latency_us-answered}

-- A header as probeServer reads it: absent or empty is no number.
abbrev header : ℕ → Text → Option ℤ
header limit s = if is_empty s then none else parse_int limit s

-- The response of the handler, as the load balancer sees it: 200 and two headers, parsed at 32 and 64 bits.
unfoldable pub health_reply : HealthHeaders → Reply
unfolding parse_int
health_reply h =
    response 200 (header (2 ^ 31) h.requests_in_flight) (header (2 ^ 63) h.latency_estimate_us)

header-format_signed :
    (limit : ℕ) (a : ℤ)
    → limit < 10 ^ 20
    → IsWithin limit a
    → header limit (format_signed a) ≡ some a
header-format_signed limit a small h =
    let e = parse_int-format_signed limit a small h in
    elim (Bool-cases (is_empty (format_signed a))) [
      | inl t ↦ absurd (never limit (format_signed a) a t e)
      | inr t ↦ rw t e
    ]
  where
    never : (limit : ℕ) (s : Text) (a : ℤ) → is_empty s ≡ true → parse_int limit s ≡ some a → ⊥
    never limit [] a t e = unfold parse_int in cc
    never limit (c ∷ s) a t e = cc

wrap32-IsWithin : (a : ℤ) → IsWithin (2 ^ 31) (wrap32 a)
wrap32-IsWithin a = within (wrap32 a) (wrap32_bounds a).0 (wrap32_bounds a).1
  where
    within : (b : ℤ) → negsuc (2 ^ 31 - 1) ≤ℤ b → b ≤ℤ pos (2 ^ 31 - 1) → IsWithin (2 ^ 31) b
    within (pos n) low high = omega arith
    within (negsuc n) low high = omega arith

-- A probe of a replica in any history brings back its number of requests in flight, as an int32, and the
-- median of its last 256 answered requests, if this is an int64: what the one prints, the other reads.
pub probe_server-health :
    (fl : Float64) {b : Backend} {t : Work} (now : Time) (st : ProbeStats)
    → Worked b t
    → IsWithin (2 ^ 63) (median_of b.inflight (recent latency_ring_size t.samples))
    → probe_server fl now (health_reply (health b)) st ≡ (
      st,
      some (record {
        timestamp = now;
        rif = wrap32 (pos t.in_flight);
        latency = median_of (wrap32 (pos t.in_flight)) (recent latency_ring_size t.samples);
      }),
    )
unfolding probe_server health_reply health
probe_server-health fl {b} {t} now st w h =
    let c = Worked-AreCounts w in
    let m = median_latency_us-answered b.inflight w in
    let rif : header (2 ^ 31) (format_signed b.inflight) ≡ some b.inflight =
      header-format_signed (2 ^ 31) b.inflight (omega arith)
        (rw c.inflight (wrap32-IsWithin (pos t.in_flight))) in
    let lat : header (2 ^ 63) (format_signed (median_latency_us b.inflight b.ring))
        ≡ some (median_latency_us b.inflight b.ring) =
      header-format_signed (2 ^ 63) (median_latency_us b.inflight b.ring) (omega arith) (rw m h) in
    rw (rif, lat, m, c.inflight) refl
