-- ===== src/Balancer/Serve/Counting.antt =====
-- balancer.go, ServeHTTP: what the beginning and the end of a request do to the counters.
use mathlib.Core.Option.{some-injective}
use prequal_nc.Base.{
  add_int32-suc, add_int32-pred, ℕ, suc, ◌+◌, ◌-◌, ◌%◌, ◌^◌, ◌<◌, ◌≡◌, ap, ◌∙◌, pos, negsuc, wrap32,
  add_int32, Option, none, some, arith,
}
use prequal_nc.Types.{ServerRef}
use prequal_nc.Balancer.{LoadBalancer, inc_uint64}
use prequal_nc.Balancer.Counts.{SameCounts}
use prequal_nc.Balancer.Serve.{
  Forward, relayed, timed_out, proxy_failed, aborted, begin_request, end_request, count_failed,
  count_successful, forward_request, after_forward, leave, after_select,
}

inc_uint64-suc : (n : ℕ) → inc_uint64 (n % 2 ^ 64) ≡ suc n % 2 ^ 64
inc_uint64-suc n = ground arith

-- The requests that came in: those in flight and how the others ended.
pub record Requests : Type 0 where
  pub in_flight : ℕ
  pub successful : ℕ
  pub failed : ℕ
  pub broken : ℕ

abbrev pub ended_by : Forward → Requests → Requests
ended_by relayed t = record t { in_flight = t.in_flight - 1; successful = suc t.successful }
ended_by timed_out t = record t { in_flight = t.in_flight - 1; failed = suc t.failed }
ended_by proxy_failed t = record t { in_flight = t.in_flight - 1; failed = suc t.failed }
ended_by aborted t = record t { in_flight = t.in_flight - 1; broken = suc t.broken }

module _ {F : Type 0} where
  pub forwarded-after :
      (srv : Option ServerRef) (a after : LoadBalancer F) (s : ServerRef)
      → after_select (some (a, srv)) ≡ some (after, some s)
      → a ≡ after
  unfolding after_select
  forwarded-after none a after s e =
      let q = ap (λ (p : LoadBalancer F × Option ServerRef). p.1) (some-injective _ _ e) in cc
  forwarded-after (some s') a after s e =
      ap (λ (p : LoadBalancer F × Option ServerRef). p.0) (some-injective _ _ e)

  pub refused-after :
      (srv : Option ServerRef) (a after : LoadBalancer F)
      → after_select (some (a, srv)) ≡ some (after, none)
      → end_request (count_failed a) ≡ after
  unfolding after_select
  refused-after none a after e =
      ap (λ (p : LoadBalancer F × Option ServerRef). p.0) (some-injective _ _ e)
  refused-after (some s) a after e =
      let q = ap (λ (p : LoadBalancer F × Option ServerRef). p.1) (some-injective _ _ e) in cc

  -- What the counters of the load balancer say of the requests.
  pub record AreCounts (lb : LoadBalancer F) (t : Requests) : Type 0 where
    pub total :
        lb.stats.total_requests ≡ (t.in_flight + t.successful + t.failed + t.broken) % 2 ^ 64
    pub successful : lb.stats.successful_requests ≡ t.successful % 2 ^ 64
    pub failed : lb.stats.failed_requests ≡ t.failed % 2 ^ 64
    pub active : lb.active_forwards ≡ wrap32 (pos t.in_flight)

  pub same-AreCounts :
      (lb after : LoadBalancer F) (t : Requests)
      → SameCounts after lb
      → AreCounts lb t
      → AreCounts after t
  same-AreCounts lb after t (es, ea) c = record {
    total = rw es c.total;
    successful = rw es c.successful;
    failed = rw es c.failed;
    active = rw ea c.active;
  }

  pub begin_request-AreCounts :
      (lb : LoadBalancer F) (t : Requests)
      → AreCounts lb t
      → AreCounts (begin_request lb) (record t { in_flight = suc t.in_flight })
  unfolding begin_request
  begin_request-AreCounts lb t c = record {
    total =
        ap inc_uint64 c.total
        ∙ inc_uint64-suc (t.in_flight + t.successful + t.failed + t.broken)
        ∙ omega arith;
    successful = c.successful;
    failed = c.failed;
    active = ap (λ n. add_int32 n (pos 1)) c.active ∙ add_int32-suc t.in_flight;
  }

  one_less :
      (lb : LoadBalancer F) (t : Requests)
      → 0 < t.in_flight
      → AreCounts lb t
      → add_int32 lb.active_forwards (negsuc 0) ≡ wrap32 (pos (t.in_flight - 1))
  one_less lb t h c =
      let n : t.in_flight ≡ suc (t.in_flight - 1) = omega arith in
      ap (λ a. add_int32 a (negsuc 0)) (c.active ∙ ap (λ k. wrap32 (pos k)) n)
      ∙ add_int32-pred (t.in_flight - 1)

  pub leave-AreCounts :
      (f : Forward) (lb : LoadBalancer F) (t : Requests)
      → 0 < t.in_flight
      → AreCounts lb t
      → AreCounts (leave f lb) (ended_by f t)
  unfolding leave after_forward forward_request end_request count_failed count_successful
  leave-AreCounts relayed lb t h c = record {
    total = c.total ∙ omega arith;
    successful = ap inc_uint64 c.successful ∙ inc_uint64-suc t.successful;
    failed = c.failed;
    active = one_less lb t h c;
  }
  leave-AreCounts timed_out lb t h c = record {
    total = c.total ∙ omega arith;
    successful = c.successful;
    failed = ap inc_uint64 c.failed ∙ inc_uint64-suc t.failed;
    active = one_less lb t h c;
  }
  leave-AreCounts proxy_failed lb t h c = record {
    total = c.total ∙ omega arith;
    successful = c.successful;
    failed = ap inc_uint64 c.failed ∙ inc_uint64-suc t.failed;
    active = one_less lb t h c;
  }
  leave-AreCounts aborted lb t h c = record {
    total = c.total ∙ omega arith;
    successful = c.successful;
    failed = c.failed;
    active = one_less lb t h c;
  }

  -- The answer 503 where there is no server.
  pub refusal-AreCounts :
      (lb : LoadBalancer F) (t : Requests)
      → AreCounts lb (record t { in_flight = suc t.in_flight })
      → AreCounts (end_request (count_failed lb)) (record t { failed = suc t.failed })
  unfolding end_request count_failed
  refusal-AreCounts lb t c = record {
    total = c.total ∙ omega arith;
    successful = c.successful;
    failed = ap inc_uint64 c.failed ∙ inc_uint64-suc t.failed;
    active = ap (λ a. add_int32 a (negsuc 0)) c.active ∙ add_int32-pred t.in_flight;
  }
