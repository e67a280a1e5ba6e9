-- ===== src/Balancer/Serve.antt =====
-- balancer.go, ServeHTTP and forwardRequest: one request. The reverse proxy is not modelled: how its call
-- ends is an argument. Nor is what is written to the client. The calls on Prometheus are in Metrics/Calls.
pub mod Counting
pub mod Traffic
use prequal_nc.Base.{ℕ, pos, negsuc, add_int32, Bool, true, false, not, ◌&&◌, Option, none, some}
use prequal_nc.Float.{Float64}
use prequal_nc.Time.{Time}
use prequal_nc.Types.{
  ServerRef, Config, prequal, round_robin, other_algorithm, per_query, ticker, other_mode,
  Algorithm, ProbeMode,
}
use prequal_nc.Balancer.{LoadBalancer, inc_uint64}
use prequal_nc.Balancer.Select.{select_server}

-- How proxy.ServeHTTP ends: the response was relayed; the error handler ran, at the deadline or for another
-- error; or the proxy panicked with http.ErrAbortHandler, when the response broke off.
pub data Forward : Type 0 where
  relayed timed_out proxy_failed aborted : Forward

-- The tests of ServeHTTP before `go lb.onQueryArrival()`.
abbrev is_prequal : Algorithm → Bool
is_prequal prequal = true
is_prequal round_robin = false
is_prequal (other_algorithm name) = false

abbrev is_ticker : ProbeMode → Bool
is_ticker ticker = true
is_ticker per_query = false
is_ticker (other_mode name) = false

unfoldable pub probes_on_query : {F : Type 0} → Config F → Bool
probes_on_query cfg = is_prequal cfg.algorithm && not (is_ticker cfg.probe_mode)

module _ {F : Type 0} where
  unfoldable pub begin_request : LoadBalancer F → LoadBalancer F
  begin_request lb = record lb {
    stats = record lb.stats { total_requests = inc_uint64 lb.stats.total_requests };
    active_forwards = add_int32 lb.active_forwards (pos 1);
  }

  -- The deferred decrement, which runs on a panic too.
  unfoldable pub end_request : LoadBalancer F → LoadBalancer F
  end_request lb = record lb { active_forwards = add_int32 lb.active_forwards (negsuc 0) }

  unfoldable pub count_failed : LoadBalancer F → LoadBalancer F
  count_failed lb = record lb {
    stats = record lb.stats { failed_requests = inc_uint64 lb.stats.failed_requests };
  }

  unfoldable pub count_successful : LoadBalancer F → LoadBalancer F
  count_successful lb = record lb {
    stats = record lb.stats { successful_requests = inc_uint64 lb.stats.successful_requests };
  }

  -- forwardRequest: `none` is the panic of the proxy, which passes through.
  unfoldable pub forward_request : Forward → LoadBalancer F → LoadBalancer F × Option Bool
  forward_request relayed lb = (lb, some true)
  forward_request timed_out lb = (count_failed lb, some false)
  forward_request proxy_failed lb = (count_failed lb, some false)
  forward_request aborted lb = (lb, none)

  -- ServeHTTP from the call of forwardRequest on.
  unfoldable pub after_forward : LoadBalancer F × Option Bool → LoadBalancer F
  after_forward (lb, some true) = end_request (count_successful lb)
  after_forward (lb, some false) = end_request lb
  after_forward (lb, none) = end_request lb

  unfoldable pub leave : Forward → LoadBalancer F → LoadBalancer F
  leave f lb = after_forward (forward_request f lb)

  -- ServeHTTP behind SelectServer, up to the call of forwardRequest or to the answer 503.
  unfoldable pub after_select :
      Option (LoadBalancer F × Option ServerRef) → Option (LoadBalancer F × Option ServerRef)
  after_select none = none
  after_select (some (lb, none)) = some (end_request (count_failed lb), none)
  after_select (some (lb, some s)) = some (lb, some s)

module _ (fl : Float64) where
  open fl use {F}

  -- ServeHTTP up to the call of forwardRequest, less the goroutine of onQueryArrival, which runs beside it
  -- where probes_on_query says so; a server that is `none` has been answered with 503.
  unfoldable pub enter :
      Time → Time → Time → ℕ → LoadBalancer F → Option (LoadBalancer F × Option ServerRef)
  unfolding begin_request
  enter now_q now_ttl now_log draw lb =
      after_select (select_server fl now_q now_ttl now_log draw (begin_request lb))
