-- ===== src/Metrics.antt =====
-- pkg/loadbalancer/metrics.go: the collectors of the load balancer and their registration. The Prometheus
-- client is a parameter: a record of the operations that the program calls, with what its documentation says
-- of them. Metrics/Calls has the calls that balancer.go makes on the collectors.
pub mod Register
pub mod Calls
pub mod Export
pub mod Steps
pub mod Choice
pub mod Kept
pub mod History
pub mod Returns
pub mod Tests
use prequal_nc.Base.{
  ℕ, ◌≡◌, ℤ, pos, Bool, true, false, Option, none, some, List, [], ◌∷◌, length, In, ◌==◌,
}
use prequal_nc.Float.{Float64}
use prequal_nc.Text.{Text, codes}

-- The constructors NewCounterVec, NewGaugeVec and NewHistogramVec.
pub data VecKind : Type 0 where
  counter_vec gauge_vec histogram_vec : VecKind

-- prometheus.DefBuckets, or a list; a counter and a gauge have none.
pub data Buckets (F : Type 0) : Type 0 where
  no_buckets def_buckets : Buckets F
  listed : List F → Buckets F

pub record VecOpts (F : Type 0) : Type 0 where
  pub kind : VecKind
  pub name : Text
  pub help : Text
  pub buckets : Buckets F
  pub labels : List Text

-- A call on a child of a vector.
pub data Op (F : Type 0) : Type 0 where
  inc dec : Op F
  set_to observe_one : F → Op F

-- The fields of Metrics.
pub data Metric : Type 0 where
  request_duration active_requests server_health server_rif : Metric
  probes_triggered probes_succeeded probes_failed probe_duration : Metric
  probe_inflight probe_rate_effective pool_size pick_class : Metric

-- `m.field.WithLabelValues(labels…).op`.
pub record Call (F : Type 0) : Type 0 where
  pub metric : Metric
  pub labels : List Text
  pub op : Op F

-- What the program uses of the client: MustRegister on the default registry, and WithLabelValues with the call
-- on its result. `none` is a panic.
pub record Prometheus (F : Type 0) : Type 1 where
  pub State : Type 0
  pub names : State → List Text
  pub must_register : VecOpts F → State → Option State
  pub perform : VecOpts F → List Text → Op F → State → Option State

-- The names and the labels of the twelve vectors.
abbrev pub name_of : Metric → Text
name_of request_duration = codes "request_duration_seconds"
name_of active_requests = codes "active_requests"
name_of server_health = codes "server_health"
name_of server_rif = codes "server_rif"
name_of probes_triggered = codes "prequal_probes_triggered_total"
name_of probes_succeeded = codes "prequal_probes_succeeded_total"
name_of probes_failed = codes "prequal_probes_failed_total"
name_of probe_duration = codes "prequal_probe_duration_seconds"
name_of probe_inflight = codes "prequal_probes_inflight"
name_of probe_rate_effective = codes "prequal_probe_rate_effective"
name_of pool_size = codes "prequal_pool_size"
name_of pick_class = codes "prequal_pick_class_total"

abbrev pub help_of : Metric → Text
help_of request_duration = codes "Time spent processing request"
help_of active_requests = codes "Number of requests currently being processed"
help_of server_health = codes "Health status of servers"
help_of server_rif = codes "Server-reported requests in flight (from probe response header)"
help_of probes_triggered = codes "Probes initiated by the LB"
help_of probes_succeeded = codes "Probes that returned a valid result"
help_of probes_failed = codes "Probes that errored or timed out"
help_of probe_duration = codes "End-to-end wall time of a /health probe from the LB"
help_of probe_inflight = codes "Currently in-flight probe requests"
help_of probe_rate_effective =
    codes "Adaptive probes-per-query currently in effect (de-rated from r_probe under load)"
help_of pool_size = codes "Current entries in the probe pool"
help_of pick_class = codes "Picks broken down by HCL class (cold, hot, no-pool, no-winner)"

abbrev pub labels_of : Metric → List Text
labels_of request_duration = codes "algorithm" ∷ []
labels_of active_requests = codes "algorithm" ∷ []
labels_of server_health = codes "server_id" ∷ codes "algorithm" ∷ []
labels_of server_rif = codes "server_id" ∷ codes "algorithm" ∷ []
labels_of probes_triggered = codes "algorithm" ∷ []
labels_of probes_succeeded = codes "algorithm" ∷ []
labels_of probes_failed = codes "algorithm" ∷ codes "reason" ∷ []
labels_of probe_duration = codes "algorithm" ∷ []
labels_of probe_inflight = codes "algorithm" ∷ []
labels_of probe_rate_effective = codes "algorithm" ∷ []
labels_of pool_size = codes "algorithm" ∷ []
labels_of pick_class = codes "algorithm" ∷ codes "class" ∷ []

abbrev pub kind_of : Metric → VecKind
kind_of request_duration = histogram_vec
kind_of active_requests = gauge_vec
kind_of server_health = gauge_vec
kind_of server_rif = gauge_vec
kind_of probes_triggered = counter_vec
kind_of probes_succeeded = counter_vec
kind_of probes_failed = counter_vec
kind_of probe_duration = histogram_vec
kind_of probe_inflight = gauge_vec
kind_of probe_rate_effective = gauge_vec
kind_of pool_size = gauge_vec
kind_of pick_class = counter_vec

-- The order in which NewMetrics registers them.
abbrev pub metrics : List Metric
metrics =
    request_duration ∷ active_requests ∷ server_health ∷ server_rif ∷ probes_triggered
    ∷ probes_succeeded ∷ probes_failed ∷ probe_duration ∷ probe_inflight ∷ probe_rate_effective
    ∷ pool_size ∷ pick_class ∷ []

module _ (fl : Float64) where
  open fl use {F, of_int, fdiv}

  -- The bounds of the buckets of prequal_probe_duration_seconds; the division gives the float64 nearest to each.
  unfoldable probe_buckets : List F
  probe_buckets =
      let ratio : ℤ → ℤ → F = λ a b. fdiv (of_int a) (of_int b) in
      ratio (pos 5) (pos 10000)
      ∷ ratio (pos 1) (pos 1000)
      ∷ ratio (pos 2) (pos 1000)
      ∷ ratio (pos 5) (pos 1000)
      ∷ ratio (pos 1) (pos 100)
      ∷ ratio (pos 25) (pos 1000)
      ∷ ratio (pos 5) (pos 100)
      ∷ ratio (pos 1) (pos 10)
      ∷ ratio (pos 2) (pos 10)
      ∷ ratio (pos 5) (pos 10)
      ∷ ratio (pos 1) (pos 1)
      ∷ ratio (pos 2) (pos 1)
      ∷ []

  unfoldable buckets_of : Metric → Buckets F
  unfolding probe_buckets
  buckets_of request_duration = def_buckets
  buckets_of active_requests = no_buckets
  buckets_of server_health = no_buckets
  buckets_of server_rif = no_buckets
  buckets_of probes_triggered = no_buckets
  buckets_of probes_succeeded = no_buckets
  buckets_of probes_failed = no_buckets
  buckets_of probe_duration = listed probe_buckets
  buckets_of probe_inflight = no_buckets
  buckets_of probe_rate_effective = no_buckets
  buckets_of pool_size = no_buckets
  buckets_of pick_class = no_buckets

  -- The vector in a field of Metrics.
  unfoldable pub opts_of : Metric → VecOpts F
  unfolding buckets_of
  opts_of m = record {
    kind = kind_of m;
    name = name_of m;
    help = help_of m;
    buckets = buckets_of m;
    labels = labels_of m;
  }

  -- What the documentation says of the twelve vectors, which have valid names and labels, buckets that rise, and
  -- no constant labels: a name registers once, and MustRegister panics on the second; WithLabelValues panics on a
  -- number of values that is not the number of labels; and neither it nor the call on its result registers
  -- anything. Label values are valid UTF-8.
  pub record PrometheusLaws (pr : Prometheus F) : Type 0 where
    pub registers :
        (m : Metric) (st : pr.State)
        → ¬ In (name_of m) (pr.names st)
        → (st' : pr.State) × (pr.must_register (opts_of m) st ≡ some st')
          × (pr.names st' ≡ name_of m ∷ pr.names st)
    pub refuses :
        (m : Metric) (st : pr.State)
        → In (name_of m) (pr.names st)
        → pr.must_register (opts_of m) st ≡ none
    pub performs :
        (m : Metric) (values : List Text) (op : Op F) (st : pr.State)
        → length values ≡ length (labels_of m)
        → (st' : pr.State) × (pr.perform (opts_of m) values op st ≡ some st')
          × (pr.names st' ≡ pr.names st)

  module _ (pr : Prometheus F) where
    -- A run of MustRegister.
    unfoldable pub register_all : List Metric → pr.State → Option pr.State
    unfolding opts_of
    register_all [] st = some st
    register_all (m ∷ ms) st = elim (pr.must_register (opts_of m) st) [
      | none ↦ none
      | some st' ↦ register_all ms st'
    ]

    -- NewMetrics.
    unfoldable pub new_metrics : pr.State → Option pr.State
    unfolding register_all
    new_metrics = register_all metrics

    -- A run of calls.
    unfoldable pub perform_all : List (Call F) → pr.State → Option pr.State
    unfolding opts_of
    perform_all [] st = some st
    perform_all (c ∷ calls) st = elim (pr.perform (opts_of c.metric) c.labels c.op st) [
      | none ↦ none
      | some st' ↦ perform_all calls st'
    ]
