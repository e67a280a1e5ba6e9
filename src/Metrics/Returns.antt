-- ===== src/Metrics/Returns.antt =====
-- The calls on the collectors, on a registry that NewMetrics has filled: none of them panics.
use prequal_nc.Base.{◌≡◌, refl, ◌∙◌, some, List, [], ◌∷◌, All}
use prequal_nc.Float.{Float64}
use prequal_nc.Balancer.{LoadBalancer}
use prequal_nc.Metrics.{Call, Prometheus, PrometheusLaws, opts_of, new_metrics, perform_all}
use prequal_nc.Metrics.Register.{exported_names, LacksNames, new_metrics-HasNames}
use prequal_nc.Metrics.Export.{IsAccepted, AreExported-IsAccepted}
use prequal_nc.Metrics.History.{Observed, Observed-AreExported}

module _ (fl : Float64) (pr : Prometheus fl.F) (laws : PrometheusLaws fl pr) where
  open fl use {F}

  perform_all-returns :
      (calls : List (Call F)) (st : pr.State)
      → All IsAccepted calls
      → (st' : pr.State) × (perform_all fl pr calls st ≡ some st') × (pr.names st' ≡ pr.names st)
  unfolding perform_all opts_of
  perform_all-returns [] st h = (st, refl, refl)
  perform_all-returns (c ∷ calls) st h =
      let (st1, e, names) = laws.performs c.metric c.labels c.op st h.0 in
      let (st2, rest, kept) = perform_all-returns calls st1 h.1 in
      (st2, rw (perform_all, e) rest, kept ∙ names)

  -- With the documented behaviour of MustRegister and WithLabelValues: where NewMetrics finds none of its names
  -- registered, it returns, and in every history of the load balancer none of its calls on the collectors
  -- panics.
  pub Observed-performs :
      {lb : LoadBalancer F} {calls : List (Call F)} (st : pr.State)
      → LacksNames fl pr laws exported_names st
      → Observed fl lb calls
      → (st' : pr.State) × (st'' : pr.State) × (new_metrics fl pr st ≡ some st')
        × (perform_all fl pr calls st' ≡ some st'')
  Observed-performs {lb} {calls} st h o =
      let (st', made, has, keeps, count, again) = new_metrics-HasNames fl pr laws st h in
      let (st'', done, names) =
        perform_all-returns calls st'
          (AreExported-IsAccepted _ _ _ calls (Observed-AreExported fl o)) in
      (st', st'', made, done)
