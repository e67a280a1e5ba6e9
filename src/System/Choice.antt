-- ===== src/System/Choice.antt =====
-- The load balancer with its replicas: what a choice of selectServerPrequal rests on.
use prequal_nc.Base.{ℕ, ◌≤◌, ◌<◌, ◌≡◌, subst, sym, ℤ, Bool, Option, some, List, count_of, In-All}
use prequal_nc.Float.{Float64, FloatLaws}
use prequal_nc.Time.{Time}
use prequal_nc.Types.{ServerRef, EntryRef}
use prequal_nc.Rif.{quantile}
use prequal_nc.Balancer.{LoadBalancer, PickClass}
use prequal_nc.Balancer.Debt.{apply_r_remove-RRemoved}
use prequal_nc.Balancer.Choice.{Selected, any_server, best_server, IsHotCold-In}
use prequal_nc.Balancer.Prequal.{IsRegistered, before_choice, select_server_prequal-Picks}
use prequal_nc.Balancer.Select.{apply_r_remove, select_server_prequal, theta_of}
use prequal_nc.Balancer.Select.Scan.{is_fresh, IsHotCold}
use prequal_nc.System.{Answer, System, Run}
use prequal_nc.System.Provenance.{IsFrom, AreFrom, sub-AreFrom}
use prequal_nc.System.Invariant.{Run-SystemInv}

module _ (fl : Float64) where
  open fl use {F}

  -- A choice on the pool of `lb` at the threshold theta: a guess where fewer than two entries are fresh, and
  -- otherwise the server of the entry that the hot-cold rule picks, which goes back to an answer of that server.
  pub data IsInformed (answers : List Answer) (chosen : ServerRef → ℕ) (theta : ℤ) (now : Time)
      (lb : LoadBalancer F) (srv : Option ServerRef) : Type 0 where
    guess :
        count_of (is_fresh lb.entry_at theta lb.config.pool_ttl now) lb.entries < 2
        → IsRegistered fl lb.servers srv
        → IsInformed answers chosen theta now lb srv
    informed :
        (e : EntryRef) (class : PickClass)
        → 2 ≤ count_of (is_fresh lb.entry_at theta lb.config.pool_ttl now) lb.entries
        → IsHotCold lb.entry_at theta lb.config.pool_ttl now lb.entries e class
        → IsFrom answers chosen (lb.entry_at e)
        → srv ≡ some (lb.entry_at e).server
        → IsInformed answers chosen theta now lb srv

  Selected-IsInformed :
      (answers : List Answer) (chosen : ServerRef → ℕ) (theta : ℤ) (now : Time) (draw : ℕ)
      (lb after : LoadBalancer F) (srv : Option ServerRef)
      → AreFrom answers chosen lb
      → IsRegistered fl lb.servers srv
      → Selected fl theta now draw lb after srv
      → IsInformed answers chosen theta now lb srv
  unfolding AreFrom
  Selected-IsInformed answers chosen theta now draw lb after srv h known
        (any_server few q ee eh ep) =
      guess few known
  Selected-IsInformed answers chosen theta now draw lb after srv h known
        (best_server e class many rule q c) =
      let m = IsHotCold-In lb.entry_at theta lb.config.pool_ttl now lb.entries e class rule in
      informed e class many rule
        (In-All (λ f. IsFrom answers chosen (lb.entry_at f)) e lb.entries h m) q

module _ (fl : Float64) (laws : FloatLaws fl) where
  open fl use {F}

  -- Under the laws of float64, with a reuse bound that is an int32 and not negative, in every history of the load
  -- balancer and its replicas: selectServerPrequal returns with no panic. On the pool that applyRRemove leaves
  -- and at the threshold of Quantile it returns a registered server or nil, where fewer than two entries are fresh;
  -- otherwise the server of the entry that the hot-cold rule picks, whose latency is what a replica of that
  -- server answered at some moment, and whose RIF is the requests that it had in flight then plus, as an int32,
  -- at most one for each time that the server has been chosen since.
  pub Run-IsInformed :
      {y : System F} (now_q now_ttl now_log : Time) (draw : ℕ)
      → Run fl y
      → (answer : ℤ × Bool) × (after : LoadBalancer F) × (srv : Option ServerRef) × ((quantile fl
            (apply_r_remove fl y.lb).config.q_rif
            now_q
            (apply_r_remove fl y.lb).rif_dist).1
          ≡ some answer)
        × (select_server_prequal fl now_q now_ttl now_log draw y.lb ≡ some (after, srv))
        × IsInformed fl y.answers y.chosen
            (theta_of fl answer)
            now_ttl
            (before_choice fl now_q y.lb)
            srv
  Run-IsInformed {y} now_q now_ttl now_log draw run =
      let v = Run-SystemInv fl laws run in
      let r = apply_r_remove-RRemoved fl y.lb in
      let p =
        select_server_prequal-Picks fl v.lb.window now_q now_ttl now_log draw y.lb v.lb.dist
          v.lb.pool in
      let from =
        sub-AreFrom y.answers y.chosen y.lb (before_choice fl now_q y.lb) r.part r.same_heap
          v.pool in
      let known = subst (λ l. IsRegistered fl l p.server) (sym r.same_servers) p.known in
      (
        p.answer,
        p.after,
        p.server,
        p.asked,
        p.returns,
        Selected-IsInformed fl y.answers y.chosen (theta_of fl p.answer) now_ttl draw
            (before_choice fl now_q y.lb) p.after p.server from known p.selected,
      )
