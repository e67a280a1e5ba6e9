-- ===== src/Balancer/Prequal.antt =====
-- balancer.go, selectServerPrequal as a whole: it never panics, and what it returns.
use prequal_nc.Base.{
  ℕ, ◌<◌, ◌≡◌, refl, subst, ◌∙◌, inl, inr, ℤ, Bool, Option, none, some, List, [], ◌∷◌, arith,
  Bool-cases, Option-cases, length, get_elem?-some, get_elem?-In, In, In-All, ◌==◌,
}
use prequal_nc.Float.{Float64}
use prequal_nc.Time.{Time, Duration}
use prequal_nc.Types.{ServerRef}
use prequal_nc.Rif.{quantile}
use prequal_nc.Rif.Cache.{Reached, quantile-ne-none}
use prequal_nc.Balancer.{LoadBalancer}
use prequal_nc.Balancer.Counts.{SameCounts}
use prequal_nc.Balancer.Select.{
  apply_r_remove, random_server, intn, select_from, select_with, select_server_prequal, theta_of,
}
use prequal_nc.Balancer.Debt.{apply_r_remove-RRemoved}
use prequal_nc.Balancer.Invariant.{IsUsable, PoolInv, apply_r_remove-PoolInv}
use prequal_nc.Balancer.Choice.{
  Selected, any_server, best_server, select_from-Selected, IsHotCold-In, same-PoolInv,
}
use prequal_nc.Balancer.Select.Scan.{scan_entries}

pub no_element : (xs : List ServerRef) → length xs ≡ 0 → xs ≡ []
no_element [] h = refl
no_element (x ∷ xs) h = absurd (omega arith)

module _ (fl : Float64) where
  open fl use {F}

  -- A registered server, or nil where none is registered.
  pub data IsRegistered (servers : List ServerRef) (srv : Option ServerRef) : Type 0 where
    nil : servers ≡ [] → srv ≡ none → IsRegistered servers srv
    registered : (s : ServerRef) → In s servers → srv ≡ some s → IsRegistered servers srv

  random_server-IsRegistered :
      (draw : ℕ) (lb : LoadBalancer F) → IsRegistered lb.servers (random_server fl draw lb)
  unfolding random_server
  random_server-IsRegistered draw lb = elim (Bool-cases (length lb.servers == 0)) [
    | inl e ↦ nil (no_element lb.servers (ground arith)) (rw e refl)
    | inr e ↦
        let i = intn draw (length lb.servers) in
        let within : i < length lb.servers = ground arith in
        let (t, found) = get_elem?-some lb.servers i within in
        registered t (get_elem?-In lb.servers i t found) (rw e found)
  ]

  Selected-IsRegistered :
      (theta : ℤ) (now : Time) (draw : ℕ) (lb lb' : LoadBalancer F) (srv : Option ServerRef)
      → PoolInv lb
      → Selected fl theta now draw lb lb' srv
      → IsRegistered lb.servers srv
  Selected-IsRegistered theta now draw lb lb' srv v (any_server few e ee eh ep) =
      rw e (random_server-IsRegistered draw lb)
  Selected-IsRegistered theta now draw lb lb' srv v (best_server e class many rule q c) =
      let m = IsHotCold-In lb.entry_at theta lb.config.pool_ttl now lb.entries e class rule in
      let usable = In-All (IsUsable lb.servers lb.next_entry lb.entry_at) e lb.entries v.usable m in
      registered (lb.entry_at e).server usable.3 q

  -- The state on which the choice is made: after applyRRemove and Quantile.
  abbrev pub before_choice : Time → LoadBalancer F → LoadBalancer F
  before_choice now_q lb =
      let lb1 = apply_r_remove fl lb in
      record lb1 { rif_dist = (quantile fl lb1.config.q_rif now_q lb1.rif_dist).0 }

  -- What selectServerPrequal returns: a new state and a server, chosen at the threshold that Quantile gave.
  pub record Picks (now_q now_ttl now_log : Time) (draw : ℕ) (lb : LoadBalancer F) : Type 0 where
    pub answer : ℤ × Bool
    pub asked :
        (quantile fl (apply_r_remove fl lb).config.q_rif now_q (apply_r_remove fl lb).rif_dist).1
        ≡ some answer
    pub after : LoadBalancer F
    pub server : Option ServerRef
    pub returns : select_server_prequal fl now_q now_ttl now_log draw lb ≡ some (after, server)
    pub selected :
        Selected fl (theta_of fl answer) now_ttl draw (before_choice now_q lb) after server
    pub known : IsRegistered lb.servers server
    pub still_valid : PoolInv after
    pub same_servers : after.servers ≡ lb.servers
    pub same_config : after.config ≡ lb.config
    pub same_counts : SameCounts after lb
    pub dist :
        after.rif_dist
        ≡ (quantile fl (apply_r_remove fl lb).config.q_rif now_q (apply_r_remove fl lb).rif_dist).0

  select_with-some :
      (now_q now_ttl now_log : Time) (draw : ℕ) (lb : LoadBalancer F) (answer : ℤ × Bool)
      → (quantile fl (apply_r_remove fl lb).config.q_rif now_q (apply_r_remove fl lb).rif_dist).1
        ≡ some answer
      → let lb2 = before_choice now_q lb in
        select_server_prequal fl now_q now_ttl now_log draw lb
        ≡ select_from fl now_log draw
            (theta_of fl answer)
            (scan_entries lb2.entry_at (theta_of fl answer) lb2.config.pool_ttl now_ttl lb2.entries)
            lb2
  unfolding select_server_prequal select_with
  select_with-some now_q now_ttl now_log draw lb answer e = rw (e, select_with) refl

  -- On a valid pool, and a distribution that calls of Observe and Quantile brought about, selectServerPrequal
  -- returns with no panic. Where fewer than two pooled entries are fresh it takes any registered server;
  -- otherwise the server of the entry that the hot-cold rule picks at the threshold of Quantile. It is nil
  -- only where no server is registered, and the pool is valid again.
  pub select_server_prequal-Picks :
      (window : Duration) (now_q now_ttl now_log : Time) (draw : ℕ) (lb : LoadBalancer F)
      → Reached fl window lb.rif_dist
      → PoolInv lb
      → Picks now_q now_ttl now_log draw lb
  select_server_prequal-Picks window now_q now_ttl now_log draw lb r v =
      let lb1 = apply_r_remove fl lb in
      let d = apply_r_remove-RRemoved fl lb in
      let reached : Reached fl window lb1.rif_dist = rw d.same_dist r in
      let asked = quantile fl lb1.config.q_rif now_q lb1.rif_dist in
      elim (Option-cases asked.1) [
        | inl e ↦ absurd (quantile-ne-none fl window lb1.config.q_rif now_q reached e)
        | inr (answer, e) ↦
            let lb2 = before_choice now_q lb in
            let valid : PoolInv lb2 =
              same-PoolInv fl lb1 lb2 (refl, refl, refl, refl, refl)
                (apply_r_remove-PoolInv fl lb v) in
            let (after, server, run, chosen, kept, same, conf, dist, counts) =
              select_from-Selected fl now_log (theta_of fl answer) now_ttl draw lb2 valid in
            record {
              answer = answer;
              asked = e;
              after = after;
              server = server;
              returns = select_with-some now_q now_ttl now_log draw lb answer e ∙ run;
              selected = chosen;
              known =
                  subst (λ l. IsRegistered l server) d.same_servers
                    (Selected-IsRegistered (theta_of fl answer) now_ttl draw lb2 after server valid
                      chosen);
              still_valid = kept;
              same_servers = same ∙ d.same_servers;
              same_config = conf ∙ d.same_config;
              dist = dist;
              same_counts = (counts.0 ∙ d.same_counts.0, counts.1 ∙ d.same_counts.1);
            }
      ]
