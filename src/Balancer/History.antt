-- ===== src/Balancer/History.antt =====
-- balancer.go: the load balancer over a whole history of calls.
use mathlib.Core.Option.{some-injective}
use prequal_nc.Base.{
  ℕ, ℤ, List, ◌+◌, ◌%◌, ◌-◌, ◌^◌, ◌<◌, ◌≡◌, refl, subst, sym, ◌∙◌, inl, inr, Option, none, some, [],
  ◌∷◌, arith, Bool-cases, length, get_elem?-some, get_elem?-In, All-map, In, In-append_left, ◌==◌,
}
use prequal_nc.Float.{Float64, FloatLaws}
use prequal_nc.Time.{Time, Duration}
use prequal_nc.Types.{
  ServerRef, Server, ProbeResult, Config, Algorithm, prequal, round_robin, other_algorithm,
}
use prequal_nc.Rif.Cache.{Reached, new, observed, asked}
use prequal_nc.Pool.{Heap}
use prequal_nc.Balancer.{LoadBalancer, new_load_balancer, rif_window_of, add_server, inc_uint32}
use prequal_nc.Balancer.Probe.{trigger_probes, handle_probe_result}
use prequal_nc.Balancer.Select.{
  apply_r_remove, select_server_prequal, select_server_rr, select_by, select_server,
}
use prequal_nc.Balancer.Debt.{apply_r_remove-RRemoved}
use prequal_nc.Balancer.Invariant.{IsUsable, PoolInv}
use prequal_nc.Balancer.Accept.{IsReuseBound, handle_probe_result-PoolInv, accept_probe-Accepted}
use prequal_nc.Balancer.Choice.{SamePool, same-PoolInv}
use prequal_nc.Balancer.Probe.Effect.{trigger_probes-SameButProbes}
use prequal_nc.Balancer.Counts.{SameCounts}
use prequal_nc.Balancer.Prequal.{
  IsRegistered, nil, registered, select_server_prequal-Picks, no_element,
}

module _ (fl : Float64) (laws : FloatLaws fl) where
  open fl use {F}

  -- What holds between any two calls.
  pub record LbInv (lb : LoadBalancer F) : Type 0 where
    pub pool : PoolInv lb
    pub bound : IsReuseBound lb.config
    pub window : Duration
    pub dist : Reached fl window lb.rif_dist

  pub new-LbInv :
      (servers : ServerRef → Server) (entries : Heap) (cfg : Config F)
      → IsReuseBound cfg
      → LbInv (new_load_balancer fl servers entries cfg).0
  unfolding new_load_balancer
  new-LbInv servers entries cfg r = record {
    pool = record { bounded = omega arith; distinct = tt; usable = tt };
    bound = r;
    window = rif_window_of fl cfg;
    dist = new;
  }

  pub add_server-LbInv :
      (s : ServerRef) (lb : LoadBalancer F) → LbInv lb → LbInv (add_server fl s lb)
  unfolding add_server
  add_server-LbInv s lb v = record {
    pool = record {
      bounded = v.pool.bounded;
      distinct = v.pool.distinct;
      usable =
          All-map (IsUsable lb.servers lb.next_entry lb.entry_at) _ lb.entries
            (λ e u. (u.0, u.1, u.2, In-append_left (lb.entry_at e).server lb.servers (s ∷ []) u.3))
            v.pool.usable;
    };
    bound = v.bound;
    window = v.window;
    dist = v.dist;
  }

  pub handle_probe_result-LbInv :
      (draw : F) (now : Time) (srv : ServerRef) (result : Option ProbeResult) (lb : LoadBalancer F)
      → In srv lb.servers
      → LbInv lb
      → LbInv (handle_probe_result fl draw now srv result lb)
  unfolding handle_probe_result
  handle_probe_result-LbInv draw now srv none lb h v = v
  handle_probe_result-LbInv draw now srv (some result) lb h v =
      let a = accept_probe-Accepted fl laws draw now srv result lb v.bound v.pool.bounded in
      record {
        pool = handle_probe_result-PoolInv fl laws draw now srv (some result) lb v.bound h v.pool;
        bound = rw a.same_config v.bound;
        window = v.window;
        dist = rw a.seen (observed result.rif result.timestamp v.dist);
      }

  -- A choice that returns: a registered server, or nil where there is none, the invariant again, and the
  -- same counters.
  abbrev pub Returns : Option (LoadBalancer F × Option ServerRef) → LoadBalancer F → Type 0
  Returns r lb =
      (after : LoadBalancer F) × (srv : Option ServerRef) × (r ≡ some (after, srv))
      × IsRegistered fl lb.servers srv
      × LbInv after
      × SameCounts after lb

  select_server_prequal-LbInv :
      (now_q now_ttl now_log : Time) (draw : ℕ) (lb : LoadBalancer F)
      → LbInv lb
      → Returns (select_server_prequal fl now_q now_ttl now_log draw lb) lb
  select_server_prequal-LbInv now_q now_ttl now_log draw lb v =
      let p = select_server_prequal-Picks fl v.window now_q now_ttl now_log draw lb v.dist v.pool in
      let before = apply_r_remove-RRemoved fl lb in
      let reached : Reached fl v.window (apply_r_remove fl lb).rif_dist =
        rw before.same_dist v.dist in
      (
        p.after,
        p.server,
        p.returns,
        p.known,
        record {
          pool = p.still_valid;
          bound = rw p.same_config v.bound;
          window = v.window;
          dist = rw p.dist (asked (apply_r_remove fl lb).config.q_rif now_q reached);
        },
        p.same_counts,
      )

  pub SamePool-LbInv :
      (lb after : LoadBalancer F)
      → SamePool fl after lb
      → after.rif_dist ≡ lb.rif_dist
      → LbInv lb
      → LbInv after
  SamePool-LbInv lb after (ee, eh, en, es, ec) ed v = record {
    pool = same-PoolInv fl lb after (ee, eh, en, es, ec) v.pool;
    bound = rw ec v.bound;
    window = v.window;
    dist = rw ed v.dist;
  }

  select_server_rr-LbInv : (lb : LoadBalancer F) → LbInv lb → Returns (select_server_rr fl lb) lb
  unfolding select_server_rr
  select_server_rr-LbInv lb v = elim (Bool-cases (length lb.servers == 0)) [
    | inl e ↦
        (lb, none, rw e refl, nil (no_element lb.servers (ground arith)) refl, v, (refl, refl))
    | inr e ↦
        let index = inc_uint32 lb.rr_index in
        let i = (index + 2 ^ 32 - 1) % 2 ^ 32 % length lb.servers in
        let within : i < length lb.servers = ground arith in
        let (s, found) = get_elem?-some lb.servers i within in
        (
          record lb { rr_index = index },
          some s,
          rw (e, found, select_server_rr) refl,
          registered s (get_elem?-In lb.servers i s found) refl,
          SamePool-LbInv lb _ (refl, refl, refl, refl, refl) refl v,
          (refl, refl),
        )
  ]

  select_by-LbInv :
      (a : Algorithm) (now_q now_ttl now_log : Time) (draw : ℕ) (lb : LoadBalancer F)
      → LbInv lb
      → Returns (select_by fl a now_q now_ttl now_log draw lb) lb
  unfolding select_by
  select_by-LbInv round_robin now_q now_ttl now_log draw lb v = select_server_rr-LbInv lb v
  select_by-LbInv prequal now_q now_ttl now_log draw lb v =
      select_server_prequal-LbInv now_q now_ttl now_log draw lb v
  select_by-LbInv (other_algorithm name) now_q now_ttl now_log draw lb v =
      select_server_prequal-LbInv now_q now_ttl now_log draw lb v

  pub select_server-LbInv :
      (now_q now_ttl now_log : Time) (draw : ℕ) (lb : LoadBalancer F)
      → LbInv lb
      → Returns (select_server fl now_q now_ttl now_log draw lb) lb
  unfolding select_server
  select_server-LbInv now_q now_ttl now_log draw lb v =
      select_by-LbInv lb.config.algorithm now_q now_ttl now_log draw lb v

  -- The load balancers that a history of calls can bring about: construction with a reuse bound of 32
  -- bits, registration, probes, answers to probes of registered servers, and choices.
  pub data LbReached : LoadBalancer F → Type 0 where
    started :
        (servers : ServerRef → Server) (entries : Heap) (cfg : Config F)
        → IsReuseBound cfg
        → LbReached (new_load_balancer fl servers entries cfg).0
    added : {lb : LoadBalancer F} (s : ServerRef) → LbReached lb → LbReached (add_server fl s lb)
    sent :
        {lb after : LoadBalancer F} (perm : List ℕ) (now : Time) (count : ℤ)
        (targets : List ServerRef)
        → trigger_probes fl perm now count lb ≡ some (after, targets)
        → LbReached lb
        → LbReached after
    answered :
        {lb : LoadBalancer F} (draw : F) (now : Time) (srv : ServerRef)
        (result : Option ProbeResult)
        → In srv lb.servers
        → LbReached lb
        → LbReached (handle_probe_result fl draw now srv result lb)
    chose :
        {lb after : LoadBalancer F} (now_q now_ttl now_log : Time) (draw : ℕ)
        (srv : Option ServerRef)
        → select_server fl now_q now_ttl now_log draw lb ≡ some (after, srv)
        → LbReached lb
        → LbReached after

  pub returned-LbInv :
      (r : Option (LoadBalancer F × Option ServerRef)) (lb after : LoadBalancer F)
      (srv : Option ServerRef)
      → r ≡ some (after, srv)
      → Returns r lb
      → LbInv after
  returned-LbInv r lb after srv e (after', srv', e', known, v, same) =
      subst (λ (p : LoadBalancer F × Option ServerRef). LbInv p.0) (some-injective _ _ (sym e' ∙ e))
        v

  -- Under the laws of float64, in every history of AddServer, triggerProbes, answers to probes of
  -- registered servers and calls of SelectServer, from a new load balancer on whose reuse bound is an
  -- int32 and not negative: the pool is within its capacity, free of repetitions and made of allocated,
  -- usable entries of registered servers, and the distribution is one that Observe and Quantile bring
  -- about.
  pub LbReached-LbInv : {lb : LoadBalancer F} → LbReached lb → LbInv lb
  LbReached-LbInv (started servers entries cfg r) = new-LbInv servers entries cfg r
  LbReached-LbInv (added {lb = lb} s h) = add_server-LbInv s lb (LbReached-LbInv h)
  LbReached-LbInv (sent {lb = lb} {after = after} perm now count targets e h) =
      let (pool, dist, counts) =
        trigger_probes-SameButProbes fl perm now count lb after targets e in
      SamePool-LbInv lb after pool dist (LbReached-LbInv h)
  LbReached-LbInv (answered {lb = lb} draw now srv result known h) =
      handle_probe_result-LbInv draw now srv result lb known (LbReached-LbInv h)
  LbReached-LbInv (chose {lb = lb} {after = after} now_q now_ttl now_log draw srv e h) =
      returned-LbInv _ lb after srv e
        (select_server-LbInv now_q now_ttl now_log draw lb (LbReached-LbInv h))

  -- Under the laws of float64, in every such history: SelectServer returns with no panic, by either
  -- algorithm, a registered server, or nil where no server is registered.
  pub select_server-IsRegistered :
      {lb : LoadBalancer F} (now_q now_ttl now_log : Time) (draw : ℕ)
      → LbReached lb
      → (after : LoadBalancer F) × (srv : Option ServerRef) × (select_server fl now_q now_ttl
            now_log draw lb
          ≡ some (after, srv))
        × IsRegistered fl lb.servers srv
  select_server-IsRegistered {lb} now_q now_ttl now_log draw h =
      let (after, srv, e, known, v, same) =
        select_server-LbInv now_q now_ttl now_log draw lb (LbReached-LbInv h) in
      (after, srv, e, known)
