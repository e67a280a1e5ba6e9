-- ===== src/Balancer/Accept.antt =====
-- balancer.go, handleProbeResult: an answer enters the pool.
use mathlib.Core.List.{Sublistᴰ}
use mathlib.Core.List.Sublistᴰ
use prequal_nc.Base.{
  ℕ, suc, ◌-◌, ◌≤◌, ◌<◌, ◌^◌, ◌≡◌, ◌≢◌, refl, ap, sym, ℤ, pos, ◌≤ℤ◌, ◌<ℤ◌, wrap32, wrap32_id,
  max_int32, Option, none, some, [], ◌∷◌, ◌++◌, arith, length, drop, length-drop, length-append,
  All-map, All-append, In,
}
use prequal_nc.Base.Sub.{
  All-sublist, IsDistinct-sublist, length-sublist, IsDistinct-append, drop-sublist,
}
use prequal_nc.Float.{Float64, FloatLaws}
use prequal_nc.Time.{Time}
use prequal_nc.Types.{ServerRef, EntryRef, ProbeResult, Config}
use prequal_nc.Rif.{observe}
use prequal_nc.Pool.{prune}
use prequal_nc.Pool.Prune.{append_pool-drop, prune-sublist}
use prequal_nc.Balancer.{LoadBalancer}
use prequal_nc.Balancer.Select.Consume.{store_self, store_other}
use prequal_nc.Balancer.Probe.{compute_b_reuse, accept_probe, handle_probe_result}
use prequal_nc.Balancer.Probe.Reuse.{reuse_limit, compute_b_reuse-bounds}
use prequal_nc.Balancer.Invariant.{IsUsable, PoolInv}

-- A configuration whose reuse bound is an int32.
pub record IsReuseBound {F : Type 0} (cfg : Config F) : Type 0 where
  pub most : ℕ
  pub is_most : cfg.max_reuse_pool ≡ pos most
  pub fits : most < 2 ^ 31

lt-ne : (f e : EntryRef) → f < e → f ≢ e
lt-ne f e h q = omega arith

module _ (fl : Float64) (laws : FloatLaws fl) where
  open fl use {F}

  -- The uses of a new entry fit an int32 and are at least one.
  new_uses :
      (draw : F) (cfg : Config F) (n : ℕ)
      → (r : IsReuseBound cfg)
      → let uses = wrap32 (compute_b_reuse fl draw cfg n) in
        (pos 0 <ℤ uses) × (uses ≤ℤ max_int32) × (uses ≤ℤ pos (reuse_limit r.most))
  new_uses draw cfg n r =
      let b = compute_b_reuse fl draw cfg n in
      let (low, high) =
        compute_b_reuse-bounds fl laws draw cfg n r.most r.is_most (omega (arith, r.fits)) in
      let small : pos (reuse_limit r.most) ≤ℤ max_int32 = ground (arith, r.fits) in
      rw (wrap32_id b (omega arith) (omega arith)) (omega arith, omega arith, high)

  -- What handleProbeResult does with an answer.
  pub record Accepted (now : Time) (srv : ServerRef) (result : ProbeResult)
      (lb lb' : LoadBalancer F) : Type 0 where
    pub uses : ℤ
    pub usable : (pos 0 <ℤ uses) × (uses ≤ℤ max_int32)
    pub entry : lb'.entry_at lb.next_entry ≡ record {
      server = srv;
      received_at = result.timestamp;
      rif = result.rif;
      latency = result.latency;
      remaining_uses = uses;
    }
    pub others : (f : EntryRef) → lb.next_entry ≢ f → lb'.entry_at f ≡ lb.entry_at f
    pub pool :
        let kept = prune lb.entry_at lb.config.pool_ttl now lb.entries in
        lb'.entries ≡ drop (suc (length kept) - lb.config.pool_cap) (kept ++ lb.next_entry ∷ [])
    pub allocated : lb'.next_entry ≡ suc lb.next_entry
    pub same_servers : lb'.servers ≡ lb.servers
    pub same_config : lb'.config ≡ lb.config
    pub seen : lb'.rif_dist ≡ observe fl result.rif result.timestamp lb.rif_dist

  -- Under the laws of float64, with a reuse bound that is an int32 and not negative, and a pool within
  -- its capacity: an answer becomes the newest entry of the pool, with at least one use, behind the
  -- entries that the expiry keeps; the oldest of these leave where the pool is over its capacity; no
  -- other entry changes; and the distribution observes the value.
  pub accept_probe-Accepted :
      (draw : F) (now : Time) (srv : ServerRef) (result : ProbeResult) (lb : LoadBalancer F)
      → IsReuseBound lb.config
      → length lb.entries ≤ lb.config.pool_cap
      → Accepted now srv result lb (accept_probe fl draw now srv result lb)
  unfolding accept_probe
  accept_probe-Accepted draw now srv result lb r h =
      let (some_use, fits, most) = new_uses draw lb.config (length lb.servers) r in
      let kept = prune lb.entry_at lb.config.pool_ttl now lb.entries in
      let fewer = length-sublist (prune-sublist lb.entry_at lb.config.pool_ttl now lb.entries) in
      record {
        uses = wrap32 (compute_b_reuse fl draw lb.config (length lb.servers));
        usable = (some_use, fits);
        entry = store_self lb.entry_at lb.next_entry _;
        others = λ f n. store_other lb.entry_at lb.next_entry f _ n;
        pool = (append_pool-drop kept lb.next_entry lb.config.pool_cap (omega arith)).0;
        allocated = refl;
        same_servers = refl;
        same_config = refl;
        seen = refl;
      }

  old-IsUsable :
      (now : Time) (srv : ServerRef) (result : ProbeResult) (lb lb' : LoadBalancer F) (f : EntryRef)
      → Accepted now srv result lb lb'
      → IsUsable lb.servers lb.next_entry lb.entry_at f
      → IsUsable lb'.servers lb'.next_entry lb'.entry_at f
  old-IsUsable now srv result lb lb' f a (below, some_use, fits, known) =
      let same = a.others f (λ q. lt-ne f lb.next_entry below (sym q)) in
      rw (a.same_servers, a.allocated, same) (omega arith, some_use, fits, known)

  -- The pool behind an answer is a part of the pool before with the new entry behind it.
  pub Accepted-part :
      (now : Time) (srv : ServerRef) (result : ProbeResult) (lb lb' : LoadBalancer F)
      → Accepted now srv result lb lb'
      → Sublistᴰ lb'.entries (lb.entries ++ lb.next_entry ∷ [])
  Accepted-part now srv result lb lb' a =
      let e = lb.next_entry in
      let kept = prune lb.entry_at lb.config.pool_ttl now lb.entries in
      let cut = suc (length kept) - lb.config.pool_cap in
      rw a.pool (
        Sublistᴰ.trans (drop-sublist cut (kept ++ e ∷ [])) (
          Sublistᴰ.append (prune-sublist lb.entry_at lb.config.pool_ttl now lb.entries)
            (Sublistᴰ.refl (e ∷ []))))

  Accepted-PoolInv :
      (now : Time) (srv : ServerRef) (result : ProbeResult) (lb lb' : LoadBalancer F)
      → Accepted now srv result lb lb'
      → In srv lb.servers
      → PoolInv lb
      → PoolInv lb'
  Accepted-PoolInv now srv result lb lb' a h v =
      let e = lb.next_entry in
      let kept = prune lb.entry_at lb.config.pool_ttl now lb.entries in
      let cut = suc (length kept) - lb.config.pool_cap in
      let part = Accepted-part now srv result lb lb' a in
      let fresh = All-map _ (λ f. f ≢ e) lb.entries (λ f u. lt-ne f e u.0) v.usable in
      let old =
        All-map _ (IsUsable lb'.servers lb'.next_entry lb'.entry_at) lb.entries
          (λ f u. old-IsUsable now srv result lb lb' f a u) v.usable in
      let new : IsUsable lb'.servers lb'.next_entry lb'.entry_at e =
        rw (a.same_servers, a.allocated, a.entry) (omega arith, a.usable.0, a.usable.1, h) in
      record {
        bounded = omega (
          arith,
          ap length a.pool,
          length-drop cut (kept ++ e ∷ []),
          length-append kept (e ∷ []),
          ap (λ (c : Config F). c.pool_cap) a.same_config,
        );
        distinct = IsDistinct-sublist part (IsDistinct-append lb.entries e fresh v.distinct);
        usable =
            All-sublist (IsUsable lb'.servers lb'.next_entry lb'.entry_at) part
              (All-append _ lb.entries (e ∷ []) old (new, tt));
      }

  accept_probe-PoolInv :
      (draw : F) (now : Time) (srv : ServerRef) (result : ProbeResult) (lb : LoadBalancer F)
      → IsReuseBound lb.config
      → In srv lb.servers
      → PoolInv lb
      → PoolInv (accept_probe fl draw now srv result lb)
  accept_probe-PoolInv draw now srv result lb r h v =
      let a = accept_probe-Accepted draw now srv result lb r v.bounded in
      Accepted-PoolInv now srv result lb (accept_probe fl draw now srv result lb) a h v

  -- Under the laws of float64, with a reuse bound that is an int32 and not negative, for a registered
  -- server and a valid pool: handleProbeResult leaves a pool within its capacity, free of repetitions,
  -- and made of entries that are allocated, usable and of registered servers.
  pub handle_probe_result-PoolInv :
      (draw : F) (now : Time) (srv : ServerRef) (result : Option ProbeResult) (lb : LoadBalancer F)
      → IsReuseBound lb.config
      → In srv lb.servers
      → PoolInv lb
      → PoolInv (handle_probe_result fl draw now srv result lb)
  unfolding handle_probe_result
  handle_probe_result-PoolInv draw now srv none lb r h v = v
  handle_probe_result-PoolInv draw now srv (some result) lb r h v =
      accept_probe-PoolInv draw now srv result lb r h v
