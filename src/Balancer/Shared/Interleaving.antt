-- ===== src/Balancer/Shared/Interleaving.antt =====
-- balancer.go: every interleaving of selections, answers to probes and removals leaves a well-formed pool.
use prequal_nc.Base.{
  suc, ◌-◌, ◌<◌, ◌≡◌, ◌≢◌, ap, subst, sym, inl, inr, Option, none, some, List, [], ◌∷◌, ◌++◌, arith,
  Bool-cases, length, length-append, length-drop, All-map, All-append, In, ◌==◌,
}
use prequal_nc.Base.Sub.{All-sublist, IsDistinct-sublist, length-sublist, IsDistinct-append}
use prequal_nc.Float.{Float64, FloatLaws}
use prequal_nc.Time.{Time}
use prequal_nc.Types.{ServerRef, EntryRef, ProbeResult, Config}
use prequal_nc.Pool.{prune}
use prequal_nc.Balancer.{LoadBalancer}
use prequal_nc.Balancer.Probe.{handle_probe_result, accept_probe}
use prequal_nc.Balancer.Select.{apply_r_remove}
use prequal_nc.Balancer.Debt.{apply_r_remove-RRemoved}
use prequal_nc.Balancer.Invariant.{PoolInv}
use prequal_nc.Balancer.Accept.{Accepted, Accepted-part, accept_probe-Accepted}
use prequal_nc.Balancer.Shared.{
  Shared, Step, bumped, used_one, used_up, removed, answered, pruned, Steps, no_step, then_step,
}
use prequal_nc.Balancer.Shared.Invariant.{
  IsHeld, SharedInv, bumped-SharedInv, used_one-SharedInv, used_up-SharedInv, removed-SharedInv,
}

module _ (fl : Float64) (laws : FloatLaws fl) where
  open fl use {F}

  pruned-SharedInv :
      (s : Shared F) → SharedInv s → SharedInv (record s { lb = apply_r_remove fl s.lb })
  pruned-SharedInv s v =
      let r = apply_r_remove-RRemoved fl s.lb in
      record {
        bounded = omega (
          arith,
          length-sublist r.part,
          ap (λ (c : Config F). c.pool_cap) r.same_config,
          v.bounded,
        );
        distinct = IsDistinct-sublist r.part v.distinct;
        held =
            rw (r.same_next, r.same_heap)
              (All-sublist (IsHeld s.lb.next_entry s.lb.entry_at s.removing) r.part v.held);
        known = rw (r.same_next, r.same_heap, r.same_servers) v.known;
        bound = rw r.same_config v.bound;
      }

  Accepted-SharedInv :
      (now : Time) (srv : ServerRef) (result : ProbeResult) (removing : List EntryRef)
      (lb lb' : LoadBalancer F)
      → Accepted fl laws now srv result lb lb'
      → In srv lb.servers
      → SharedInv (record { lb = lb; removing = removing })
      → SharedInv (record { lb = lb'; removing = removing })
  Accepted-SharedInv now srv result removing lb lb' a h v =
      let e = lb.next_entry in
      let kept = prune lb.entry_at lb.config.pool_ttl now lb.entries in
      let cut = suc (length kept) - lb.config.pool_cap in
      let part = Accepted-part fl laws now srv result lb lb' a in
      let fresh = All-map _ (λ f. f ≢ e) lb.entries (λ f u. below-ne f e u.0) v.held in
      let old =
        All-map _ (IsHeld lb'.next_entry lb'.entry_at removing) lb.entries (λ f u. old-IsHeld f u)
          v.held in
      let new : IsHeld lb'.next_entry lb'.entry_at removing e =
        rw (a.allocated, a.entry) (omega arith, a.usable.1, inl a.usable.0) in
      record {
        bounded = omega (
          arith,
          ap length a.pool,
          length-drop cut (kept ++ e ∷ []),
          length-append kept (e ∷ []),
          ap (λ (c : Config F). c.pool_cap) a.same_config,
        );
        distinct = IsDistinct-sublist part (IsDistinct-append lb.entries e fresh v.distinct);
        held =
            All-sublist (IsHeld lb'.next_entry lb'.entry_at removing) part
              (All-append _ lb.entries (e ∷ []) old (new, tt));
        known = λ f b. known_server f b;
        bound = rw a.same_config v.bound;
      }
    where
      below-ne : (f e : EntryRef) → f < e → f ≢ e
      below-ne f e h q = omega arith

      old-IsHeld :
          (f : EntryRef)
          → IsHeld lb.next_entry lb.entry_at removing f
          → IsHeld lb'.next_entry lb'.entry_at removing f
      old-IsHeld f (below, fits, left) =
          let same = a.others f (λ q. below-ne f lb.next_entry below (sym q)) in
          rw (a.allocated, same) (omega arith, fits, left)

      known_server : (f : EntryRef) → f < lb'.next_entry → In (lb'.entry_at f).server lb'.servers
      known_server f b = elim (Bool-cases (lb.next_entry == f)) [
        | inl t ↦
            let same : lb.next_entry ≡ f = ground arith in
            let newest : In (lb'.entry_at lb.next_entry).server lb'.servers =
              rw (a.entry, a.same_servers) h in
            subst (λ k. In (lb'.entry_at k).server lb'.servers) same newest
        | inr t ↦
            let other = a.others f (λ q. ground arith) in
            rw (other, a.same_servers) (v.known f (ground (arith, a.allocated)))
      ]

  answered-SharedInv :
      (s : Shared F) (draw : F) (now : Time) (srv : ServerRef) (result : Option ProbeResult)
      → In srv s.lb.servers
      → SharedInv s
      → SharedInv (record s { lb = handle_probe_result fl draw now srv result s.lb })
  unfolding handle_probe_result
  answered-SharedInv s draw now srv none h v = v
  answered-SharedInv s draw now srv (some result) h v =
      let a = accept_probe-Accepted fl laws draw now srv result s.lb v.bound v.bounded in
      Accepted-SharedInv now srv result s.removing s.lb (accept_probe fl draw now srv result s.lb) a
        h v

  pub Step-SharedInv : {s t : Shared F} → Step fl s t → SharedInv s → SharedInv t
  Step-SharedInv (bumped s e h) v = bumped-SharedInv s e v
  Step-SharedInv (used_one s e h left) v = used_one-SharedInv s e left v
  Step-SharedInv (used_up s e h spent) v = used_up-SharedInv s e v
  Step-SharedInv (removed lb front back e) v = removed-SharedInv lb front back e v
  Step-SharedInv (answered s draw now srv result h) v = answered-SharedInv s draw now srv result h v
  Step-SharedInv (pruned s) v = pruned-SharedInv s v

  -- Under the laws of float64, however selections, answers to probes of registered servers and removals
  -- interleave, also inside consumeEntry: the pool stays within its capacity, free of repetitions, and made of
  -- allocated entries of registered servers; and an entry in it without a use left is one that some call of
  -- consumeEntry, still under way, has used up and is about to take out.
  pub Steps-SharedInv : {s t : Shared F} → Steps fl s t → SharedInv s → SharedInv t
  Steps-SharedInv no_step v = v
  Steps-SharedInv (then_step steps step) v = Step-SharedInv step (Steps-SharedInv steps v)

  -- When no such call is under way, the pool is valid.
  pub Steps-PoolInv : {s t : Shared F} → Steps fl s t → t.removing ≡ [] → SharedInv s → PoolInv t.lb
  Steps-PoolInv {s} {t} steps quiet v =
      let w = Steps-SharedInv steps v in
      record {
        bounded = w.bounded;
        distinct = w.distinct;
        usable =
            All-map _ _ t.lb.entries
              (λ e u. (
                u.0,
                elim u.2 [ inl left ↦ left | inr m ↦ absurd (subst (In e) quiet m) ],
                u.1,
                w.known e u.0,
              ))
              w.held;
      }
