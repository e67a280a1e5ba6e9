-- ===== src/Balancer/Shared/Overuse.antt =====
-- balancer.go, consumeEntry among other calls: how often an entry is used beyond its limit.
use prequal_nc.Base.{
  ◌-◌, ◌<◌, ◌^◌, ◌≡◌, refl, ap, Option, none, some, List, [], ◌∷◌, arith, length, count_of-zero,
  All, All-of-In, All-map, All-append, In-All, ◌==◌,
}
use prequal_nc.Base.Sub.{All-sublist}
use prequal_nc.Float.{Float64, FloatLaws}
use prequal_nc.Time.{Time}
use prequal_nc.Types.{ServerRef, EntryRef, ProbePoolEntry, ProbeResult}
use prequal_nc.Balancer.{LoadBalancer}
use prequal_nc.Balancer.Invariant.{PoolInv}
use prequal_nc.Balancer.Debt.{apply_r_remove-RRemoved}
use prequal_nc.Balancer.Accept.{Accepted, Accepted-part, accept_probe-Accepted}
use prequal_nc.Balancer.Probe.{accept_probe, handle_probe_result}
use prequal_nc.Balancer.Select.{apply_r_remove}
use prequal_nc.Balancer.Shared.{
  Shared, Step, bumped, used_one, used_up, removed, answered, pruned, Steps, no_step, then_step,
}
use prequal_nc.Balancer.Shared.Invariant.{IsHeld, SharedInv}
use prequal_nc.Balancer.Shared.Interleaving.{Steps-SharedInv}
use prequal_nc.Balancer.Shared.Uses.{
  calls_on, IsCounted, some_left, same-IsCounted, UseInv, bumped-UseInv, used_one-UseInv,
  used_up-UseInv, removed-UseInv,
}

module _ (fl : Float64) (laws : FloatLaws fl) where
  open fl use {F}

  pruned-UseInv : (s : Shared F) → UseInv s → UseInv (record s { lb = apply_r_remove fl s.lb })
  pruned-UseInv s v =
      let r = apply_r_remove-RRemoved fl s.lb in
      record {
        counted =
            rw r.same_heap (All-sublist (IsCounted s.lb.entry_at s.removing) r.part v.counted);
        allocated = rw r.same_next v.allocated;
      }

  Accepted-UseInv :
      (now : Time) (srv : ServerRef) (result : ProbeResult) (removing : List EntryRef)
      (lb lb' : LoadBalancer F)
      → Accepted fl laws now srv result lb lb'
      → SharedInv (record { lb = lb; removing = removing })
      → UseInv (record { lb = lb; removing = removing })
      → UseInv (record { lb = lb'; removing = removing })
  Accepted-UseInv now srv result removing lb lb' a w v =
      let e = lb.next_entry in
      let old : All (IsCounted lb'.entry_at removing) lb.entries = All-of-In _ lb.entries (λ f m.
        let below = (In-All (IsHeld e lb.entry_at removing) f lb.entries w.held m).0 in
        same-IsCounted lb.entry_at lb'.entry_at removing removing f
          (ap (λ (q : ProbePoolEntry). q.remaining_uses) (a.others f (λ q. omega arith))) refl
          (In-All (IsCounted lb.entry_at removing) f lb.entries v.counted m)) in
      let none_on : calls_on e removing ≡ 0 =
        count_of-zero (λ k. k == e) removing
          (All-map _ _ removing (λ k h. ground arith) v.allocated) in
      let new : IsCounted lb'.entry_at removing e = some_left (rw a.entry a.usable.0) none_on in
      record {
        counted =
            All-sublist (IsCounted lb'.entry_at removing)
              (Accepted-part fl laws now srv result lb lb' a)
              (All-append _ lb.entries (e ∷ []) old (new, tt));
        allocated = rw a.allocated (All-map _ _ removing (λ k h. omega arith) v.allocated);
      }

  answered-UseInv :
      (s : Shared F) (draw : F) (now : Time) (srv : ServerRef) (result : Option ProbeResult)
      → SharedInv s
      → UseInv s
      → UseInv (record s { lb = handle_probe_result fl draw now srv result s.lb })
  unfolding handle_probe_result
  answered-UseInv s draw now srv none w v = v
  answered-UseInv s draw now srv (some result) w v =
      Accepted-UseInv now srv result s.removing s.lb (accept_probe fl draw now srv result s.lb)
        (accept_probe-Accepted fl laws draw now srv result s.lb w.bound w.bounded) w v

  Step-UseInv :
      {s t : Shared F}
      → Step fl s t
      → length s.removing < 2 ^ 31 - 1
      → SharedInv s
      → UseInv s
      → UseInv t
  Step-UseInv (bumped s e h) few w v = bumped-UseInv s e v
  Step-UseInv (used_one s e h left) few w v = used_one-UseInv s e left few v
  Step-UseInv (used_up s e h spent) few w v = used_up-UseInv s e h spent few w v
  Step-UseInv (removed lb front back e) few w v = removed-UseInv lb front back e v
  Step-UseInv (answered s draw now srv result h) few w v = answered-UseInv s draw now srv result w v
  Step-UseInv (pruned s) few w v = pruned-UseInv s v

  -- In every state that these steps leave, fewer than 2^31 - 1 calls have used up an entry and not yet taken it
  -- out.
  unfoldable pub AreFew : {s t : Shared F} → Steps fl s t → Type 0
  AreFew no_step = Unit
  AreFew (then_step {t = t} steps step) = AreFew steps × (length t.removing < 2 ^ 31 - 1)

  Steps-UseInv :
      {s t : Shared F} (steps : Steps fl s t) → AreFew steps → SharedInv s → UseInv s → UseInv t
  unfolding AreFew
  Steps-UseInv no_step few w v = v
  Steps-UseInv (then_step steps step) few w v =
      Step-UseInv step few.1 (Steps-SharedInv fl laws steps w) (Steps-UseInv steps few.0 w v)

  -- Under the laws of float64, in every interleaving that begins with a pool of usable entries, with no call of
  -- consumeEntry under way, and in which fewer than 2^31 - 1 of these calls ever stand behind the last use of an
  -- entry and before taking it out: an entry of the pool has uses left, and no such call is under way on it; or
  -- it has been used some number of times beyond its limit, and exactly one more of such calls than that is under
  -- way on it.
  pub Steps-IsCounted :
      {s t : Shared F} (steps : Steps fl s t)
      → AreFew steps
      → s.removing ≡ []
      → PoolInv s.lb
      → SharedInv s
      → All (IsCounted t.lb.entry_at t.removing) t.lb.entries
  Steps-IsCounted {s} {t} steps few quiet p w =
      let start : UseInv s = record {
        counted = All-map _ _ s.lb.entries (λ e u. some_left u.1 (ap (calls_on e) quiet)) p.usable;
        allocated = rw quiet tt;
      } in
      (Steps-UseInv steps few w start).counted
