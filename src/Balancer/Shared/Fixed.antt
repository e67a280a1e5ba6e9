-- ===== src/Balancer/Shared/Fixed.antt =====
-- balancer.go, selectServerPrequal: it reads the server, the time and the latency of an entry without atomic
-- operations, after the pool that it read may have changed.
use prequal_nc.Base.{◌<◌, ◌≡◌, ◌≢◌, refl, ◌∙◌, Option, none, some, arith, In, pos, add_int32}
use prequal_nc.Float.{Float64, FloatLaws}
use prequal_nc.Time.{Time}
use prequal_nc.Types.{ServerRef, EntryRef, ProbePoolEntry, ProbeResult}
use prequal_nc.Pool.{Heap}
use prequal_nc.Balancer.Probe.{handle_probe_result}
use prequal_nc.Balancer.Select.{store_entry, apply_r_remove}
use prequal_nc.Balancer.Debt.{apply_r_remove-RRemoved}
use prequal_nc.Balancer.Accept.{accept_probe-Accepted}
use prequal_nc.Balancer.Shared.{
  uses_left, use_entry, Shared, Step, bumped, used_one, used_up, removed, answered, pruned, Steps,
  no_step, then_step,
}
use prequal_nc.Balancer.Shared.Invariant.{SharedInv, stored_field, remove_entry-entries}
use prequal_nc.Balancer.Shared.Interleaving.{Steps-SharedInv}

-- The fields that selectServerPrequal reads plainly are the same.
pub record SameFixed (p q : ProbePoolEntry) : Type 0 where
  pub server : p.server ≡ q.server
  pub received_at : p.received_at ≡ q.received_at
  pub latency : p.latency ≡ q.latency

refl-SameFixed : (p q : ProbePoolEntry) → p ≡ q → SameFixed p q
refl-SameFixed p q e = rw e (record { server = refl; received_at = refl; latency = refl })

stored-SameFixed :
    (at : Heap) (e : EntryRef) (v : ProbePoolEntry)
    → SameFixed v (at e)
    → (f : EntryRef) → SameFixed (store_entry at e v f) (at f)
stored-SameFixed at e v h f = record {
  server = stored_field (λ (q : ProbePoolEntry). q.server) at e v h.server f;
  received_at = stored_field (λ (q : ProbePoolEntry). q.received_at) at e v h.received_at f;
  latency = stored_field (λ (q : ProbePoolEntry). q.latency) at e v h.latency f;
}

-- An entry that is allocated stays allocated, with the same fixed fields, and the servers are the same.
abbrev pub Keeps : {F : Type 0} → Shared F → Shared F → EntryRef → Type 0
Keeps s t e =
    (e < t.lb.next_entry)
    × SameFixed (t.lb.entry_at e) (s.lb.entry_at e)
    × (t.lb.servers ≡ s.lb.servers)

same-Keeps :
    {F : Type 0} (s t : Shared F) (e : EntryRef)
    → t.lb.next_entry ≡ s.lb.next_entry
    → t.lb.entry_at ≡ s.lb.entry_at
    → t.lb.servers ≡ s.lb.servers
    → e < s.lb.next_entry
    → Keeps s t e
same-Keeps s t e next at servers h = (omega arith, refl-SameFixed _ _ (rw at refl), servers)

module _ (fl : Float64) (laws : FloatLaws fl) where
  open fl use {F}

  answered-Keeps :
      (s : Shared F) (draw : fl.F) (now : Time) (srv : ServerRef) (result : Option ProbeResult)
      (e : EntryRef)
      → SharedInv s
      → e < s.lb.next_entry
      → Keeps s (record s { lb = handle_probe_result fl draw now srv result s.lb }) e
  unfolding handle_probe_result
  answered-Keeps s draw now srv none e v h = (h, refl-SameFixed _ _ refl, refl)
  answered-Keeps s draw now srv (some result) e v h =
      let a = accept_probe-Accepted fl laws draw now srv result s.lb v.bound v.bounded in
      let old : s.lb.next_entry ≢ e = λ q. omega arith in
      (omega (arith, a.allocated), refl-SameFixed _ _ (a.others e old), a.same_servers)

  used-Keeps :
      (s : Shared F) (e f : EntryRef)
      → f < s.lb.next_entry
      → Keeps s (record s { lb = use_entry e s.lb }) f
  unfolding use_entry
  used-Keeps s e f h =
      let p = record (s.lb.entry_at e) { remaining_uses = uses_left e s.lb } in
      (
        h,
        stored-SameFixed s.lb.entry_at e p
            (record { server = refl; received_at = refl; latency = refl }) f,
        refl,
      )

  Step-Keeps :
      {s t : Shared F} (f : EntryRef)
      → Step fl s t
      → SharedInv s
      → f < s.lb.next_entry
      → Keeps s t f
  Step-Keeps f (bumped s e below) v h =
      let p = record (s.lb.entry_at e) { rif = add_int32 (s.lb.entry_at e).rif (pos 1) } in
      (
        h,
        stored-SameFixed s.lb.entry_at e p
            (record { server = refl; received_at = refl; latency = refl }) f,
        refl,
      )
  Step-Keeps f (used_one s e below left) v h = used-Keeps s e f h
  Step-Keeps f (used_up s e below spent) v h = used-Keeps s e f h
  Step-Keeps f (removed lb front back e) v h =
      rw (remove_entry-entries e lb) (h, refl-SameFixed _ _ refl, refl)
  Step-Keeps f (answered s draw now srv result known) v h =
      answered-Keeps s draw now srv result f v h
  Step-Keeps f (pruned s) v h =
      let r = apply_r_remove-RRemoved fl s.lb in
      same-Keeps s (record s { lb = apply_r_remove fl s.lb }) f r.same_next r.same_heap
        r.same_servers h

  -- Under the laws of float64, in every interleaving: an entry that a goroutine has read from the pool keeps
  -- its server, its time and its latency, so that reading these needs no synchronisation; and its server is
  -- still registered, so that the server which selectServerPrequal returns is, though others may have taken
  -- the entry out of the pool in the meantime.
  pub Steps-Keeps :
      {s t : Shared F} (f : EntryRef)
      → Steps fl s t
      → SharedInv s
      → f < s.lb.next_entry
      → Keeps s t f × In (t.lb.entry_at f).server t.lb.servers
  Steps-Keeps f steps v h =
      let k = kept f steps v h in (k, (Steps-SharedInv fl laws steps v).known f k.0)
    where
      kept :
          {s t : Shared F} (f : EntryRef)
          → Steps fl s t
          → SharedInv s
          → f < s.lb.next_entry
          → Keeps s t f
      kept f no_step v h = (h, refl-SameFixed _ _ refl, refl)
      kept f (then_step steps step) v h =
          let k = kept f steps v h in
          let k' = Step-Keeps f step (Steps-SharedInv fl laws steps v) k.0 in
          (
            k'.0,
            record {
              server = k'.1.server ∙ k.1.server;
              received_at = k'.1.received_at ∙ k.1.received_at;
              latency = k'.1.latency ∙ k.1.latency;
            },
            k'.2 ∙ k.2,
          )
