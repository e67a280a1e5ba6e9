-- ===== src/Balancer/Shared.antt =====
-- balancer.go: the probe pool under concurrent calls. consumeEntry is taken apart at its atomic operations
-- and its critical section; the goroutines' steps interleave as they like.
pub mod Invariant
pub mod Interleaving
pub mod Fixed
pub mod Uses
pub mod Overuse
pub mod Tests
use prequal_nc.Base.{
  ℕ, ◌<◌, ◌≤◌, ℤ, pos, negsuc, ◌<ℤ◌, ◌≤ℤ◌, ltb_ℤ, add_int32, Option, List, [], ◌∷◌, ◌++◌, length,
  In, ◌==◌, if◌then◌else◌,
}
use prequal_nc.Float.{Float64}
use prequal_nc.Time.{Time}
use prequal_nc.Types.{ServerRef, EntryRef, ProbeResult}
use prequal_nc.Pool.{Heap}
use prequal_nc.Balancer.{LoadBalancer}
use prequal_nc.Balancer.Probe.{handle_probe_result}
use prequal_nc.Balancer.Select.{store_entry, without_entry, apply_r_remove}

-- atomic.AddInt32(&e.RIF, 1).
abbrev pub bump_entry : EntryRef → Heap → Heap
bump_entry e at = store_entry at e (record (at e) { rif = add_int32 (at e).rif (pos 1) })

module _ {F : Type 0} where
  -- One round of the first loop of consumeEntry.
  abbrev pub bump : EntryRef → LoadBalancer F → LoadBalancer F
  bump e lb = record lb { entry_at = bump_entry e lb.entry_at }

  -- atomic.AddInt32(&used.RemainingUses, -1).
  abbrev pub uses_left : EntryRef → LoadBalancer F → ℤ
  uses_left used lb = add_int32 (lb.entry_at used).remaining_uses (negsuc 0)

  unfoldable pub use_entry : EntryRef → LoadBalancer F → LoadBalancer F
  use_entry used lb = record lb {
    entry_at =
        store_entry lb.entry_at used
          (record (lb.entry_at used) { remaining_uses = uses_left used lb });
  }

  -- The critical section of consumeEntry.
  unfoldable pub remove_entry : EntryRef → LoadBalancer F → LoadBalancer F
  remove_entry used lb =
      let next = without_entry used lb.entries in
      if length next == length lb.entries then lb else record lb { entries = next }

-- The state, and the calls of consumeEntry that have used up an entry and not yet taken it out.
pub record Shared (F : Type 0) : Type 0 where
  pub lb : LoadBalancer F
  pub removing : List EntryRef

module _ (fl : Float64) where
  open fl use {F}

  -- A step of some goroutine. A selection holds entries of a pool that it read before: any that are
  -- allocated. handleProbeResult and applyRRemove touch the pool in one critical section each.
  pub data Step : Shared F → Shared F → Type 0 where
    bumped :
        (s : Shared F) (e : EntryRef) → e < s.lb.next_entry → Step s (record s { lb = bump e s.lb })
    used_one :
        (s : Shared F) (e : EntryRef)
        → e < s.lb.next_entry
        → pos 0 <ℤ uses_left e s.lb
        → Step s (record s { lb = use_entry e s.lb })
    used_up :
        (s : Shared F) (e : EntryRef)
        → e < s.lb.next_entry
        → uses_left e s.lb ≤ℤ pos 0
        → Step s (record { lb = use_entry e s.lb; removing = e ∷ s.removing })
    removed :
        (lb : LoadBalancer F) (front back : List EntryRef) (e : EntryRef)
        → Step
            (record { lb = lb; removing = front ++ (e ∷ back) })
            (record { lb = remove_entry e lb; removing = front ++ back })
    answered :
        (s : Shared F) (draw : F) (now : Time) (srv : ServerRef) (result : Option ProbeResult)
        → In srv s.lb.servers
        → Step s (record s { lb = handle_probe_result fl draw now srv result s.lb })
    pruned : (s : Shared F) → Step s (record s { lb = apply_r_remove fl s.lb })

  -- Any number of steps.
  pub data Steps : Shared F → Shared F → Type 0 where
    no_step : {s : Shared F} → Steps s s
    then_step : {s t u : Shared F} → Steps s t → Step t u → Steps s u
