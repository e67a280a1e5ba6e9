-- ===== src/Balancer/Shared/Tests.antt =====
-- Two selections that use the same entry at once.
use prequal_nc.Base.{
  ℤ, ◌%◌, ◌≡◌, refl, negsuc, inl, inr, add_int32, [], ◌∷◌, arith, Bool-cases, All, In, ◌==◌,
}
use prequal_nc.Centi.{Centi, Centi-laws}
use prequal_nc.Types.{default_config, EntryRef}
use prequal_nc.Balancer.{LoadBalancer, new_load_balancer}
use prequal_nc.Balancer.Tests.{fleet, fleet-PoolInv, fleet-IsReuseBound}
use prequal_nc.Balancer.Invariant.{PoolInv}
use prequal_nc.Balancer.Shared.{
  bump, use_entry, remove_entry, Shared, bumped, used_one, used_up, removed, Steps, no_step,
  then_step,
}
use prequal_nc.Balancer.Shared.Invariant.{SharedInv}
use prequal_nc.Balancer.Shared.Interleaving.{Steps-SharedInv, Steps-PoolInv}
use prequal_nc.Balancer.Shared.Fixed.{Keeps, Steps-Keeps}
use prequal_nc.Balancer.Shared.Uses.{IsCounted}
use prequal_nc.Balancer.Shared.Overuse.{AreFew, Steps-IsCounted}

abbrev start : Shared ℤ
start = record { lb = fleet; removing = [] }

start-known : (e : EntryRef) → In (e % 2) (0 ∷ 1 ∷ [])
start-known e = elim (Bool-cases (e % 2 == 0)) [
  | inl t ↦ inl (ground arith)
  | inr t ↦ inr (inl (ground arith))
]

start-SharedInv : SharedInv start
unfolding new_load_balancer default_config
start-SharedInv = record {
  bounded = omega arith;
  distinct = fleet-PoolInv.distinct;
  held = (
    (omega arith, omega arith, inl (omega arith)),
    (
      (omega arith, omega arith, inl (omega arith)),
      ((omega arith, omega arith, inl (omega arith)), tt),
    ),
  );
  known = λ e h. start-known e;
  bound = fleet-IsReuseBound;
}

-- One call takes the first use of entry 0 and the other one the second, between two increments of its RIF.
abbrev both_used : LoadBalancer ℤ
both_used = use_entry 0 (bump 0 (use_entry 0 (bump 0 fleet)))

both_used-Steps : Steps Centi start (record { lb = both_used; removing = 0 ∷ [] })
unfolding use_entry new_load_balancer add_int32
both_used-Steps =
    then_step
      (then_step
        (then_step (then_step no_step (bumped start 0 (omega arith)))
          (used_one _ 0 (omega arith) (omega arith)))
        (bumped _ 0 (omega arith)))
      (used_up _ 0 (omega arith) (omega arith))

Steps-SharedInv_example : SharedInv (record { lb = both_used; removing = 0 ∷ [] })
Steps-SharedInv_example = Steps-SharedInv Centi Centi-laws both_used-Steps start-SharedInv

taken_out-Steps : Steps Centi start (record { lb = remove_entry 0 both_used; removing = [] })
taken_out-Steps = then_step both_used-Steps (removed both_used [] [] 0)

taken_out-PoolInv : PoolInv (remove_entry 0 both_used)
taken_out-PoolInv = Steps-PoolInv Centi Centi-laws taken_out-Steps refl start-SharedInv

Steps-Keeps_example :
    Keeps start (record { lb = remove_entry 0 both_used; removing = [] }) 0
    × In ((remove_entry 0 both_used).entry_at 0).server (remove_entry 0 both_used).servers
Steps-Keeps_example = Steps-Keeps Centi Centi-laws 0 taken_out-Steps start-SharedInv (omega arith)

-- Entry 0 has two uses left, and three selections that read the pool before it is taken out all use it.
over_used-Steps :
    Steps Centi start
      (record { lb = use_entry 0 (use_entry 0 (use_entry 0 fleet)); removing = 0 ∷ 0 ∷ [] })
unfolding use_entry new_load_balancer add_int32
over_used-Steps =
    then_step
      (then_step (then_step no_step (used_one start 0 (omega arith) (omega arith)))
        (used_up _ 0 (omega arith) (omega arith)))
      (used_up _ 0 (omega arith) (omega arith))

over_used_test :
    ((use_entry 0 (use_entry 0 (use_entry 0 fleet))).entry_at 0).remaining_uses ≡ negsuc 0
unfolding use_entry new_load_balancer add_int32
over_used_test = refl

over_used-AreFew : AreFew Centi Centi-laws over_used-Steps
unfolding AreFew over_used-Steps
over_used-AreFew = (((tt, omega arith), omega arith), omega arith)

-- The pool that the three selections leave.
Steps-IsCounted_example :
    All
      (IsCounted (use_entry 0 (use_entry 0 (use_entry 0 fleet))).entry_at (0 ∷ 0 ∷ []))
      (use_entry 0 (use_entry 0 (use_entry 0 fleet))).entries
Steps-IsCounted_example =
    Steps-IsCounted Centi Centi-laws over_used-Steps over_used-AreFew refl fleet-PoolInv
      start-SharedInv
