-- ===== src/Balancer/Debt.antt =====
-- balancer.go, applyRRemove: the debt, the alternation and the pool.
use mathlib.Core.List.{Sublistᴰ}
use mathlib.Core.List.Sublistᴰ
use prequal_nc.Base.{
  ℕ, ◌-◌, ◌≡◌, refl, ap, ◌⊎◌, inl, inr, pos, ◌==ℤ◌, pos_part, Bool, arith, Bool-cases, length, min,
  ◌==◌, if◌then◌else◌,
}
use prequal_nc.Float.{Float64}
use prequal_nc.Pool.Loop.{flip, remove_loop-sublist}
use prequal_nc.Balancer.{LoadBalancer}
use prequal_nc.Balancer.Counts.{SameCounts}
use prequal_nc.Balancer.Select.{apply_r_remove}

module _ (fl : Float64) where
  open fl use {F, of_int, fle, fadd, fsub, trunc}

  -- The sum that applyRRemove rounds down, and how many entries it is to remove.
  abbrev pub debt_of : LoadBalancer F → F
  debt_of lb = fadd lb.remove_debt lb.config.r_remove

  abbrev pub is_off : LoadBalancer F → Bool
  is_off lb = fle lb.config.r_remove (of_int (pos 0))

  abbrev pub amount : LoadBalancer F → ℕ
  amount lb = if is_off lb then 0 else pos_part (trunc (debt_of lb))

  -- What applyRRemove changes: the debt, the flag and the pool, which keeps its order.
  pub record RRemoved (lb lb' : LoadBalancer F) : Type 0 where
    pub part : Sublistᴰ lb'.entries lb.entries
    pub size : length lb'.entries ≡ length lb.entries - amount lb
    pub turned :
        lb'.remove_alt_oldest ≡ flip (min (amount lb) (length lb.entries)) lb.remove_alt_oldest
    pub owed :
        lb'.remove_debt
        ≡ (if is_off lb then lb.remove_debt else fsub (debt_of lb) (of_int (trunc (debt_of lb))))
    pub same_heap : lb'.entry_at ≡ lb.entry_at
    pub same_next : lb'.next_entry ≡ lb.next_entry
    pub same_servers : lb'.servers ≡ lb.servers
    pub same_config : lb'.config ≡ lb.config
    pub same_dist : lb'.rif_dist ≡ lb.rif_dist
    pub same_counts : SameCounts lb' lb

  flip_none : (n k : ℕ) (b : Bool) → (n ≡ 0) ⊎ (k ≡ 0) → b ≡ flip (min n k) b
  unfolding flip
  flip_none n k b h = ap (λ j. flip j b) {x = 0} {y = min n k} (omega arith)

  -- Only the debt changes.
  kept-RRemoved :
      (lb : LoadBalancer F) (debt : F)
      → (amount lb ≡ 0) ⊎ (length lb.entries ≡ 0)
      → debt
        ≡ (if is_off lb then lb.remove_debt else fsub (debt_of lb) (of_int (trunc (debt_of lb))))
      → RRemoved lb (record lb { remove_debt = debt })
  kept-RRemoved lb debt h e = record {
    part = Sublistᴰ.refl lb.entries;
    size = omega arith;
    turned = flip_none (amount lb) (length lb.entries) lb.remove_alt_oldest h;
    owed = e;
    same_heap = refl;
    same_next = refl;
    same_servers = refl;
    same_config = refl;
    same_dist = refl;
    same_counts = (refl, refl);
  }

  -- applyRRemove does nothing where RRemove is not positive. Otherwise it takes the whole part of the debt
  -- out of the debt and as many entries out of the pool, or all if there are fewer, and turns the flag over
  -- once for each; the entries that stay keep their order.
  pub apply_r_remove-RRemoved : (lb : LoadBalancer F) → RRemoved lb (apply_r_remove fl lb)
  unfolding apply_r_remove
  apply_r_remove-RRemoved lb =
      let n = trunc (debt_of lb) in
      let rest = fsub (debt_of lb) (of_int n) in
      let loop =
        remove_loop-sublist fl lb.entry_at lb.config.q_rif (pos_part n) lb.remove_alt_oldest
          lb.entries in
      elim (Bool-cases (is_off lb)) [
        | inl off ↦
            rw (off, apply_r_remove)
              (kept-RRemoved lb lb.remove_debt (inl (rw off refl)) (rw off refl))
        | inr on ↦ elim (Bool-cases (n ==ℤ pos 0)) [
          | inl z ↦
              rw (on, z, apply_r_remove)
                (kept-RRemoved lb rest (inl (rw on (ground arith))) (rw on refl))
          | inr nz ↦ elim (Bool-cases (length lb.entries == 0)) [
            | inl e ↦
                rw (on, nz, e, apply_r_remove)
                  (kept-RRemoved lb rest (inr (ground arith)) (rw on refl))
            | inr ne ↦
                rw (on, nz, ne, apply_r_remove)
                  (record {
                    part = loop.0;
                    size = rw on loop.1;
                    turned = rw on loop.2;
                    owed = rw on refl;
                    same_heap = refl;
                    same_next = refl;
                    same_servers = refl;
                    same_config = refl;
                    same_dist = refl;
                    same_counts = (refl, refl);
                  })
          ]
        ]
      ]
