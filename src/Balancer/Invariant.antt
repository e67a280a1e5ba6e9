-- ===== src/Balancer/Invariant.antt =====
-- balancer.go: what holds of the probe pool between any two calls.
use mathlib.Core.List.{Sublistᴰ}
use mathlib.Core.List.Sublistᴰ
use prequal_nc.Base.{
  ◌≤◌, ◌<◌, ◌≡◌, ◌≢◌, ap, subst, sym, ◌⊎◌, inl, inr, ℤ, pos, negsuc, ltb_ℤ, ◌+ℤ◌, ◌≤ℤ◌, ◌<ℤ◌,
  wrap32_bounds, max_int32, add_int32, List, arith, Bool-cases, length, All, All-of-In, In, In-All,
  IsDistinct, ◌==◌,
}
use prequal_nc.Base.Sub.{All-sublist, IsDistinct-sublist, length-sublist, keep-sublist}
use prequal_nc.Float.{Float64}
use prequal_nc.Types.{ServerRef, EntryRef, Config}
use prequal_nc.Pool.{Heap}
use prequal_nc.Balancer.{LoadBalancer}
use prequal_nc.Balancer.Select.{without_entry, apply_r_remove, consume_entry}
use prequal_nc.Balancer.Select.Consume.{
  Consumed, consume_entry-Consumed, consume_entry-same, In-without, charged,
}
use prequal_nc.Balancer.Debt.{apply_r_remove-RRemoved}

pub add_int32-le : (a b : ℤ) → add_int32 a b ≤ℤ max_int32
unfolding add_int32
add_int32-le a b = (wrap32_bounds (a +ℤ b)).1

-- A pooled entry: it is allocated, it may be used at least once more, and its server is registered.
abbrev pub IsUsable : List ServerRef → EntryRef → Heap → EntryRef → Type 0
IsUsable servers next at e =
    (e < next)
    × (pos 0 <ℤ (at e).remaining_uses)
    × ((at e).remaining_uses ≤ℤ max_int32)
    × In (at e).server servers

pub record PoolInv {F : Type 0} (lb : LoadBalancer F) : Type 0 where
  pub bounded : length lb.entries ≤ lb.config.pool_cap
  pub distinct : IsDistinct lb.entries
  pub usable : All (IsUsable lb.servers lb.next_entry lb.entry_at) lb.entries

-- A pool that is a part of the pool before, on the same heap.
module _ {F : Type 0} (lb lb' : LoadBalancer F) where
  pub part-PoolInv :
      lb'.config ≡ lb.config
      → lb'.servers ≡ lb.servers
      → lb'.next_entry ≡ lb.next_entry
      → lb'.entry_at ≡ lb.entry_at
      → Sublistᴰ lb'.entries lb.entries
      → PoolInv lb
      → PoolInv lb'
  part-PoolInv ec es en eh s v = record {
    bounded = omega (arith, length-sublist s, ap (λ (c : Config F). c.pool_cap) ec, v.bounded);
    distinct = IsDistinct-sublist s v.distinct;
    usable =
        rw (es, en, eh) (All-sublist (IsUsable lb.servers lb.next_entry lb.entry_at) s v.usable);
  }

module _ (fl : Float64) where
  open fl use {F, of_int, fle, fadd, fsub, trunc}

  pub apply_r_remove-PoolInv : (lb : LoadBalancer F) → PoolInv lb → PoolInv (apply_r_remove fl lb)
  apply_r_remove-PoolInv lb v =
      let r = apply_r_remove-RRemoved fl lb in
      part-PoolInv lb _ r.same_config r.same_servers r.same_next r.same_heap r.part v

  pub consumed-part :
      (used : EntryRef) (lb lb' : LoadBalancer F)
      → Consumed F used lb lb'
      → Sublistᴰ lb'.entries lb.entries
  consumed-part used lb lb' c = elim (Bool-cases (ltb_ℤ (pos 0) c.uses)) [
    | inl t ↦ rw (c.pool, t) (Sublistᴰ.refl lb.entries)
    | inr t ↦ rw (c.pool, t) (keep-sublist _ lb.entries)
  ]

  -- Which entries stay: those of before, and the one used only where it has uses left.
  stays :
      (used : EntryRef) (lb lb' : LoadBalancer F) (f : EntryRef)
      → (c : Consumed F used lb lb') → In f lb'.entries
      → In f lb.entries × ((pos 0 <ℤ c.uses) ⊎ (used ≢ f))
  stays used lb lb' f c m = elim (Bool-cases (ltb_ℤ (pos 0) c.uses)) [
    | inl t ↦
        let old : In f lb.entries = rw t at (subst (In f) c.pool m) in (old, inl (ground arith))
    | inr t ↦
        let left : In f (without_entry used lb.entries) = rw t at (subst (In f) c.pool m) in
        let (old, other) = In-without used f lb.entries left in (old, inr other)
  ]

  has_left :
      (used f : EntryRef) (uses : ℤ) → used ≡ f → (pos 0 <ℤ uses) ⊎ (used ≢ f) → pos 0 <ℤ uses
  has_left used f uses e (inl h) = h
  has_left used f uses e (inr n) = absurd (n e)

  -- The entry used, if it stays, and any other entry.
  used-IsUsable :
      (used : EntryRef) (lb lb' : LoadBalancer F)
      → (c : Consumed F used lb lb') → pos 0 <ℤ c.uses
      → IsUsable lb.servers lb.next_entry lb.entry_at used
      → IsUsable lb.servers lb.next_entry lb'.entry_at used
  used-IsUsable used lb lb' c left (below, some_use, fits, known) =
      let small : c.uses ≤ℤ max_int32 = rw c.one_less (add_int32-le _ (negsuc 0)) in
      rw c.used_entry (below, left, small, known)

  other-IsUsable :
      (used f : EntryRef) (lb lb' : LoadBalancer F)
      → (c : Consumed F used lb lb') → In f lb.entries
      → used ≢ f
      → IsUsable lb.servers lb.next_entry lb.entry_at f
      → IsUsable lb.servers lb.next_entry lb'.entry_at f
  other-IsUsable used f lb lb' c m n (below, some_use, fits, known) =
      let e = c.same_server f m n in
      elim (Bool-cases ((lb.entry_at f).server == (lb.entry_at used).server)) [
        | inl t ↦
            let e' : lb'.entry_at f ≡ charged (lb.entry_at f) = rw t at e in
            rw e' (below, some_use, fits, known)
        | inr t ↦
            let e' : lb'.entry_at f ≡ lb.entry_at f = rw t at e in
            rw e' (below, some_use, fits, known)
      ]

  Consumed-IsUsable :
      (used : EntryRef) (lb lb' : LoadBalancer F)
      → PoolInv lb
      → Consumed F used lb lb'
      → All (IsUsable lb.servers lb.next_entry lb'.entry_at) lb'.entries
  Consumed-IsUsable used lb lb' v c = All-of-In _ lb'.entries λ f m.
      let (old, left) = stays used lb lb' f c m in
      let usable =
        In-All (IsUsable lb.servers lb.next_entry lb.entry_at) f lb.entries v.usable old in
      elim (Bool-cases (used == f)) [
        | inl e ↦
            let same : used ≡ f = ground arith in
            subst (IsUsable lb.servers lb.next_entry lb'.entry_at) same (
              used-IsUsable used lb lb' c (has_left used f c.uses same left)
                (subst (IsUsable lb.servers lb.next_entry lb.entry_at) (sym same) usable))
        | inr e ↦ other-IsUsable used f lb lb' c old (λ q. ground arith) usable
      ]

  -- On a valid pool that holds the entry used, consumeEntry leaves a valid pool: no entry without a use
  -- stays in it.
  pub consume_entry-PoolInv :
      (used : EntryRef) (lb : LoadBalancer F)
      → PoolInv lb
      → In used lb.entries
      → PoolInv (consume_entry fl used lb)
  consume_entry-PoolInv used lb v h =
      let c = consume_entry-Consumed fl used lb v.distinct h in
      let (es, en, ec, ed, et) = consume_entry-same fl used lb in
      let part = consumed-part used lb (consume_entry fl used lb) c in
      record {
        bounded =
            omega (arith, length-sublist part, ap (λ (g : Config F). g.pool_cap) ec, v.bounded);
        distinct = IsDistinct-sublist part v.distinct;
        usable = rw (es, en) (Consumed-IsUsable used lb _ v c);
      }
