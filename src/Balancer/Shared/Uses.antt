-- ===== src/Balancer/Shared/Uses.antt =====
-- balancer.go, consumeEntry among other calls: the uses of an entry against the calls that have used it up, at
-- each step of consumeEntry.
use prequal_nc.Base.{
  ℕ, zero, suc, ◌+◌, ◌-◌, ◌≤◌, ◌<◌, ◌^◌, ◌≡◌, ◌≢◌, refl, ap, subst, ◌∙◌, inl, inr, ℤ, pos, negsuc,
  ◌≤ℤ◌, ◌<ℤ◌, ◌+ℤ◌, wrap32, max_int32, add_int32, List, [], ◌∷◌, ◌++◌, arith, Bool-cases, length,
  count_of, All, All-of-In, All-map, All-append, All-split, In-All, ◌==◌, if◌then◌else◌,
}
use prequal_nc.Types.{EntryRef, ProbePoolEntry}
use prequal_nc.Pool.{Heap}
use prequal_nc.Balancer.{LoadBalancer}
use prequal_nc.Balancer.Select.{store_entry, without_entry}
use prequal_nc.Balancer.Select.Consume.{In-without, store_self, store_other}
use prequal_nc.Balancer.Shared.{bump, uses_left, use_entry, remove_entry, Shared}
use prequal_nc.Balancer.Shared.Invariant.{IsHeld, SharedInv, stored_field, remove_entry-entries}

-- The number below 0 by so much.
abbrev pub below_zero : ℕ → ℤ
below_zero zero = pos 0
below_zero (suc n) = negsuc n

-- How many calls have used up an entry and not yet taken it out.
abbrev pub calls_on : EntryRef → List EntryRef → ℕ
calls_on e = count_of (λ k. k == e)

-- An entry with uses left, on which no such call is under way, or one that has been used so often beyond its
-- limit, on which one call more than that is under way.
pub data IsCounted (at : Heap) (removing : List EntryRef) (e : EntryRef) : Type 0 where
  some_left : pos 0 <ℤ (at e).remaining_uses → calls_on e removing ≡ 0 → IsCounted at removing e
  none_left :
      (over : ℕ)
      → calls_on e removing ≡ suc over
      → (at e).remaining_uses ≡ below_zero over
      → IsCounted at removing e

calls_on-le : (e : EntryRef) (removing : List EntryRef) → calls_on e removing ≤ length removing
calls_on-le e [] = omega arith
calls_on-le e (k ∷ removing) = ground (arith, calls_on-le e removing)

-- The last use, and one more use beyond the limit.
last_use :
    (r : ℤ)
    → pos 0 <ℤ r
    → r ≤ℤ max_int32
    → add_int32 r (negsuc 0) ≤ℤ pos 0
    → add_int32 r (negsuc 0) ≡ pos 0
unfolding add_int32 wrap32 ◌+ℤ◌
last_use r h k l = ground arith

one_over : (over : ℕ) → over < 2 ^ 31 - 1 → add_int32 (below_zero over) (negsuc 0) ≡ negsuc over
unfolding add_int32 wrap32 ◌+ℤ◌
one_over zero h = ground arith
one_over (suc over) h = ground arith

-- What a use makes of the entry used.
used_one-IsCounted :
    (at at' : Heap) (removing : List EntryRef) (e : EntryRef)
    → (at' e).remaining_uses ≡ add_int32 (at e).remaining_uses (negsuc 0)
    → pos 0 <ℤ add_int32 (at e).remaining_uses (negsuc 0)
    → length removing < 2 ^ 31 - 1
    → IsCounted at removing e
    → IsCounted at' removing e
used_one-IsCounted at at' removing e q left few (some_left h n) = some_left (rw q left) n
used_one-IsCounted at at' removing e q left few (none_left over n r) =
    let small : over < 2 ^ 31 - 1 = omega (arith, calls_on-le e removing) in
    let spent = ap (λ u. add_int32 u (negsuc 0)) r ∙ one_over over small in
    let never : pos 0 <ℤ negsuc over = subst (λ u. pos 0 <ℤ u) spent left in absurd (omega arith)

used_up-IsCounted :
    (at at' : Heap) (removing : List EntryRef) (e : EntryRef)
    → (at' e).remaining_uses ≡ add_int32 (at e).remaining_uses (negsuc 0)
    → (at e).remaining_uses ≤ℤ max_int32
    → add_int32 (at e).remaining_uses (negsuc 0) ≤ℤ pos 0
    → length removing < 2 ^ 31 - 1
    → IsCounted at removing e
    → IsCounted at' (e ∷ removing) e
used_up-IsCounted at at' removing e q fits spent few (some_left h n) =
    none_left 0 (ground arith) (q ∙ last_use (at e).remaining_uses h fits spent)
used_up-IsCounted at at' removing e q fits spent few (none_left over n r) =
    none_left (suc over) (ground arith) (
      q
      ∙ ap (λ u. add_int32 u (negsuc 0)) r
      ∙ one_over over (omega (arith, calls_on-le e removing)))

-- An entry whose uses and calls are as before.
pub same-IsCounted :
    (at at' : Heap) (removing removing' : List EntryRef) (f : EntryRef)
    → (at' f).remaining_uses ≡ (at f).remaining_uses
    → calls_on f removing' ≡ calls_on f removing
    → IsCounted at removing f
    → IsCounted at' removing' f
same-IsCounted at at' removing removing' f q k (some_left h n) = some_left (rw q h) (k ∙ n)
same-IsCounted at at' removing removing' f q k (none_left over n r) = none_left over (k ∙ n) (q ∙ r)

pub record UseInv {F : Type 0} (s : Shared F) : Type 0 where
  pub counted : All (IsCounted s.lb.entry_at s.removing) s.lb.entries
  pub allocated : All (λ e. e < s.lb.next_entry) s.removing

calls_on-without :
    (f e : EntryRef) (front back : List EntryRef)
    → e ≢ f
    → calls_on f (front ++ back) ≡ calls_on f (front ++ (e ∷ back))
calls_on-without f e [] back n = ground arith
calls_on-without f e (x ∷ front) back n =
    ap (λ k. (if x == f then 1 else 0) + k) (calls_on-without f e front back n)

module _ {F : Type 0} (s : Shared F) where
  pub bumped-UseInv : (e : EntryRef) → UseInv s → UseInv (record s { lb = bump e s.lb })
  bumped-UseInv e v =
      let at = s.lb.entry_at in
      let p' : ProbePoolEntry = record (at e) { rif = add_int32 (at e).rif (pos 1) } in
      record {
        counted =
            All-map _ _ s.lb.entries
              (λ f.
                same-IsCounted at (store_entry at e p') s.removing s.removing f
                  (stored_field (λ (q : ProbePoolEntry). q.remaining_uses) at e p' refl f) refl)
              v.counted;
        allocated = v.allocated;
      }

  pub used_one-UseInv :
      (e : EntryRef)
      → pos 0 <ℤ uses_left e s.lb
      → length s.removing < 2 ^ 31 - 1
      → UseInv s
      → UseInv (record s { lb = use_entry e s.lb })
  unfolding use_entry
  used_one-UseInv e left few v =
      let at = s.lb.entry_at in
      let p' : ProbePoolEntry = record (at e) { remaining_uses = uses_left e s.lb } in
      record {
        counted =
            All-map (IsCounted at s.removing) _ s.lb.entries
              (λ f c. elim (Bool-cases (e == f)) [
                | inl t ↦
                    let same : f ≡ e = ground arith in
                    rw same (
                      used_one-IsCounted at (store_entry at e p') s.removing e
                        (ap (λ (q : ProbePoolEntry). q.remaining_uses) (store_self at e p')) left
                        few (rw same at c))
                | inr t ↦
                    same-IsCounted at (store_entry at e p') s.removing s.removing f
                      (ap (λ (q : ProbePoolEntry). q.remaining_uses)
                        (store_other at e f p' (λ q. ground arith)))
                      refl c
              ])
              v.counted;
        allocated = v.allocated;
      }

  pub used_up-UseInv :
      (e : EntryRef)
      → e < s.lb.next_entry
      → uses_left e s.lb ≤ℤ pos 0
      → length s.removing < 2 ^ 31 - 1
      → SharedInv s
      → UseInv s
      → UseInv (record { lb = use_entry e s.lb; removing = e ∷ s.removing })
  unfolding use_entry
  used_up-UseInv e below spent few w v =
      let at = s.lb.entry_at in
      let p' : ProbePoolEntry = record (at e) { remaining_uses = uses_left e s.lb } in
      record {
        counted = All-of-In _ s.lb.entries (λ f m.
            let c = In-All (IsCounted at s.removing) f s.lb.entries v.counted m in
            let held = In-All (IsHeld s.lb.next_entry at s.removing) f s.lb.entries w.held m in
            elim (Bool-cases (e == f)) [
              | inl t ↦
                  let same : f ≡ e = ground arith in
                  rw same (
                    used_up-IsCounted at (store_entry at e p') s.removing e
                      (ap (λ (q : ProbePoolEntry). q.remaining_uses) (store_self at e p'))
                      (rw same at held.1) spent few (rw same at c))
              | inr t ↦
                  same-IsCounted at (store_entry at e p') s.removing (e ∷ s.removing) f
                    (ap (λ (q : ProbePoolEntry). q.remaining_uses)
                      (store_other at e f p' (λ q. ground arith)))
                    (rw t (omega arith)) c
            ]);
        allocated = (below, v.allocated);
      }

pub removed-UseInv :
    {F : Type 0} (lb : LoadBalancer F) (front back : List EntryRef) (e : EntryRef)
    → UseInv (record { lb = lb; removing = front ++ (e ∷ back) })
    → UseInv (record { lb = remove_entry e lb; removing = front ++ back })
removed-UseInv lb front back e v =
    let (before, behind) = All-split (λ k. k < lb.next_entry) front (e ∷ back) v.allocated in
    rw (remove_entry-entries e lb) (record {
      counted = All-of-In _ (without_entry e lb.entries) (λ f m.
          let (old, other) = In-without e f lb.entries m in
          same-IsCounted lb.entry_at lb.entry_at (front ++ (e ∷ back)) (front ++ back) f refl
            (calls_on-without f e front back other)
            (In-All (IsCounted lb.entry_at (front ++ (e ∷ back))) f lb.entries v.counted old));
      allocated = All-append (λ k. k < lb.next_entry) front back before behind.1;
    })
