-- ===== src/Balancer/Shared/Invariant.antt =====
-- balancer.go, consumeEntry among other calls: the pool stays well formed in every interleaving, and an entry
-- without uses is in it only as long as the call that used it up is under way.
use prequal_nc.Base.{
  ℕ, ◌≤◌, ◌<◌, ◌≡◌, ◌≢◌, refl, ap, subst, sym, ◌∙◌, ◌⊎◌, inl, inr, pos, negsuc, ◌≤ℤ◌, ◌<ℤ◌,
  max_int32, add_int32, List, [], ◌∷◌, ◌++◌, arith, Bool-cases, not, length, All, All-of-In,
  All-map, In, In-All, IsDistinct, ◌==◌,
}
use prequal_nc.Base.Sub.{IsDistinct-sublist, length-sublist, keep-sublist}
use prequal_nc.Types.{EntryRef, ProbePoolEntry}
use prequal_nc.Pool.{Heap}
use prequal_nc.Balancer.{LoadBalancer}
use prequal_nc.Balancer.Select.{store_entry, without_entry}
use prequal_nc.Balancer.Select.Consume.{In-without, keep-whole}
use prequal_nc.Balancer.Invariant.{add_int32-le}
use prequal_nc.Balancer.Accept.{IsReuseBound}
use prequal_nc.Balancer.Shared.{bump, uses_left, use_entry, remove_entry, Shared}

-- A pooled entry: allocated, and usable unless a call that used it up is about to take it out.
abbrev pub IsHeld : ℕ → Heap → List EntryRef → EntryRef → Type 0
IsHeld next at removing e =
    (e < next)
    × ((at e).remaining_uses ≤ℤ max_int32)
    × ((pos 0 <ℤ (at e).remaining_uses) ⊎ In e removing)

pub record SharedInv {F : Type 0} (s : Shared F) : Type 0 where
  pub bounded : length s.lb.entries ≤ s.lb.config.pool_cap
  pub distinct : IsDistinct s.lb.entries
  pub held : All (IsHeld s.lb.next_entry s.lb.entry_at s.removing) s.lb.entries
  pub known : (e : EntryRef) → e < s.lb.next_entry → In (s.lb.entry_at e).server s.lb.servers
  pub bound : IsReuseBound s.lb.config

-- A store to an entry that keeps a field of it keeps the field of every entry.
pub stored_field :
    {A : Type 0} (g : ProbePoolEntry → A) (at : Heap) (e : EntryRef) (v : ProbePoolEntry)
    → g v ≡ g (at e)
    → (f : EntryRef) → g (store_entry at e v f) ≡ g (at f)
stored_field g at e v h f = elim (Bool-cases (e == f)) [
  | inl t ↦ let same : e ≡ f = ground arith in rw t (h ∙ ap (λ k. g (at k)) same)
  | inr t ↦ rw t refl
]

-- The entry that a store writes to is held if the new value is; the others are as before.
stored-IsHeld :
    (next : ℕ) (at : Heap) (before after : List EntryRef) (e : EntryRef) (v : ProbePoolEntry)
    → v.remaining_uses ≤ℤ max_int32
    → (pos 0 <ℤ v.remaining_uses) ⊎ In e after
    → ((f : EntryRef) → In f before → In f after)
    → (f : EntryRef) → IsHeld next at before f
    → IsHeld next (store_entry at e v) after f
stored-IsHeld next at before after e v small left more f (below, fits, old) =
    elim (Bool-cases (e == f)) [
      | inl t ↦
          let same : e ≡ f = ground arith in
          rw t (below, small, subst (λ k. (pos 0 <ℤ v.remaining_uses) ⊎ In k after) same left)
      | inr t ↦ rw t (below, fits, elim old [ inl h ↦ inl h | inr m ↦ inr (more f m) ])
    ]

module _ {F : Type 0} (s : Shared F) where
  -- A store to one allocated entry that leaves its server alone.
  stored-SharedInv :
      (removing : List EntryRef) (at : Heap)
      → ((f : EntryRef) → (at f).server ≡ (s.lb.entry_at f).server)
      → ((f : EntryRef)
          → IsHeld s.lb.next_entry s.lb.entry_at s.removing f
          → IsHeld s.lb.next_entry at removing f)
      → SharedInv s
      → SharedInv (record { lb = record s.lb { entry_at = at }; removing = removing })
  stored-SharedInv removing at same step v = record {
    bounded = v.bounded;
    distinct = v.distinct;
    held = All-map _ (IsHeld s.lb.next_entry at removing) s.lb.entries step v.held;
    known = λ f h. subst (λ srv. In srv s.lb.servers) (sym (same f)) (v.known f h);
    bound = v.bound;
  }

  pub bumped-SharedInv : (e : EntryRef) → SharedInv s → SharedInv (record s { lb = bump e s.lb })
  bumped-SharedInv e v =
      let p = s.lb.entry_at e in
      let at = s.lb.entry_at in
      let p' = record p { rif = add_int32 p.rif (pos 1) } in
      let uses = stored_field (λ (q : ProbePoolEntry). q.remaining_uses) at e p' refl in
      stored-SharedInv s.removing (store_entry at e p')
        (stored_field (λ (q : ProbePoolEntry). q.server) at e p' refl) (λ f h. rw (uses f) h) v

  pub used_one-SharedInv :
      (e : EntryRef)
      → pos 0 <ℤ uses_left e s.lb
      → SharedInv s
      → SharedInv (record s { lb = use_entry e s.lb })
  unfolding use_entry
  used_one-SharedInv e left v =
      let at = s.lb.entry_at in
      let p' = record (at e) { remaining_uses = uses_left e s.lb } in
      stored-SharedInv s.removing (store_entry at e p')
        (stored_field (λ (q : ProbePoolEntry). q.server) at e p' refl)
        (stored-IsHeld s.lb.next_entry at s.removing s.removing e p'
          (add_int32-le (at e).remaining_uses (negsuc 0)) (inl left) (λ f m. m))
        v

  pub used_up-SharedInv :
      (e : EntryRef)
      → SharedInv s
      → SharedInv (record { lb = use_entry e s.lb; removing = e ∷ s.removing })
  unfolding use_entry
  used_up-SharedInv e v =
      let at = s.lb.entry_at in
      let p' = record (at e) { remaining_uses = uses_left e s.lb } in
      stored-SharedInv (e ∷ s.removing) (store_entry at e p')
        (stored_field (λ (q : ProbePoolEntry). q.server) at e p' refl)
        (stored-IsHeld s.lb.next_entry at s.removing (e ∷ s.removing) e p'
          (add_int32-le (at e).remaining_uses (negsuc 0)) (inr (inl refl)) (λ f m. inr m))
        v

-- An element other than the one taken out stays.
In-drop_middle :
    (f e : EntryRef) (front back : List EntryRef)
    → e ≢ f
    → In f (front ++ (e ∷ back))
    → In f (front ++ back)
In-drop_middle f e [] back n (inl q) = absurd (n (sym q))
In-drop_middle f e [] back n (inr m) = m
In-drop_middle f e (x ∷ front) back n (inl q) = inl q
In-drop_middle f e (x ∷ front) back n (inr m) = inr (In-drop_middle f e front back n m)

module _ {F : Type 0} where
  pub remove_entry-entries :
      (e : EntryRef) (lb : LoadBalancer F)
      → remove_entry e lb ≡ record lb { entries = without_entry e lb.entries }
  unfolding remove_entry
  remove_entry-entries e lb =
      elim (Bool-cases (length (without_entry e lb.entries) == length lb.entries)) [
        | inl t ↦
            let whole = keep-whole (λ f. not (f == e)) lb.entries (ground arith) in
            rw t (ap (λ l. record lb { entries = l }) (sym whole))
        | inr t ↦ rw t refl
      ]

  pub removed-SharedInv :
      (lb : LoadBalancer F) (front back : List EntryRef) (e : EntryRef)
      → SharedInv (record { lb = lb; removing = front ++ (e ∷ back) })
      → SharedInv (record { lb = remove_entry e lb; removing = front ++ back })
  removed-SharedInv lb front back e v =
      let part = keep-sublist (λ f. not (f == e)) lb.entries in
      rw (remove_entry-entries e lb) (record {
        bounded = omega (arith, length-sublist part, v.bounded);
        distinct = IsDistinct-sublist part v.distinct;
        held = All-of-In _ (without_entry e lb.entries) λ f m.
            let (old, other) = In-without e f lb.entries m in
            let (below, fits, h) =
              In-All (IsHeld lb.next_entry lb.entry_at (front ++ (e ∷ back))) f lb.entries v.held
                old in
            (
              below,
              fits,
              elim h [ inl left ↦ inl left | inr k ↦ inr (In-drop_middle f e front back other k) ],
            );
        known = v.known;
        bound = v.bound;
      })
