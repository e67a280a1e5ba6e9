-- ===== src/Balancer/Snapshot/View.antt =====
-- balancer.go, DebugSnapshot: the snapshot is a view of the pool.
use mathlib.Core.List.{Permᴰ}
use prequal_nc.Base.{
  ℕ, suc, ◌+◌, ◌*◌, ◌/◌, ◌<◌, ◌≤◌, ◌≡◌, refl, ap, subst, sym, ◌∙◌, inl, inr, ℤ, pos, negsuc, ◌<ℤ◌,
  ◌-ℤ◌, false, List, [], ◌∷◌, map, arith, length, All, In,
}
use prequal_nc.Time.{Time, time_sub}
use prequal_nc.Text.{text_ltb}
use prequal_nc.Types.{EntryRef}
use prequal_nc.Balancer.{LoadBalancer}
use prequal_nc.Balancer.Invariant.{PoolInv, IsUsable}
use prequal_nc.Balancer.Snapshot.{
  PoolEntrySnapshot, DebugSnapshot, Sorter, by_server, milliseconds_of, entry_snapshot,
  pool_snapshot, server_ids, debug_snapshot,
}
use prequal_nc.Balancer.Snapshot.Order.{IsOrdered, SorterLaws, by_server-IsStrictWeak}

module _ {A : Type 0} where
  length-Permᴰ : {xs ys : List A} → Permᴰ xs ys → length xs ≡ length ys
  length-Permᴰ Permᴰ.nil = refl
  length-Permᴰ (Permᴰ.cons e d) = ap suc (length-Permᴰ d)
  length-Permᴰ (Permᴰ.swap e f) = refl
  length-Permᴰ (Permᴰ.trans d e) = length-Permᴰ d ∙ length-Permᴰ e

In-map : {A B : Type 0} (f : A → B) (x : A) (xs : List A) → In x xs → In (f x) (map f xs)
In-map f x [] h = absurd h
In-map f x (y ∷ xs) (inl e) = inl (ap f e)
In-map f x (y ∷ xs) (inr h) = inr (In-map f x xs h)

length-map : {A B : Type 0} (f : A → B) (xs : List A) → length (map f xs) ≡ length xs
length-map f [] = refl
length-map f (x ∷ xs) = ap suc (length-map f xs)

-- Milliseconds without their fraction, forward and back.
pub data IsAge (d a : ℤ) : Type 0 where
  since :
      (n k : ℕ)
      → d ≡ pos n
      → a ≡ pos k
      → k * 1_000_000 ≤ n
      → n < k * 1_000_000 + 1_000_000
      → IsAge d a
  ahead :
      (n k : ℕ)
      → d ≡ negsuc n
      → a ≡ pos 0 -ℤ pos k
      → k * 1_000_000 ≤ suc n
      → suc n < k * 1_000_000 + 1_000_000
      → IsAge d a

milliseconds_of-IsAge : (d : ℤ) → IsAge d (milliseconds_of d)
unfolding milliseconds_of
milliseconds_of-IsAge (pos n) = since n (n / 1_000_000) refl refl (omega arith) (omega arith)
milliseconds_of-IsAge (negsuc n) = ahead n (suc n / 1_000_000) refl refl (omega arith) (omega arith)

module _ {F : Type 0} (now : Time) (lb : LoadBalancer F) where
  -- An entry of the pool as /debug/pool shows it.
  pub record Shows (e : EntryRef) (s : PoolEntrySnapshot) : Type 0 where
    pub server : s.server ≡ (lb.server_at (lb.entry_at e).server).id
    pub rif : s.rif ≡ (lb.entry_at e).rif
    pub latency : s.latency_us ≡ (lb.entry_at e).latency
    pub age : IsAge (time_sub now (lb.entry_at e).received_at) s.age_ms
    pub uses : s.reuses_left ≡ (lb.entry_at e).remaining_uses
    -- The server is one of those shown, and the entry may be used again.
    pub known : In s.server (server_ids lb.server_at lb.servers)
    pub usable : pos 0 <ℤ s.reuses_left

  abbrev pub ShowsAll : List EntryRef → List PoolEntrySnapshot → Type 0
  ShowsAll [] [] = Unit
  ShowsAll [] (s ∷ ss) = ⊥
  ShowsAll (e ∷ es) [] = ⊥
  ShowsAll (e ∷ es) (s ∷ ss) = Shows e s × ShowsAll es ss

  pool_snapshot-ShowsAll :
      (entries : List EntryRef)
      → All (IsUsable lb.servers lb.next_entry lb.entry_at) entries
      → ShowsAll entries (map (entry_snapshot now lb) entries)
  unfolding entry_snapshot milliseconds_of
  pool_snapshot-ShowsAll [] h = tt
  pool_snapshot-ShowsAll (e ∷ entries) h = (
    record {
      server = refl;
      rif = refl;
      latency = refl;
      age = milliseconds_of-IsAge (time_sub now (lb.entry_at e).received_at);
      uses = refl;
      known = In-map (λ s. (lb.server_at s).id) (lb.entry_at e).server lb.servers h.0.3;
      usable = h.0.1;
    },
    pool_snapshot-ShowsAll entries h.1,
  )

  -- The same entries in another order.
  pub record Source (entries : List EntryRef) (shown : List PoolEntrySnapshot) : Type 0 where
    pub order : List EntryRef
    pub same : Permᴰ entries order
    pub shows : ShowsAll order shown

  ShowsAll-Permᴰ :
      (entries : List EntryRef) {ss ts : List PoolEntrySnapshot}
      → Permᴰ ss ts
      → ShowsAll entries ss
      → Source entries ts
  ShowsAll-Permᴰ [] Permᴰ.nil h = record { order = []; same = Permᴰ.nil; shows = tt }
  ShowsAll-Permᴰ (x ∷ xs) Permᴰ.nil h = absurd h
  ShowsAll-Permᴰ [] (Permᴰ.cons e d) h = absurd h
  ShowsAll-Permᴰ (x ∷ xs) (Permᴰ.cons e d) h =
      let r = ShowsAll-Permᴰ xs d h.1 in
      record {
        order = x ∷ r.order;
        same = Permᴰ.cons refl r.same;
        shows = (subst (Shows x) e h.0, r.shows);
      }
  ShowsAll-Permᴰ [] (Permᴰ.swap e f) h = absurd h
  ShowsAll-Permᴰ (x ∷ []) (Permᴰ.swap e f) h = absurd h.1
  ShowsAll-Permᴰ (x ∷ y ∷ xs) (Permᴰ.swap e f) h = record {
    order = y ∷ x ∷ xs;
    same = Permᴰ.swap refl refl;
    shows = (subst (Shows y) f h.1.0, (subst (Shows x) e h.0, h.1.1));
  }
  ShowsAll-Permᴰ xs (Permᴰ.trans d e) h =
      let r = ShowsAll-Permᴰ xs d h in
      let q = ShowsAll-Permᴰ r.order e r.shows in
      record { order = q.order; same = Permᴰ.trans r.same q.same; shows = q.shows }

  -- The ids do not fall along the list.
  abbrev pub InServerOrder : List PoolEntrySnapshot → Type 0
  InServerOrder [] = Unit
  InServerOrder (x ∷ xs) = All (λ y. text_ltb y.server x.server ≡ false) xs × InServerOrder xs

  InServerOrder_lem : (l : List PoolEntrySnapshot) → IsOrdered by_server l → InServerOrder l
  InServerOrder_lem [] h = tt
  InServerOrder_lem (x ∷ xs) h = (h.0, InServerOrder_lem xs h.1)

  pub record IsView (s : DebugSnapshot) : Type 0 where
    pub source : Source lb.entries s.pool
    pub ordered : InServerOrder s.pool
    pub size : s.pool_size ≡ length lb.entries
    pub fits : s.pool_size ≤ s.pool_cap
    pub servers : length s.servers ≡ length lb.servers

  -- In a state with the pool invariant, and with sort.Slice as documented for a test that is a strict weak order:
  -- DebugSnapshot shows each entry of the pool once, by the id of its server, which is among the servers shown,
  -- its RIF, its latency, its age in whole milliseconds and its uses left, of which there are some, in an order in
  -- which the ids do not fall; pool_size is the number of entries and within pool_cap; and there are as many
  -- servers shown as registered.
  pub debug_snapshot-IsView :
      (sort : Sorter) → SorterLaws sort → PoolInv lb → IsView (debug_snapshot sort now lb)
  unfolding debug_snapshot
  debug_snapshot-IsView sort laws v =
      let h = laws.sorts by_server (pool_snapshot now lb) by_server-IsStrictWeak in
      let size = sym (length-Permᴰ h.same) ∙ length-map (entry_snapshot now lb) lb.entries in
      record {
        source = ShowsAll-Permᴰ lb.entries h.same (pool_snapshot-ShowsAll lb.entries v.usable);
        ordered = InServerOrder_lem _ h.ordered;
        size = size;
        fits = omega (arith, size, v.bounded);
        servers = length-map (λ s. (lb.server_at s).id) lb.servers;
      }
