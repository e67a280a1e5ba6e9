-- ===== src/Balancer/Select/Consume.antt =====
-- balancer.go, consumeEntry: what it does to every entry and to the pool.
use prequal_nc.Base.{
  ◌≡◌, ◌≢◌, refl, ap, sym, ◌∙◌, inl, inr, ℤ, pos, negsuc, ltb_ℤ, add_int32, Bool, not, List, [],
  ◌∷◌, arith, Bool-cases, length, All, All-map, In, In-All, In-of-keep, length-keep-le, IsDistinct,
  keep, ◌==◌, if◌then◌else◌,
}
use prequal_nc.Float.{Float64}
use prequal_nc.Types.{ServerRef, EntryRef, ProbePoolEntry}
use prequal_nc.Pool.{Heap}
use prequal_nc.Balancer.{LoadBalancer}
use prequal_nc.Balancer.Counts.{SameCounts}
use prequal_nc.Balancer.Select.{store_entry, charge, without_entry, consume_entry}

-- An entry after one more request to its server.
abbrev pub charged : ProbePoolEntry → ProbePoolEntry
charged p = record p { rif = add_int32 p.rif (pos 1) }

-- Entries outside the list are untouched.
charge-outside :
    (entries : List EntryRef) (s : ServerRef) (at : Heap) (f : EntryRef)
    → All (λ e. e ≢ f) entries
    → charge entries s at f ≡ at f
unfolding charge
charge-outside [] s at f h = refl
charge-outside (e ∷ entries) s at f h = charge-outside entries s _ f h.1 ∙ ground (arith, h.0)

All-ne-sym :
    (e : EntryRef) (entries : List EntryRef) → All (λ f. e ≢ f) entries → All (λ f. f ≢ e) entries
All-ne-sym e entries = All-map _ _ entries (λ f n q. n (sym q))

abbrev charge_one : EntryRef → ServerRef → Heap → Heap
charge_one e s at = if (at e).server == s then store_entry at e (charged (at e)) else at

-- An entry of a list without repetitions is charged once if it is of the server.
pub charge-inside :
    (entries : List EntryRef) (s : ServerRef) (at : Heap) (f : EntryRef)
    → IsDistinct entries
    → In f entries
    → charge entries s at f ≡ (if (at f).server == s then charged (at f) else at f)
unfolding charge
charge-inside [] s at f d h = elim h [ ]
charge-inside (e ∷ entries) s at f d (inl same) =
    let here = charge-outside entries s (charge_one e s at) e (All-ne-sym e entries d.0) in
    rw same (here ∙ ground arith)
charge-inside (e ∷ entries) s at f d (inr m) =
    let other : e ≢ f = In-All (λ g. e ≢ g) f entries d.0 m in
    let kept : charge_one e s at f ≡ at f = ground arith in
    charge-inside entries s (charge_one e s at) f d.1 m
    ∙ ap (λ (p : ProbePoolEntry). if p.server == s then charged p else p) kept

pub keep-whole :
    (p : EntryRef → Bool) (xs : List EntryRef) → length (keep p xs) ≡ length xs → keep p xs ≡ xs
keep-whole p [] h = refl
keep-whole p (x ∷ xs) h = elim (Bool-cases (p x)) [
  | inl e ↦ rw e (ap (◌∷◌ x) (keep-whole p xs (ground arith)))
  | inr e ↦ absurd (let fewer = length-keep-le p xs in ground arith)
]

-- What consumeEntry leaves behind, for a pool without repetitions that holds the entry used.
pub record Consumed (F : Type 0) (used : EntryRef) (lb lb' : LoadBalancer F) : Type 0 where
  -- The uses that the entry has left.
  pub uses : ℤ
  pub one_less : uses ≡ add_int32 (lb.entry_at used).remaining_uses (negsuc 0)
  pub used_entry : lb'.entry_at used ≡ record (charged (lb.entry_at used)) { remaining_uses = uses }
  pub same_server :
      (f : EntryRef)
      → In f lb.entries
      → used ≢ f
      → lb'.entry_at f ≡ (
          if (lb.entry_at f).server == (lb.entry_at used).server
          then charged (lb.entry_at f)
          else lb.entry_at f)
  pub untouched : (f : EntryRef) → All (λ e. e ≢ f) lb.entries → lb'.entry_at f ≡ lb.entry_at f
  pub pool :
      lb'.entries ≡ (if ltb_ℤ (pos 0) uses then lb.entries else without_entry used lb.entries)

pub store_self : (at : Heap) (e : EntryRef) (v : ProbePoolEntry) → store_entry at e v e ≡ v
store_self at e v = ground arith

pub store_other :
    (at : Heap) (e f : EntryRef) (v : ProbePoolEntry) → e ≢ f → store_entry at e v f ≡ at f
store_other at e f v n = ground arith

-- What stays in the pool without an entry.
pub In-without :
    (used f : EntryRef) (xs : List EntryRef) → In f (without_entry used xs) → In f xs × (used ≢ f)
In-without used f xs h =
    let (m, t) = In-of-keep f (λ e. not (e == used)) xs h in (m, λ r. ground arith)

module _ (fl : Float64) where
  consume_entry-fields :
      (used : EntryRef) (lb : LoadBalancer fl.F)
      → let at = charge lb.entries (lb.entry_at used).server lb.entry_at in
        let uses = add_int32 (at used).remaining_uses (negsuc 0) in
        ((consume_entry fl used lb).entry_at
          ≡ store_entry at used (record (at used) { remaining_uses = uses }))
        × ((consume_entry fl used lb).entries
            ≡ (if ltb_ℤ (pos 0) uses then lb.entries else without_entry used lb.entries))
  unfolding consume_entry
  consume_entry-fields used lb =
      let at = charge lb.entries (lb.entry_at used).server lb.entry_at in
      let uses = add_int32 (at used).remaining_uses (negsuc 0) in
      let next = without_entry used lb.entries in
      elim (Bool-cases (ltb_ℤ (pos 0) uses)) [
        | inl t ↦ rw (t, consume_entry) (refl, refl)
        | inr t ↦ elim (Bool-cases (length next == length lb.entries)) [
          | inl k ↦
              rw (t, k, consume_entry)
                (refl, sym (keep-whole (λ e. not (e == used)) lb.entries (ground arith)))
          | inr k ↦ rw (t, k, consume_entry) (refl, refl)
        ]
      ]

  -- consumeEntry leaves the registered servers, the configuration, the allocation, the distribution
  -- and the counters alone.
  pub consume_entry-same :
      (used : EntryRef) (lb : LoadBalancer fl.F)
      → ((consume_entry fl used lb).servers ≡ lb.servers)
        × ((consume_entry fl used lb).next_entry ≡ lb.next_entry)
        × ((consume_entry fl used lb).config ≡ lb.config)
        × ((consume_entry fl used lb).rif_dist ≡ lb.rif_dist)
        × SameCounts (consume_entry fl used lb) lb
  unfolding consume_entry
  consume_entry-same used lb =
      let at = charge lb.entries (lb.entry_at used).server lb.entry_at in
      let uses = add_int32 (at used).remaining_uses (negsuc 0) in
      elim (Bool-cases (ltb_ℤ (pos 0) uses)) [
        | inl t ↦ rw (t, consume_entry) (refl, refl, refl, refl, (refl, refl))
        | inr t ↦ elim (Bool-cases (length (without_entry used lb.entries) == length lb.entries)) [
          | inl k ↦ rw (t, k, consume_entry) (refl, refl, refl, refl, (refl, refl))
          | inr k ↦ rw (t, k, consume_entry) (refl, refl, refl, refl, (refl, refl))
        ]
      ]

  -- On a pool without repetitions that holds the chosen entry: consumeEntry counts one more request in
  -- every pooled entry of the chosen server, takes one use from the chosen entry, changes no entry
  -- outside the pool, and drops the chosen entry from the pool exactly when no use is left.
  pub consume_entry-Consumed :
      (used : EntryRef) (lb : LoadBalancer fl.F)
      → IsDistinct lb.entries
      → In used lb.entries
      → Consumed fl.F used lb (consume_entry fl used lb)
  consume_entry-Consumed used lb d h =
      let s = (lb.entry_at used).server in
      let at = charge lb.entries s lb.entry_at in
      let uses = add_int32 (at used).remaining_uses (negsuc 0) in
      let (heap, pool) = consume_entry-fields used lb in
      let inside = charge-inside lb.entries s lb.entry_at used d h in
      let own : at used ≡ charged (lb.entry_at used) = inside ∙ ground arith in
      record {
        uses = uses;
        one_less = ap (λ (p : ProbePoolEntry). add_int32 p.remaining_uses (negsuc 0)) own;
        used_entry =
            ap (λ (m : Heap). m used) heap
            ∙ store_self at used (record (at used) { remaining_uses = uses })
            ∙ ap (λ (p : ProbePoolEntry). record p { remaining_uses = uses }) own;
        same_server = λ f m n.
            ap (λ (m : Heap). m f) heap
            ∙ store_other at used f (record (at used) { remaining_uses = uses }) n
            ∙ charge-inside lb.entries s lb.entry_at f d m;
        untouched = λ f o.
            ap (λ (m : Heap). m f) heap
            ∙ store_other at used f (record (at used) { remaining_uses = uses })
                (In-All (λ e. e ≢ f) used lb.entries o h)
            ∙ charge-outside lb.entries s lb.entry_at f o;
        pool = pool;
      }
