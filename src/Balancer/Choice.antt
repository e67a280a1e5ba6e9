-- ===== src/Balancer/Choice.antt =====
-- balancer.go, selectServerPrequal: which server it returns and what becomes of the pool.
use mathlib.Core.List.Sublistᴰ
use prequal_nc.Base.{
  ℕ, ◌≤◌, ◌<◌, ◌≡◌, refl, ap, subst, sym, ◌∙◌, inl, inr, ℤ, Bool, true, false, Option, some, List,
  [], ◌∷◌, ◌++◌, arith, Bool-cases, length, count_of, In, ltb,
}
use prequal_nc.Base.Best.{Chosen}
use prequal_nc.Float.{Float64}
use prequal_nc.Time.{Time, Duration}
use prequal_nc.Types.{ServerRef, EntryRef, ProbePoolEntry}
use prequal_nc.Pool.{Heap}
use prequal_nc.Balancer.{LoadBalancer, PickClass, no_pool, inc_uint64}
use prequal_nc.Balancer.Counts.{SameCounts}
use prequal_nc.Balancer.Select.{consume_entry, random_server, log_pick, select_from}
use prequal_nc.Balancer.Select.Scan.{
  is_fresh, IsHotCold, cold_pick, hot_pick, scan_entries, scan_entries-IsHotCold,
}
use prequal_nc.Balancer.Select.Consume.{Consumed, consume_entry-Consumed, consume_entry-same}
use prequal_nc.Balancer.Invariant.{PoolInv, part-PoolInv, consume_entry-PoolInv}

In-middle : (e : EntryRef) (xs ys : List EntryRef) → In e (xs ++ e ∷ ys)
In-middle e [] ys = inl refl
In-middle e (x ∷ xs) ys = inr (In-middle e xs ys)

Chosen-In :
    (better : ℤ → ℤ → Bool) (p : EntryRef → Bool) (f : EntryRef → ℤ) (entries : List EntryRef)
    (e : EntryRef) (k : ℤ)
    → Chosen better p f (λ i g. g) entries e k
    → In e entries
Chosen-In better p f entries e k c =
    rw c.kept (subst (In c.best) (sym c.split) (In-middle c.best c.before c.after))

pub IsHotCold-In :
    (at : Heap) (theta : ℤ) (ttl : Duration) (now : Time) (entries : List EntryRef) (e : EntryRef)
    (class : PickClass)
    → IsHotCold at theta ttl now entries e class
    → In e entries
IsHotCold-In at theta ttl now entries e class (cold_pick k c q) = Chosen-In _ _ _ entries e k c
IsHotCold-In at theta ttl now entries e class (hot_pick k h c q) = Chosen-In _ _ _ entries e k c

module _ (fl : Float64) where
  open fl use {F}

  -- The pool after logging a pick.
  log_pick-same :
      (now : Time) (srv : Option ServerRef) (class : PickClass) (theta : ℤ) (size fresh : ℕ)
      (lb : LoadBalancer F)
      → let lb' = log_pick fl now srv class theta size fresh lb in
        (lb'.entries ≡ lb.entries)
        × (lb'.entry_at ≡ lb.entry_at)
        × (lb'.next_entry ≡ lb.next_entry)
        × (lb'.servers ≡ lb.servers)
        × (lb'.config ≡ lb.config)
        × (lb'.probe_stats ≡ lb.probe_stats)
        × (lb'.rif_dist ≡ lb.rif_dist)
        × SameCounts lb' lb
  unfolding log_pick
  log_pick-same now srv class theta size fresh lb = elim (Bool-cases lb.config.enable_pick_log) [
    | inl t ↦ rw t (refl, refl, refl, refl, refl, refl, refl, (refl, refl))
    | inr t ↦ rw t (refl, refl, refl, refl, refl, refl, refl, (refl, refl))
  ]

  -- What selectServerPrequal does at the threshold theta, with `draw` from rand.Intn.
  pub data Selected (theta : ℤ) (now : Time) (draw : ℕ) (lb lb' : LoadBalancer F)
      (srv : Option ServerRef) : Type 0 where
    any_server :
        count_of (is_fresh lb.entry_at theta lb.config.pool_ttl now) lb.entries < 2
        → srv ≡ random_server fl draw lb
        → lb'.entries ≡ lb.entries
        → lb'.entry_at ≡ lb.entry_at
        → lb'.probe_stats
          ≡ record lb.probe_stats { pool_empty = inc_uint64 lb.probe_stats.pool_empty }
        → Selected theta now draw lb lb' srv
    best_server :
        (e : EntryRef) (class : PickClass)
        → 2 ≤ count_of (is_fresh lb.entry_at theta lb.config.pool_ttl now) lb.entries
        → IsHotCold lb.entry_at theta lb.config.pool_ttl now lb.entries e class
        → srv ≡ some (lb.entry_at e).server
        → Consumed F e lb lb'
        → Selected theta now draw lb lb' srv

  abbrev pub Outcome : Time → ℤ → Time → ℕ → LoadBalancer F → Type 0
  Outcome now_log theta now draw lb =
      (lb' : LoadBalancer F) × (srv : Option ServerRef) × (select_from fl now_log draw theta
          (scan_entries lb.entry_at theta lb.config.pool_ttl now lb.entries) lb
        ≡ some (lb', srv))
      × Selected theta now draw lb lb' srv
      × PoolInv lb'
      × (lb'.servers ≡ lb.servers)
      × (lb'.config ≡ lb.config)
      × (lb'.rif_dist ≡ lb.rif_dist)
      × SameCounts lb' lb

  abbrev pub SamePool : LoadBalancer F → LoadBalancer F → Type 0
  SamePool lb' lb =
      (lb'.entries ≡ lb.entries)
      × (lb'.entry_at ≡ lb.entry_at)
      × (lb'.next_entry ≡ lb.next_entry)
      × (lb'.servers ≡ lb.servers)
      × (lb'.config ≡ lb.config)

  pub same-PoolInv : (lb lb' : LoadBalancer F) → SamePool lb' lb → PoolInv lb → PoolInv lb'
  same-PoolInv lb lb' (ee, eh, en, es, ec) v =
      part-PoolInv lb lb' ec es en eh (rw ee (Sublistᴰ.refl lb.entries)) v

  Consumed-same :
      (e : EntryRef) (lb lb1 lb' : LoadBalancer F)
      → lb'.entries ≡ lb1.entries
      → lb'.entry_at ≡ lb1.entry_at
      → Consumed F e lb lb1
      → Consumed F e lb lb'
  Consumed-same e lb lb1 lb' ee eh c = record {
    uses = c.uses;
    one_less = c.one_less;
    used_entry = rw eh c.used_entry;
    same_server = λ f m n. rw eh (c.same_server f m n);
    untouched = λ f m. rw eh (c.untouched f m);
    pool = ee ∙ c.pool;
  }

  small_pool :
      (now_log : Time) (theta : ℤ) (now : Time) (draw : ℕ) (lb : LoadBalancer F)
      → PoolInv lb
      → ltb (scan_entries lb.entry_at theta lb.config.pool_ttl now lb.entries).fresh 2 ≡ true
      → Outcome now_log theta now draw lb
  unfolding select_from
  small_pool now_log theta now draw lb v few =
      let b = scan_entries lb.entry_at theta lb.config.pool_ttl now lb.entries in
      let (count, found) =
        scan_entries-IsHotCold lb.entry_at theta lb.config.pool_ttl now lb.entries in
      let lb1 : LoadBalancer F = record lb {
        probe_stats = record lb.probe_stats { pool_empty = inc_uint64 lb.probe_stats.pool_empty };
      } in
      let srv = random_server fl draw lb in
      let (ee, eh, en, es, ec, ep, ed, et) =
        log_pick-same now_log srv no_pool theta (length lb.entries) b.fresh lb1 in
      (
        log_pick fl now_log srv no_pool theta (length lb.entries) b.fresh lb1,
        srv,
        rw few refl,
        any_server (ground arith) refl ee eh ep,
        same-PoolInv lb _ (ee, eh, en, es, ec) v,
        es,
        ec,
        ed,
        et,
      )

  large_pool :
      (now_log : Time) (theta : ℤ) (now : Time) (draw : ℕ) (lb : LoadBalancer F)
      → PoolInv lb
      → ltb (scan_entries lb.entry_at theta lb.config.pool_ttl now lb.entries).fresh 2 ≡ false
      → Outcome now_log theta now draw lb
  unfolding select_from
  large_pool now_log theta now draw lb v enough =
      let b = scan_entries lb.entry_at theta lb.config.pool_ttl now lb.entries in
      let (count, found) =
        scan_entries-IsHotCold lb.entry_at theta lb.config.pool_ttl now lb.entries in
      let (e, class, won, rule) = found (ground arith) in
      let m = IsHotCold-In lb.entry_at theta lb.config.pool_ttl now lb.entries e class rule in
      let lb1 = consume_entry fl e lb in
      let c = consume_entry-Consumed fl e lb v.distinct m in
      let (cs, cn, cf, cd, ct) = consume_entry-same fl e lb in
      let srv = (lb1.entry_at e).server in
      let (ee, eh, en, es, ec, ep, ed, et) =
        log_pick-same now_log (some srv) class theta (length lb.entries) b.fresh lb1 in
      (
        log_pick fl now_log (some srv) class theta (length lb.entries) b.fresh lb1,
        some srv,
        rw (enough, won) refl,
        best_server e class (ground arith) rule
            (ap (λ (p : ProbePoolEntry). some p.server) c.used_entry)
            (Consumed-same e lb lb1 _ ee eh c),
        same-PoolInv lb1 _ (ee, eh, en, es, ec) (consume_entry-PoolInv fl e lb v m),
        es ∙ cs,
        ec ∙ cf,
        ed ∙ cd,
        (et.0 ∙ ct.0, et.1 ∙ ct.1),
      )

  pub select_from-Selected :
      (now_log : Time) (theta : ℤ) (now : Time) (draw : ℕ) (lb : LoadBalancer F)
      → PoolInv lb
      → Outcome now_log theta now draw lb
  select_from-Selected now_log theta now draw lb v =
      let b = scan_entries lb.entry_at theta lb.config.pool_ttl now lb.entries in
      elim (Bool-cases (ltb b.fresh 2)) [
        | inl few ↦ small_pool now_log theta now draw lb v few
        | inr enough ↦ large_pool now_log theta now draw lb v enough
      ]
