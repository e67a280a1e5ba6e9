-- ===== src/Balancer/Select/Effect.antt =====
-- balancer.go, SelectServer: what a choice does to the entries of the pool and to the counters of probes.
use mathlib.Core.List.{Sublistᴰ}
use mathlib.Core.List.Sublistᴰ
use mathlib.Core.Option.{some-injective}
use prequal_nc.Base.{
  ℕ, ◌≡◌, refl, ap, subst, sym, ◌∙◌, inl, inr, ℤ, Option, none, some, Bool-cases, Option-cases,
  length, get_elem?, In, ◌==◌, ◌+◌, ◌-◌, ◌%◌, ◌^◌,
}
use prequal_nc.Float.{Float64, FloatLaws}
use prequal_nc.Time.{Time}
use prequal_nc.Types.{ServerRef, EntryRef, Algorithm, prequal, round_robin, other_algorithm}
use prequal_nc.Balancer.{LoadBalancer, inc_uint32}
use prequal_nc.Balancer.Select.{
  select_server_prequal, select_server_rr, select_by, select_server, theta_of,
}
use prequal_nc.Balancer.Select.Consume.{Consumed}
use prequal_nc.Balancer.Debt.{apply_r_remove-RRemoved}
use prequal_nc.Balancer.Choice.{Selected, any_server, best_server, IsHotCold-In}
use prequal_nc.Balancer.Prequal.{before_choice, select_server_prequal-Picks}
use prequal_nc.Balancer.History.{LbInv}

module _ (fl : Float64) where
  open fl use {F}

  -- A choice uses no entry, or the entry of the server that it returns; some entries may leave before.
  pub data IsChoice (lb after : LoadBalancer F) (srv : Option ServerRef) : Type 0 where
    unused :
        Sublistᴰ after.entries lb.entries
        → after.entry_at ≡ lb.entry_at
        → after.servers ≡ lb.servers
        → IsChoice lb after srv
    used :
        (e : EntryRef) (left : LoadBalancer F)
        → Sublistᴰ left.entries lb.entries
        → left.entry_at ≡ lb.entry_at
        → Consumed F e left after
        → In e left.entries
        → after.servers ≡ lb.servers
        → srv ≡ some (lb.entry_at e).server
        → IsChoice lb after srv

  pub IsChoice-servers :
      (lb after : LoadBalancer F) (srv : Option ServerRef)
      → IsChoice lb after srv
      → after.servers ≡ lb.servers
  IsChoice-servers lb after srv (unused s e es) = es
  IsChoice-servers lb after srv (used e left s q c m es k) = es

  Selected-IsChoice :
      (now_q : Time) (theta : ℤ) (now : Time) (draw : ℕ) (lb after : LoadBalancer F)
      (srv : Option ServerRef)
      → Selected fl theta now draw (before_choice fl now_q lb) after srv
      → after.servers ≡ lb.servers
      → IsChoice lb after srv
  Selected-IsChoice now_q theta now draw lb after srv (any_server few e ee eh ep) es =
      let r = apply_r_remove-RRemoved fl lb in unused (rw ee r.part) (eh ∙ r.same_heap) es
  Selected-IsChoice now_q theta now draw lb after srv (best_server e class many rule q c) es =
      let r = apply_r_remove-RRemoved fl lb in
      used e (before_choice fl now_q lb) r.part r.same_heap c (IsHotCold-In _ _ _ _ _ e class rule)
        es (q ∙ ap (λ at. some (at e).server) r.same_heap)

  same_result :
      (lb a after : LoadBalancer F) (s srv : Option ServerRef)
      → IsChoice lb a s
      → ◌≡◌ {A = Option (LoadBalancer F × Option ServerRef)} (some (a, s)) (some (after, srv))
      → IsChoice lb after srv
  same_result lb a after s srv c e =
      subst (λ (p : LoadBalancer F × Option ServerRef). IsChoice lb p.0 p.1) (some-injective _ _ e)
        c

  rr-IsChoice :
      (lb after : LoadBalancer F) (srv : Option ServerRef)
      → select_server_rr fl lb ≡ some (after, srv)
      → IsChoice lb after srv
  unfolding select_server_rr
  rr-IsChoice lb after srv h =
      let index = inc_uint32 lb.rr_index in
      let i = (index + 2 ^ 32 - 1) % 2 ^ 32 % length lb.servers in
      let kept = Sublistᴰ.refl lb.entries in
      elim (Bool-cases (length lb.servers == 0)) [
        | inl z ↦ same_result lb lb after none srv (unused kept refl refl) (rw z at h)
        | inr z ↦ elim (Option-cases (get_elem? lb.servers i)) [
          | inl r ↦ let never = rw (z, r) at h in cc
          | inr (s, r) ↦
              same_result lb (record lb { rr_index = index }) after (some s) srv
                (unused kept refl refl) (rw (z, r) at h)
        ]
      ]

module _ (fl : Float64) (laws : FloatLaws fl) where
  open fl use {F}

  -- A choice that returns.
  abbrev pub Chooses : Option (LoadBalancer F × Option ServerRef) → LoadBalancer F → Type 0
  Chooses r lb =
      (after : LoadBalancer F) × (srv : Option ServerRef) × (r ≡ some (after, srv))
      × IsChoice fl lb after srv

  prequal-IsChoice :
      (now_q now_ttl now_log : Time) (draw : ℕ) (lb : LoadBalancer F)
      → LbInv fl laws lb
      → Chooses (select_server_prequal fl now_q now_ttl now_log draw lb) lb
  prequal-IsChoice now_q now_ttl now_log draw lb v =
      let p = select_server_prequal-Picks fl v.window now_q now_ttl now_log draw lb v.dist v.pool in
      (
        p.after,
        p.server,
        p.returns,
        Selected-IsChoice fl now_q (theta_of fl p.answer) now_ttl draw lb p.after p.server
            p.selected p.same_servers,
      )

  returned :
      (r : Option (LoadBalancer F × Option ServerRef)) (lb after : LoadBalancer F)
      (srv : Option ServerRef)
      → r ≡ some (after, srv)
      → Chooses r lb
      → IsChoice fl lb after srv
  returned r lb after srv e (after', srv', e', c) =
      subst (λ (p : LoadBalancer F × Option ServerRef). IsChoice fl lb p.0 p.1)
        (some-injective _ _ (sym e' ∙ e)) c

  by-IsChoice :
      (a : Algorithm) (now_q now_ttl now_log : Time) (draw : ℕ) (lb after : LoadBalancer F)
      (srv : Option ServerRef)
      → LbInv fl laws lb
      → select_by fl a now_q now_ttl now_log draw lb ≡ some (after, srv)
      → IsChoice fl lb after srv
  unfolding select_by
  by-IsChoice round_robin now_q now_ttl now_log draw lb after srv v e =
      rr-IsChoice fl lb after srv e
  by-IsChoice prequal now_q now_ttl now_log draw lb after srv v e =
      returned _ lb after srv e (prequal-IsChoice now_q now_ttl now_log draw lb v)
  by-IsChoice (other_algorithm name) now_q now_ttl now_log draw lb after srv v e =
      returned _ lb after srv e (prequal-IsChoice now_q now_ttl now_log draw lb v)

  -- What SelectServer does to the pool.
  pub select_server-IsChoice :
      (now_q now_ttl now_log : Time) (draw : ℕ) (lb after : LoadBalancer F) (srv : Option ServerRef)
      → LbInv fl laws lb
      → select_server fl now_q now_ttl now_log draw lb ≡ some (after, srv)
      → IsChoice fl lb after srv
  unfolding select_server
  select_server-IsChoice now_q now_ttl now_log draw lb after srv v e =
      by-IsChoice lb.config.algorithm now_q now_ttl now_log draw lb after srv v e
