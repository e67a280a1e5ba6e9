-- ===== src/System/Provenance.antt =====
-- The load balancer with its replicas: where the entries of the probe pool come from.
use mathlib.Core.List.{Sublistᴰ}
use prequal_nc.Base.{
  ℕ, suc, ◌+◌, ◌-◌, ◌≤◌, ◌<◌, ◌≡◌, refl, ap, subst, sym, ◌∙◌, inl, inr, pos, wrap32, add_int32,
  add_int32-suc, Option, none, some, List, [], ◌∷◌, ◌++◌, arith, Bool-cases, All, All-map,
  All-append, All-drop, length, All-of-In, In, In-All, ◌==◌,
}
use prequal_nc.Base.Sub.{All-sublist}
use prequal_nc.Float.{Float64, FloatLaws}
use prequal_nc.Time.{Time}
use prequal_nc.Types.{ServerRef, EntryRef, ProbeResult, ProbePoolEntry}
use prequal_nc.Balancer.{LoadBalancer}
use prequal_nc.Balancer.Select.Consume.{Consumed, charged}
use prequal_nc.Balancer.Select.Effect.{IsChoice, unused, used}
use prequal_nc.Balancer.Probe.{accept_probe}
use prequal_nc.Pool.{Heap, prune}
use prequal_nc.Pool.Prune.{prune-sublist}
use prequal_nc.Balancer.Invariant.{IsUsable, PoolInv, consumed-part}
use prequal_nc.Balancer.Accept.{Accepted, accept_probe-Accepted}
use prequal_nc.Balancer.History.{LbInv}
use prequal_nc.Backend.{HealthHeaders, health}
use prequal_nc.Backend.Traffic.{Worked}
use prequal_nc.System.{Answer, count_choice}
use prequal_nc.System.Reads.{IsInt64, rif_after, estimate_after}

-- An answer that a replica gave in the course of its history, when the choices were as many or fewer.
pub record IsHonest (servers : List ServerRef) (chosen : ServerRef → ℕ) (a : Answer) : Type 0 where
  pub known : In a.server servers
  pub worked : Worked a.replica a.work
  pub in_range : All IsInt64 a.work.samples
  pub earlier : a.chosen_before ≤ chosen a.server

-- A response under way carries what some answer says.
pub record IsReply (answers : List Answer) (r : ServerRef × HealthHeaders) : Type 0 where
  pub answer : Answer
  pub given : In answer answers
  pub sent : r ≡ (answer.server, health answer.replica)

-- An entry goes back to an answer of its server: it has the estimate of that moment, and its RIF is the one of
-- that moment and one more for some of the choices of the server since.
pub record IsFrom (answers : List Answer) (chosen : ServerRef → ℕ) (p : ProbePoolEntry)
    : Type 0 where
  pub answer : Answer
  pub given : In answer answers
  pub server : p.server ≡ answer.server
  pub latency : p.latency ≡ estimate_after answer.work
  pub more : ℕ
  pub rif : p.rif ≡ wrap32 (pos (answer.work.in_flight + more))
  pub at_most : answer.chosen_before + more ≤ chosen p.server

count_choice-le :
    (srv : Option ServerRef) (chosen : ServerRef → ℕ) (s : ServerRef)
    → chosen s ≤ count_choice srv chosen s
count_choice-le none chosen s = omega arith
count_choice-le (some srv) chosen s = ground arith

pub IsHonest-later :
    (servers : List ServerRef) (chosen : ServerRef → ℕ) (srv : Option ServerRef) (a : Answer)
    → IsHonest servers chosen a
    → IsHonest servers (count_choice srv chosen) a
IsHonest-later servers chosen srv a h = record {
  known = h.known;
  worked = h.worked;
  in_range = h.in_range;
  earlier = omega (arith, h.earlier, count_choice-le srv chosen a.server);
}

-- An entry that a choice leaves as it is, but for its uses.
IsFrom-later :
    (answers : List Answer) (chosen : ServerRef → ℕ) (srv : Option ServerRef) (p q : ProbePoolEntry)
    → q.server ≡ p.server
    → q.latency ≡ p.latency
    → q.rif ≡ p.rif
    → IsFrom answers chosen p
    → IsFrom answers (count_choice srv chosen) q
IsFrom-later answers chosen srv p q es el er h = record {
  answer = h.answer;
  given = h.given;
  server = es ∙ h.server;
  latency = el ∙ h.latency;
  more = h.more;
  rif = er ∙ h.rif;
  at_most = rw es (omega (arith, h.at_most, count_choice-le srv chosen p.server));
}

-- An entry of the chosen server.
IsFrom-chosen :
    (answers : List Answer) (chosen : ServerRef → ℕ) (p q : ProbePoolEntry)
    → q.server ≡ p.server
    → q.latency ≡ p.latency
    → q.rif ≡ add_int32 p.rif (pos 1)
    → IsFrom answers chosen p
    → IsFrom answers (count_choice (some p.server) chosen) q
IsFrom-chosen answers chosen p q es el er h = record {
  answer = h.answer;
  given = h.given;
  server = es ∙ h.server;
  latency = el ∙ h.latency;
  more = suc h.more;
  rif =
      er
      ∙ ap (λ a. add_int32 a (pos 1)) h.rif
      ∙ add_int32-suc (h.answer.work.in_flight + h.more)
      ∙ ap (λ n. wrap32 (pos n)) (omega arith);
  at_most = rw es (ground (arith, h.at_most));
}

module _ {F : Type 0} (answers : List Answer) (chosen : ServerRef → ℕ) where
  -- Every entry of a pool goes back to an answer.
  unfoldable pub AreFrom : LoadBalancer F → Type 0
  AreFrom lb = All (λ e. IsFrom answers chosen (lb.entry_at e)) lb.entries

module _ {F : Type 0} (answers : List Answer) (chosen : ServerRef → ℕ) where
  pub sub-AreFrom :
      (lb after : LoadBalancer F)
      → Sublistᴰ after.entries lb.entries
      → after.entry_at ≡ lb.entry_at
      → AreFrom answers chosen lb
      → AreFrom answers chosen after
  unfolding AreFrom
  sub-AreFrom lb after s e h = rw e (All-sublist (λ f. IsFrom answers chosen (lb.entry_at f)) s h)

  pub later-AreFrom :
      (srv : Option ServerRef) (lb : LoadBalancer F)
      → AreFrom answers chosen lb
      → AreFrom answers (count_choice srv chosen) lb
  unfolding AreFrom
  later-AreFrom srv lb =
      All-map _ _ lb.entries
        (λ f. IsFrom-later answers chosen srv (lb.entry_at f) (lb.entry_at f) refl refl refl)

  -- What becomes of an entry of the pool when one of them is used.
  pub used-IsFrom :
      (e f : EntryRef) (lb after : LoadBalancer F)
      → Consumed F e lb after
      → In f lb.entries
      → IsFrom answers chosen (lb.entry_at f)
      → IsFrom answers (count_choice (some (lb.entry_at e).server) chosen) (after.entry_at f)
  used-IsFrom e f lb after c m h =
      let s = (lb.entry_at e).server in
      elim (Bool-cases (e == f)) [
        | inl same ↦
            let q : f ≡ e = ground arith in
            rw q (
              IsFrom-chosen answers chosen (lb.entry_at e) (after.entry_at e)
                (ap (λ (p : ProbePoolEntry). p.server) c.used_entry)
                (ap (λ (p : ProbePoolEntry). p.latency) c.used_entry)
                (ap (λ (p : ProbePoolEntry). p.rif) c.used_entry) (rw q at h))
        | inr other ↦
            let now = c.same_server f m (λ q. ground arith) in
            elim (Bool-cases ((lb.entry_at f).server == s)) [
              | inl ours ↦
                  let own : (lb.entry_at f).server ≡ s = ground arith in
                  let next : after.entry_at f ≡ charged (lb.entry_at f) = now ∙ rw ours refl in
                  subst (λ t. IsFrom answers (count_choice (some t) chosen) (after.entry_at f)) own
                    (IsFrom-chosen answers chosen (lb.entry_at f) (after.entry_at f)
                      (ap (λ (p : ProbePoolEntry). p.server) next)
                      (ap (λ (p : ProbePoolEntry). p.latency) next)
                      (ap (λ (p : ProbePoolEntry). p.rif) next) h)
              | inr theirs ↦
                  let next : after.entry_at f ≡ lb.entry_at f = now ∙ rw theirs refl in
                  IsFrom-later answers chosen (some s) (lb.entry_at f) (after.entry_at f)
                    (ap (λ (p : ProbePoolEntry). p.server) next)
                    (ap (λ (p : ProbePoolEntry). p.latency) next)
                    (ap (λ (p : ProbePoolEntry). p.rif) next) h
            ]
      ]

module _ (fl : Float64) (laws : FloatLaws fl) where
  open fl use {F}

  -- A predicate that holds of every pooled entry and of the new one.
  Accepted-All :
      (P : ProbePoolEntry → Type 0) (now : Time) (srv : ServerRef) (result : ProbeResult)
      (lb after : LoadBalancer F)
      → (c : Accepted fl laws now srv result lb after) → PoolInv lb
      → All (λ e. P (lb.entry_at e)) lb.entries
      → P (record {
        server = srv;
        received_at = result.timestamp;
        rif = result.rif;
        latency = result.latency;
        remaining_uses = c.uses;
      })
      → All (λ e. P (after.entry_at e)) after.entries
  Accepted-All P now srv result lb after c v h new =
      let kept = prune lb.entry_at lb.config.pool_ttl now lb.entries in
      let below : (f : EntryRef) → In f lb.entries → f < lb.next_entry =
        λ f m. (In-All (IsUsable lb.servers lb.next_entry lb.entry_at) f lb.entries v.usable m).0 in
      let old : All (λ e. P (after.entry_at e)) lb.entries = All-of-In _ lb.entries λ f m.
        subst P (sym (c.others f (λ q. let b = below f m in omega arith)))
          (In-All (λ g. P (lb.entry_at g)) f lb.entries h m) in
      subst (All (λ e. P (after.entry_at e))) (sym c.pool) (
        All-drop _ (suc (length kept) - lb.config.pool_cap) (kept ++ lb.next_entry ∷ []) (
          All-append _ kept (lb.next_entry ∷ [])
            (All-sublist _ (prune-sublist lb.entry_at lb.config.pool_ttl now lb.entries) old)
            (subst P (sym c.entry) new, tt)))

module _ (fl : Float64) (laws : FloatLaws fl) (answers : List Answer) (chosen : ServerRef → ℕ) where
  open fl use {F}

  used-AreFrom :
      (e : EntryRef) (lb after : LoadBalancer F)
      → Consumed F e lb after
      → AreFrom answers chosen lb
      → AreFrom answers (count_choice (some (lb.entry_at e).server) chosen) after
  unfolding AreFrom
  used-AreFrom e lb after c h = All-sublist _ (consumed-part fl e lb after c) (
      All-of-In _ lb.entries (λ f m.
        used-IsFrom answers chosen e f lb after c m
          (In-All (λ g. IsFrom answers chosen (lb.entry_at g)) f lb.entries h m)))

  -- The pool after SelectServer.
  pub chosen-AreFrom :
      (lb after : LoadBalancer F) (srv : Option ServerRef)
      → IsChoice fl lb after srv
      → AreFrom answers chosen lb
      → AreFrom answers (count_choice srv chosen) after
  chosen-AreFrom lb after srv (unused s e es) h =
      later-AreFrom answers chosen srv after (sub-AreFrom answers chosen lb after s e h)
  chosen-AreFrom lb after srv (used e left s q c m es k) h =
      subst (λ t. AreFrom answers (count_choice t chosen) after)
        (ap (λ (at : Heap). some (at e).server) q ∙ sym k)
        (used-AreFrom e left after c (sub-AreFrom answers chosen lb left s q h))

  -- The pool after an answer has been read.
  pub accepted-AreFrom :
      (draw : F) (now read_at : Time) (a : Answer) (lb : LoadBalancer F)
      → LbInv fl laws lb
      → In a answers
      → IsHonest lb.servers chosen a
      → AreFrom answers chosen lb
      → AreFrom answers chosen (
          accept_probe fl draw now a.server
            (record {
              timestamp = read_at;
              rif = rif_after a.work;
              latency = estimate_after a.work;
            })
            lb)
  unfolding AreFrom
  accepted-AreFrom draw now read_at a lb v given honest h =
      let result : ProbeResult = record {
        timestamp = read_at;
        rif = rif_after a.work;
        latency = estimate_after a.work;
      } in
      let c = accept_probe-Accepted fl laws draw now a.server result lb v.bound v.pool.bounded in
      Accepted-All fl laws (IsFrom answers chosen) now a.server result lb _ c v.pool h (record {
        answer = a;
        given = given;
        server = refl;
        latency = refl;
        more = 0;
        rif =
            ap (λ n. wrap32 (pos n)) {x = a.work.in_flight} {y = a.work.in_flight + 0}
              (omega arith);
        at_most = omega (arith, honest.earlier);
      })
