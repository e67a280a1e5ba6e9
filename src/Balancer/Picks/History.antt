-- ===== src/Balancer/Picks/History.antt =====
-- balancer.go, recordPick and DebugSnapshot: the ring is the history of picks cut to the last 100.
use mathlib.Core.List.{reverse, reverse-cons, append_assoc, append-nil}
use prequal_nc.Base.{
  ℕ, zero, suc, ◌+◌, ◌-◌, ◌≤◌, ◌<◌, ◌≡◌, ◌≢◌, refl, ap, sym, ◌∙◌, List, [], ◌∷◌, ◌++◌, arith,
  length, length-set, set, get_or, take, min, replicate, length-replicate,
}
use prequal_nc.Balancer.{PickRecord, PickRing, recent_picks_cap, empty_pick}
use prequal_nc.Balancer.Picks.{record_pick, pick_index, picks_from, recent_picks}

-- The array has 100 slots, the next one to write is among them, and at most 100 are in use.
pub record IsRing (r : PickRing) : Type 0 where
  pub slots : length r.recent_picks ≡ recent_picks_cap
  pub within : r.recent_picks_idx < recent_picks_cap
  pub used : r.recent_picks_len ≤ recent_picks_cap

pub record_pick-IsRing : (rec : PickRecord) (r : PickRing) → IsRing r → IsRing (record_pick rec r)
unfolding record_pick
record_pick-IsRing rec r v = ground (arith, length-set r.recent_picks r.recent_picks_idx rec)

get_or-set :
    (xs : List PickRecord) (i j : ℕ) (v d : PickRecord)
    → i < length xs
    → (get_or (set xs i v) i d ≡ v) × (i ≢ j → get_or (set xs i v) j d ≡ get_or xs j d)
get_or-set [] i j v d h = absurd (omega arith)
get_or-set (x ∷ xs) zero zero v d h = (refl, λ n. absurd (n refl))
get_or-set (x ∷ xs) zero (suc j) v d h = (refl, λ n. refl)
get_or-set (x ∷ xs) (suc i) zero v d h = ((get_or-set xs i zero v d (omega arith)).0, λ n. refl)
get_or-set (x ∷ xs) (suc i) (suc j) v d h =
    let (same, other) = get_or-set xs i j v d (omega arith) in
    (same, λ n. other (λ e. n (ap suc e)))

module _ (rec : PickRecord) (r : PickRing) (v : IsRing r) where
  -- One pick further back in the new ring is the same pick as before.
  pick-older :
      (k : ℕ)
      → k < recent_picks_cap - 1
      → get_or (record_pick rec r).recent_picks (pick_index (record_pick rec r) (suc k)) empty_pick
        ≡ get_or r.recent_picks (pick_index r k) empty_pick
  unfolding record_pick
  pick-older k h =
      let i = r.recent_picks_idx in
      let same : pick_index (record_pick rec r) (suc k) ≡ pick_index r k = omega arith in
      let other : i ≢ pick_index r k = omega arith in
      rw same ((get_or-set r.recent_picks i (pick_index r k) rec empty_pick (omega arith)).1 other)

  picks_from-older :
      (n k : ℕ)
      → k + n < recent_picks_cap
      → picks_from (record_pick rec r) n (suc k) ≡ picks_from r n k
  unfolding picks_from
  picks_from-older zero k h = refl
  picks_from-older (suc n) k h = rw (pick-older k (omega arith)) (
      ap (◌∷◌ (get_or r.recent_picks (pick_index r k) empty_pick))
        (picks_from-older n (suc k) (omega arith)))

  pick-newest :
      get_or (record_pick rec r).recent_picks (pick_index (record_pick rec r) 0) empty_pick ≡ rec
  unfolding record_pick
  pick-newest =
      let i = r.recent_picks_idx in
      let same : pick_index (record_pick rec r) 0 ≡ i = omega arith in
      rw same ((get_or-set r.recent_picks i i rec empty_pick (omega arith)).0)

take-picks_from : (r : PickRing) (m n k : ℕ) → take m (picks_from r n k) ≡ picks_from r (min m n) k
unfolding picks_from
take-picks_from r zero n k = ap (λ j. picks_from r j k) {x = 0} {y = min 0 n} (omega arith)
take-picks_from r (suc m) zero k =
    ap (λ j. picks_from r j k) {x = 0} {y = min (suc m) 0} (omega arith)
take-picks_from r (suc m) (suc n) k =
    ap (◌∷◌ (get_or r.recent_picks (pick_index r k) empty_pick)) (take-picks_from r m n (suc k))
    ∙ ap (λ j. picks_from r j k) {x = suc (min m n)} {y = min (suc m) (suc n)} (omega arith)

new_len :
    (rec : PickRecord) (r : PickRing)
    → IsRing r
    → (record_pick rec r).recent_picks_len ≡ suc (min 99 r.recent_picks_len)
unfolding record_pick
new_len rec r v = ground arith

-- What DebugSnapshot shows after a pick is the pick followed by what it showed before, cut to 100.
pub recent_picks-record_pick :
    (rec : PickRecord) (r : PickRing)
    → IsRing r
    → recent_picks (record_pick rec r) ≡ take recent_picks_cap (rec ∷ recent_picks r)
unfolding recent_picks picks_from
recent_picks-record_pick rec r v =
    let m = min 99 r.recent_picks_len in
    let size : (record_pick rec r).recent_picks_len ≡ suc m = new_len rec r v in
    ap (λ n. picks_from (record_pick rec r) n 0) size
    ∙ ap (λ x. x ∷ picks_from (record_pick rec r) m 1) (pick-newest rec r v)
    ∙ ap (◌∷◌ rec) (
        picks_from-older rec r v m 0 (omega arith)
        ∙ sym (take-picks_from r 99 r.recent_picks_len 0))

-- The picks of a history, oldest first.
pub record_all : List PickRecord → PickRing → PickRing
record_all [] r = r
record_all (rec ∷ recs) r = record_all recs (record_pick rec r)

take-take : (n : ℕ) (h : List PickRecord) → take n (take (suc n) h) ≡ take n h
take-take zero h = refl
take-take (suc n) [] = refl
take-take (suc n) (x ∷ h) = ap (◌∷◌ x) (take-take n h)

record_all-history :
    (recs h : List PickRecord) (r : PickRing)
    → IsRing r
    → recent_picks r ≡ take recent_picks_cap h
    → recent_picks (record_all recs r) ≡ take recent_picks_cap (reverse recs ++ h)
unfolding record_all
record_all-history [] h r v e = e
record_all-history (rec ∷ recs) h r v e =
    let e' : recent_picks (record_pick rec r) ≡ take recent_picks_cap (rec ∷ h) =
      recent_picks-record_pick rec r v
      ∙ ap (λ l. rec ∷ take 99 l) e
      ∙ ap (◌∷◌ rec) (take-take 99 h) in
    record_all-history recs (rec ∷ h) (record_pick rec r) (record_pick-IsRing rec r v) e'
    ∙ ap (take recent_picks_cap) (
        sym (append_assoc (reverse recs) (rec ∷ []) h)
        ∙ ap (λ l. l ++ h) (sym (reverse-cons rec recs)))

-- The ring of NewLoadBalancer.
abbrev pub empty_ring : PickRing
empty_ring = record {
  recent_picks = replicate recent_picks_cap empty_pick;
  recent_picks_len = 0;
  recent_picks_idx = 0;
}

empty_ring-IsRing : IsRing empty_ring
empty_ring-IsRing = record {
  slots = length-replicate recent_picks_cap empty_pick;
  within = omega arith;
  used = omega arith;
}

-- After any picks on a new load balancer, DebugSnapshot shows the last 100 of them, newest first.
pub recent_picks-record_all :
    (recs : List PickRecord)
    → recent_picks (record_all recs empty_ring) ≡ take recent_picks_cap (reverse recs)
unfolding recent_picks picks_from
recent_picks-record_all recs =
    record_all-history recs [] empty_ring empty_ring-IsRing refl
    ∙ ap (take recent_picks_cap) (append-nil (reverse recs))
