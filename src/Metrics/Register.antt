-- ===== src/Metrics/Register.antt =====
-- metrics.go, NewMetrics: the registration of the twelve vectors.
use prequal_nc.Base.{
  ◌+◌, length, ◌≡◌, ◌≢◌, refl, ap, sym, ◌∙◌, inl, inr, Bool, true, false, not, ◌&&◌, none, some,
  List, [], ◌∷◌, map, arith, All, All-of-In, In, IsDistinct, Bool-cases,
}
use prequal_nc.Float.{Float64}
use prequal_nc.Text.{Text, codes, text_eq}
use prequal_nc.Metrics.{
  Metric, request_duration, metrics, name_of, Prometheus, PrometheusLaws, opts_of, register_all,
  new_metrics,
}

text_eq_refl : (s : Text) → text_eq s s ≡ true
text_eq_refl [] = refl
text_eq_refl (c ∷ s) = ground (arith, text_eq_refl s)

text_ne : (s t : Text) → text_eq s t ≡ false → s ≢ t
text_ne s t e q = let same : text_eq s t ≡ true = ap (text_eq s) (sym q) ∙ text_eq_refl s in cc

-- Whether a text is none of a list, and whether a list of texts has no repetition.
unfoldable pub is_new : Text → List Text → Bool
is_new s [] = true
is_new s (t ∷ ts) = not (text_eq s t) && is_new s ts

are_distinct : List Text → Bool
unfolding is_new
are_distinct [] = true
are_distinct (s ∷ ts) = is_new s ts && are_distinct ts

pub is_new-All : (s : Text) (ts : List Text) → is_new s ts ≡ true → All (λ t. s ≢ t) ts
unfolding is_new
is_new-All s [] h = tt
is_new-All s (t ∷ ts) h = elim (Bool-cases (text_eq s t)) [
  | inl e ↦ let never = rw e at h in cc
  | inr e ↦ (text_ne s t e, is_new-All s ts (rw e at h))
]

are_distinct-IsDistinct : (ts : List Text) → are_distinct ts ≡ true → IsDistinct ts
unfolding are_distinct
are_distinct-IsDistinct [] h = tt
are_distinct-IsDistinct (s ∷ ts) h = elim (Bool-cases (is_new s ts)) [
  | inl e ↦ (is_new-All s ts e, are_distinct-IsDistinct ts (rw e at h))
  | inr e ↦ let never = rw e at h in cc
]

-- The names under which the load balancer is to export its vectors.
abbrev pub exported_names : List Text
exported_names =
    codes "request_duration_seconds"
    ∷ codes "active_requests"
    ∷ codes "server_health"
    ∷ codes "server_rif"
    ∷ codes "prequal_probes_triggered_total"
    ∷ codes "prequal_probes_succeeded_total"
    ∷ codes "prequal_probes_failed_total"
    ∷ codes "prequal_probe_duration_seconds"
    ∷ codes "prequal_probes_inflight"
    ∷ codes "prequal_probe_rate_effective"
    ∷ codes "prequal_pool_size"
    ∷ codes "prequal_pick_class_total"
    ∷ []

names-IsDistinct : IsDistinct exported_names
unfolding are_distinct is_new
names-IsDistinct = are_distinct-IsDistinct exported_names refl

-- A state that registers one more name.
still_lacks :
    (n : Text) (ns ts : List Text)
    → All (λ t. n ≢ t) ts
    → All (λ t. In t ns → ⊥) ts
    → All (λ t. In t (n ∷ ns) → ⊥) ts
still_lacks n ns [] d h = tt
still_lacks n ns (t ∷ ts) d h =
    (λ i. elim i [ inl e ↦ d.0 (sym e) | inr j ↦ h.0 j ], still_lacks n ns ts d.1 h.1)

module _ (fl : Float64) (pr : Prometheus fl.F) (laws : PrometheusLaws fl pr) where
  -- The names that a state has registered.
  abbrev pub HasNames : List Text → pr.State → Type 0
  HasNames ts st = All (λ t. In t (pr.names st)) ts

  abbrev pub LacksNames : List Text → pr.State → Type 0
  LacksNames ts st = All (λ t. In t (pr.names st) → ⊥) ts

  -- What stands in a state is kept by registering more.
  register_all-Registered :
      (ms : List Metric) (st : pr.State)
      → IsDistinct (map name_of ms)
      → LacksNames (map name_of ms) st
      → (st' : pr.State) × (register_all fl pr ms st ≡ some st')
        × HasNames (map name_of ms) st'
        × ((n : Text) → In n (pr.names st) → In n (pr.names st'))
        × (length (pr.names st') ≡ length (map name_of ms) + length (pr.names st))
  unfolding register_all opts_of
  register_all-Registered [] st d h = (st, refl, tt, (λ n i. i), omega arith)
  register_all-Registered (m ∷ ms) st d h =
      let (st1, e, names) = laws.registers m st h.0 in
      let free : LacksNames (map name_of ms) st1 =
        rw names (still_lacks (name_of m) (pr.names st) (map name_of ms) d.0 h.1) in
      let (st2, rest, has, keeps, count) = register_all-Registered ms st1 d.1 free in
      (
        st2,
        rw (register_all, e) rest,
        (keeps (name_of m) (rw names (inl refl)), has),
        (λ n i. keeps n (rw names (inr i))),
        let one = ap length names in omega (arith, count, one),
      )

  -- With the documented behaviour of MustRegister, where none of the twelve names of `exported_names` is
  -- registered: NewMetrics returns, with all twelve registered, each of them new, beside what was registered
  -- before, and nothing else; and NewMetrics again panics.
  pub new_metrics-HasNames :
      (st : pr.State)
      → LacksNames exported_names st
      → (st' : pr.State) × (new_metrics fl pr st ≡ some st')
        × HasNames exported_names st'
        × HasNames (pr.names st) st'
        × (length (pr.names st') ≡ 12 + length (pr.names st))
        × (new_metrics fl pr st' ≡ none)
  unfolding new_metrics register_all opts_of
  new_metrics-HasNames st h =
      let (st', e, has, keeps, count) = register_all-Registered metrics st names-IsDistinct h in
      let again = laws.refuses request_duration st' has.0 in
      (st', e, has, All-of-In (λ n. In n (pr.names st')) (pr.names st) keeps, count, rw again refl)
