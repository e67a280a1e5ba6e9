-- ===== src/Metrics/Tests.antt =====
-- A registry that keeps what it is given, and the theorems on the collectors at it.
use prequal_nc.Base.{
  ◌+◌, ◌≡◌, ◌≢◌, refl, inl, inr, ℤ, pos, true, false, none, some, List, [], ◌∷◌, arith, Bool-cases,
  length, In, In-All, All-intro, ◌==◌, if◌then◌else◌,
}
use prequal_nc.Centi.{Centi}
use prequal_nc.Text.{Text, text_eq}
use prequal_nc.Types.{Config, default_config}
use prequal_nc.Balancer.{LoadBalancer, new_load_balancer, add_server}
use prequal_nc.Balancer.Probe.{transport_error, trigger_probes}
use prequal_nc.Balancer.Tests.{servers_at, pool_at}
use prequal_nc.Metrics.{
  Op, Call, Prometheus, PrometheusLaws, name_of, labels_of, opts_of, new_metrics, perform_all,
}
use prequal_nc.Metrics.Register.{
  exported_names, LacksNames, HasNames, is_new, is_new-All, new_metrics-HasNames,
}
use prequal_nc.Metrics.Returns.{Observed-performs}
use prequal_nc.Metrics.History.{Observed, opened, joined, ticked, probe_began, probe_ended}

text_eq_sound : (s t : Text) → text_eq s t ≡ true → s ≡ t
text_eq_sound [] [] h = refl
text_eq_sound [] (d ∷ t) h = cc
text_eq_sound (c ∷ s) [] h = cc
text_eq_sound (c ∷ s) (d ∷ t) h = elim (Bool-cases (text_eq s t)) [
  | inl e ↦ let rest = text_eq_sound s t e in let head : c ≡ d = ground arith in cc
  | inr e ↦ absurd (ground arith)
]

old_name : (s : Text) (ts : List Text) → is_new s ts ≡ false → In s ts
unfolding is_new
old_name s [] h = cc
old_name s (t ∷ ts) h = elim (Bool-cases (text_eq s t)) [
  | inl e ↦ inl (text_eq_sound s t e)
  | inr e ↦ inr (old_name s ts (rw e at h))
]

-- The names that are registered and the calls made, the last one first.
abbrev ledger : Prometheus ℤ
ledger = record {
  State = List Text × List (Text × List Text × Op ℤ);
  names = λ st. st.0;
  must_register = λ o st. if is_new o.name st.0 then some (o.name ∷ st.0, st.1) else none;
  perform = λ o values op st.
      if length values == length o.labels then some (st.0, (o.name, values, op) ∷ st.1) else none;
}

ledger-laws : PrometheusLaws Centi ledger
unfolding opts_of
ledger-laws = record {
  registers = λ m st h. elim (Bool-cases (is_new (name_of m) st.0)) [
    | inl e ↦ ((name_of m ∷ st.0, st.1), rw e refl, refl)
    | inr e ↦ absurd (h (old_name (name_of m) st.0 e))
  ];
  refuses = λ m st h. elim (Bool-cases (is_new (name_of m) st.0)) [
    | inl e ↦
        absurd (In-All (λ t. name_of m ≢ t) (name_of m) st.0 (is_new-All (name_of m) st.0 e) h refl)
    | inr e ↦ rw e refl
  ];
  performs = λ m values op st h. (
    (st.0, (name_of m, values, op) ∷ st.1),
    let e : (length values == length (labels_of m)) ≡ true = ground arith in rw e refl,
    refl,
  );
}

abbrev nothing_registered : ledger.State
nothing_registered = ([], [])

empty-LacksNames : LacksNames Centi ledger ledger-laws exported_names nothing_registered
empty-LacksNames =
    All-intro (λ t. In t (ledger.names nothing_registered) → ⊥) exported_names λ t i. i

new_metrics-HasNames_example :
    (st' : ledger.State) × (new_metrics Centi ledger nothing_registered ≡ some st')
    × HasNames Centi ledger ledger-laws exported_names st'
    × HasNames Centi ledger ledger-laws (ledger.names nothing_registered) st'
    × (length (ledger.names st') ≡ 12 + length (ledger.names nothing_registered))
    × (new_metrics Centi ledger st' ≡ none)
new_metrics-HasNames_example =
    new_metrics-HasNames Centi ledger ledger-laws nothing_registered empty-LacksNames

abbrev metered : Config ℤ
metered = record (default_config Centi) { enable_metrics = true }

abbrev two_servers : LoadBalancer ℤ
two_servers =
    add_server Centi 1 (add_server Centi 0 (new_load_balancer Centi servers_at pool_at metered).0)

abbrev two_probed : LoadBalancer ℤ
two_probed = record two_servers {
  last_probe_nanos = pos 5;
  probe_stats = record two_servers.probe_stats { triggered = 2 };
}

two_sent :
    trigger_probes Centi (1 ∷ 0 ∷ []) (pos 5) (pos 2) two_servers ≡ some (two_probed, 1 ∷ 0 ∷ [])
unfolding trigger_probes add_server new_load_balancer default_config
two_sent = refl

-- Two probes are sent; the first one fails.
abbrev one_failed : (lb : LoadBalancer ℤ) × (calls : List (Call ℤ)) × Observed Centi lb calls
one_failed =
    let sent =
      ticked (1 ∷ 0 ∷ []) (pos 5) (pos 2) two_probed (1 ∷ 0 ∷ []) two_sent
        (joined 1 (joined 0 (opened servers_at pool_at metered))) in
    (_, _, probe_ended true (pos 0) (pos 9) (pos 9) (pos 4) 1 transport_error (probe_began sent))

Observed-performs_example :
    (st' : ledger.State) × (st'' : ledger.State) × (new_metrics Centi ledger nothing_registered
      ≡ some st')
    × (perform_all Centi ledger one_failed.1 st' ≡ some st'')
Observed-performs_example =
    Observed-performs Centi ledger ledger-laws nothing_registered empty-LacksNames one_failed.2
