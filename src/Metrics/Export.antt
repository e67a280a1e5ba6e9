-- ===== src/Metrics/Export.antt =====
-- The calls on the collectors against the counters that the load balancer keeps itself, operation by operation.
use prequal_nc.Base.{
  ℕ, ◌+◌, ◌%◌, ◌^◌, ◌≡◌, refl, ap, sym, ◌∙◌, inl, inr, Bool, true, false, not, ◌&&◌, List, [], ◌∷◌,
  ◌++◌, arith, Bool-cases, length, count_of, All, All-append, ◌==◌, if◌then◌else◌,
}
use prequal_nc.Text.{Text, codes, text_eq}
use prequal_nc.Types.{Config}
use prequal_nc.Balancer.{ProbeStats, inc_uint64}
use prequal_nc.Metrics.{
  Metric, request_duration, active_requests, server_health, server_rif, probes_triggered,
  probes_succeeded, probes_failed, probe_duration, probe_inflight, probe_rate_effective, pool_size,
  pick_class, labels_of, Call,
}
use prequal_nc.Metrics.Calls.{when_on}

-- As many label values as labels.
abbrev pub IsAccepted : {F : Type 0} → Call F → Type 0
IsAccepted c = length c.labels ≡ length (labels_of c.metric)

abbrev index_of : Metric → ℕ
index_of request_duration = 0
index_of active_requests = 1
index_of server_health = 2
index_of server_rif = 3
index_of probes_triggered = 4
index_of probes_succeeded = 5
index_of probes_failed = 6
index_of probe_duration = 7
index_of probe_inflight = 8
index_of probe_rate_effective = 9
index_of pool_size = 10
index_of pick_class = 11

-- The calls on a vector, and those whose second label has a value.
abbrev pub is_about : {F : Type 0} → Metric → Call F → Bool
is_about m c = index_of c.metric == index_of m

abbrev second_label : List Text → Text
second_label [] = []
second_label (a ∷ []) = []
second_label (a ∷ b ∷ rest) = b

abbrev pub has_value : {F : Type 0} → Text → Call F → Bool
has_value v c = text_eq (second_label c.labels) v

abbrev pub is_http_failure : {F : Type 0} → Call F → Bool
is_http_failure c = is_about probes_failed c && has_value (codes "http_status") c

-- The reasons build_req, transport and timeout.
abbrev pub is_error_failure : {F : Type 0} → Call F → Bool
is_error_failure c = is_about probes_failed c && not (has_value (codes "http_status") c)

abbrev pub is_no_pool : {F : Type 0} → Call F → Bool
is_no_pool c = is_about pick_class c && has_value (codes "no-pool") c

-- The counters behind a call, and behind a list of calls.
abbrev bump : Bool → ℕ → ℕ
bump true n = inc_uint64 n
bump false n = n

abbrev pub count_call : {F : Type 0} → Call F → ProbeStats → ProbeStats
count_call c st = record st {
  triggered = bump (is_about probes_triggered c) st.triggered;
  succeeded = bump (is_about probes_succeeded c) st.succeeded;
  failed_error = bump (is_error_failure c) st.failed_error;
  failed_http = bump (is_http_failure c) st.failed_http;
  pool_empty = bump (is_no_pool c) st.pool_empty;
}

abbrev pub count_calls : {F : Type 0} → List (Call F) → ProbeStats → ProbeStats
count_calls [] st = st
count_calls (c ∷ calls) st = count_calls calls (count_call c st)

-- The counters move from `before` to `after` by as much as these calls count, modulo 2^64.
pub record AreCounted {F : Type 0} (before after : ProbeStats) (calls : List (Call F))
    : Type 0 where
  pub triggered :
      after.triggered % 2 ^ 64
      ≡ (before.triggered + count_of (is_about probes_triggered) calls) % 2 ^ 64
  pub succeeded :
      after.succeeded % 2 ^ 64
      ≡ (before.succeeded + count_of (is_about probes_succeeded) calls) % 2 ^ 64
  pub failed_error :
      after.failed_error % 2 ^ 64 ≡ (before.failed_error + count_of is_error_failure calls) % 2 ^ 64
  pub failed_http :
      after.failed_http % 2 ^ 64 ≡ (before.failed_http + count_of is_http_failure calls) % 2 ^ 64
  pub pool_empty :
      after.pool_empty % 2 ^ 64 ≡ (before.pool_empty + count_of is_no_pool calls) % 2 ^ 64

-- With metrics off there is no call; with metrics on the calls count what the counters count; and every call has
-- the labels of its vector.
pub data AreExported {F : Type 0} (on : Bool) (before after : ProbeStats) (calls : List (Call F))
    : Type 0 where
  is_off : on ≡ false → calls ≡ [] → AreExported on before after calls
  is_on :
      on ≡ true
      → AreCounted before after calls
      → All IsAccepted calls
      → AreExported on before after calls

bump_by_one : (b : Bool) (n : ℕ) → bump b n % 2 ^ 64 ≡ (n + ((if b then 1 else 0) + 0)) % 2 ^ 64
bump_by_one true n = omega arith
bump_by_one false n = omega arith

count_of-append :
    {A : Type 0} (p : A → Bool) (xs ys : List A)
    → count_of p (xs ++ ys) ≡ count_of p xs + count_of p ys
count_of-append p [] ys = omega arith
count_of-append p (x ∷ xs) ys = omega (arith, count_of-append p xs ys)

module _ {F : Type 0} where
  AreCounted-append :
      (a b c : ProbeStats) (xs ys : List (Call F))
      → AreCounted a b xs
      → AreCounted b c ys
      → AreCounted a c (xs ++ ys)
  AreCounted-append a b c xs ys h k = record {
    triggered =
        omega (arith, h.triggered, k.triggered, count_of-append (is_about probes_triggered) xs ys);
    succeeded =
        omega (arith, h.succeeded, k.succeeded, count_of-append (is_about probes_succeeded) xs ys);
    failed_error =
        omega (arith, h.failed_error, k.failed_error, count_of-append is_error_failure xs ys);
    failed_http =
        omega (arith, h.failed_http, k.failed_http, count_of-append is_http_failure xs ys);
    pool_empty = omega (arith, h.pool_empty, k.pool_empty, count_of-append is_no_pool xs ys);
  }

  unmoved-AreCounted : (st : ProbeStats) → AreCounted {F = F} st st []
  unmoved-AreCounted st = record {
    triggered = omega arith;
    succeeded = omega arith;
    failed_error = omega arith;
    failed_http = omega arith;
    pool_empty = omega arith;
  }

  call-AreCounted : (c : Call F) (st : ProbeStats) → AreCounted st (count_call c st) (c ∷ [])
  call-AreCounted c st = record {
    triggered = bump_by_one (is_about probes_triggered c) st.triggered;
    succeeded = bump_by_one (is_about probes_succeeded c) st.succeeded;
    failed_error = bump_by_one (is_error_failure c) st.failed_error;
    failed_http = bump_by_one (is_http_failure c) st.failed_http;
    pool_empty = bump_by_one (is_no_pool c) st.pool_empty;
  }

  pub calls-AreCounted :
      (calls : List (Call F)) (st : ProbeStats) → AreCounted st (count_calls calls st) calls
  calls-AreCounted [] st = unmoved-AreCounted st
  calls-AreCounted (c ∷ calls) st =
      AreCounted-append st (count_call c st) (count_calls calls (count_call c st)) (c ∷ []) calls
        (call-AreCounted c st) (calls-AreCounted calls (count_call c st))

  pub AreExported-append :
      (on : Bool) (a b c : ProbeStats) (xs ys : List (Call F))
      → AreExported on a b xs
      → AreExported on b c ys
      → AreExported on a c (xs ++ ys)
  AreExported-append on a b c xs ys (is_off e q) (is_off f r) = is_off e (ap (λ l. l ++ ys) q ∙ r)
  AreExported-append on a b c xs ys (is_off e q) (is_on f k n) = let never = sym e ∙ f in cc
  AreExported-append on a b c xs ys (is_on e h m) (is_off f r) = let never = sym e ∙ f in cc
  AreExported-append on a b c xs ys (is_on e h m) (is_on f k n) =
      is_on e (AreCounted-append a b c xs ys h k) (All-append IsAccepted xs ys m n)

  -- No call.
  pub empty-AreExported :
      (on : Bool) (a b : ProbeStats) → AreCounted {F = F} a b [] → AreExported {F = F} on a b []
  empty-AreExported on a b c = elim (Bool-cases on) [ inl e ↦ is_on e c tt | inr e ↦ is_off e refl ]

  pub none-AreExported : (on : Bool) (st : ProbeStats) → AreExported {F = F} on st st []
  none-AreExported on st = empty-AreExported on st st (unmoved-AreCounted st)

  -- Calls under the test of EnableMetrics.
  pub when_on-AreExported :
      (cfg : Config F) (calls : List (Call F)) (st : ProbeStats)
      → All IsAccepted calls
      → AreExported cfg.enable_metrics st (count_calls calls st) (when_on cfg calls)
  when_on-AreExported cfg calls st h = elim (Bool-cases cfg.enable_metrics) [
    | inl e ↦ rw e (is_on refl (calls-AreCounted calls st) h)
    | inr e ↦ rw e (is_off refl refl)
  ]

  pub AreExported-IsAccepted :
      (on : Bool) (a b : ProbeStats) (calls : List (Call F))
      → AreExported on a b calls
      → All IsAccepted calls
  AreExported-IsAccepted on a b calls (is_off e q) = rw q tt
  AreExported-IsAccepted on a b calls (is_on e c h) = h
