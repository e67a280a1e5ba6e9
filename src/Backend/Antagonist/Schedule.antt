-- ===== src/Backend/Antagonist/Schedule.antt =====
-- backend/main.go, runAntagonist: at which seconds of the clock a replica is loaded.
use prequal_nc.Base.{
  ℕ, zero, suc, ◌+◌, ◌-◌, ◌*◌, ◌/◌, ◌%◌, ◌<◌, ◌≤◌, ◌≡◌, refl, ap, sym, ◌∙◌, inl, inr, ◌⊎◌, ℤ, pos,
  negsuc, ◌-ℤ◌, ◌+ℤ◌, ◌≤ℤ◌, ◌<ℤ◌, leb_ℤ, pos_part, ◌||◌, Bool, true, false, some, List, [], ◌∷◌,
  ◌++◌, arith, Bool-cases, length, length-append, length-replicate, get_elem?, replicate, ltb,
}
use prequal_nc.Backend.Antagonist.{
  cycle_period_seconds, phase_of, delay_to_start, no_load, full_load, cycles, plan, seconds_of,
  timeline,
}

-- The phase is n modulo 10, also for a number below 0.
pub phase_of_lem :
    (m : ℕ)
    → (phase_of (pos m) ≡ pos (m % 10))
      × ((k : ℕ) × (phase_of (negsuc m) ≡ pos k) × (k < 10) × ((k + suc m) % 10 ≡ 0))
unfolding phase_of ◌-ℤ◌ ◌+ℤ◌
phase_of_lem m = (ground arith, ((10 - suc m % 10) % 10, ground arith, omega arith, omega arith))

-- The sleep is shorter than a period, and ends at a second of the clock that has the phase.
pub delay_to_start_lem :
    (phase unix : ℕ)
    → phase < 10
    → (d : ℕ) × (delay_to_start (pos phase) unix ≡ pos d) × (d < 10) × ((unix + d) % 10 ≡ phase)
unfolding delay_to_start ◌-ℤ◌ ◌+ℤ◌
delay_to_start_lem phase unix h =
    ((phase + 10 - unix % 10) % 10, ground arith, omega arith, omega arith)

get_elem?-append_left :
    (xs ys : List Bool) (k : ℕ) → k < length xs → get_elem? (xs ++ ys) k ≡ get_elem? xs k
get_elem?-append_left [] ys k h = absurd (omega arith)
get_elem?-append_left (x ∷ xs) ys zero h = refl
get_elem?-append_left (x ∷ xs) ys (suc k) h = get_elem?-append_left xs ys k (omega arith)

get_elem?-append_right :
    (xs ys : List Bool) (k : ℕ)
    → length xs ≤ k
    → get_elem? (xs ++ ys) k ≡ get_elem? ys (k - length xs)
get_elem?-append_right [] ys k h = ap (get_elem? ys) (omega arith)
get_elem?-append_right (x ∷ xs) ys zero h = absurd (omega arith)
get_elem?-append_right (x ∷ xs) ys (suc k) h =
    get_elem?-append_right xs ys k (omega arith) ∙ ap (get_elem? ys) (omega arith)

get_elem?-replicate : (n : ℕ) (b : Bool) (k : ℕ) → k < n → get_elem? (replicate n b) k ≡ some b
get_elem?-replicate zero b k h = absurd (omega arith)
get_elem?-replicate (suc n) b zero h = refl
get_elem?-replicate (suc n) b (suc k) h = get_elem?-replicate n b k (omega arith)

-- One period.
abbrev period : ℕ → List Bool
period on_sec = replicate on_sec true ++ replicate (cycle_period_seconds - on_sec) false

length-period : (on_sec : ℕ) → on_sec ≤ 10 → length (period on_sec) ≡ 10
length-period on_sec h = omega (
  arith,
  length-append (replicate on_sec true) (replicate (cycle_period_seconds - on_sec) false),
  length-replicate on_sec true,
  length-replicate (cycle_period_seconds - on_sec) false,
)

get_elem?-period :
    (on_sec k : ℕ) → on_sec ≤ 10 → k < 10 → get_elem? (period on_sec) k ≡ some (ltb k on_sec)
get_elem?-period on_sec k h le = elim (Bool-cases (ltb k on_sec)) [
  | inl e ↦
      let size = length-replicate on_sec true in
      get_elem?-append_left (replicate on_sec true) _ k (ground (arith, size))
      ∙ get_elem?-replicate on_sec true k (ground arith)
      ∙ ap some (sym e)
  | inr e ↦
      let size = length-replicate on_sec true in
      get_elem?-append_right (replicate on_sec true) _ k (ground (arith, size))
      ∙ get_elem?-replicate (cycle_period_seconds - on_sec) false _ (ground (arith, size))
      ∙ ap some (sym e)
]

seconds_of-at :
    (on_sec n k : ℕ)
    → on_sec ≤ 10
    → k < 10 * n
    → get_elem? (seconds_of on_sec n) k ≡ some (ltb (k % 10) on_sec)
unfolding seconds_of
seconds_of-at on_sec zero k h le = absurd (omega arith)
seconds_of-at on_sec (suc n) k h le = elim (Bool-cases (ltb k 10)) [
  | inl e ↦
      let size = length-period on_sec h in
      let small : k ≡ k % 10 = ground arith in
      get_elem?-append_left (period on_sec) _ k (ground (arith, size))
      ∙ get_elem?-period on_sec k h (ground arith)
      ∙ ap (λ j. some (ltb j on_sec)) small
  | inr e ↦
      let size = length-period on_sec h in
      let shift : k - length (period on_sec) ≡ k - 10 = ap (λ j. k - j) size in
      let same : (k - 10) % 10 ≡ k % 10 = ground arith in
      get_elem?-append_right (period on_sec) _ k (ground (arith, size))
      ∙ ap (get_elem? (seconds_of on_sec n)) shift
      ∙ seconds_of-at on_sec n (k - 10) h (ground arith)
      ∙ ap (λ j. some (ltb j on_sec)) same
]

-- The k-th second behind the start of runAntagonist: before the sleep is over nothing runs, and from then
-- on stress-ng runs exactly in the first on_sec seconds behind each second of the clock that has the phase,
-- whenever the replica was started.
pub timeline-at :
    (phase unix on_sec n k : ℕ)
    → phase < 10
    → on_sec ≤ 10
    → (d : ℕ) × (delay_to_start (pos phase) unix ≡ pos d)
      × (d < 10)
      × (k < d → get_elem? (timeline (pos phase) unix on_sec n) k ≡ some false)
      × (d ≤ k
          → k < d + 10 * n
          → get_elem? (timeline (pos phase) unix on_sec n) k
            ≡ some (ltb ((unix + k + (10 - phase)) % 10) on_sec))
unfolding timeline
timeline-at phase unix on_sec n k h le =
    let (d, e, small, at) = delay_to_start_lem phase unix h in
    let size = length-replicate d false in
    (
      d,
      e,
      small,
      λ early. rw e (
          get_elem?-append_left (replicate d false) _ k (omega (arith, size))
          ∙ get_elem?-replicate d false k early),
      λ late within.
          let shift : k - length (replicate d false) ≡ k - d = ap (λ j. k - j) size in
          let same : (k - d) % 10 ≡ (unix + k + (10 - phase)) % 10 = omega arith in
          rw e (
            get_elem?-append_right (replicate d false) _ k (omega (arith, size))
            ∙ ap (get_elem? (seconds_of on_sec n)) shift
            ∙ seconds_of-at on_sec n (k - d) le (omega arith)
            ∙ ap (λ j. some (ltb j on_sec)) same),
    )

-- What runAntagonist sets out to do: nothing without a load or a core; to run for ever from 100 on; and
-- otherwise to run a share of every ten seconds, the load rounded down to a tenth.
pub plan_lem :
    (load cores : ℤ)
    → ((plan load cores ≡ no_load) × ((load ≤ℤ pos 0) ⊎ (cores ≤ℤ pos 0)))
      ⊎ ((pos 0 <ℤ load)
          × (pos 0 <ℤ cores)
          × (((plan load cores ≡ full_load) × (pos 100 ≤ℤ load))
              ⊎ ((on_sec : ℕ) × (plan load cores ≡ cycles on_sec)
                  × (pos (10 * on_sec) ≤ℤ load)
                  × (load <ℤ pos (10 * on_sec + 10))
                  × (on_sec < 10))))
unfolding plan
plan_lem load cores = elim (Bool-cases (leb_ℤ load (pos 0) || leb_ℤ cores (pos 0))) [
  | inl e ↦ inl (rw e refl, ground arith)
  | inr e ↦ elim (Bool-cases (leb_ℤ (pos 100) load)) [
    | inl big ↦ inr (ground arith, ground arith, inl (ground arith, ground arith))
    | inr small ↦ inr (
      ground arith,
      ground arith,
      inr (pos_part load / 10, ground arith, ground arith, ground arith, ground arith),
    )
  ]
]
