-- ===== src/Backend/Work.antt =====
-- backend/main.go, the work loop of the handler: when it gives up.
use prequal_nc.Base.{
  ℕ, zero, suc, ◌+◌, ◌*◌, ◌/◌, ◌%◌, ◌≤◌, ◌<◌, ◌≡◌, refl, ap, sym, ◌∙◌, inl, inr, ◌⊎◌, Bool, true,
  false, ◌&&◌, arith, Bool-cases, ◌==◌,
}
use native.Mathlib.Decide.{dec_lt}
use prequal_nc.Backend.{cancel_check_every, work_loop}

-- A round in which the handler looks at the context and finds it done.
abbrev pub Stops : (ℕ → Bool) → ℕ → Type 0
Stops is_done i = (i % cancel_check_every ≡ 0) × (is_done i ≡ true)

-- The first round that stops, among those from `i` on.
pub record FirstStop (is_done : ℕ → Bool) (i rounds : ℕ) : Type 0 where
  pub stop : ℕ
  pub from : i ≤ stop
  pub below : stop < i + rounds
  pub stops : Stops is_done stop
  pub first : (j : ℕ) → i ≤ j → j < stop → Stops is_done j → ⊥

module _ (is_done : ℕ → Bool) where
  stop_here :
      (rounds i : ℕ)
      → (i % cancel_check_every == 0 && is_done i) ≡ true
      → FirstStop is_done i (suc rounds)
  stop_here rounds i e = record {
    stop = i;
    from = omega arith;
    below = omega arith;
    stops = (ground arith, ground arith);
    first = λ j low high s. absurd (omega arith);
  }

  no_stop :
      (i : ℕ)
      → (i % cancel_check_every == 0 && is_done i) ≡ false
      → (j : ℕ) → j ≡ i
      → Stops is_done j
      → ⊥
  no_stop i e j same (at, done) =
      let at_i : i % cancel_check_every ≡ 0 = omega arith in
      let done_i : is_done i ≡ true = ap is_done (sym same) ∙ done in ground arith

  stop_later :
      (rounds i : ℕ)
      → (i % cancel_check_every == 0 && is_done i) ≡ false
      → FirstStop is_done (i + 1) rounds
      → FirstStop is_done i (suc rounds)
  stop_later rounds i e f = record {
    stop = f.stop;
    from = omega (arith, f.from);
    below = omega (arith, f.below);
    stops = f.stops;
    first = λ j low high s. elim (Bool-cases (j == i)) [
      | inl same ↦ no_stop i e j (ground arith) s
      | inr other ↦ f.first j (ground arith) high s
    ];
  }

  work_loop-cases :
      (rounds i : ℕ)
      → ((work_loop is_done rounds i ≡ true)
          × ((j : ℕ) → i ≤ j → j < i + rounds → Stops is_done j → ⊥))
        ⊎ ((work_loop is_done rounds i ≡ false) × FirstStop is_done i rounds)
  unfolding work_loop
  work_loop-cases zero i = inl (refl, λ j low high s. absurd (omega arith))
  work_loop-cases (suc rounds) i = elim (Bool-cases (i % cancel_check_every == 0 && is_done i)) [
    | inl e ↦ inr (rw e refl, stop_here rounds i e)
    | inr e ↦ elim (work_loop-cases rounds (i + 1)) [
      | inl (r, none) ↦ inl (
        rw e r,
        λ j low high s. elim (Bool-cases (j == i)) [
          | inl same ↦ no_stop i e j (ground arith) s
          | inr other ↦ none j (ground arith) (omega arith) s
        ],
      )
      | inr (r, f) ↦ inr (rw e r, stop_later rounds i e f)
    ]
  ]

  -- The loop of `work` rounds is cut short exactly if the context is done in some round below `work` whose
  -- number is a multiple of 256; otherwise it runs to its end.
  pub work_loop_lem :
      (work : ℕ)
      → ((work_loop is_done work 0 ≡ true) × ((j : ℕ) → j < work → Stops is_done j → ⊥))
        ⊎ ((work_loop is_done work 0 ≡ false) × FirstStop is_done 0 work)
  work_loop_lem work = elim (work_loop-cases work 0) [
    | inl (r, none) ↦ inl (r, λ j h s. none j (omega arith) (omega arith) s)
    | inr c ↦ inr c
  ]

  next_check : (c : ℕ) → (m : ℕ) × (c ≤ m) × (m < c + 256) × (m % cancel_check_every ≡ 0)
  next_check c = ((c + 255) / 256 * 256, omega arith, omega arith, omega arith)

  -- If the context is done from round `c` on, with more than 255 rounds behind `c`, then the loop gives up,
  -- at the latest in the 255th round after `c`.
  work_loop-cancelled :
      (work c : ℕ)
      → ((i : ℕ) → c ≤ i → is_done i ≡ true)
      → c + 255 < work
      → (work_loop is_done work 0 ≡ false) × ((f : FirstStop is_done 0 work) → f.stop < c + 256)
  work_loop-cancelled work c after h =
      let (m, low, high, at) = next_check c in
      let soon : (f : FirstStop is_done 0 work) → f.stop < c + 256 = λ f. elim (dec_lt m f.stop) [
        | yes later ↦ absurd (f.first m (omega arith) later (at, after m low))
        | no not_later ↦ omega arith
      ] in
      elim (work_loop_lem work) [
        | inl (r, none) ↦ absurd (none m (omega arith) (at, after m low))
        | inr (r, f) ↦ (r, soon)
      ]
