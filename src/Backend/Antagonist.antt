-- ===== src/Backend/Antagonist.antt =====
-- backend/main.go, runAntagonist and extractServerNum: when a replica loads its own processor.
pub mod Number
pub mod Schedule
use prequal_nc.Base.{
  ℕ, zero, suc, ◌+◌, ◌-◌, ◌*◌, ◌/◌, ◌%◌, ℤ, pos, negsuc, pos_part, ltb_ℤ, leb_ℤ, ◌-ℤ◌, ◌+ℤ◌, ◌==ℤ◌,
  Bool, true, false, ◌||◌, Option, none, some, List, [], ◌∷◌, ◌++◌, length, drop, get_or, replicate,
  ◌==◌, if◌then◌else◌,
}
use prequal_nc.Text.{Text, is_digit, is_empty, atoi}

abbrev pub cycle_period_seconds : ℕ
cycle_period_seconds = 10

-- The loop of extractServerNum, from the index `i` down: where the trailing digits begin.
unfoldable pub digits_from : Text → ℕ → ℕ
digits_from id zero = zero
digits_from id (suc i) =
    let rest = digits_from id i in if is_digit (get_or id i 0) then rest else suc i

abbrev or_zero : Option ℤ → ℤ
or_zero none = pos 0
or_zero (some n) = n

-- extractServerNum.
unfoldable pub extract_server_num : Text → ℤ
unfolding digits_from
extract_server_num id =
    let i = digits_from id (length id) in
    if i == length id then pos 0 else or_zero (atoi (drop i id))

-- The remainder of Go, which has the sign of the dividend.
abbrev pub rem_ℤ : ℤ → ℕ → ℤ
rem_ℤ (pos n) k = pos (n % k)
rem_ℤ (negsuc n) k = pos 0 -ℤ pos (suc n % k)

-- `((n % 10) + 10) % 10`.
unfoldable pub phase_of : ℤ → ℤ
unfolding ◌-ℤ◌ ◌+ℤ◌
phase_of n = rem_ℤ (rem_ℤ n cycle_period_seconds +ℤ pos cycle_period_seconds) cycle_period_seconds

abbrev phase_from : Option ℤ → ℤ → ℤ
phase_from none default = default
phase_from (some n) default = phase_of n

-- phaseOffsetSec: ANTAGONIST_PHASE is the empty text where it is not set.
unfoldable pub phase_offset : Text → Text → ℤ
unfolding extract_server_num phase_of
phase_offset server_id phase =
    let default = rem_ℤ (extract_server_num server_id) cycle_period_seconds in
    if is_empty phase then default else phase_from (atoi phase) default

-- delayToNextStart, at a time of `unix` seconds since 1970.
unfoldable pub delay_to_start : ℤ → ℕ → ℤ
unfolding ◌-ℤ◌ ◌+ℤ◌
delay_to_start phase unix =
    let sec = pos (unix % cycle_period_seconds) in
    rem_ℤ (phase -ℤ sec +ℤ pos cycle_period_seconds) cycle_period_seconds

-- What runAntagonist sets out to do: nothing; to run stress-ng for ever; or to run it `on_sec` seconds of
-- every ten.
pub data Plan : Type 0 where
  no_load full_load : Plan
  cycles : ℕ → Plan

unfoldable pub plan : ℤ → ℤ → Plan
plan cpu_load cores =
    let load = if ltb_ℤ (pos 100) cpu_load then 100 else pos_part cpu_load in
    if leb_ℤ cpu_load (pos 0) || leb_ℤ cores (pos 0)
    then no_load
    else if load == 100
    then full_load
    else cycles (cycle_period_seconds * load / 100)

-- The last loop of runAntagonist, `n` rounds of it: for each second, whether stress-ng runs. It is taken
-- to run for its timeout.
unfoldable pub seconds_of : ℕ → ℕ → List Bool
seconds_of on_sec zero = []
seconds_of on_sec (suc n) =
    (replicate on_sec true ++ replicate (cycle_period_seconds - on_sec) false)
    ++ seconds_of on_sec n

-- runAntagonist behind its plan, from the second `unix` on: the sleep and `n` rounds.
unfoldable pub timeline : ℤ → ℕ → ℕ → ℕ → List Bool
unfolding delay_to_start seconds_of
timeline phase unix on_sec n =
    replicate (pos_part (delay_to_start phase unix)) false ++ seconds_of on_sec n

-- The part of `main` that reads CPU_LOAD and ANTAGONIST_CORES.
unfoldable pub cpu_load_of : Text → ℤ
cpu_load_of s = if is_empty s then pos 0 else or_zero (atoi s)

abbrev cores_from : Option ℤ → ℤ
cores_from none = pos 6
cores_from (some n) = if leb_ℤ (pos 0) n then n else pos 6

unfoldable pub antagonist_cores_of : Text → ℤ
antagonist_cores_of s = if is_empty s then pos 6 else cores_from (atoi s)
