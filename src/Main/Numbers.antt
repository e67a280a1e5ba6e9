-- ===== src/Main/Numbers.antt =====
-- cmd/server/main.go: the settings that are numbers, and where their narrowing wraps around.
use prequal_nc.Base.{
  ℕ, ◌*◌, ◌^◌, ◌<◌, ◌≤◌, ◌-◌, ◌≡◌, refl, ap, subst, sym, ◌∙◌, ℤ, pos, negsuc, ◌*ℤ◌, wrap32, wrap64,
  Option, none, some, arith,
}
use prequal_nc.Float.{Float64}
use prequal_nc.Time.{Duration, millisecond}
use prequal_nc.Text.{Text, codes, format_int}
use prequal_nc.Types.{Config}
use prequal_nc.Main.{
  Environment, set_from, read_count, read_rate, apply_settings, with_metrics, with_pick_log,
  with_r_probe, with_adaptive, with_r_probe_min, with_load_low, with_load_high,
  with_forward_timeout,
}
use prequal_nc.Main.Settings.{read_count-format_int, set_from-keeps}

-- What a signed field of twice `bound` values holds of a natural number: the number, or one below 0.
unfoldable pub Narrowed : ℕ → ℕ → ℤ → Type 0
Narrowed bound n a =
    (n < bound → a ≡ pos n) × (bound ≤ n → n < 2 * bound → a ≡ negsuc (2 * bound - n - 1))

wrap32-Narrowed : (n : ℕ) → Narrowed (2 ^ 31) (n * 1) (wrap32 (pos n))
unfolding wrap32 Narrowed
wrap32-Narrowed n = ((λ h. ground arith), (λ h k. ground arith))

milliseconds-Narrowed :
    (ms : ℕ) → Narrowed (2 ^ 63) (ms * 1_000_000) (wrap64 (pos ms *ℤ millisecond))
unfolding wrap64 ◌*ℤ◌ Narrowed
milliseconds-Narrowed ms = ((λ h. ground arith), (λ h k. ground arith))

-- What the environment has for one of the variables: nothing, a text that is no count, or the print of a number
-- that is an int.
pub data IsGiven (o : Option Text) : Option ℕ → Type 0 where
  unset : o ≡ none → IsGiven o none
  refused : (v : Text) → o ≡ some v → read_count v ≡ none → IsGiven o none
  printed : (n : ℕ) → o ≡ some (format_int n) → n < 2 ^ 63 → IsGiven o (some n)

-- A field that held `old`, behind its variable: as it was, or the number times its unit.
abbrev pub HoldsCount : ℕ → ℕ → Option ℕ → ℤ → ℤ → Type 0
HoldsCount bound unit none old a = a ≡ old
HoldsCount bound unit (some n) old a = Narrowed bound (n * unit) a

HoldsCount-same :
    (bound unit : ℕ) (x : Option ℕ) {old old' a a' : ℤ}
    → old ≡ old'
    → a' ≡ a
    → HoldsCount bound unit x old a
    → HoldsCount bound unit x old' a'
HoldsCount-same bound unit x {old} {old'} {a} {a'} e q h =
    subst (λ o. HoldsCount bound unit x o a') e (subst (HoldsCount bound unit x old) (sym q) h)

module _ (fl : Float64) (parse_float : Text → Option fl.F)
    (parse_duration : Text → Option Duration) where
  open fl use {F}

  -- A count that is given, or not.
  abbrev applied : Option ℕ → (ℤ → Config F → Config F) → Config F → Config F
  applied none g cfg = cfg
  applied (some n) g cfg = g (pos n) cfg

  given :
      {o : Option Text} {x : Option ℕ} (g : ℤ → Config F → Config F) (cfg : Config F)
      → IsGiven o x
      → set_from o (λ v. set_from (read_count v) g) cfg ≡ applied x g cfg
  given g cfg (unset e) = rw e refl
  given g cfg (refused v e r) = rw e (rw r refl)
  given g cfg (printed n e h) = rw e (rw (read_count-format_int n h) refl)

  -- The field of a count, behind its setting.
  held :
      {o : Option Text} {x : Option ℕ} (bound unit : ℕ) (field : Config F → ℤ)
      (g : ℤ → Config F → Config F) (cfg : Config F)
      → ((n : ℕ) → Narrowed bound (n * unit) (field (g (pos n) cfg)))
      → IsGiven o x
      → HoldsCount bound unit x
          (field cfg)
          (field (set_from o (λ v. set_from (read_count v) g) cfg))
  held {x = x} bound unit field g cfg narrow i =
      subst (λ c. HoldsCount bound unit x (field cfg) (field c)) (sym (given g cfg i)) (holds x)
    where
      holds : (x : Option ℕ) → HoldsCount bound unit x (field cfg) (field (applied x g cfg))
      holds none = refl
      holds (some n) = narrow n

  -- A field that no value of a count changes.
  kept :
      (field : Config F → ℤ) (o : Option Text) (g : ℤ → Config F → Config F) (cfg : Config F)
      → ((n : ℤ) (c : Config F) → field (g n c) ≡ field c)
      → field (set_from o (λ v. set_from (read_count v) g) cfg) ≡ field cfg
  kept field o g cfg same =
      set_from-keeps (λ c. field c ≡ field cfg) o (λ v. set_from (read_count v) g) cfg
        (λ v c e k.
          set_from-keeps (λ c. field c ≡ field cfg) (read_count v) g c (λ n c e k. same n c ∙ k) k)
        refl

  -- The three fields.
  abbrev numbers_of : Config F → ℤ × ℤ × ℤ
  numbers_of cfg = (cfg.probe_load_low, cfg.probe_load_high, cfg.forward_timeout)

  abbrev before_numbers : Environment → Config F → Config F
  before_numbers env cfg0 =
      let cfg1 =
        set_from (env (codes "LB_METRICS")) (with_metrics fl parse_float parse_duration) cfg0 in
      let cfg2 =
        set_from (env (codes "LB_PICK_LOG")) (with_pick_log fl parse_float parse_duration) cfg1 in
      let cfg3 =
        set_from (env (codes "LB_RPROBE")) (with_r_probe fl parse_float parse_duration) cfg2 in
      let cfg4 =
        set_from (env (codes "LB_RPROBE_ADAPTIVE")) (with_adaptive fl parse_float parse_duration)
          cfg3 in
      set_from (env (codes "LB_RPROBE_MIN")) (with_r_probe_min fl parse_float parse_duration) cfg4

  -- The settings in front of the three leave them alone.
  before_numbers-keeps :
      (env : Environment) (cfg : Config F) → numbers_of (before_numbers env cfg) ≡ numbers_of cfg
  before_numbers-keeps env cfg =
      let P = λ (c : Config F). numbers_of c ≡ numbers_of cfg in
      set_from-keeps P (env (codes "LB_RPROBE_MIN"))
        (with_r_probe_min fl parse_float parse_duration) _
        (λ v c e k.
          set_from-keeps P (read_rate fl parse_float parse_duration v)
            (λ f c. record c { r_probe_min = f }) c (λ f c e k. k) k)
        (set_from-keeps P (env (codes "LB_RPROBE_ADAPTIVE"))
          (with_adaptive fl parse_float parse_duration) _ (λ v c e k. k)
          (set_from-keeps P (env (codes "LB_RPROBE")) (with_r_probe fl parse_float parse_duration) _
            (λ v c e k.
              set_from-keeps P (read_rate fl parse_float parse_duration v)
                (λ f c. record c { r_probe = f }) c (λ f c e k. k) k)
            (set_from-keeps P (env (codes "LB_PICK_LOG"))
              (with_pick_log fl parse_float parse_duration) _ (λ v c e k. k)
              (set_from-keeps P (env (codes "LB_METRICS"))
                (with_metrics fl parse_float parse_duration) cfg (λ v c e k. k) refl))))

  -- The last three settings of the chain.
  numbers :
      (o_low o_high o_ms : Option Text) (cfg : Config F) (low high ms : Option ℕ)
      → IsGiven o_low low
      → IsGiven o_high high
      → IsGiven o_ms ms
      → let cfg6 = set_from o_low (with_load_low fl parse_float parse_duration) cfg in
        let cfg7 = set_from o_high (with_load_high fl parse_float parse_duration) cfg6 in
        let cfg8 = set_from o_ms (with_forward_timeout fl parse_float parse_duration) cfg7 in
        HoldsCount (2 ^ 31) 1 low cfg.probe_load_low cfg8.probe_load_low
        × HoldsCount (2 ^ 31) 1 high cfg.probe_load_high cfg8.probe_load_high
        × HoldsCount (2 ^ 63) 1_000_000 ms cfg.forward_timeout cfg8.forward_timeout
  numbers o_low o_high o_ms cfg low high ms g_low g_high g_ms =
      let timeout =
        λ (n : ℤ) (c : Config F). record c { forward_timeout = wrap64 (n *ℤ millisecond) } in
      let load_high = λ (n : ℤ) (c : Config F). record c { probe_load_high = wrap32 n } in
      let load_low = λ (n : ℤ) (c : Config F). record c { probe_load_low = wrap32 n } in
      let cfg6 = set_from o_low (with_load_low fl parse_float parse_duration) cfg in
      let cfg7 = set_from o_high (with_load_high fl parse_float parse_duration) cfg6 in
      let low_kept =
        kept (λ c. c.probe_load_low) o_ms timeout cfg7 (λ n c. refl)
        ∙ kept (λ c. c.probe_load_low) o_high load_high cfg6 (λ n c. refl) in
      let high_kept = kept (λ c. c.probe_load_high) o_ms timeout cfg7 (λ n c. refl) in
      let high_before = kept (λ c. c.probe_load_high) o_low load_low cfg (λ n c. refl) in
      let ms_before =
        kept (λ c. c.forward_timeout) o_high load_high cfg6 (λ n c. refl)
        ∙ kept (λ c. c.forward_timeout) o_low load_low cfg (λ n c. refl) in
      (
        HoldsCount-same (2 ^ 31) 1 low refl low_kept
            (held (2 ^ 31) 1 (λ c. c.probe_load_low) load_low cfg wrap32-Narrowed g_low),
        HoldsCount-same (2 ^ 31) 1 high high_before high_kept
            (held (2 ^ 31) 1 (λ c. c.probe_load_high) load_high cfg6 wrap32-Narrowed g_high),
        HoldsCount-same (2 ^ 63) 1_000_000 ms ms_before refl (
            held (2 ^ 63) 1_000_000 (λ c. c.forward_timeout) timeout cfg7 milliseconds-Narrowed
              g_ms),
      )

  -- Each of the variables LB_PROBE_LOAD_LOW, LB_PROBE_LOAD_HIGH and LB_FORWARD_TIMEOUT_MS is not set, or has a
  -- text that is no count, or has the print of a number below 2^63, whatever the others have. In the first two
  -- cases its field stays as it was. Otherwise a load below 2^31 is set as it is; but from 2^31 up to 2^32 the
  -- number passes the test on its sign and the field is set to a negative one. In the same way the timeout is set
  -- to that many milliseconds, if they are an int64 of nanoseconds, and to a negative number for 2^63 up to 2^64
  -- nanoseconds.
  pub apply_settings-numbers :
      (env : Environment) (cfg : Config F) (low high ms : Option ℕ)
      → IsGiven (env (codes "LB_PROBE_LOAD_LOW")) low
      → IsGiven (env (codes "LB_PROBE_LOAD_HIGH")) high
      → IsGiven (env (codes "LB_FORWARD_TIMEOUT_MS")) ms
      → let after = apply_settings fl parse_float parse_duration env cfg in
        HoldsCount (2 ^ 31) 1 low cfg.probe_load_low after.probe_load_low
        × HoldsCount (2 ^ 31) 1 high cfg.probe_load_high after.probe_load_high
        × HoldsCount (2 ^ 63) 1_000_000 ms cfg.forward_timeout after.forward_timeout
  unfolding apply_settings
  apply_settings-numbers env cfg low high ms g_low g_high g_ms =
      let same = before_numbers-keeps env cfg in
      let (at_low, at_high, at_ms) =
        numbers (env (codes "LB_PROBE_LOAD_LOW")) (env (codes "LB_PROBE_LOAD_HIGH"))
          (env (codes "LB_FORWARD_TIMEOUT_MS")) (before_numbers env cfg) low high ms g_low g_high
          g_ms in
      (
        HoldsCount-same (2 ^ 31) 1 low (ap (λ (n : ℤ × ℤ × ℤ). n.0) same) refl at_low,
        HoldsCount-same (2 ^ 31) 1 high (ap (λ (n : ℤ × ℤ × ℤ). n.1) same) refl at_high,
        HoldsCount-same (2 ^ 63) 1_000_000 ms (ap (λ (n : ℤ × ℤ × ℤ). n.2) same) refl at_ms,
      )
