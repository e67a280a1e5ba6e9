-- ===== src/Main/Settings.antt =====
-- cmd/server/main.go: what the environment can make of the default configuration.
use prequal_nc.Base.{
  ℕ, ◌^◌, ◌<◌, ◌≡◌, refl, ap, pos, ◌≤ℤ◌, ◌*ℤ◌, wrap32, wrap64, true, false, Option, some, none, [],
  ◌∷◌, arith, All,
}
use prequal_nc.Float.{Float64}
use prequal_nc.Time.{Duration, millisecond}
use prequal_nc.Text.{Text, codes, is_space, is_digit, format_int, atoi}
use prequal_nc.Text.Trim.{trim_space-id}
use prequal_nc.Text.Decimal.{AllDigits, format_int-AllDigits, parse_int-format_int}
use prequal_nc.Types.{Config, default_config, Algorithm, ProbeMode}
use prequal_nc.Main.{
  Environment, set_from, read_count, read_rate, read_interval, apply_settings, apply_interval,
  with_metrics, with_pick_log, with_r_probe, with_adaptive, with_r_probe_min, with_load_low,
  with_load_high, with_forward_timeout, with_interval,
}

no_space : (c : ℕ) → is_digit c ≡ true → is_space c ≡ false
unfolding is_space
no_space c h = ground arith

digits-trimmed : (s : Text) → AllDigits s → All (λ c. is_space c ≡ false) s
digits-trimmed [] h = tt
digits-trimmed (c ∷ s) h = (no_space c h.0, digits-trimmed s h.1)

pub read_count-format_int : (n : ℕ) → n < 2 ^ 63 → read_count (format_int n) ≡ some (pos n)
unfolding read_count
read_count-format_int n h =
    let number : atoi (format_int n) ≡ some (pos n) =
      parse_int-format_int (2 ^ 63) n (omega arith) h in
    rw
      (
        trim_space-id (format_int n) (digits-trimmed (format_int n) (format_int-AllDigits n)),
        number,
      )
      (ground arith)

-- A setting keeps what each of its values keeps.
pub set_from-keeps :
    {A B : Type 0} (P : B → Type 0) (o : Option A) (f : A → B → B) (cfg : B)
    → ((v : A) (cfg : B) → o ≡ some v → P cfg → P (f v cfg))
    → P cfg
    → P (set_from o f cfg)
set_from-keeps P none f cfg step h = h
set_from-keeps P (some v) f cfg step h = step v cfg refl h

-- What environment variables never change: the configuration with each of their fields reset.
abbrev pub fixed_part : {F : Type 0} → Config F → Config F → Config F
fixed_part base cfg = record cfg {
  enable_metrics = base.enable_metrics;
  enable_pick_log = base.enable_pick_log;
  r_probe = base.r_probe;
  adaptive_probe = base.adaptive_probe;
  r_probe_min = base.r_probe_min;
  probe_load_low = base.probe_load_low;
  probe_load_high = base.probe_load_high;
  forward_timeout = base.forward_timeout;
  probe_interval = base.probe_interval;
}

module _ (fl : Float64) (parse_float : Text → Option fl.F)
    (parse_duration : Text → Option Duration) where
  open fl use {F, of_int, flt}

  -- The rates and the interval between probes are positive, and the fields that no variable of a free form
  -- sets are those of `base`.
  unfoldable pub IsSettled : Config F → Config F → Type 0
  IsSettled base cfg =
      (fixed_part base cfg ≡ base)
      × (flt (of_int (pos 0)) cfg.r_probe ≡ true)
      × (flt (of_int (pos 0)) cfg.r_probe_min ≡ true)
      × (pos 1 ≤ℤ cfg.probe_interval)

  read_rate-positive :
      (v : Text) (f : F)
      → read_rate fl parse_float parse_duration v ≡ some f
      → flt (of_int (pos 0)) f ≡ true
  unfolding read_rate
  read_rate-positive v f e = grind arith

  read_interval-positive :
      (v : Text) (d : Duration)
      → read_interval fl parse_float parse_duration v ≡ some d
      → pos 1 ≤ℤ d
  unfolding read_interval
  read_interval-positive v d e = grind arith

  module _ (base : Config F) where
    abbrev P : Config F → Type 0
    P = IsSettled base

    metrics-stays :
        (v : Text) (cfg : Config F) → P cfg → P (with_metrics fl parse_float parse_duration v cfg)
    unfolding IsSettled
    metrics-stays v cfg h = h

    pick_log-stays :
        (v : Text) (cfg : Config F) → P cfg → P (with_pick_log fl parse_float parse_duration v cfg)
    unfolding IsSettled
    pick_log-stays v cfg h = h

    adaptive-stays :
        (v : Text) (cfg : Config F) → P cfg → P (with_adaptive fl parse_float parse_duration v cfg)
    unfolding IsSettled
    adaptive-stays v cfg h = h

    r_probe-stays :
        (v : Text) (cfg : Config F) → P cfg → P (with_r_probe fl parse_float parse_duration v cfg)
    unfolding IsSettled
    r_probe-stays v cfg h =
        set_from-keeps P (read_rate fl parse_float parse_duration v)
          (λ f c. record c { r_probe = f }) cfg
          (λ f c e k. (k.0, read_rate-positive v f e, k.2, k.3)) h

    r_probe_min-stays :
        (v : Text) (cfg : Config F)
        → P cfg
        → P (with_r_probe_min fl parse_float parse_duration v cfg)
    unfolding IsSettled
    r_probe_min-stays v cfg h =
        set_from-keeps P (read_rate fl parse_float parse_duration v)
          (λ f c. record c { r_probe_min = f }) cfg
          (λ f c e k. (k.0, k.1, read_rate-positive v f e, k.3)) h

    interval-stays :
        (v : Text) (cfg : Config F) → P cfg → P (with_interval fl parse_float parse_duration v cfg)
    unfolding IsSettled
    interval-stays v cfg h =
        set_from-keeps P (read_interval fl parse_float parse_duration v)
          (λ d c. record c { probe_interval = d }) cfg
          (λ d c e k. (k.0, k.1, k.2, read_interval-positive v d e)) h

    load_low-stays :
        (v : Text) (cfg : Config F) → P cfg → P (with_load_low fl parse_float parse_duration v cfg)
    unfolding IsSettled
    load_low-stays v cfg h =
        set_from-keeps P (read_count v) (λ n c. record c { probe_load_low = wrap32 n }) cfg
          (λ n c e k. k) h

    load_high-stays :
        (v : Text) (cfg : Config F) → P cfg → P (with_load_high fl parse_float parse_duration v cfg)
    unfolding IsSettled
    load_high-stays v cfg h =
        set_from-keeps P (read_count v) (λ n c. record c { probe_load_high = wrap32 n }) cfg
          (λ n c e k. k) h

    timeout-stays :
        (v : Text) (cfg : Config F)
        → P cfg
        → P (with_forward_timeout fl parse_float parse_duration v cfg)
    unfolding IsSettled
    timeout-stays v cfg h =
        set_from-keeps P (read_count v)
          (λ ms c. record c { forward_timeout = wrap64 (ms *ℤ millisecond) }) cfg (λ ms c e k. k) h

    -- A variable whose values all keep the property.
    variable :
        (o : Option Text) (f : Text → Config F → Config F) (cfg : Config F)
        → ((v : Text) (cfg : Config F) → P cfg → P (f v cfg))
        → P cfg
        → P (set_from o f cfg)
    variable o f cfg step h = set_from-keeps P o f cfg (λ v c e k. step v c k) h

    pub apply_settings-IsSettled :
        (env : Environment) (cfg : Config F)
        → P cfg
        → P (apply_settings fl parse_float parse_duration env cfg)
    unfolding apply_settings
    apply_settings-IsSettled env cfg h =
        variable (env (codes "LB_FORWARD_TIMEOUT_MS"))
          (with_forward_timeout fl parse_float parse_duration) _ timeout-stays
          (variable (env (codes "LB_PROBE_LOAD_HIGH"))
            (with_load_high fl parse_float parse_duration) _ load_high-stays
            (variable (env (codes "LB_PROBE_LOAD_LOW"))
              (with_load_low fl parse_float parse_duration) _ load_low-stays
              (variable (env (codes "LB_RPROBE_MIN"))
                (with_r_probe_min fl parse_float parse_duration) _ r_probe_min-stays
                (variable (env (codes "LB_RPROBE_ADAPTIVE"))
                  (with_adaptive fl parse_float parse_duration) _ adaptive-stays
                  (variable (env (codes "LB_RPROBE")) (with_r_probe fl parse_float parse_duration) _
                    r_probe-stays
                    (variable (env (codes "LB_PICK_LOG"))
                      (with_pick_log fl parse_float parse_duration) _ pick_log-stays
                      (variable (env (codes "LB_METRICS"))
                        (with_metrics fl parse_float parse_duration) cfg metrics-stays h)))))))

    pub apply_interval-IsSettled :
        (env : Environment) (cfg : Config F)
        → P cfg
        → P (apply_interval fl parse_float parse_duration env cfg)
    unfolding apply_interval
    apply_interval-IsSettled env cfg h =
        variable (env (codes "LB_PROBE_INTERVAL_MS")) (with_interval fl parse_float parse_duration)
          cfg interval-stays h

  -- The choice of a mode.
  pub mode-IsSettled :
      (m : ProbeMode) (base cfg : Config F)
      → IsSettled base cfg
      → IsSettled (record base { probe_mode = m }) (record cfg { probe_mode = m })
  unfolding IsSettled
  mode-IsSettled m base cfg h =
      (ap (λ (c : Config F). record c { probe_mode = m }) h.0, h.1, h.2, h.3)

  -- The default configuration, under any algorithm, where the two default rates are positive.
  pub default-IsSettled :
      (a : Algorithm)
      → flt (of_int (pos 0)) (of_int (pos 3)) ≡ true
      → flt (of_int (pos 0)) (of_int (pos 1)) ≡ true
      → let base = record (default_config fl) { algorithm = a } in IsSettled base base
  unfolding IsSettled default_config
  default-IsSettled a three one = (refl, three, one, omega arith)
