-- ===== src/Main/Start.antt =====
-- cmd/server/main.go, `main`: when it gives up, and the load balancer that it sets up otherwise.
use prequal_nc.Base.{
  ◌<◌, ◌≡◌, refl, ap, inl, inr, ◌⊎◌, pos, true, Option, some, none, List, [], ◌∷◌, arith, length,
}
use prequal_nc.Float.{Float64, FloatLaws}
use prequal_nc.Time.{Duration}
use prequal_nc.Text.{Text, codes}
use prequal_nc.Types.{
  ServerRef, Server, Config, default_config, Algorithm, prequal, round_robin, other_algorithm,
  ProbeMode, per_query,
}
use prequal_nc.Pool.{Heap}
use prequal_nc.Balancer.{LoadBalancer, new_load_balancer}
use prequal_nc.Balancer.Accept.{IsReuseBound}
use prequal_nc.Balancer.History.{LbReached}
use prequal_nc.Main.{
  Environment, Outcome, exits, goes, invalid_algorithm, invalid_probe_mode, no_backend_servers,
  getenv, parse_backends, algorithm_of, algorithm_name, probe_mode_of, apply_settings, apply_mode,
  apply_interval, with_mode, then_interval, known_algorithm, configure, configure_with, register,
  with_backends, with_config, start,
}
use prequal_nc.Main.Settings.{
  IsSettled, apply_settings-IsSettled, apply_interval-IsSettled, mode-IsSettled, default-IsSettled,
}
use prequal_nc.Main.Fleet.{IsFleet, register-IsFleet, register-LbReached, register-config}

abbrev IsKnown : Algorithm → Type 0
IsKnown a = (a ≡ prequal) ⊎ (a ≡ round_robin)

-- The mode that LB_PROBE_MODE asks for.
abbrev asked_mode : Option Text → Option ProbeMode
asked_mode none = some per_query
asked_mode (some v) = probe_mode_of v

module _ (fl : Float64) (laws : FloatLaws fl) (parse_float : Text → Option fl.F)
    (parse_duration : Text → Option Duration) where
  open fl use {F, of_int, flt}

  -- The defaults with the two choices.
  abbrev base_config : Algorithm → ProbeMode → Config F
  base_config a m = record (default_config fl) { algorithm = a; probe_mode = m }

  -- How `main` can go on.
  pub data Started (servers : ServerRef → Server) (entries : Heap) (env : Environment) (flag : Text)
      : Outcome (LoadBalancer F) → Type 0 where
    unknown_algorithm :
        (s : Text)
        → algorithm_of (algorithm_name env flag) ≡ other_algorithm s
        → Started servers entries env flag (exits (invalid_algorithm s))
    unknown_mode :
        IsKnown (algorithm_of (algorithm_name env flag))
        → asked_mode (env (codes "LB_PROBE_MODE")) ≡ none
        → Started servers entries env flag (exits invalid_probe_mode)
    nothing_to_serve :
        (m : ProbeMode)
        → IsKnown (algorithm_of (algorithm_name env flag))
        → asked_mode (env (codes "LB_PROBE_MODE")) ≡ some m
        → parse_backends (getenv (env (codes "BACKEND_SERVERS"))) ≡ []
        → Started servers entries env flag (exits no_backend_servers)
    serving :
        (m : ProbeMode) (lb : LoadBalancer F)
        → IsKnown (algorithm_of (algorithm_name env flag))
        → asked_mode (env (codes "LB_PROBE_MODE")) ≡ some m
        → IsSettled fl parse_float parse_duration
            (base_config (algorithm_of (algorithm_name env flag)) m)
            lb.config
        → IsFleet fl (parse_backends (getenv (env (codes "BACKEND_SERVERS")))) lb
        → 0 < length lb.servers
        → LbReached fl laws lb
        → Started servers entries env flag (goes lb)

  apply_mode-IsSettled :
      (a : Algorithm) (o : Option Text) (cfg : Config F)
      → IsSettled fl parse_float parse_duration (base_config a per_query) cfg
      → ((asked_mode o ≡ none)
          × (apply_mode fl parse_float parse_duration o cfg ≡ exits invalid_probe_mode))
        ⊎ ((m : ProbeMode) × (after : Config F) × (asked_mode o ≡ some m)
            × (apply_mode fl parse_float parse_duration o cfg ≡ goes after)
            × IsSettled fl parse_float parse_duration (base_config a m) after)
  unfolding apply_mode
  apply_mode-IsSettled a none cfg h = inr (per_query, cfg, refl, refl, h)
  apply_mode-IsSettled a (some v) cfg h = by_mode (probe_mode_of v)
    where
      by_mode :
          (o : Option ProbeMode)
          → ((o ≡ none)
              × (with_mode fl parse_float parse_duration o cfg ≡ exits invalid_probe_mode))
            ⊎ ((m : ProbeMode) × (after : Config F) × (o ≡ some m)
                × (with_mode fl parse_float parse_duration o cfg ≡ goes after)
                × IsSettled fl parse_float parse_duration (base_config a m) after)
      by_mode none = inl (refl, refl)
      by_mode (some m) = inr (
        m,
        _,
        refl,
        refl,
        mode-IsSettled fl parse_float parse_duration m (base_config a per_query) cfg h,
      )

  module _ (three : flt (of_int (pos 0)) (of_int (pos 3)) ≡ true)
      (one : flt (of_int (pos 0)) (of_int (pos 1)) ≡ true) where
    known_algorithm-IsSettled :
        (env : Environment) (a : Algorithm)
        → ((asked_mode (env (codes "LB_PROBE_MODE")) ≡ none)
            × (known_algorithm fl parse_float parse_duration env a ≡ exits invalid_probe_mode))
          ⊎ ((m : ProbeMode) × (cfg : Config F) × (asked_mode (env (codes "LB_PROBE_MODE"))
                ≡ some m)
              × (known_algorithm fl parse_float parse_duration env a ≡ goes cfg)
              × IsSettled fl parse_float parse_duration (base_config a m) cfg)
    unfolding default_config
    known_algorithm-IsSettled env a =
        let base = base_config a per_query in
        let settled =
          apply_settings-IsSettled fl parse_float parse_duration base env base
            (default-IsSettled fl parse_float parse_duration a three one) in
        elim (apply_mode-IsSettled a (env (codes "LB_PROBE_MODE"))
          (apply_settings fl parse_float parse_duration env base) settled) [
            | inl (e, gives_up) ↦
                inl (e, ap (then_interval fl parse_float parse_duration env) gives_up)
            | inr (m, cfg, e, goes_on, h) ↦ inr (
              m,
              apply_interval fl parse_float parse_duration env cfg,
              e,
              ap (then_interval fl parse_float parse_duration env) goes_on,
              apply_interval-IsSettled fl parse_float parse_duration (base_config a m) env cfg h,
            )
          ]

    settled-IsReuseBound :
        (a : Algorithm) (m : ProbeMode) (cfg : Config F)
        → IsSettled fl parse_float parse_duration (base_config a m) cfg
        → IsReuseBound cfg
    unfolding IsSettled default_config
    settled-IsReuseBound a m cfg h = record {
      most = 3;
      is_most = ap (λ (c : Config F). c.max_reuse_pool) h.0;
      fits = omega arith;
    }

    module _ (servers : ServerRef → Server) (entries : Heap) (env : Environment) (flag : Text) where
      abbrev raw : Text
      raw = getenv (env (codes "BACKEND_SERVERS"))

      configured :
          (a : Algorithm) (m : ProbeMode) (cfg : Config F) (backends : List Text)
          → IsKnown a
          → algorithm_of (algorithm_name env flag) ≡ a
          → asked_mode (env (codes "LB_PROBE_MODE")) ≡ some m
          → IsSettled fl parse_float parse_duration (base_config a m) cfg
          → parse_backends raw ≡ backends
          → Started servers entries env flag (
              with_backends fl parse_float parse_duration backends
                (new_load_balancer fl servers entries cfg).0)
      unfolding new_load_balancer
      configured a m cfg [] k e e_mode h none_given = nothing_to_serve m (rw e k) e_mode none_given
      configured a m cfg (addr ∷ backends) k e e_mode h given =
          let lb = (new_load_balancer fl servers entries cfg).0 in
          let fleet = register-IsFleet fl (addr ∷ backends) lb refl in
          let config = register-config fl laws 0 (addr ∷ backends) lb in
          serving m (register fl 0 (addr ∷ backends) lb) (rw e k) e_mode (rw (e, config) h)
            (rw given fleet) (rw fleet.servers (omega arith))
            (register-LbReached fl laws servers entries cfg (addr ∷ backends)
              (settled-IsReuseBound a m cfg h))

      known-Started :
          (a : Algorithm)
          → IsKnown a
          → algorithm_of (algorithm_name env flag) ≡ a
          → Started servers entries env flag (
              with_config fl parse_float parse_duration servers entries raw
                (known_algorithm fl parse_float parse_duration env a))
      known-Started a k e = elim (known_algorithm-IsSettled env a) [
        | inl (e_mode, gives_up) ↦ rw gives_up (unknown_mode (rw e k) e_mode)
        | inr (m, cfg, e_mode, goes_on, h) ↦
            rw goes_on (configured a m cfg (parse_backends raw) k e e_mode h refl)
      ]

      -- Under the laws of float64, where 1 and 3 are positive, the program gives up in three cases, in this
      -- order: the algorithm, from LB_ALGORITHM or else the flag, is neither of the two; LB_PROBE_MODE is set
      -- and no mode; BACKEND_SERVERS has no address. Otherwise it serves with a load balancer that some history
      -- of calls brings about, whose servers are the addresses in their order, at least one, under the ids
      -- server-0, server-1 and so on, and whose configuration has the algorithm, the mode, positive rates, a
      -- positive probe interval, and the defaults in the fields that no variable sets.
      pub start-Started :
          Started servers entries env flag
            (start fl parse_float parse_duration servers entries env flag)
      unfolding start configure
      start-Started = by_algorithm (algorithm_of (algorithm_name env flag)) refl
        where
          by_algorithm :
              (a : Algorithm)
              → algorithm_of (algorithm_name env flag) ≡ a
              → Started servers entries env flag (
                  with_config fl parse_float parse_duration servers entries raw
                    (configure_with fl parse_float parse_duration env a))
          by_algorithm prequal e = known-Started prequal (inl refl) e
          by_algorithm round_robin e = known-Started round_robin (inr refl) e
          by_algorithm (other_algorithm s) e = unknown_algorithm s e
