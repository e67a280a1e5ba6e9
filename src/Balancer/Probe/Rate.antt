-- ===== src/Balancer/Probe/Rate.antt =====
-- balancer.go, triggerProbes and probeServer: whom the load balancer probes and what an answer comes to.
use prequal_nc.Base.{
  ℕ, zero, suc, ◌+◌, ◌%◌, ◌^◌, ◌<◌, ◌≡◌, ◌≢◌, refl, ap, sym, ◌∙◌, inl, inr, pos, ltb_ℤ, true, false,
  some, List, [], ◌∷◌, arith, Bool-cases, length, take, length-take, get_elem?, get_elem?-some,
  get_elem?-In, All, All-take, In, In-All, IsDistinct, IsDistinct-take, min, ◌==◌, if◌then◌else◌,
}
use mathlib.Core.Option.{some-injective}
use prequal_nc.Float.{Float64}
use prequal_nc.Time.{Time}
use prequal_nc.Types.{ServerRef}
use prequal_nc.Balancer.{LoadBalancer}
use prequal_nc.Balancer.Probe.{targets_of, trigger_probes}

get_elem?-injective :
    (xs : List ℕ) (i j s : ℕ)
    → IsDistinct xs
    → get_elem? xs i ≡ some s
    → get_elem? xs j ≡ some s
    → i ≡ j
get_elem?-injective [] i j s d e f = cc
get_elem?-injective (x ∷ xs) zero zero s d e f = refl
get_elem?-injective (x ∷ xs) zero (suc j) s d e f =
    absurd (In-All (λ y. x ≢ y) s xs d.0 (get_elem?-In xs j s f) (some-injective _ _ e))
get_elem?-injective (x ∷ xs) (suc i) zero s d e f =
    absurd (In-All (λ y. x ≢ y) s xs d.0 (get_elem?-In xs i s e) (some-injective _ _ f))
get_elem?-injective (x ∷ xs) (suc i) (suc j) s d e f = ap suc (get_elem?-injective xs i j s d.1 e f)

-- The elements at the indices of a list.
pub data IsPicked (servers : List ServerRef) : List ℕ → List ServerRef → Type 0 where
  done : IsPicked servers [] []
  more :
      {perm : List ℕ} {targets : List ServerRef} (i : ℕ) (s : ServerRef)
      → get_elem? servers i ≡ some s
      → IsPicked servers perm targets
      → IsPicked servers (i ∷ perm) (s ∷ targets)

module _ (servers : List ServerRef) where
  IsPicked-length :
      {perm : List ℕ} {targets : List ServerRef}
      → IsPicked servers perm targets
      → length targets ≡ length perm
  IsPicked-length done = refl
  IsPicked-length (more i s found p) = ap suc (IsPicked-length p)

  IsPicked-In :
      {perm : List ℕ} {targets : List ServerRef}
      → IsPicked servers perm targets
      → All (λ s. In s servers) targets
  IsPicked-In done = tt
  IsPicked-In (more i s found p) = (get_elem?-In servers i s found, IsPicked-In p)

  IsPicked-fresh :
      {perm : List ℕ} {targets : List ServerRef} (i : ℕ) (s : ServerRef)
      → IsDistinct servers
      → get_elem? servers i ≡ some s
      → All (λ j. i ≢ j) perm
      → IsPicked servers perm targets
      → All (λ t. s ≢ t) targets
  IsPicked-fresh i s d e h done = tt
  IsPicked-fresh i s d e h (more j t found p) = (
    λ q. h.0 (get_elem?-injective servers i j s d e (found ∙ ap some (sym q))),
    IsPicked-fresh i s d e h.1 p,
  )

  IsPicked-IsDistinct :
      {perm : List ℕ} {targets : List ServerRef}
      → IsDistinct servers
      → IsDistinct perm
      → IsPicked servers perm targets
      → IsDistinct targets
  IsPicked-IsDistinct d h done = tt
  IsPicked-IsDistinct d h (more i s found p) =
      (IsPicked-fresh i s d found h.0 p, IsPicked-IsDistinct d h.1 p)

-- What rand.Perm(n) is documented to return: a permutation of the numbers below n.
pub record IsPermutation (n : ℕ) (perm : List ℕ) : Type 0 where
  pub size : length perm ≡ n
  pub below : All (λ i. i < n) perm
  pub distinct : IsDistinct perm

module _ (fl : Float64) where
  open fl use {F}

  targets_of-IsPicked :
      (servers : List ServerRef) (perm : List ℕ)
      → All (λ i. i < length servers) perm
      → (targets : List ServerRef) × (targets_of fl perm servers ≡ some targets)
        × IsPicked servers perm targets
  unfolding targets_of
  targets_of-IsPicked servers [] h = ([], refl, done)
  targets_of-IsPicked servers (i ∷ perm) h =
      let (s, found) = get_elem?-some servers i h.0 in
      let (targets, e, picked) = targets_of-IsPicked servers perm h.1 in
      (s ∷ targets, rw (targets_of, found, e) refl, more i s found picked)

  -- What triggerProbes returns for a count that is not negative.
  pub record Triggered (perm : List ℕ) (now : Time) (count : ℕ) (lb : LoadBalancer F) : Type 0 where
    pub after : LoadBalancer F
    pub targets : List ServerRef
    pub returns : trigger_probes fl perm now (pos count) lb ≡ some (after, targets)
    pub size : length targets ≡ min count (length lb.servers)
    pub known : All (λ s. In s lb.servers) targets
    pub distinct : IsDistinct lb.servers → IsDistinct targets
    pub counted : after.probe_stats.triggered ≡ (
        if length lb.servers == 0
        then lb.probe_stats.triggered
        else (lb.probe_stats.triggered + length targets) % 2 ^ 64)
    pub stamped :
        after.last_probe_nanos ≡ (if length lb.servers == 0 then lb.last_probe_nanos else now)

  no_targets :
      (perm : List ℕ) (now : Time) (count : ℕ) (lb : LoadBalancer F)
      → (length lb.servers == 0) ≡ true
      → Triggered perm now count lb
  unfolding trigger_probes
  no_targets perm now count lb e = record {
    after = lb;
    targets = [];
    returns = rw e refl;
    size = ground arith;
    known = tt;
    distinct = λ d. tt;
    counted = rw e refl;
    stamped = rw e refl;
  }

  some_targets :
      (perm : List ℕ) (now : Time) (count : ℕ) (lb : LoadBalancer F)
      → IsPermutation (length lb.servers) perm
      → (length lb.servers == 0) ≡ false
      → Triggered perm now count lb
  unfolding trigger_probes
  some_targets perm now count lb p e =
      let n = length lb.servers in
      let k = min count n in
      let cut : (if ltb_ℤ (pos n) (pos count) then pos n else pos count) ≡ pos k = ground arith in
      let nonneg : ltb_ℤ (pos k) (pos 0) ≡ false = ground arith in
      let (targets, found, picked) =
        targets_of-IsPicked lb.servers (take k perm) (All-take (λ i. i < n) k perm p.below) in
      record {
        after = record lb {
          last_probe_nanos = now;
          probe_stats = record lb.probe_stats {
            triggered = (lb.probe_stats.triggered + length targets) % 2 ^ 64;
          };
        };
        targets = targets;
        returns = rw (cut, e, nonneg, found, trigger_probes) refl;
        size = IsPicked-length lb.servers picked ∙ length-take k perm ∙ omega (arith, p.size);
        known = IsPicked-In lb.servers picked;
        distinct = λ d. IsPicked-IsDistinct lb.servers d (IsDistinct-take k perm p.distinct) picked;
        counted = rw e refl;
        stamped = rw e refl;
      }

  -- With a permutation from rand.Perm and a count that is not negative, triggerProbes returns: it probes as
  -- many servers as asked for, or all if there are fewer, each registered and none twice if none is
  -- registered twice, counts them, modulo 2^64, and notes the time, unless there is no server.
  pub trigger_probes-Triggered :
      (perm : List ℕ) (now : Time) (count : ℕ) (lb : LoadBalancer F)
      → IsPermutation (length lb.servers) perm
      → Triggered perm now count lb
  trigger_probes-Triggered perm now count lb p = elim (Bool-cases (length lb.servers == 0)) [
    | inl e ↦ no_targets perm now count lb e
    | inr e ↦ some_targets perm now count lb p e
  ]
