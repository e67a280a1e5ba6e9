-- ===== src/Balancer/Select/RoundRobin.antt =====
-- balancer.go, selectServerRR: calls in a row go round the servers.
use prequal_nc.Base.{
  ℕ, zero, suc, ◌+◌, ◌-◌, ◌%◌, ◌^◌, ◌<◌, ◌≡◌, refl, ap, Option, none, some, List, [], ◌∷◌, arith,
  length, get_elem?, get_elem?-some, ◌==◌, false,
}
use prequal_nc.Float.{Float64}
use prequal_nc.Types.{ServerRef}
use prequal_nc.Balancer.{LoadBalancer, inc_uint32}
use prequal_nc.Balancer.Select.{select_server_rr}

module _ (fl : Float64) where
  open fl use {F}

  -- `n` calls in a row, by whichever goroutines; `none` is a panic.
  pub rr_run : ℕ → LoadBalancer F → Option (LoadBalancer F × List (Option ServerRef))
  rr_run zero lb = some (lb, [])
  rr_run (suc n) lb = elim (select_server_rr fl lb) [
    | none ↦ none
    | some (lb', s) ↦ elim (rr_run n lb') [ none ↦ none | some (lb'', l) ↦ some (lb'', s ∷ l) ]
  ]

  -- The servers from index `i` on, round and round.
  pub from_index : ℕ → ℕ → List ServerRef → List (Option ServerRef)
  from_index zero i servers = []
  from_index (suc n) i servers =
      get_elem? servers (i % length servers) ∷ from_index n (i + 1) servers

  rr_step :
      (lb : LoadBalancer F)
      → 0 < length lb.servers
      → lb.rr_index < 2 ^ 32
      → (s : ServerRef) × (get_elem? lb.servers (lb.rr_index % length lb.servers) ≡ some s)
        × (select_server_rr fl lb ≡ some (record lb { rr_index = inc_uint32 lb.rr_index }, some s))
  unfolding select_server_rr
  rr_step lb h k =
      let i = lb.rr_index % length lb.servers in
      let within : i < length lb.servers = grind arith in
      let (s, found) = get_elem?-some lb.servers i within in
      let index : (inc_uint32 lb.rr_index + 2 ^ 32 - 1) % 2 ^ 32 ≡ lb.rr_index = omega arith in
      let many : (length lb.servers == 0) ≡ false = ground arith in
      (s, found, rw (many, index, found, select_server_rr) refl)

  -- With at least one server, and as long as the 32-bit counter does not wrap: n calls of
  -- selectServerRR in a row return with no panic, each the next server in the order of registration,
  -- from the counter modulo the number of servers on, and the counter moves by n.
  pub rr_run-from_index :
      (n : ℕ) (lb : LoadBalancer F)
      → 0 < length lb.servers
      → lb.rr_index + n < 2 ^ 32
      → rr_run n lb
        ≡ some (record lb { rr_index = lb.rr_index + n }, from_index n lb.rr_index lb.servers)
  unfolding rr_run from_index
  rr_run-from_index zero lb h k =
      let here : lb.rr_index ≡ lb.rr_index + 0 = omega arith in
      ap (λ i. some (record lb { rr_index = i }, [])) here
  rr_run-from_index (suc n) lb h k =
      let (s, found, run) = rr_step lb h (omega arith) in
      let lb' : LoadBalancer F = record lb { rr_index = inc_uint32 lb.rr_index } in
      let ih = rr_run-from_index n lb' h (omega arith) in
      let next : inc_uint32 lb.rr_index ≡ lb.rr_index + 1 = omega arith in
      let last : lb.rr_index + 1 + n ≡ lb.rr_index + suc n = omega arith in
      rw (rr_run, run, ih, from_index, found, next, last) refl
