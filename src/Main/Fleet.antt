-- ===== src/Main/Fleet.antt =====
-- cmd/server/main.go, the loop over the backends: the servers that the load balancer gets.
use mathlib.Core.Option.{some-injective}
use mathlib.Core.List.{append_assoc, append-nil}
use prequal_nc.Base.{
  ℕ, zero, suc, ◌+◌, ◌^◌, ◌<◌, ◌≤◌, ◌≡◌, ◌≢◌, refl, ap, subst, sym, ◌∙◌, true, false, some, List,
  [], ◌∷◌, ◌++◌, arith, length, get_elem?, get_elem?-some, drop, ◌==◌,
}
use prequal_nc.Float.{Float64, FloatLaws}
use prequal_nc.Text.{Text, format_int, read_digits}
use prequal_nc.Text.Decimal.{read_digits-format_int}
use prequal_nc.Types.{ServerRef, Server, Config}
use prequal_nc.Balancer.{LoadBalancer, new_load_balancer, add_server}
use prequal_nc.Pool.{Heap}
use prequal_nc.Balancer.Accept.{IsReuseBound}
use prequal_nc.Balancer.History.{LbReached, started, added}
use prequal_nc.Main.{server_name, new_server, alloc, register}

-- Numbers in a row.
abbrev pub row : ℕ → ℕ → List ℕ
row i zero = []
row i (suc n) = i ∷ row (suc i) n

module _ (fl : Float64) where
  open fl use {F}

  -- The servers of a load balancer are the addresses in their order, each under its number.
  pub record IsFleet (backends : List Text) (lb : LoadBalancer F) : Type 0 where
    pub servers : lb.servers ≡ row 0 (length backends)
    pub named :
        (k : ℕ) (addr : Text)
        → get_elem? backends k ≡ some addr
        → lb.server_at k ≡ new_server k addr

  register-servers :
      (i : ℕ) (backends : List Text) (lb : LoadBalancer F)
      → (register fl i backends lb).servers ≡ lb.servers ++ row i (length backends)
  unfolding register add_server
  register-servers i [] lb = sym (append-nil lb.servers)
  register-servers i (addr ∷ backends) lb =
      register-servers (suc i) backends _
      ∙ append_assoc lb.servers (i ∷ []) (row (suc i) (length backends))

  -- Later rounds leave the servers of the earlier ones alone.
  register-earlier :
      (i k : ℕ) (backends : List Text) (lb : LoadBalancer F)
      → k < i
      → (register fl i backends lb).server_at k ≡ lb.server_at k
  unfolding register add_server
  register-earlier i k [] lb h = refl
  register-earlier i k (addr ∷ backends) lb h =
      let other : (k == i) ≡ false = ground arith in
      register-earlier (suc i) k backends _ (omega arith) ∙ rw other refl

  register-at :
      (i k : ℕ) (backends : List Text) (lb : LoadBalancer F) (addr : Text)
      → get_elem? backends k ≡ some addr
      → (register fl i backends lb).server_at (i + k) ≡ new_server (i + k) addr
  unfolding register add_server
  register-at i k [] lb addr e = absurd (cc)
  register-at i zero (a ∷ backends) lb addr e =
      ap (register fl i (a ∷ backends) lb).server_at (omega arith)
      ∙ register-earlier (suc i) i backends _ (omega arith)
      ∙ first i a
      ∙ ap (λ b. new_server i b) (some-injective _ _ e)
      ∙ ap (λ j. new_server j addr) (omega arith)
    where
      first : (i : ℕ) (a : Text) → alloc i (new_server i a) lb.server_at i ≡ new_server i a
      first i a = let same : (i == i) ≡ true = ground arith in rw same refl
  register-at i (suc k) (a ∷ backends) lb addr e =
      let j : i + suc k ≡ suc i + k = omega arith in
      ap (register fl i (a ∷ backends) lb).server_at j
      ∙ register-at (suc i) k backends _ addr e
      ∙ ap (λ j. new_server j addr) (sym j)

  pub register-IsFleet :
      (backends : List Text) (lb : LoadBalancer F)
      → lb.servers ≡ []
      → IsFleet backends (register fl 0 backends lb)
  register-IsFleet backends lb e = record {
    servers = register-servers 0 backends lb ∙ ap (λ l. l ++ row 0 (length backends)) e;
    named = λ k addr at.
        ap (register fl 0 backends lb).server_at {y = 0 + k} (omega arith)
        ∙ register-at 0 k backends lb addr at
        ∙ ap (λ j. new_server j addr) (omega arith);
  }

-- Registration is a history of AddServer on the heap in which all the servers stand.
abbrev allocated : ℕ → List Text → (ServerRef → Server) → ServerRef → Server
allocated i [] servers = servers
allocated i (addr ∷ backends) servers =
    allocated (suc i) backends (alloc i (new_server i addr) servers)

module _ (fl : Float64) (laws : FloatLaws fl) where
  open fl use {F}

  abbrev added_all : ℕ → List Text → LoadBalancer F → LoadBalancer F
  added_all i [] lb = lb
  added_all i (addr ∷ backends) lb = added_all (suc i) backends (add_server fl i lb)

  register-added_all :
      (i : ℕ) (backends : List Text) (lb : LoadBalancer F)
      → register fl i backends lb
        ≡ added_all i backends (record lb { server_at = allocated i backends lb.server_at })
  unfolding register add_server
  register-added_all i [] lb = refl
  register-added_all i (addr ∷ backends) lb = register-added_all (suc i) backends _

  added_all-LbReached :
      (i : ℕ) (backends : List Text) (lb : LoadBalancer F)
      → LbReached fl laws lb
      → LbReached fl laws (added_all i backends lb)
  added_all-LbReached i [] lb r = r
  added_all-LbReached i (addr ∷ backends) lb r =
      added_all-LbReached (suc i) backends (add_server fl i lb) (added i r)

  pub register-LbReached :
      (servers : ServerRef → Server) (entries : Heap) (cfg : Config F) (backends : List Text)
      → IsReuseBound cfg
      → LbReached fl laws (register fl 0 backends (new_load_balancer fl servers entries cfg).0)
  unfolding new_load_balancer
  register-LbReached servers entries cfg backends bound =
      subst (LbReached fl laws)
        (sym (register-added_all 0 backends (new_load_balancer fl servers entries cfg).0))
        (added_all-LbReached 0 backends
          (new_load_balancer fl (allocated 0 backends servers) entries cfg).0
          (started (allocated 0 backends servers) entries cfg bound))

  pub register-config :
      (i : ℕ) (backends : List Text) (lb : LoadBalancer F)
      → (register fl i backends lb).config ≡ lb.config
  unfolding register add_server
  register-config i [] lb = refl
  register-config i (addr ∷ backends) lb = register-config (suc i) backends _

-- The id of a server determines its number.
server_name-injective :
    (i j : ℕ) → i < 10 ^ 20 → j < 10 ^ 20 → server_name i ≡ server_name j → i ≡ j
unfolding server_name
server_name-injective i j h k e =
    let same : format_int i ≡ format_int j = ap (drop 7) e in
    some-injective _ _ (
      sym (read_digits-format_int i h)
      ∙ ap (λ s. read_digits s 0) same
      ∙ read_digits-format_int j k)

-- Where no server was there before, two of the servers that the loop registers, fewer than 10^20, have
-- different ids.
pub register-ids :
    (fl : Float64) (backends : List Text) (lb : LoadBalancer fl.F)
    → lb.servers ≡ []
    → (i j : ℕ) → i < j
    → j < length backends
    → length backends ≤ 10 ^ 20
    → let servers = (register fl 0 backends lb).server_at in (servers i).id ≢ (servers j).id
register-ids fl backends lb e i j lt h small same =
    let fleet = register-IsFleet fl backends lb e in
    let (a, at_a) = get_elem?-some backends i (omega arith) in
    let (b, at_b) = get_elem?-some backends j h in
    let id_i = ap (λ (s : Server). s.id) (fleet.named i a at_a) in
    let id_j = ap (λ (s : Server). s.id) (fleet.named j b at_b) in
    let eq = server_name-injective i j (omega arith) (omega arith) (sym id_i ∙ same ∙ id_j) in
    absurd (omega arith)
