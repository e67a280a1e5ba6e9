-- ===== src/Main/Backends.antt =====
-- cmd/server/main.go, parseBackends: the addresses that it returns, and that it reads back a list of them.
use prequal_nc.Base.{◌≡◌, ◌≢◌, refl, inl, inr, false, List, [], ◌∷◌, All, Bool-cases}
use prequal_nc.Text.{Text, is_empty, trim_space, split_on}
use prequal_nc.Text.Trim.{trim_space_idem, All-trim_space}
use prequal_nc.Text.Split.{Lacks, join, split_on-Lacks, split_on-join}
use prequal_nc.Main.{keep_backends, parse_backends}

-- An address that is not empty, has no white space around it and no comma in it.
pub record IsBackend (addr : Text) : Type 0 where
  pub is_some : is_empty addr ≡ false
  pub trimmed : trim_space addr ≡ addr
  pub one : Lacks b',' addr

keep_backends-All :
    (parts : List Text) → All (Lacks b',') parts → All IsBackend (keep_backends parts)
unfolding keep_backends
keep_backends-All [] h = tt
keep_backends-All (p ∷ parts) h = elim (Bool-cases (is_empty (trim_space p))) [
  | inl e ↦ rw e (keep_backends-All parts h.1)
  | inr e ↦ rw e (
    record { is_some = e; trimmed = trim_space_idem p; one = All-trim_space (λ c. c ≢ b',') p h.0 },
    keep_backends-All parts h.1,
  )
]

-- Whatever BACKEND_SERVERS is, each address of the list is not empty, has no white space around it and no
-- comma in it.
pub parse_backends-All : (raw : Text) → All IsBackend (parse_backends raw)
unfolding parse_backends
parse_backends-All raw = elim (Bool-cases (is_empty raw)) [
  | inl e ↦ rw e tt
  | inr e ↦ rw e (keep_backends-All (split_on b',' raw) (split_on-Lacks b',' raw))
]

keep_backends-id : (addrs : List Text) → All IsBackend addrs → keep_backends addrs ≡ addrs
unfolding keep_backends
keep_backends-id [] h = refl
keep_backends-id (a ∷ addrs) h = rw (h.0.trimmed, h.0.is_some, keep_backends-id addrs h.1) refl

All-one : (addrs : List Text) → All IsBackend addrs → All (Lacks b',') addrs
All-one [] h = tt
All-one (a ∷ addrs) h = (h.0.one, All-one addrs h.1)

join-is_some :
    (a : Text) (addrs : List Text) → IsBackend a → is_empty (join b',' (a ∷ addrs)) ≡ false
join-is_some [] addrs h = absurd (cc (h.is_some))
join-is_some (c ∷ a) [] h = refl
join-is_some (c ∷ a) (b ∷ addrs) h = refl

-- A list of addresses that are not empty, have no white space around them and no comma in them is read
-- back from its addresses with commas between them.
pub parse_backends-join :
    (addrs : List Text) → All IsBackend addrs → parse_backends (join b',' addrs) ≡ addrs
unfolding parse_backends
parse_backends-join [] h = refl
parse_backends-join (a ∷ addrs) h =
    rw (join-is_some a addrs h.0, split_on-join b',' a addrs (All-one (a ∷ addrs) h))
      (keep_backends-id (a ∷ addrs) h)
