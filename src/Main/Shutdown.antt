-- ===== src/Main/Shutdown.antt =====
-- cmd/server/main.go, the end of main: the goroutine that waits for a signal, shuts the HTTP server down and
-- stops the load balancer, beside main itself, which returns when ListenAndServe does. net/http is as its
-- documentation says: Shutdown closes the listener, which makes ListenAndServe return at once, and then waits until
-- no request is open or its context is done. The process is over when main returns.
use prequal_nc.Base.{
  ℕ, zero, suc, ◌-◌, ◌≤◌, ◌<◌, ◌≡◌, ◌≢◌, refl, ap, sym, ◌∙◌, ◌⊎◌, inl, inr, Bool, true, false,
  arith, Bool-cases,
}

-- Where the goroutine stands: at `<-sigChan`, behind it, in server.Shutdown, behind that, and behind lb.Stop.
pub data SignalAt : Type 0 where
  waiting signalled shutting_down shut_down stopped : SignalAt

-- Main is in front of ListenAndServe or binds the port in it, accepts connections, or has returned.
pub data MainAt : Type 0 where
  starting serving returned : MainAt

-- A request counts as open from the moment at which its connection is accepted. `stops` is how often lb.Stop has
-- been called: the second call would close a closed channel and panic.
pub record Process : Type 0 where
  pub signal_at : SignalAt
  pub main_at : MainAt
  pub is_listening : Bool
  pub open_requests : ℕ
  pub stops : ℕ

-- The goroutine waits at `<-sigChan`, and main goes on to ListenAndServe. A signal in front of signal.Notify ends the
-- process at once, and has no step here.
abbrev pub launched : Process
launched = record {
  signal_at = waiting;
  main_at = starting;
  is_listening = false;
  open_requests = 0;
  stops = 0;
}

abbrev pub listening : Process
listening = record {
  signal_at = waiting;
  main_at = serving;
  is_listening = true;
  open_requests = 0;
  stops = 0;
}

-- ListenAndServe gets the port, unless Shutdown has been called, or returns at once, since it does not get it or
-- since Shutdown has been called; a request comes in at an open listener, or ends; a signal arrives; Shutdown is
-- called, which closes the listener; it has waited long enough, or finds no request open; Stop is called;
-- ListenAndServe returns since the listener is closed, or by an error of its own, and then closes the listener.
pub data Advance : Process → Process → Type 0 where
  bound :
      {p : Process}
      → p.main_at ≡ starting
      → (p.signal_at ≡ waiting) ⊎ (p.signal_at ≡ signalled)
      → Advance p (record p { main_at = serving; is_listening = true })
  not_bound : {p : Process} → p.main_at ≡ starting → Advance p (record p { main_at = returned })
  request_in :
      {p : Process}
      → p.main_at ≡ serving
      → p.is_listening ≡ true
      → Advance p (record p { open_requests = suc p.open_requests })
  request_out :
      {p : Process}
      → p.main_at ≡ serving
      → 0 < p.open_requests
      → Advance p (record p { open_requests = p.open_requests - 1 })
  signal :
      {p : Process}
      → p.main_at ≢ returned
      → p.signal_at ≡ waiting
      → Advance p (record p { signal_at = signalled })
  shutdown :
      {p : Process}
      → p.main_at ≢ returned
      → p.signal_at ≡ signalled
      → Advance p (record p { signal_at = shutting_down; is_listening = false })
  drained :
      {p : Process}
      → p.main_at ≢ returned
      → p.signal_at ≡ shutting_down
      → p.open_requests ≡ 0
      → Advance p (record p { signal_at = shut_down })
  gave_up :
      {p : Process}
      → p.main_at ≢ returned
      → p.signal_at ≡ shutting_down
      → Advance p (record p { signal_at = shut_down })
  stop :
      {p : Process}
      → p.main_at ≢ returned
      → p.signal_at ≡ shut_down
      → Advance p (record p { signal_at = stopped; stops = suc p.stops })
  server_closed :
      {p : Process}
      → p.main_at ≡ serving
      → p.is_listening ≡ false
      → Advance p (record p { main_at = returned })
  server_error :
      {p : Process}
      → p.main_at ≡ serving
      → Advance p (record p { main_at = returned; is_listening = false })

pub data Runs (p : Process) : Process → Type 0 where
  here : Runs p p
  then_step : {q r : Process} → Runs p q → Advance q r → Runs p r

-- The listener is open while main serves and Shutdown has not been called.
abbrev serves : MainAt → Bool
serves starting = false
serves serving = true
serves returned = false

abbrev listens_in : SignalAt → MainAt → Bool
listens_in waiting m = serves m
listens_in signalled m = serves m
listens_in shutting_down m = false
listens_in shut_down m = false
listens_in stopped m = false

-- Stop has been called once when the goroutine is at its end, and not before.
abbrev stops_in : SignalAt → ℕ
stops_in waiting = 0
stops_in signalled = 0
stops_in shutting_down = 0
stops_in shut_down = 0
stops_in stopped = 1

-- Where the listener and the calls of Stop are, by where the goroutine and main are.
pub record IsOrderly (p : Process) : Type 0 where
  pub listens : p.is_listening ≡ listens_in p.signal_at p.main_at
  pub stopped_once : p.stops ≡ stops_in p.signal_at

listens_in-returned : (s : SignalAt) → listens_in s returned ≡ false
listens_in-returned waiting = refl
listens_in-returned signalled = refl
listens_in-returned shutting_down = refl
listens_in-returned shut_down = refl
listens_in-returned stopped = refl

listens_in-before :
    (s : SignalAt) (m : MainAt) → (s ≡ waiting) ⊎ (s ≡ signalled) → listens_in s m ≡ serves m
listens_in-before s m (inl e) = ap (λ t. listens_in t m) e
listens_in-before s m (inr e) = ap (λ t. listens_in t m) e

-- A process that is as it should be, read at the place where the goroutine is.
listens_at :
    {p : Process} {s : SignalAt}
    → IsOrderly p
    → p.signal_at ≡ s
    → p.is_listening ≡ listens_in s p.main_at
listens_at {p} h e = h.listens ∙ ap (λ s. listens_in s p.main_at) e

stops_at : {p : Process} {s : SignalAt} → IsOrderly p → p.signal_at ≡ s → p.stops ≡ stops_in s
stops_at h e = h.stopped_once ∙ ap stops_in e

Advance-IsOrderly : {p q : Process} → Advance p q → IsOrderly p → IsOrderly q
Advance-IsOrderly (bound {p = p} m w) h = record {
  listens = sym (listens_in-before p.signal_at serving w);
  stopped_once = h.stopped_once;
}
Advance-IsOrderly (not_bound {p = p} m) h =
    let shut : listens_in p.signal_at starting ≡ false = starting_shut p.signal_at in
    record {
      listens =
          h.listens ∙ ap (listens_in p.signal_at) m ∙ shut ∙ sym (listens_in-returned p.signal_at);
      stopped_once = h.stopped_once;
    }
  where
    starting_shut : (s : SignalAt) → listens_in s starting ≡ false
    starting_shut waiting = refl
    starting_shut signalled = refl
    starting_shut shutting_down = refl
    starting_shut shut_down = refl
    starting_shut stopped = refl
Advance-IsOrderly (request_in m l) h = record { listens = h.listens; stopped_once = h.stopped_once }
Advance-IsOrderly (request_out m l) h = record {
  listens = h.listens;
  stopped_once = h.stopped_once;
}
Advance-IsOrderly (signal m w) h = record { listens = listens_at h w; stopped_once = stops_at h w }
Advance-IsOrderly (shutdown m w) h = record { listens = refl; stopped_once = stops_at h w }
Advance-IsOrderly (drained m w z) h = record {
  listens = listens_at h w;
  stopped_once = stops_at h w;
}
Advance-IsOrderly (gave_up m w) h = record { listens = listens_at h w; stopped_once = stops_at h w }
Advance-IsOrderly (stop m w) h = record {
  listens = listens_at h w;
  stopped_once = ap suc (stops_at h w);
}
Advance-IsOrderly (server_closed {p = p} m l) h = record {
  listens = l ∙ sym (listens_in-returned p.signal_at);
  stopped_once = h.stopped_once;
}
Advance-IsOrderly (server_error {p = p} m) h = record {
  listens = sym (listens_in-returned p.signal_at);
  stopped_once = h.stopped_once;
}

-- Nothing is accepted, now or later.
abbrev IsShut : Process → Type 0
IsShut p = (p.is_listening ≡ false) × (p.main_at ≢ starting)

-- A process that is shut stays so, and lets no request in.
Advance-fewer :
    {p q : Process} → Advance p q → IsShut p → IsShut q × (q.open_requests ≤ p.open_requests)
Advance-fewer (bound m w) (i, n) = absurd (n m)
Advance-fewer (not_bound m) (i, n) = absurd (n m)
Advance-fewer (request_in m l) (i, n) = let never = sym l ∙ i in cc
Advance-fewer (request_out m l) (i, n) = ((i, n), omega arith)
Advance-fewer (signal m w) (i, n) = ((i, n), omega arith)
Advance-fewer (shutdown m w) (i, n) = ((refl, n), omega arith)
Advance-fewer (drained m w z) (i, n) = ((i, n), omega arith)
Advance-fewer (gave_up m w) (i, n) = ((i, n), omega arith)
Advance-fewer (stop m w) (i, n) = ((i, n), omega arith)
Advance-fewer (server_closed m l) (i, n) = ((i, (λ e. cc)), omega arith)
Advance-fewer (server_error m) (i, n) = ((refl, (λ e. cc)), omega arith)

Runs-fewer : {p q : Process} → Runs p q → IsShut p → IsShut q × (q.open_requests ≤ p.open_requests)
Runs-fewer here h = (h, omega arith)
Runs-fewer (then_step r a) h =
    let (h1, n1) = Runs-fewer r h in let (h2, n2) = Advance-fewer a h1 in (h2, omega arith)

Runs-ordered : {p q : Process} → Runs p q → IsOrderly p → IsOrderly q
Runs-ordered here h = h
Runs-ordered (then_step r a) h = Advance-IsOrderly a (Runs-ordered r h)

main_at-cases : (m : MainAt) → (m ≡ starting) ⊎ (m ≢ starting)
main_at-cases starting = inl refl
main_at-cases serving = inr (λ e. cc)
main_at-cases returned = inr (λ e. cc)

-- With net/http as documented, in every run of the program: the listener is open exactly while ListenAndServe
-- has the port and has not returned and Shutdown has not been called, also between the signal and that call;
-- Stop is called at most once, behind Shutdown, so that it does not panic; and between two moments of a run,
-- the first one behind the binding of the port, the listener was open at the first one, or no more requests
-- are open at the second one.
pub Runs-IsOrderly :
    {p q : Process}
    → Runs launched p
    → Runs p q
    → IsOrderly q
      × ((p.main_at ≡ starting) ⊎ ((p.is_listening ≡ true) ⊎ (q.open_requests ≤ p.open_requests)))
Runs-IsOrderly {p} {q} r s =
    let first = Runs-ordered r (record { listens = refl; stopped_once = refl }) in
    (
      Runs-ordered s first,
      elim (main_at-cases p.main_at) [
        | inl unbound ↦ inl unbound
        | inr known ↦ elim (Bool-cases p.is_listening) [
          | inl unshut ↦ inr (inl unshut)
          | inr shut ↦ inr (inr (Runs-fewer s (shut, known)).1)
        ]
      ],
    )

-- The state in which the process is over while `n` requests are open.
abbrev pub abandoned : ℕ → Process
abandoned n = record {
  signal_at = shutting_down;
  main_at = returned;
  is_listening = false;
  open_requests = n;
  stops = 0;
}

requests : (n : ℕ) → Runs listening (record listening { open_requests = n })
requests zero = here
requests (suc n) = then_step (requests n) (request_in refl refl)

-- With net/http as documented, for any number of requests: a run of the program ends, after a signal, while that
-- many requests are open, before Shutdown returns and before Stop is called.
pub listening-abandoned : (n : ℕ) → Runs listening (abandoned n)
listening-abandoned n =
    then_step (then_step (then_step (requests n) (signal (λ e. cc) refl)) (shutdown (λ e. cc) refl))
      (server_closed refl refl)
