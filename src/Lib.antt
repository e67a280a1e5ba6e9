-- ===== src/Lib.antt =====
-- The Prequal load balancer: a reverse proxy that sends a request to the server whose recent probe answer
-- looks best. pkg/loadbalancer keeps the load balancer, cmd/server starts it, and backend is a replica.
--
-- Parts and files:
-- - pkg/loadbalancer/types.go is Types: the records, the enumerations and DefaultConfig.
-- - pkg/loadbalancer/rif_distribution.go is Rif: the samples of the window, the map of tallies, Observe,
--   Quantile with its cache, computeQuantile and evictLocked. Rif/Tally, Window, Scan, Quantile, Cache and
--   History hold the theorems.
-- - The operations on the probe pool of pkg/loadbalancer/balancer.go are Pool: appendPool, the expiry in
--   handleProbeResult, removeOldest, removeWorst and the loop of applyRRemove.
-- - The rest of balancer.go is Balancer: the state and NewLoadBalancer; Balancer/Select has SelectServer
--   with both algorithms, applyRRemove and consumeEntry; Balancer/Probe has the probe rate, triggerProbes,
--   probeServer and handleProbeResult; Balancer/Picks has the ring of recorded picks; Balancer/Loops has the
--   two loops that probe in the background, Balancer/Snapshot DebugSnapshot, and Balancer/Shared the pool
--   under concurrent calls, with the uses beyond an entry's limit in Shared/Uses and Overuse.
-- - backend/main.go is Backend: the ring of latencies (Recent), the estimate (Median), the work loop (Work),
--   the handlers of / over any history (Traffic) and of /health as a probe sees it (Health), and
--   runAntagonist with extractServerNum (Antagonist).
-- - pkg/loadbalancer/metrics.go is Metrics: the vectors and their registration (Register), with the calls that
--   balancer.go makes on them (Calls), what these count (Export, Steps, Choice, Kept) over whole histories
--   (History), and that none of them panics (Returns).
-- - System is the load balancer with its replicas: probes travel between them while requests come and go.
--   System/Reads is what an answer carries, Provenance where the entries of the pool come from, Steps and
--   Reading what each step keeps, Invariant the whole, Probes the account of the probes, and Choice what a
--   choice rests on.
-- - cmd/server/main.go is Main: parseBool, parseBackends (Backends), the environment over the defaults
--   (Settings, Numbers), the registration of the backends (Fleet) and the whole of it (Start); and the end of
--   the program on a signal (Shutdown).
-- - Base, Float, Centi, Time and Text are shared: lists, integers, sorting, loops that keep a best element;
--   float64; an arithmetic to run the model with; times; what the program uses of strings and strconv.
-- A choice (selectServerPrequal) runs applyRRemove on the pool, asks the distribution for the quantile, scans
-- the pool and consumes the winner; an answer (handleProbeResult) enters the pool and the distribution.
-- main sets up the load balancer with which Balancer/History begins, and a probe's answer is what
-- Backend.health prints. Balancer/History puts the calls together; Balancer/Serve is ServeHTTP and
-- forwardRequest, in two steps per request, before and after the reverse proxy, with the histories of many
-- requests in Serve/Traffic.
--
-- How the code is modelled:
-- - A method is a function from the state to the next one, and a call is one step; but Balancer/Shared takes
--   consumeEntry apart at its atomic operations and its critical section, and lets the steps of many calls
--   interleave, and Balancer/Serve has two steps for a request. Draws of math/rand and readings of the clock
--   are arguments.
-- - Pointers to servers and to pool entries are numbers, and the heaps of the state say what they point to,
--   since consumeEntry changes entries that the pool shares. `none` as a result is a run-time panic.
-- - int32 fields are integers with wrap-around where the code adds to them; atomic counters wrap at 2^32
--   and 2^64. Slices are lists, a map is an association list.
-- - float64 is a parameter, a record of operations; theorems that need more than these take the laws of
--   Float.FloatLaws as a hypothesis, and Centi, numbers in hundredths, meets them.
-- - Every loop is structural recursion on the list or on a number of rounds, so nothing runs on fuel; the
--   print of a number takes 20 rounds, one for each digit of a number below 10^20.
-- - A text is the list of its code points, and environment variables are taken to be valid UTF-8. ParseFloat
--   and ParseDuration are arguments, and so is sort.Slice in DebugSnapshot.
--
-- - The Prometheus client is a parameter, a record of operations whose laws say when they panic. The calls on it
--   are lists beside the operations of the load balancer, since nothing in the program reads them.
--
-- Not modelled: logging, net/http (a probe's response
-- is a parameter, and so is the way a call of the reverse proxy ends), what is written to a client, a
-- second call of Stop from elsewhere, the routes and flags of cmd/server, stress-ng and /metrics of a replica, and the
-- scripts under cloudlab.
pub mod Base
pub mod Float
pub mod Centi
pub mod Time
pub mod Text
pub mod Rif
pub mod Types
pub mod Pool
pub mod Balancer
pub mod Backend
pub mod Main
pub mod Metrics
pub mod System
