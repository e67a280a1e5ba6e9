-- ===== src/Balancer/Select.antt =====
-- balancer.go: the choice of a server. `none` as the result of a method is a run-time panic; `none` as a
-- server is nil.
pub mod Scan
pub mod Consume
pub mod RoundRobin
pub mod Effect
pub mod Uncounted
use prequal_nc.Base.{
  ℕ, suc, ◌+◌, ◌-◌, ◌%◌, ◌^◌, ◌≡◌, ℤ, pos, negsuc, pos_part, ltb_ℤ, ◌==ℤ◌, add_int32, Bool, true,
  false, not, ◌&&◌, Option, none, some, List, [], ◌∷◌, arith, ltb, ◌==◌, if◌then◌else◌, length,
  get_elem?, keep,
}
use prequal_nc.Base.Best.{improve}
use prequal_nc.Float.{Float64}
use prequal_nc.Time.{Time, Duration, is_before, time_back}
use prequal_nc.Text.{Text}
use prequal_nc.Types.{
  ServerRef, EntryRef, Server, ProbePoolEntry, Config, Algorithm, prequal, round_robin,
  other_algorithm,
}
use prequal_nc.Rif.{RifDistribution, quantile}
use prequal_nc.Pool.{Heap, remove_loop}
use prequal_nc.Balancer.{
  LoadBalancer, ProbeStats, PickRecord, PickClass, cold, hot, no_pool, inc_uint64, inc_uint32,
}
use prequal_nc.Balancer.Picks.{record_pick}

-- `*e = v` for the fields of an entry.
abbrev pub store_entry : Heap → EntryRef → ProbePoolEntry → Heap
store_entry at e v f = if e == f then v else at f

-- bestHot with bestHotRIF, bestCold with bestColdLatency, and `fresh`.
pub record Best : Type 0 where
  pub hot : Option (EntryRef × ℤ)
  pub cold : Option (EntryRef × ℤ)
  pub fresh : ℕ

-- `ttlEnabled && e.ReceivedAt.Before(cutoff)`.
abbrev pub is_stale : Heap → Duration → Time → EntryRef → Bool
is_stale at ttl now e = ltb_ℤ (pos 0) ttl && is_before (at e).received_at (time_back now ttl)

-- The body of the loop of selectServerPrequal.
unfoldable pub select_step : Heap → ℤ → Duration → Time → EntryRef → Best → Best
unfolding improve time_back
select_step at theta ttl now e b =
    if is_stale at ttl now e
    then b
    else if ltb_ℤ theta (at e).rif
    then record b { fresh = b.fresh + 1; hot = improve ltb_ℤ e (at e).rif b.hot }
    else record b { fresh = b.fresh + 1; cold = improve ltb_ℤ e (at e).latency b.cold }

unfoldable pub select_loop : Heap → ℤ → Duration → Time → List EntryRef → Best → Best
select_loop at theta ttl now [] b = b
select_loop at theta ttl now (e ∷ entries) b =
    select_loop at theta ttl now entries (select_step at theta ttl now e b)

-- `winner` and `class`, where the pool is not too small; `none` is a nil winner.
unfoldable pub winner_of : Best → Option (EntryRef × PickClass)
winner_of b = elim b.cold [
  | some (e, k) ↦ some (e, cold)
  | none ↦ elim b.hot [ some (e, k) ↦ some (e, hot) | none ↦ none ]
]

-- The first loop of consumeEntry: every entry of the server counts one more request.
unfoldable pub charge : List EntryRef → ServerRef → Heap → Heap
charge [] s at = at
charge (e ∷ entries) s at = charge entries s (
    if (at e).server == s
    then store_entry at e (record (at e) { rif = add_int32 (at e).rif (pos 1) })
    else at)

-- `e != used` on the pool.
abbrev pub without_entry : EntryRef → List EntryRef → List EntryRef
without_entry used = keep λ e. not (e == used)

-- rand.Intn(n) on a draw: every value below n is the rest of some draw.
abbrev pub intn : ℕ → ℕ → ℕ
intn draw n = draw % n

module _ (fl : Float64) where
  open fl use {F, of_int, trunc, fadd, fsub, fle}

  -- applyRRemove.
  unfoldable pub apply_r_remove : LoadBalancer F → LoadBalancer F
  apply_r_remove lb =
      if fle lb.config.r_remove (of_int (pos 0))
      then lb
      else let debt = fadd lb.remove_debt lb.config.r_remove in
        let n = trunc debt in
        let lb' = record lb { remove_debt = fsub debt (of_int n) } in
        if n ==ℤ pos 0
        then lb'
        else if length lb.entries == 0
        then lb'
        else let r =
            remove_loop fl lb.entry_at lb.config.q_rif (pos_part n) lb.remove_alt_oldest
              lb.entries in
          record lb' { entries = r.0; remove_alt_oldest = r.1 }

  -- consumeEntry.
  unfoldable pub consume_entry : EntryRef → LoadBalancer F → LoadBalancer F
  consume_entry used lb =
      let at = charge lb.entries (lb.entry_at used).server lb.entry_at in
      let uses = add_int32 (at used).remaining_uses (negsuc 0) in
      let lb' = record lb {
        entry_at = store_entry at used (record (at used) { remaining_uses = uses });
      } in
      if ltb_ℤ (pos 0) uses
      then lb'
      else let next = without_entry used lb.entries in
        if length next == length lb.entries then lb' else record lb' { entries = next }

  -- randomServer.
  unfoldable pub random_server : ℕ → LoadBalancer F → Option ServerRef
  random_server draw lb =
      if length lb.servers == 0 then none else get_elem? lb.servers (intn draw (length lb.servers))

  -- `id` in recordPick.
  unfoldable pub server_id : LoadBalancer F → Option ServerRef → Text
  server_id lb none = []
  server_id lb (some s) = (lb.server_at s).id

  -- `if pickLogOn { lb.recordPick(…) }`.
  unfoldable pub log_pick :
      Time → Option ServerRef → PickClass → ℤ → ℕ → ℕ → LoadBalancer F → LoadBalancer F
  log_pick now srv class theta size fresh lb =
      if lb.config.enable_pick_log
      then record lb {
        picks =
            record_pick
              (record {
                time = now;
                winner = server_id lb srv;
                class = class;
                q_rif_threshold = theta;
                pool_size = size;
                eligible_count = fresh;
              })
              lb.picks;
      }
      else lb

  -- What selectServerPrequal does after its loop: the clock of recordPick and the draw of rand.Intn.
  unfoldable pub select_from :
      Time → ℕ → ℤ → Best → LoadBalancer F → Option (LoadBalancer F × Option ServerRef)
  select_from now draw theta b lb =
      if ltb b.fresh 2
      then some (
        log_pick now (random_server draw lb) no_pool theta (length lb.entries) b.fresh (record lb {
          probe_stats = record lb.probe_stats { pool_empty = inc_uint64 lb.probe_stats.pool_empty };
        }),
        random_server draw lb,
      )
      else elim (winner_of b) [
        | none ↦ none
        | some (e, class) ↦
            let lb' = consume_entry e lb in
            let srv = (lb'.entry_at e).server in
            some (log_pick now (some srv) class theta (length lb.entries) b.fresh lb', some srv)
      ]

  -- The threshold: -1 where the distribution has no quantile.
  abbrev pub theta_of : ℤ × Bool → ℤ
  theta_of (theta, true) = theta
  theta_of (theta, false) = negsuc 0

  -- selectServerPrequal behind the call of Quantile.
  unfoldable pub select_with :
      Time
      → Time
      → ℕ
      → RifDistribution F × Option (ℤ × Bool)
      → LoadBalancer F
      → Option (LoadBalancer F × Option ServerRef)
  select_with now_ttl now_log draw (dist, none) lb = none
  select_with now_ttl now_log draw (dist, some answer) lb =
      select_from now_log draw (theta_of answer)
        (select_loop lb.entry_at (theta_of answer) lb.config.pool_ttl now_ttl lb.entries
          (record { hot = none; cold = none; fresh = 0 }))
        (record lb { rif_dist = dist })

  -- selectServerPrequal. The three times are those of Quantile, of the cutoff and of recordPick.
  unfoldable pub select_server_prequal :
      Time → Time → Time → ℕ → LoadBalancer F → Option (LoadBalancer F × Option ServerRef)
  select_server_prequal now_q now_ttl now_log draw lb =
      let lb' = apply_r_remove lb in
      select_with now_ttl now_log draw (quantile fl lb'.config.q_rif now_q lb'.rif_dist) lb'

  -- selectServerRR.
  unfoldable pub select_server_rr : LoadBalancer F → Option (LoadBalancer F × Option ServerRef)
  select_server_rr lb =
      if length lb.servers == 0
      then some (lb, none)
      else let index = inc_uint32 lb.rr_index in
        let i = (index + 2 ^ 32 - 1) % 2 ^ 32 % length lb.servers in
        elim (get_elem? lb.servers i) [
          | none ↦ none
          | some s ↦ some (record lb { rr_index = index }, some s)
        ]

  -- The test of SelectServer: any algorithm but round robin is Prequal.
  unfoldable pub select_by :
      Algorithm
      → Time
      → Time
      → Time
      → ℕ
      → LoadBalancer F
      → Option (LoadBalancer F × Option ServerRef)
  select_by round_robin now_q now_ttl now_log draw lb = select_server_rr lb
  select_by prequal now_q now_ttl now_log draw lb =
      select_server_prequal now_q now_ttl now_log draw lb
  select_by (other_algorithm name) now_q now_ttl now_log draw lb =
      select_server_prequal now_q now_ttl now_log draw lb

  -- SelectServer.
  unfoldable pub select_server :
      Time → Time → Time → ℕ → LoadBalancer F → Option (LoadBalancer F × Option ServerRef)
  unfolding select_by
  select_server now_q now_ttl now_log draw lb =
      select_by lb.config.algorithm now_q now_ttl now_log draw lb
