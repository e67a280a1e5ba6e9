-- ===== src/Pool/Prune.antt =====
-- balancer.go, appendPool and the expiry in handleProbeResult: what they keep of the pool.
use mathlib.Core.List.{Sublistᴰ}
use mathlib.Core.List.Sublistᴰ
use prequal_nc.Base.{
  ℕ, suc, ◌-◌, ◌≤◌, ◌≡◌, refl, inl, inr, pos, ltb_ℤ, List, [], ◌∷◌, ◌++◌, arith, Bool-cases, length,
  length-append, drop, length-drop, ltb,
}
use prequal_nc.Base.Sub.{keep-sublist, drop-sublist}
use prequal_nc.Time.{Time, Duration}
use prequal_nc.Types.{EntryRef}
use prequal_nc.Pool.{Heap, append_pool, prune}

-- appendPool puts the entry at the end and leaves out the oldest ones that are too many: on a pool within
-- the capacity the result is the last `cap` elements of the pool with the entry behind it, and it is
-- within the capacity.
pub append_pool-drop :
    (pool : List EntryRef) (e : EntryRef) (cap : ℕ)
    → length pool ≤ cap
    → (append_pool pool e cap ≡ drop (suc (length pool) - cap) (pool ++ e ∷ []))
      × (length (append_pool pool e cap) ≤ cap)
unfolding append_pool
append_pool-drop pool e cap h =
    let next = pool ++ e ∷ [] in
    let size : length next ≡ suc (length pool) = omega (arith, length-append pool (e ∷ [])) in
    elim (Bool-cases (ltb cap (length next))) [
      | inl t ↦
          let one : suc (length pool) - cap ≡ 1 = ground arith in
          rw (t, one) (refl, omega (arith, length-drop 1 next))
      | inr t ↦
          let none_over : suc (length pool) - cap ≡ 0 = ground arith in
          rw (t, none_over) (refl, ground arith)
    ]

pub append_pool-sublist :
    (pool : List EntryRef) (e : EntryRef) (cap : ℕ)
    → Sublistᴰ (append_pool pool e cap) (pool ++ e ∷ [])
unfolding append_pool
append_pool-sublist pool e cap = elim (Bool-cases (ltb cap (length (pool ++ e ∷ [])))) [
  | inl t ↦ rw t (drop-sublist 1 (pool ++ e ∷ []))
  | inr t ↦ rw t (Sublistᴰ.refl (pool ++ e ∷ []))
]

pub prune-sublist :
    (at : Heap) (ttl : Duration) (now : Time) (pool : List EntryRef)
    → Sublistᴰ (prune at ttl now pool) pool
unfolding prune
prune-sublist at ttl now pool = elim (Bool-cases (ltb_ℤ (pos 0) ttl)) [
  | inl t ↦ rw t (keep-sublist _ pool)
  | inr t ↦ rw t (Sublistᴰ.refl pool)
]
