-- ===== src/Pool/Loop.antt =====
-- balancer.go, the loop of applyRRemove.
use mathlib.Core.List.{Sublistᴰ}
use mathlib.Core.List.Sublistᴰ
use prequal_nc.Base.{
  ℕ, zero, suc, ◌-◌, ◌≡◌, refl, ap, sym, subst, ◌∙◌, Bool, true, false, not, List, [], ◌∷◌, ◌++◌,
  arith, length, length-append, min, if◌then◌else◌,
}
use prequal_nc.Base.Sub.{without-sublist}
use prequal_nc.Float.{Float64}
use prequal_nc.Types.{EntryRef}
use prequal_nc.Pool.{Heap, remove_oldest, remove_worst, remove_loop}
use prequal_nc.Pool.Remove.{Removed, remove_worst-Removed}

-- The flag after `n` turns.
unfoldable pub flip : ℕ → Bool → Bool
flip zero b = b
flip (suc n) b = flip n (not b)

Removed-sublist :
    (at : Heap) (threshold : _) (pool rest : List EntryRef)
    → Removed at threshold pool rest
    → Sublistᴰ rest pool × (suc (length rest) ≡ length pool)
Removed-sublist at threshold pool rest r = (
  subst (λ l. Sublistᴰ l pool) (sym r.left)
      (subst (Sublistᴰ (r.before ++ r.after)) (sym r.split)
        (without-sublist r.before r.gone r.after)),
  omega (
    arith,
    ap length r.split,
    ap length r.left,
    length-append r.before (r.gone ∷ r.after),
    length-append r.before r.after,
  ),
)

module _ (fl : Float64) (at : Heap) (qrif : fl.F) where
  -- One turn of the loop takes one entry out.
  abbrev turn : Bool → EntryRef → List EntryRef → List EntryRef
  turn alt e rest = if alt then remove_oldest (e ∷ rest) else remove_worst fl at qrif (e ∷ rest)

  turn-sublist :
      (alt : Bool) (e : EntryRef) (rest : List EntryRef)
      → Sublistᴰ (turn alt e rest) (e ∷ rest) × (length (turn alt e rest) ≡ length rest)
  unfolding remove_oldest
  turn-sublist true e rest = (Sublistᴰ.cons (Sublistᴰ.refl rest), refl)
  turn-sublist false e rest =
      let (s, n) = Removed-sublist at _ (e ∷ rest) _ (remove_worst-Removed fl at qrif e rest) in
      (s, omega arith)

  -- The loop takes out n entries, or all if there are fewer, keeps the others in order, and turns the
  -- flag over once for each entry that it takes out.
  pub remove_loop-sublist :
      (n : ℕ) (alt : Bool) (pool : List EntryRef)
      → Sublistᴰ (remove_loop fl at qrif n alt pool).0 pool
        × (length (remove_loop fl at qrif n alt pool).0 ≡ length pool - n)
        × ((remove_loop fl at qrif n alt pool).1 ≡ flip (min n (length pool)) alt)
  unfolding remove_loop flip
  remove_loop-sublist zero alt pool = (
    Sublistᴰ.refl pool,
    omega arith,
    ap (λ k. flip k alt) {x = 0} {y = min 0 (length pool)} (omega arith),
  )
  remove_loop-sublist (suc n) alt [] = (
    Sublistᴰ.refl [],
    omega arith,
    ap (λ k. flip k alt) {x = 0} {y = min (suc n) 0} (omega arith),
  )
  remove_loop-sublist (suc n) alt (e ∷ rest) =
      let (s, m) = turn-sublist alt e rest in
      let (s', m', f) = remove_loop-sublist n (not alt) (turn alt e rest) in
      (
        Sublistᴰ.trans s' s,
        omega arith,
        f
            ∙ ap (λ k. flip k alt) {x = suc (min n (length (turn alt e rest)))}
                {y = min (suc n) (suc (length rest))} (omega arith),
      )
