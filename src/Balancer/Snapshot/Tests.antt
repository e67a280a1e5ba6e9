-- ===== src/Balancer/Snapshot/Tests.antt =====
-- A snapshot of a small fleet.
use mathlib.Core.List.{Permᴰ}
use mathlib.Core.List.Permᴰ
use prequal_nc.Base.{
  ◌≡◌, ◌∙◌, sym, subst, refl, inl, inr, pos, negsuc, Bool, true, false, Bool-cases, List, [], ◌∷◌,
  All, All-map, if◌then◌else◌,
}
use prequal_nc.Balancer.Tests.{fleet, fleet-PoolInv}
use prequal_nc.Balancer.Snapshot.{PoolEntrySnapshot, Sorter, milliseconds_of, debug_snapshot}
use prequal_nc.Balancer.Snapshot.Order.{IsStrictWeak, IsOrdered, IsSorted, SorterLaws}
use prequal_nc.Balancer.Snapshot.View.{IsView, debug_snapshot-IsView}

milliseconds_of_test : milliseconds_of (negsuc 1_999_999) ≡ negsuc 1
unfolding milliseconds_of
milliseconds_of_test = refl

-- Insertion from the right.
abbrev insert :
    (PoolEntrySnapshot → PoolEntrySnapshot → Bool)
    → PoolEntrySnapshot
    → List PoolEntrySnapshot
    → List PoolEntrySnapshot
insert less x [] = x ∷ []
insert less x (y ∷ ys) = let rest = insert less x ys in if less y x then y ∷ rest else x ∷ y ∷ ys

abbrev insertion_sort : Sorter
insertion_sort less [] = []
insertion_sort less (x ∷ xs) = insert less x (insertion_sort less xs)

All-Permᴰ : {A : Type 0} (P : A → Type 0) {xs ys : List A} → Permᴰ xs ys → All P xs → All P ys
All-Permᴰ P Permᴰ.nil h = tt
All-Permᴰ P (Permᴰ.cons e d) h = (subst P e h.0, All-Permᴰ P d h.1)
All-Permᴰ P (Permᴰ.swap e f) h = (subst P f h.1.0, (subst P e h.0, h.1.1))
All-Permᴰ P (Permᴰ.trans d e) h = All-Permᴰ P e (All-Permᴰ P d h)

module _ (less : PoolEntrySnapshot → PoolEntrySnapshot → Bool) (w : IsStrictWeak less) where
  insert-Permᴰ :
      (x : PoolEntrySnapshot) (l : List PoolEntrySnapshot) → Permᴰ (x ∷ l) (insert less x l)
  insert-Permᴰ x [] = Permᴰ.cons refl Permᴰ.nil
  insert-Permᴰ x (y ∷ ys) = elim (Bool-cases (less y x)) [
    | inl e ↦ rw e (Permᴰ.trans (Permᴰ.swap refl refl) (Permᴰ.cons refl (insert-Permᴰ x ys)))
    | inr e ↦ rw e (Permᴰ.cons refl (Permᴰ.cons refl (Permᴰ.refl ys)))
  ]

  not_both : (x y : PoolEntrySnapshot) → less y x ≡ true → less x y ≡ false
  not_both x y h = elim (Bool-cases (less x y)) [
    | inl e ↦ let never = sym (w.trans x y x e h) ∙ w.irrefl x in cc
    | inr e ↦ e
  ]

  insert-IsOrdered :
      (x : PoolEntrySnapshot) (l : List PoolEntrySnapshot)
      → IsOrdered less l
      → IsOrdered less (insert less x l)
  insert-IsOrdered x [] h = (tt, tt)
  insert-IsOrdered x (y ∷ ys) h = elim (Bool-cases (less y x)) [
    | inl e ↦ rw e (
      All-Permᴰ (λ z. less z y ≡ false) (insert-Permᴰ x ys) (not_both x y e, h.0),
      insert-IsOrdered x ys h.1,
    )
    | inr e ↦ rw e ((e, All-map _ _ ys (λ z q. w.not_less_trans z y x q e) h.0), (h.0, h.1))
  ]

  insertion_sort-IsSorted : (l : List PoolEntrySnapshot) → IsSorted less l (insertion_sort less l)
  insertion_sort-IsSorted [] = record { same = Permᴰ.nil; ordered = tt }
  insertion_sort-IsSorted (x ∷ xs) =
      let r = insertion_sort-IsSorted xs in
      record {
        same = Permᴰ.trans (Permᴰ.cons refl r.same) (insert-Permᴰ x (insertion_sort less xs));
        ordered = insert-IsOrdered x (insertion_sort less xs) r.ordered;
      }

insertion_sort-laws : SorterLaws insertion_sort
insertion_sort-laws = record { sorts = λ less l w. insertion_sort-IsSorted less w l }

debug_snapshot-IsView_example :
    IsView (pos 3_000_000_000) fleet (debug_snapshot insertion_sort (pos 3_000_000_000) fleet)
debug_snapshot-IsView_example =
    debug_snapshot-IsView (pos 3_000_000_000) fleet insertion_sort insertion_sort-laws fleet-PoolInv
