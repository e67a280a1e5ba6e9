-- ===== src/Balancer/Snapshot/Order.antt =====
-- balancer.go, DebugSnapshot: the test that the pool is sorted by, and what sort.Slice does with such a test.
use mathlib.Core.List.{Permᴰ}
use prequal_nc.Base.{◌≡◌, refl, true, false, Bool, List, [], ◌∷◌, arith, All, Bool-cases, inl, inr}
use prequal_nc.Text.{Text, text_ltb}
use prequal_nc.Balancer.Snapshot.{PoolEntrySnapshot, Sorter, by_server}

-- No element is less than one in front of it.
abbrev pub IsOrdered :
    (PoolEntrySnapshot → PoolEntrySnapshot → Bool) → List PoolEntrySnapshot → Type 0
IsOrdered less [] = Unit
IsOrdered less (x ∷ xs) = All (λ y. less y x ≡ false) xs × IsOrdered less xs

-- The tests that sort.Slice is for: strict weak orders.
pub record IsStrictWeak {A : Type 0} (less : A → A → Bool) : Type 0 where
  pub irrefl : (a : A) → less a a ≡ false
  pub trans : (a b c : A) → less a b ≡ true → less b c ≡ true → less a c ≡ true
  pub not_less_trans : (a b c : A) → less a b ≡ false → less b c ≡ false → less a c ≡ false

pub record IsSorted (less : PoolEntrySnapshot → PoolEntrySnapshot → Bool)
    (l sorted : List PoolEntrySnapshot) : Type 0 where
  pub same : Permᴰ l sorted
  pub ordered : IsOrdered less sorted

-- What sort.Slice is documented to do, with any such test on any list.
pub record SorterLaws (sort : Sorter) : Type 0 where
  pub sorts :
      (less : PoolEntrySnapshot → PoolEntrySnapshot → Bool) (l : List PoolEntrySnapshot)
      → IsStrictWeak less
      → IsSorted less l (sort less l)

text_ltb_irrefl : (s : Text) → text_ltb s s ≡ false
text_ltb_irrefl [] = refl
text_ltb_irrefl (c ∷ s) = ground (arith, text_ltb_irrefl s)

text_ltb_trans : (s t u : Text) → text_ltb s t ≡ true → text_ltb t u ≡ true → text_ltb s u ≡ true
text_ltb_trans s [] u h k = cc
text_ltb_trans s (d ∷ t) [] h k = cc
text_ltb_trans [] (d ∷ t) (e ∷ u) h k = refl
text_ltb_trans (c ∷ s) (d ∷ t) (e ∷ u) h k = elim (Bool-cases (text_ltb s t)) [
  | inl p ↦ elim (Bool-cases (text_ltb t u)) [
    | inl q ↦ let r = text_ltb_trans s t u p q in ground arith
    | inr q ↦ ground arith
  ]
  | inr p ↦ ground arith
]

text_ltb_not_less_trans :
    (s t u : Text) → text_ltb s t ≡ false → text_ltb t u ≡ false → text_ltb s u ≡ false
text_ltb_not_less_trans s t [] h k = refl
text_ltb_not_less_trans s [] (e ∷ u) h k = cc
text_ltb_not_less_trans [] (d ∷ t) (e ∷ u) h k = cc
text_ltb_not_less_trans (c ∷ s) (d ∷ t) (e ∷ u) h k = elim (Bool-cases (text_ltb s t)) [
  | inl p ↦ ground arith
  | inr p ↦ elim (Bool-cases (text_ltb t u)) [
    | inl q ↦ ground arith
    | inr q ↦ let r = text_ltb_not_less_trans s t u p q in ground arith
  ]
]

-- The ids of the servers order the entries.
pub by_server-IsStrictWeak : IsStrictWeak by_server
by_server-IsStrictWeak = record {
  irrefl = λ a. text_ltb_irrefl a.server;
  trans = λ a b c h k. text_ltb_trans a.server b.server c.server h k;
  not_less_trans = λ a b c h k. text_ltb_not_less_trans a.server b.server c.server h k;
}
