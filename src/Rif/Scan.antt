-- ===== src/Rif/Scan.antt =====
-- rif_distribution.go, the loop of computeQuantile over the sorted keys.
use prequal_nc.Base.{
  ℕ, ◌+◌, ◌≡◌, refl, ap, ◌∙◌, ◌⊎◌, inl, inr, ℤ, pos, ◌+ℤ◌, ◌≤ℤ◌, ◌<ℤ◌, ltb_ℤ, leb_ℤ, ≤ℤ_antisymm,
  Bool, true, false, some, List, [], ◌∷◌, map, arith, Bool-cases, length, count_of, count_of-congr,
  count_of-length, All, All-map, All-zip, In, In-All, IsAscending, if◌then◌else◌,
}
use prequal_nc.Rif.{RifSample, Counts, count_at, scan}
use prequal_nc.Rif.Tally.{IsTally, tally, count_at-tally}

-- How many samples are at most `r`, and how many are below it.
abbrev pub rank : ℤ → List RifSample → ℕ
rank r = count_of (λ s. leb_ℤ s.rif r)

abbrev pub below : ℤ → List RifSample → ℕ
below r = count_of (λ s. ltb_ℤ s.rif r)

rank-below : (r : ℤ) (samples : List RifSample) → rank r samples ≡ below r samples + tally r samples
rank-below r [] = omega arith
rank-below r (s ∷ samples) = ground (arith, rank-below r samples)

module _ {F : Type 0} (of_int : ℤ → F) (fle : F → F → Bool) (target : F)
    (samples : List RifSample) where
  -- The rank of `r` reaches the target.
  abbrev pub reaches : ℤ → Bool
  reaches r = fle target (of_int (pos (rank r samples)))

  -- `r` is the least value among the samples whose rank reaches the target.
  pub record IsQuantile (r : ℤ) : Type 0 where
    pub observed : In r (map (λ (s : RifSample). s.rif) samples)
    pub reached : reaches r ≡ true
    pub least : All (λ s. s.rif <ℤ r → reaches s.rif ≡ false) samples

  -- Before the loop looks at `k`: what it has added up, and the samples that it has passed.
  pub record ScanInv (k : ℤ) (ks : List ℤ) (acc : ℤ) : Type 0 where
    pub ascending : IsAscending (k ∷ ks)
    pub added : acc ≡ pos (below k samples)
    pub placed : All (λ s. (s.rif <ℤ k) ⊎ In s.rif (k ∷ ks)) samples
    pub passed : All (λ s. s.rif <ℤ k → reaches s.rif ≡ false) samples
    pub occurs : All (λ j. In j (map (λ (s : RifSample). s.rif) samples)) (k ∷ ks)

  placed_next :
      (k j : ℤ) (ks : List ℤ) (x : ℤ)
      → IsAscending (k ∷ j ∷ ks)
      → (x <ℤ k) ⊎ In x (k ∷ j ∷ ks)
      → ((x <ℤ j) ⊎ In x (j ∷ ks)) × (leb_ℤ x k ≡ ltb_ℤ x j) × (x <ℤ j → x ≤ℤ k)
  placed_next k j ks x asc (inl h) = (inl (omega arith), ground arith, λ _. omega arith)
  placed_next k j ks x asc (inr (inl e)) = rw e (inl (asc.0.0), ground arith, λ _. omega arith)
  placed_next k j ks x asc (inr (inr (inl e))) =
      rw e (inr (inl refl), ground arith, λ h. absurd (omega arith))
  placed_next k j ks x asc (inr (inr (inr m))) =
      let above : j <ℤ x = In-All (λ y. j <ℤ y) x ks asc.1.0 m in
      (inr (inr m), ground arith, λ h. absurd (omega arith))

  module _ (m : Counts) (tallied : IsTally samples m) where
    step_added :
        (k acc : ℤ) → acc ≡ pos (below k samples) → acc +ℤ count_at k m ≡ pos (rank k samples)
    unfolding ◌+ℤ◌
    step_added k acc e =
        rw (e, count_at-tally k samples m tallied) (ground (arith, rank-below k samples))

    -- A key whose rank does not reach the target is passed.
    ScanInv-next :
        (k j : ℤ) (ks : List ℤ) (acc : ℤ)
        → ScanInv k (j ∷ ks) acc
        → reaches k ≡ false
        → ScanInv j ks (acc +ℤ count_at k m)
    ScanInv-next k j ks acc v short = record {
      ascending = v.ascending.1;
      added =
          step_added k acc v.added
          ∙ ap pos (
              count_of-congr _ _ samples
                (All-map _ _ samples (λ s h. (placed_next k j ks s.rif v.ascending h).1) v.placed));
      placed = All-map _ _ samples (λ s h. (placed_next k j ks s.rif v.ascending h).0) v.placed;
      passed =
          All-map _ _ samples
            (λ s h b. next_short s h.1 ((placed_next k j ks s.rif v.ascending h.0).2 b))
            (All-zip _ _ samples v.placed v.passed);
      occurs = v.occurs.1;
    }
      where
        next_short :
            (s : RifSample)
            → (s.rif <ℤ k → reaches s.rif ≡ false)
            → s.rif ≤ℤ k
            → reaches s.rif ≡ false
        next_short s below_k h = elim (Bool-cases (ltb_ℤ s.rif k)) [
          | inl b ↦ below_k (ground arith)
          | inr b ↦ let e : s.rif ≡ k = ≤ℤ_antisymm s.rif k h (ground arith) in rw e short
        ]

    scan-cons :
        (k : ℤ) (ks : List ℤ) (acc : ℤ)
        → acc ≡ pos (below k samples)
        → scan of_int fle m target (k ∷ ks) acc
          ≡ (if reaches k then some k else scan of_int fle m target ks (acc +ℤ count_at k m))
    unfolding scan
    scan-cons k ks acc e = rw (step_added k acc e) refl

    IsQuantile-stop :
        (k : ℤ) (ks : List ℤ) (acc : ℤ) → ScanInv k ks acc → reaches k ≡ true → IsQuantile k
    IsQuantile-stop k ks acc v e = record { observed = v.occurs.0; reached = e; least = v.passed }

    rank_of_last : (k acc : ℤ) → ScanInv k [] acc → rank k samples ≡ length samples
    rank_of_last k acc v =
        count_of-length _ samples (All-map _ _ samples (λ s h. at_most s h) v.placed)
      where
        at_most : (s : RifSample) → (s.rif <ℤ k) ⊎ In s.rif (k ∷ []) → leb_ℤ s.rif k ≡ true
        at_most s (inl h) = ground arith
        at_most s (inr (inl e)) = rw e (ground arith)
        at_most s (inr (inr h)) = elim h [ ]

    -- The loop returns the least observed value whose rank reaches the target, if the number of all
    -- samples reaches it.
    pub scan-IsQuantile :
        (k : ℤ) (ks : List ℤ) (acc : ℤ)
        → fle target (of_int (pos (length samples))) ≡ true
        → ScanInv k ks acc
        → (r : ℤ) × (scan of_int fle m target (k ∷ ks) acc ≡ some r) × IsQuantile r
    scan-IsQuantile k [] acc full v =
        let e : reaches k ≡ true = rw (rank_of_last k acc v) full in
        (k, scan-cons k [] acc v.added ∙ rw e refl, IsQuantile-stop k [] acc v e)
    scan-IsQuantile k (j ∷ ks) acc full v = elim (Bool-cases (reaches k)) [
      | inl e ↦ (k, scan-cons k _ acc v.added ∙ rw e refl, IsQuantile-stop k _ acc v e)
      | inr e ↦
          let (r, found, q) =
            scan-IsQuantile j ks (acc +ℤ count_at k m) full (ScanInv-next k j ks acc v e) in
          (r, scan-cons k _ acc v.added ∙ rw e found, q)
    ]
