-- ===== src/Backend/Recent.antt =====
-- backend/main.go, recordLatency: the ring holds the last 256 samples, from some slot on and round.
use mathlib.Core.List.{append_assoc, append-nil}
use prequal_nc.Base.{
  ℕ, zero, suc, ◌+◌, ◌-◌, ◌<◌, ◌≡◌, refl, ap, subst, sym, ◌∙◌, List, [], ◌∷◌, ◌++◌, arith, length,
  length-append, length-replicate, take, take-length-append, drop, set,
}
use prequal_nc.Backend.{
  LatencySample, LatencyRing, latency_ring_size, empty_sample, empty_ring, record_latency,
}

-- What stays of a history, oldest first, when only the last `n` samples are kept.
abbrev pub recent {ℓ} : {A : Type ℓ} → ℕ → List A → List A
recent n past = drop (length past - n) past

-- The slot to write splits the ring. Before the ring has been filled, the slots in front of it are the
-- history; afterwards those behind it are the older part of its end and those in front the newer one.
pub data IsRing (past : List LatencySample) (r : LatencyRing) : Type 0 where
  filling :
      (rest : List LatencySample)
      → r.latency_ring ≡ past ++ rest
      → r.latency_ring_idx ≡ length past
      → r.latency_ring_fill ≡ length past
      → length past + length rest ≡ latency_ring_size
      → 0 < length rest
      → IsRing past r
  full :
      (newer rest older : List LatencySample)
      → r.latency_ring ≡ newer ++ rest
      → r.latency_ring_idx ≡ length newer
      → r.latency_ring_fill ≡ latency_ring_size
      → length newer + length rest ≡ latency_ring_size
      → 0 < length rest
      → past ≡ older ++ (rest ++ newer)
      → IsRing past r

set-middle :
    (xs : List LatencySample) (x s : LatencySample) (ys : List LatencySample)
    → set (xs ++ (x ∷ ys)) (length xs) s ≡ xs ++ (s ∷ ys)
set-middle [] x s ys = refl
set-middle (y ∷ xs) x s ys = ap (◌∷◌ y) (set-middle xs x s ys)

snoc-append :
    (xs : List LatencySample) (s : LatencySample) (ys : List LatencySample)
    → xs ++ (s ∷ ys) ≡ (xs ++ (s ∷ [])) ++ ys
snoc-append xs s ys = sym (append_assoc xs (s ∷ []) ys)

length-snoc :
    (xs : List LatencySample) (s : LatencySample) → length (xs ++ (s ∷ [])) ≡ suc (length xs)
length-snoc xs s = omega (arith, length-append xs (s ∷ []))

module _ (s : LatencySample) (r : LatencyRing) where
  written :
      (front : List LatencySample) (x : LatencySample) (rest : List LatencySample)
      → r.latency_ring ≡ front ++ (x ∷ rest)
      → r.latency_ring_idx ≡ length front
      → (record_latency s r).latency_ring ≡ (front ++ (s ∷ [])) ++ rest
  unfolding record_latency
  written front x rest e i =
      ap (λ l. set l r.latency_ring_idx s) e
      ∙ ap (λ k. set (front ++ (x ∷ rest)) k s) i
      ∙ set-middle front x s rest
      ∙ snoc-append front s rest

  next_idx :
      (n : ℕ)
      → r.latency_ring_idx ≡ n
      → (suc n < latency_ring_size → (record_latency s r).latency_ring_idx ≡ suc n)
        × (suc n ≡ latency_ring_size → (record_latency s r).latency_ring_idx ≡ 0)
  unfolding record_latency
  next_idx n e = ((λ h. omega arith), (λ h. omega arith))

  next_fill :
      (r.latency_ring_fill < latency_ring_size
        → (record_latency s r).latency_ring_fill ≡ suc r.latency_ring_fill)
      × (r.latency_ring_fill ≡ latency_ring_size
          → (record_latency s r).latency_ring_fill ≡ latency_ring_size)
  unfolding record_latency
  next_fill = ((λ h. ground arith), (λ h. ground arith))

  filling-IsRing :
      (past : List LatencySample) (x : LatencySample) (rest : List LatencySample)
      → r.latency_ring ≡ past ++ (x ∷ rest)
      → r.latency_ring_idx ≡ length past
      → r.latency_ring_fill ≡ length past
      → length past + suc (length rest) ≡ latency_ring_size
      → IsRing (past ++ (s ∷ [])) (record_latency s r)
  filling-IsRing past x [] e i f n =
      full [] (past ++ (s ∷ [])) [] (written past x [] e i ∙ append-nil (past ++ (s ∷ [])))
        ((next_idx (length past) i).1 (omega arith)) (next_fill.0 (omega arith) ∙ omega arith)
        (omega (arith, length-snoc past s)) (omega (arith, length-snoc past s))
        (sym (append-nil (past ++ (s ∷ []))))
  filling-IsRing past x (y ∷ rest) e i f n =
      filling (y ∷ rest) (written past x (y ∷ rest) e i)
        ((next_idx (length past) i).0 (omega arith) ∙ sym (length-snoc past s))
        (next_fill.0 (omega arith) ∙ omega (arith, length-snoc past s))
        (omega (arith, length-snoc past s)) (omega arith)

  pushed_out :
      (past newer : List LatencySample) (x : LatencySample) (rest older : List LatencySample)
      → past ≡ older ++ ((x ∷ rest) ++ newer)
      → past ++ (s ∷ []) ≡ (older ++ (x ∷ [])) ++ (rest ++ (newer ++ (s ∷ [])))
  pushed_out past newer x rest older p =
      ap (λ l. l ++ (s ∷ [])) (p ∙ snoc-append older x (rest ++ newer))
      ∙ append_assoc (older ++ (x ∷ [])) (rest ++ newer) (s ∷ [])
      ∙ ap (λ l. (older ++ (x ∷ [])) ++ l) (append_assoc rest newer (s ∷ []))

  full-IsRing :
      (past newer : List LatencySample) (x : LatencySample) (rest older : List LatencySample)
      → r.latency_ring ≡ newer ++ (x ∷ rest)
      → r.latency_ring_idx ≡ length newer
      → r.latency_ring_fill ≡ latency_ring_size
      → length newer + suc (length rest) ≡ latency_ring_size
      → past ≡ older ++ ((x ∷ rest) ++ newer)
      → IsRing (past ++ (s ∷ [])) (record_latency s r)
  full-IsRing past newer x [] older e i f n p =
      full [] (newer ++ (s ∷ [])) (older ++ (x ∷ []))
        (written newer x [] e i ∙ append-nil (newer ++ (s ∷ [])))
        ((next_idx (length newer) i).1 (omega arith)) (next_fill.1 f)
        (omega (arith, length-snoc newer s)) (omega (arith, length-snoc newer s))
        (pushed_out past newer x [] older p
          ∙ ap (λ l. (older ++ (x ∷ [])) ++ l) (sym (append-nil (newer ++ (s ∷ [])))))
  full-IsRing past newer x (y ∷ rest) older e i f n p =
      full (newer ++ (s ∷ [])) (y ∷ rest) (older ++ (x ∷ [])) (written newer x (y ∷ rest) e i)
        ((next_idx (length newer) i).0 (omega arith) ∙ sym (length-snoc newer s)) (next_fill.1 f)
        (omega (arith, length-snoc newer s)) (omega arith)
        (pushed_out past newer x (y ∷ rest) older p)

pub record_latency-IsRing :
    (s : LatencySample) (past : List LatencySample) (r : LatencyRing)
    → IsRing past r
    → IsRing (past ++ (s ∷ [])) (record_latency s r)
record_latency-IsRing s past r (filling [] e i f n h) = absurd (omega arith)
record_latency-IsRing s past r (filling (x ∷ rest) e i f n h) =
    filling-IsRing s r past x rest e i f n
record_latency-IsRing s past r (full newer [] older e i f n h p) = absurd (omega arith)
record_latency-IsRing s past r (full newer (x ∷ rest) older e i f n h p) =
    full-IsRing s r past newer x rest older e i f n p

-- The slots in use are the last 256 samples in two parts, the newer one in front.
pub record Rotated (past : List LatencySample) (r : LatencyRing) : Type 0 where
  pub front : List LatencySample
  pub back : List LatencySample
  pub used : take r.latency_ring_fill r.latency_ring ≡ front ++ back
  pub kept : recent latency_ring_size past ≡ back ++ front

drop-length-append : (xs ys : List LatencySample) (n : ℕ) → n ≡ length xs → drop n (xs ++ ys) ≡ ys
drop-length-append [] ys n e = ap (λ k. drop k ys) e
drop-length-append (x ∷ xs) ys zero e = absurd (omega arith)
drop-length-append (x ∷ xs) ys (suc n) e = drop-length-append xs ys n (omega arith)

take-all : (xs : List LatencySample) (n : ℕ) → n ≡ length xs → take n xs ≡ xs
take-all xs n e = ap (take n) (sym (append-nil xs)) ∙ take-length-append n xs [] (sym e)

pub IsRing-Rotated : (past : List LatencySample) (r : LatencyRing) → IsRing past r → Rotated past r
IsRing-Rotated past r (filling rest e i f n h) =
    let none_over : length past - latency_ring_size ≡ 0 = omega arith in
    record {
      front = past;
      back = [];
      used =
          ap (λ k. take k r.latency_ring) f
          ∙ ap (take (length past)) e
          ∙ take-length-append (length past) past rest refl
          ∙ sym (append-nil past);
      kept = ap (λ k. drop k past) none_over;
    }
IsRing-Rotated past r (full newer rest older e i f n h p) =
    let size : latency_ring_size ≡ length (newer ++ rest) =
      omega (arith, length-append newer rest) in
    let over : length (older ++ (rest ++ newer)) - latency_ring_size ≡ length older =
      omega (arith, length-append older (rest ++ newer), length-append rest newer) in
    record {
      front = newer;
      back = rest;
      used =
          ap (λ k. take k r.latency_ring) f
          ∙ ap (take latency_ring_size) e
          ∙ take-all (newer ++ rest) latency_ring_size size;
      kept = ap (recent latency_ring_size) p ∙ drop-length-append older (rest ++ newer) _ over;
    }

-- The samples of a history, oldest first.
unfoldable pub record_all : List LatencySample → LatencyRing → LatencyRing
record_all [] r = r
record_all (s ∷ samples) r = record_all samples (record_latency s r)

record_all-IsRing :
    (samples past : List LatencySample) (r : LatencyRing)
    → IsRing past r
    → IsRing (past ++ samples) (record_all samples r)
unfolding record_all
record_all-IsRing [] past r v = subst (λ l. IsRing l r) (sym (append-nil past)) v
record_all-IsRing (s ∷ samples) past r v =
    subst (λ l. IsRing l (record_all (s ∷ samples) r)) (append_assoc past (s ∷ []) samples)
      (record_all-IsRing samples (past ++ (s ∷ [])) (record_latency s r)
        (record_latency-IsRing s past r v))

empty_ring-IsRing : IsRing [] empty_ring
empty_ring-IsRing =
    let size = length-replicate latency_ring_size empty_sample in
    filling empty_ring.latency_ring refl refl refl size (omega (arith, size))

-- Whatever was recorded, the slots in use are the last 256 samples, up to a rotation.
pub record_all-Rotated :
    (samples : List LatencySample) → Rotated samples (record_all samples empty_ring)
record_all-Rotated samples =
    IsRing-Rotated samples (record_all samples empty_ring)
      (record_all-IsRing samples [] empty_ring empty_ring-IsRing)
