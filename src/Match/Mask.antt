-- ===== src/Match/Mask.antt =====
-- Which bits a match sets: exactly those of the values that pass the test.
use columnix.Base.{
  ℕ, zero, suc, ◌+◌, ◌^◌, ◌≤◌, ◌<◌, ◌≡◌, refl, ap, ◌∙◌, Bool, true, false, ◌||◌, List, [], ◌∷◌,
  ◌==◌, if◌then◌else◌, length, bit, bit-or, bit-pow, bit-zero, bit_or, bit_or-lt, two_pow-lt, done,
  arith,
}
use columnix.Match.{scan, match_naive}

module _ {A : Type 0} (test : A → Bool) where
  -- Whether there is a value at the index, and it passes.
  abbrev pub passes : List A → ℕ → Bool
  passes [] k = false
  passes (v ∷ vs) zero = test v
  passes (v ∷ vs) (suc k) = passes vs k

  bit-marked :
      (j i mask : ℕ) (b : Bool)
      → bit j (if b then bit_or mask (2 ^ i) else mask)
        ≡ (bit j mask || (if b then j == i else false))
  bit-marked j i mask true = bit-or j mask (2 ^ i) ∙ rw (bit-pow j i)
  bit-marked j i mask false = ground arith

  -- The bits below the index are those of the mask that the loop started with.
  bit-scan_below : (j i mask : ℕ) (vs : List A) → j < i → bit j (scan test i mask vs) ≡ bit j mask
  unfolding scan
  bit-scan_below j i mask [] h = refl
  bit-scan_below j i mask (v ∷ vs) h =
      bit-scan_below j (suc i) _ vs (omega arith) ∙ bit-marked j i mask (test v) ∙ ground arith

  bit-scan_from :
      (k i j mask : ℕ) (vs : List A)
      → j ≡ i + k
      → bit j (scan test i mask vs) ≡ (bit j mask || passes vs k)
  unfolding scan
  bit-scan_from k i j mask [] e = ground arith
  bit-scan_from zero i j mask (v ∷ vs) e =
      bit-scan_below j (suc i) _ vs (omega arith) ∙ bit-marked j i mask (test v) ∙ ground arith
  bit-scan_from (suc k) i j mask (v ∷ vs) e =
      bit-scan_from k (suc i) j _ vs (omega arith)
      ∙ ap (λ b. b || passes vs k) (bit-marked j i mask (test v))
      ∙ ground arith

  pub bit-scan : (k : ℕ) (vs : List A) → bit k (scan test 0 0 vs) ≡ passes vs k
  bit-scan k vs = bit-scan_from k 0 k 0 vs (omega arith) ∙ ap (λ b. b || passes vs k) (bit-zero k)

  scan-lt :
      (i w mask : ℕ) (vs : List A) → i + length vs ≤ w → mask < 2 ^ w → scan test i mask vs < 2 ^ w
  unfolding scan
  scan-lt i w mask [] h m = m
  scan-lt i w mask (v ∷ vs) h m = scan-lt (suc i) w _ vs (omega arith) (marked (test v))
    where
      marked : (b : Bool) → (if b then bit_or mask (2 ^ i) else mask) < 2 ^ w
      marked true = bit_or-lt w mask (2 ^ i) m (two_pow-lt i w (omega arith))
      marked false = m

  -- A match of at most 64 values gives a 64-bit mask in which bit `k` is set exactly when there is
  -- a value at `k` that passes the test.
  pub match_naive_lem :
      (vs : List A)
      → length vs ≤ 64
      → (mask : ℕ) × (match_naive test vs ≡ done mask)
        × (mask < 2 ^ 64)
        × ((k : ℕ) → bit k mask ≡ passes vs k)
  unfolding match_naive
  match_naive_lem vs h = (
    scan test 0 0 vs,
    ground arith,
    scan-lt 0 64 0 vs (omega arith) (omega arith),
    λ k. bit-scan k vs,
  )
