-- ===== src/Base/Bytes.antt =====
-- Little-endian memory: a number as `k` bytes, the number that bytes hold, and arrays of such cells.
use Prim.Native.Nat.{ℕ, zero, suc, ◌+◌, ◌*◌, ◌/◌, ◌%◌, ◌^◌, ◌≤◌, ◌<◌}
use mathlib.Core.Path.{◌≡◌, refl, ap, sym, ◌∙◌}
use mathlib.Core.List.{List, [], ◌∷◌, ◌++◌, append_assoc}
use native.Mathlib.Nat.{pow-suc}
use native.Mathlib.Omega.{arith}
use columnix.Base.Lists.{
  length, take, drop, All, length-append, take-length_append, drop-length_append, drop-add,
  drop-nil,
}

abbrev pub le_bytes : ℕ → ℕ → List ℕ
le_bytes zero n = []
le_bytes (suc k) n = n % 256 ∷ le_bytes k (n / 256)

abbrev pub le_value : List ℕ → ℕ
le_value [] = 0
le_value (b ∷ bs) = b + 256 * le_value bs

pub le_value-le_bytes : (k n : ℕ) → n < 256 ^ k → le_value (le_bytes k n) ≡ n
le_value-le_bytes zero n h = omega arith
le_value-le_bytes (suc k) n h =
    omega (arith, pow-suc 256 k, le_value-le_bytes k (n / 256) (omega (arith, pow-suc 256 k)))

pub length-le_bytes : (k n : ℕ) → length (le_bytes k n) ≡ k
length-le_bytes zero n = refl
length-le_bytes (suc k) n = ap suc (length-le_bytes k (n / 256))

-- `n` cells of `s` bytes each, from the front of `bs`.
abbrev pub cells : ℕ → ℕ → List ℕ → List ℕ
cells zero s bs = []
cells (suc n) s bs = le_value (take s bs) ∷ cells n s (drop s bs)

-- The bytes of an array of cells.
abbrev pub bytes_of : ℕ → List ℕ → List ℕ
bytes_of s [] = []
bytes_of s (v ∷ vs) = le_bytes s v ++ bytes_of s vs

module _ (s : ℕ) where
  abbrev pub Fits : List ℕ → Type 0
  Fits = All (λ v. v < 256 ^ s)

  pub length-bytes_of : (vs : List ℕ) → length (bytes_of s vs) ≡ s * length vs
  length-bytes_of [] = omega arith
  length-bytes_of (v ∷ vs) =
      omega (
        arith,
        length-append (le_bytes s v) (bytes_of s vs),
        length-le_bytes s v,
        length-bytes_of vs,
      )

  pub take-le_bytes : (v : ℕ) (rest : List ℕ) → take s (le_bytes s v ++ rest) ≡ le_bytes s v
  take-le_bytes v rest =
      ap (λ k. take k (le_bytes s v ++ rest)) {x = s} {y = length (le_bytes s v)}
        (omega (arith, length-le_bytes s v))
      ∙ take-length_append (le_bytes s v) rest

  pub drop-le_bytes : (v : ℕ) (rest : List ℕ) → drop s (le_bytes s v ++ rest) ≡ rest
  drop-le_bytes v rest =
      ap (λ k. drop k (le_bytes s v ++ rest)) {x = s} {y = length (le_bytes s v)}
        (omega (arith, length-le_bytes s v))
      ∙ drop-length_append (le_bytes s v) rest

  pub bytes_of-append : (vs ws : List ℕ) → bytes_of s (vs ++ ws) ≡ bytes_of s vs ++ bytes_of s ws
  bytes_of-append [] ws = refl
  bytes_of-append (v ∷ vs) ws =
      ap (λ t. le_bytes s v ++ t) (bytes_of-append vs ws)
      ∙ sym (append_assoc (le_bytes s v) (bytes_of s vs) (bytes_of s ws))

  -- The bytes from cell `k` on are those of the cells from `k` on.
  pub drop-bytes_of : (k : ℕ) (vs : List ℕ) → drop (s * k) (bytes_of s vs) ≡ bytes_of s (drop k vs)
  drop-bytes_of zero vs = ap (λ j. drop j (bytes_of s vs)) {x = s * 0} {y = 0} (omega arith)
  drop-bytes_of (suc k) [] = drop-nil (s * suc k)
  drop-bytes_of (suc k) (v ∷ vs) =
      drop-add s (s * k) (s * suc k) (le_bytes s v ++ bytes_of s vs) (omega arith)
      ∙ rw (drop-le_bytes v (bytes_of s vs)) (drop-bytes_of k vs)

  -- Reading cells back.
  pub cells-bytes_of :
      (n : ℕ) (vs : List ℕ) → n ≤ length vs → Fits vs → cells n s (bytes_of s vs) ≡ take n vs
  cells-bytes_of zero vs h f = refl
  cells-bytes_of (suc n) [] h f = absurd (omega arith)
  cells-bytes_of (suc n) (v ∷ vs) h f = rw (
    take-le_bytes v (bytes_of s vs),
    drop-le_bytes v (bytes_of s vs),
    le_value-le_bytes s v f.0,
    cells-bytes_of n vs (omega arith) f.1,
  )
