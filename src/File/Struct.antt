-- ===== src/File/Struct.antt =====
-- lib/file.h: structs and arrays of structs as bytes, and back.
use native.Mathlib.Nat.{mul-suc}
use columnix.Base.{
  All, ℕ, zero, suc, ◌+◌, ◌*◌, ◌^◌, ◌<◌, ◌≡◌, refl, ap, ◌∙◌, sym, List, [], ◌∷◌, ◌++◌, length, take,
  drop, length-append, take-le_bytes, drop-le_bytes, le_bytes, le_value, le_value-le_bytes,
  length-le_bytes, drop-length_append, arith,
}
use mathlib.Core.List.{append_assoc}

-- The bytes of members of the given widths. A member that is too large loses its high bytes.
abbrev pub pack : List ℕ → List ℕ → List ℕ
pack [] ms = []
pack (w ∷ ws) [] = []
pack (w ∷ ws) (m ∷ ms) = le_bytes w m ++ pack ws ms

abbrev pub unpack : List ℕ → List ℕ → List ℕ
unpack [] bs = []
unpack (w ∷ ws) bs = le_value (take w bs) ∷ unpack ws (drop w bs)

-- Each member fits its width.
abbrev pub Members : List ℕ → List ℕ → Type 0
Members [] [] = Unit
Members [] (m ∷ ms) = ⊥
Members (w ∷ ws) [] = ⊥
Members (w ∷ ws) (m ∷ ms) = (m < 256 ^ w) × Members ws ms

abbrev pub total : List ℕ → ℕ
total [] = 0
total (w ∷ ws) = w + total ws

pub unpack-pack : (ws ms rest : List ℕ) → Members ws ms → unpack ws (pack ws ms ++ rest) ≡ ms
unpack-pack [] [] rest h = refl
unpack-pack [] (m ∷ ms) rest h = absurd h
unpack-pack (w ∷ ws) [] rest h = absurd h
unpack-pack (w ∷ ws) (m ∷ ms) rest h =
    let split : le_bytes w m ++ pack ws ms ++ rest ≡ le_bytes w m ++ (pack ws ms ++ rest) =
      append_assoc (le_bytes w m) (pack ws ms) rest in
    rw
      (
        split,
        take-le_bytes w m (pack ws ms ++ rest),
        drop-le_bytes w m (pack ws ms ++ rest),
        le_value-le_bytes w m h.0,
        unpack-pack ws ms rest h.1,
      )
      refl

pub length-pack : (ws ms : List ℕ) → length ms ≡ length ws → length (pack ws ms) ≡ total ws
length-pack [] ms h = refl
length-pack (w ∷ ws) [] h = absurd (omega arith)
length-pack (w ∷ ws) (m ∷ ms) h = omega (
  arith,
  length-append (le_bytes w m) (pack ws ms),
  length-le_bytes w m,
  length-pack ws ms (omega arith),
)

-- The bytes of an array, of the bytes of its elements, and the `n` elements of `size` bytes each.
module _ {A : Type 0} where
  abbrev pub array_bytes : (A → List ℕ) → List A → List ℕ
  array_bytes bytes [] = []
  array_bytes bytes (x ∷ xs) = bytes x ++ array_bytes bytes xs

  abbrev pub array_of : (List ℕ → A) → ℕ → ℕ → List ℕ → List A
  array_of parse size zero bs = []
  array_of parse size (suc n) bs = parse bs ∷ array_of parse size n (drop size bs)

  module _ (bytes : A → List ℕ) (parse : List ℕ → A) (size : ℕ) (Fit : A → Type 0)
      (sized : (x : A) → length (bytes x) ≡ size)
      (back : (x : A) (rest : List ℕ) → Fit x → parse (bytes x ++ rest) ≡ x) where
    pub length-array_bytes : (xs : List A) → length (array_bytes bytes xs) ≡ size * length xs
    length-array_bytes [] = omega arith
    length-array_bytes (x ∷ xs) = omega (
      arith,
      length-append (bytes x) (array_bytes bytes xs),
      sized x,
      length-array_bytes xs,
      mul-suc size (length xs),
    )

    pub array_of-array_bytes :
        (xs : List A) (rest : List ℕ)
        → All Fit xs
        → array_of parse size (length xs) (array_bytes bytes xs ++ rest) ≡ xs
    array_of-array_bytes [] rest h = refl
    array_of-array_bytes (x ∷ xs) rest h =
        let split : bytes x ++ array_bytes bytes xs ++ rest
            ≡ bytes x ++ (array_bytes bytes xs ++ rest) =
          append_assoc (bytes x) (array_bytes bytes xs) rest in
        let behind : drop size (bytes x ++ (array_bytes bytes xs ++ rest))
            ≡ array_bytes bytes xs ++ rest =
          ap (λ n. drop n (bytes x ++ (array_bytes bytes xs ++ rest))) (sym (sized x))
          ∙ drop-length_append (bytes x) (array_bytes bytes xs ++ rest) in
        rw
          (
            split,
            back x (array_bytes bytes xs ++ rest) h.0,
            behind,
            array_of-array_bytes xs rest h.1,
          )
          refl
