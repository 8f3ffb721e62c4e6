-- ===== src/Column/Packs.antt =====
-- lib/column.c: bits packed into words, and what `cx_column_put_bit` does to the words.
use columnix.Base.{
  ℕ, ◌+◌, ◌*◌, ◌/◌, ◌%◌, ◌^◌, ◌<◌, ◌≡◌, ◌⊎◌, inl, inr, refl, ap, ap₂, ◌∙◌, sym, true, false, ◌||◌,
  ◌&&◌, Bool, List, [], ◌∷◌, ◌++◌, ◌==◌, if◌then◌else◌, length, length-append, get_or, get_or-past,
  get_or-append_left, get_or-append_at, bit, bit_or, bit-or, bit-pow, bit-zero, arith,
}

-- The words have the bits, 64 each, and zeros behind them.
pub record Packs (words : List ℕ) (bs : List Bool) : Type 0 where
  pub covers : length words ≡ (length bs + 63) / 64
  pub bits : (k i : ℕ) → i < 64 → bit i (get_or words k 0) ≡ get_or bs (64 * k + i) false

pub Packs-nil : Packs [] []
Packs-nil = record { covers = omega arith; bits = λ k i h. bit-zero i }

abbrev pub word_of : Bool → ℕ
word_of v = if v then 1 else 0

bit-word_of : (v : Bool) (i : ℕ) → bit i (word_of v) ≡ (v && (i == 0))
bit-word_of true i = bit-pow i 0
bit-word_of false i = bit-zero i

-- Where a number stands to another.
pub order : (a b : ℕ) → (a < b) ⊎ ((a ≡ b) ⊎ (b < a))
order a b = ground arith

-- The bits with one more.
get_or-more :
    (bs : List Bool) (v : Bool) (i : ℕ)
    → get_or (bs ++ v ∷ []) i false ≡ (if i == length bs then v else get_or bs i false)
get_or-more bs v i = elim (order i (length bs)) [
  | inl h ↦ get_or-append_left bs (v ∷ []) i false h ∙ ground arith
  | inr (inl e) ↦ get_or-append_at bs [] v i false e ∙ ground arith
  | inr (inr h) ↦
      get_or-past (bs ++ v ∷ []) i false (omega (arith, length-append bs (v ∷ [])))
      ∙ sym (get_or-past bs i false (omega arith))
      ∙ ground arith
]

module _ {words : List ℕ} {bs : List Bool} (p : Packs words bs) (v : Bool) where
  -- The first bit of a new word.
  pub Packs-start : length bs % 64 ≡ 0 → Packs (words ++ word_of v ∷ []) (bs ++ v ∷ [])
  Packs-start h = record {
    covers =
        omega (arith, p.covers, length-append words (word_of v ∷ []), length-append bs (v ∷ []));
    bits = λ k i l. get k i l (order k (length words)) ∙ sym (get_or-more bs v (64 * k + i));
  }
    where
      get :
          (k i : ℕ)
          → i < 64
          → (k < length words) ⊎ ((k ≡ length words) ⊎ (length words < k))
          → bit i (get_or (words ++ word_of v ∷ []) k 0)
            ≡ (if 64 * k + i == length bs then v else get_or bs (64 * k + i) false)
      get k i l (inl k<) =
          ap (bit i) (get_or-append_left words (word_of v ∷ []) k 0 k<)
          ∙ p.bits k i l
          ∙ ground (arith, p.covers, h)
      get k i l (inr (inl e)) =
          ap (bit i) (get_or-append_at words [] (word_of v) k 0 e)
          ∙ bit-word_of v i
          ∙ ground (
            arith,
            p.covers,
            h,
            e,
            get_or-past bs (64 * k + i) false (omega (arith, p.covers, h, e)),
          )
      get k i l (inr (inr k>)) =
          ap (bit i) (
            get_or-past (words ++ word_of v ∷ []) k 0
              (omega (arith, length-append words (word_of v ∷ []))))
          ∙ bit-zero i
          ∙ ground
              (arith, p.covers, h, get_or-past bs (64 * k + i) false (omega (arith, p.covers, h)))

  -- A bit that is not set leaves the words.
  pub Packs-false : 0 < length bs % 64 → v ≡ false → Packs words (bs ++ v ∷ [])
  Packs-false h e = record {
    covers = omega (arith, p.covers, length-append bs (v ∷ []));
    bits = λ k i l.
        p.bits k i l
        ∙ same (64 * k + i) (order (64 * k + i) (length bs))
        ∙ sym (get_or-more bs v (64 * k + i));
  }
    where
      same :
          (j : ℕ)
          → (j < length bs) ⊎ ((j ≡ length bs) ⊎ (length bs < j))
          → get_or bs j false ≡ (if j == length bs then v else get_or bs j false)
      same j (inl l) = ground arith
      same j (inr (inl l)) = get_or-past bs j false (omega arith) ∙ sym e ∙ ground arith
      same j (inr (inr l)) = ground arith

-- A bit that is set in the last word.
module _ (u : List ℕ) (last : ℕ) {bs : List Bool} (p : Packs (u ++ last ∷ []) bs)
    (h : 0 < length bs % 64) where
  whole : length u ≡ length bs / 64
  whole = omega (arith, p.covers, length-append u (last ∷ []))

  abbrev pub with_bit : ℕ
  with_bit = bit_or last (2 ^ (length bs % 64))

  in_last :
      (i : ℕ)
      → i < 64
      → bit i with_bit
        ≡ (if 64 * length u + i == length bs then true else get_or bs (64 * length u + i) false)
  in_last i l =
      bit-or i last (2 ^ (length bs % 64))
      ∙ ap₂ ◌||◌
          (ap (bit i) (sym (get_or-append_at u [] last (length u) 0 refl)) ∙ p.bits (length u) i l)
          (bit-pow i (length bs % 64))
      ∙ ground (arith, whole)

  get_with :
      (k i : ℕ)
      → i < 64
      → (k < length u) ⊎ ((k ≡ length u) ⊎ (length u < k))
      → bit i (get_or (u ++ with_bit ∷ []) k 0)
        ≡ (if 64 * k + i == length bs then true else get_or bs (64 * k + i) false)
  get_with k i l (inl k<) =
      ap (bit i) (
        get_or-append_left u (with_bit ∷ []) k 0 k< ∙ sym (get_or-append_left u (last ∷ []) k 0 k<))
      ∙ p.bits k i l
      ∙ ground (arith, whole)
  get_with k i l (inr (inl e)) =
      ap (bit i) (get_or-append_at u [] with_bit k 0 e)
      ∙ in_last i l
      ∙ ap (λ k. if 64 * k + i == length bs then true else get_or bs (64 * k + i) false) (sym e)
  get_with k i l (inr (inr k>)) =
      ap (bit i)
        (get_or-past (u ++ with_bit ∷ []) k 0 (omega (arith, length-append u (with_bit ∷ []))))
      ∙ bit-zero i
      ∙ ground (arith, whole, get_or-past bs (64 * k + i) false (omega (arith, whole)))

  pub Packs-or : Packs (u ++ with_bit ∷ []) (bs ++ true ∷ [])
  Packs-or = record {
    covers = omega (
      arith,
      p.covers,
      length-append u (with_bit ∷ []),
      length-append u (last ∷ []),
      length-append bs (true ∷ []),
    );
    bits = λ k i l. get_with k i l (order k (length u)) ∙ sym (get_or-more bs true (64 * k + i));
  }
