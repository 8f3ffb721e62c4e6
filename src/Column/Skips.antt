-- ===== src/Column/Skips.antt =====
-- lib/column.c: a skip by whole batches that ends before the last value passes that many values.
use columnix.Base.{
  ℕ, ◌+◌, ◌-◌, ◌*◌, ◌/◌, ◌%◌, ◌<◌, ◌≡◌, refl, ap, ◌∙◌, sym, true, Bool, List, ℤ, min, ◌==◌, length,
  length-drop, drop, drop-add, Outcome, done, arith, inl, lt→ltb,
}
use mathlib.Core.Path.{subst}
use columnix.Common.{ColumnType, same_type}
use columnix.Column.Cursor.{
  Cursor, valid, skip, skip_bit, skip_i32, skip_i64, skip_flt, skip_dbl, skip_str, skip_strs,
}
use columnix.Column.Read.{eight-Divides, skip_cells}
use columnix.Column.Cells.{
  Codec, At, behind, behind-At, skip-At, i32_codec, i64_codec, flt_codec, dbl_codec,
}
use columnix.Column.Strings.{TextAt, skip_strs-drop}
use columnix.Column.Texts.{HoldsText, StrAt}
use columnix.Column.Bitset.{BitAt, at_word}

-- From a batch that starts at `p` to the batch that starts at `q`.
pub record Skips {A : Type 0} (skip_values : Cursor → ℕ → Outcome (ℕ × Cursor)) (vs : List A)
    (At : Cursor → ℕ → Type 0) : Type 0 where
  pub to_batch :
      (c : Cursor) (p k : ℕ)
      → At c p
      → p % 64 ≡ 0
      → k % 64 ≡ 0
      → p + k < length vs
      → (rest : Cursor) × (skip_values c k ≡ done (k, rest)) × At rest (p + k)

module _ {A : Type 0} (codec : Codec A) (vs : List A) where
  pub cells-Skips : Skips (λ c k. skip c codec.type codec.width k) vs (At codec vs)
  cells-Skips = record {
    to_batch = λ c p k a e f h.
        let all : min k (length vs - p) ≡ k = omega arith in
        (
          behind codec a k,
          skip-At codec a k ∙ ap (λ n. done (n, behind codec a k)) all,
          subst (λ n. At codec vs (behind codec a k) (p + n)) all (behind-At codec a k),
        );
  }

pub i32-Skips : (vs : List ℤ) → Skips skip_i32 vs (At i32_codec vs)
unfolding skip_i32
i32-Skips = cells-Skips i32_codec

pub i64-Skips : (vs : List ℤ) → Skips skip_i64 vs (At i64_codec vs)
unfolding skip_i64
i64-Skips = cells-Skips i64_codec

pub flt-Skips : (vs : List ℕ) → Skips skip_flt vs (At flt_codec vs)
unfolding skip_flt
flt-Skips = cells-Skips flt_codec

pub dbl-Skips : (vs : List ℕ) → Skips skip_dbl vs (At dbl_codec vs)
unfolding skip_dbl
dbl-Skips = cells-Skips dbl_codec

skip_str-strs :
    (c : Cursor) (k : ℕ)
    → same_type c.column.type ColumnType.str ≡ true
    → skip_str c k ≡ skip_strs k 0 c
unfolding skip_str
skip_str-strs c k h = rw h refl

pub str-Skips : (ss : List (List ℕ)) → Skips skip_str ss (StrAt ss)
str-Skips ss = record {
  to_batch = λ c p k a e f h.
      let (rest, s, l) = skip_strs-drop k 0 (drop p ss) c a.rest in
      let all : 0 + min k (length (drop p ss)) ≡ k = omega (arith, length-drop p ss) in
      (
        rest,
        skip_str-strs c k (rw a.holds.typed refl) ∙ s ∙ ap (λ n. done (n, rest)) all,
        record {
          holds = subst (HoldsText ss) (sym l.1) a.holds;
          rest = subst (λ left. TextAt left rest) (sym (drop-add p k (p + k) ss refl)) l.0;
          inside = omega arith;
        },
      );
}

module _ {bs : List Bool} {c : Cursor} {p : ℕ} (a : BitAt bs c p) (k : ℕ) (e : p % 64 ≡ 0)
    (f : k % 64 ≡ 0) (h : p + k < length bs) where
  abbrev pub words_on : Cursor
  words_on = record c { position = 8 * (p / 64 + k / 64) }

  skip_words : skip c ColumnType.bit 8 (k / 64) ≡ done (k / 64, words_on)
  skip_words =
      skip_cells eight-Divides (at_word a (omega arith)) (k / 64)
      ∙ ap (λ n. done (n, record c { position = 8 * (p / 64 + n) }))
          {x = min (k / 64) (length a.holds.words - p / 64)} {y = k / 64}
          (omega (arith, a.holds.packs.covers))

  words_on-valid : valid words_on ≡ true
  words_on-valid =
      lt→ltb (8 * (p / 64 + k / 64)) c.column.offset
        (omega (arith, a.holds.tail, a.holds.packs.covers))

  pub skip_bit-words : skip_bit c k ≡ done (k, words_on)
  unfolding skip_bit
  skip_bit-words =
      let whole : (k % 64 == 0) ≡ true = ground arith in
      let bits : k / 64 * 64 ≡ k = omega arith in rw (whole, skip_words, words_on-valid, bits) refl

  pub words_on-BitAt : BitAt bs words_on (p + k)
  words_on-BitAt = record {
    holds = a.holds;
    small = a.small;
    at = omega arith;
    aligned = inl (omega arith);
    inside = omega arith;
  }

pub bit-Skips : (bs : List Bool) → Skips skip_bit bs (BitAt bs)
bit-Skips bs = record {
  to_batch =
      λ c p k a e f h. (words_on a k e f h, skip_bit-words a k e f h, words_on-BitAt a k e f h);
}
