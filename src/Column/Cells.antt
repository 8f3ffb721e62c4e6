-- ===== src/Column/Cells.antt =====
-- lib/column.c: the values of a column of fixed-size cells, for i32, i64, flt and dbl alike: how a
-- value lies in its cell, and the batches that a cursor reads.
use columnix.Base.{
  ℕ, zero, suc, ◌+◌, ◌-◌, ◌*◌, ◌^◌, ◌≤◌, ◌<◌, ◌≡◌, refl, ap, ap₂, ◌∙◌, sym, List, [], ◌∷◌, map, min,
  word_mod, length, length-map, take-min, take, drop, All, length-drop, bytes_of, Fits, ℤ, InSigned,
  to_signed, of_signed, to_signed-of_signed, of_signed-lt, done, arith, cells,
}
use columnix.Common.{ColumnType}
use columnix.Column.{Column, half32, half64}
use columnix.Column.Read.{CellsAt, Divides, four-Divides, eight-Divides, left, skip_cells, cells_at}
use columnix.Column.Cursor.{
  Cursor, skip, bytes_at, skip_i32, skip_i64, skip_flt, skip_dbl, next_batch_i32, next_batch_i64,
  next_batch_flt, next_batch_dbl,
}

-- How the values of a type lie in cells of `width` bytes.
pub record Codec (A : Type 0) : Type 1 where
  pub width : ℕ
  pub type : ColumnType
  pub encode : A → ℕ
  pub decode : ℕ → A
  pub InRange : A → Type 0
  pub decode-encode : (v : A) → InRange v → decode (encode v) ≡ v
  pub encode-lt : (v : A) → InRange v → encode v < 256 ^ width
  pub divides : Divides width
  pub wide : 1 ≤ width

abbrev pub i32_codec : Codec ℤ
i32_codec = record {
  width = 4;
  type = ColumnType.i32;
  encode = of_signed half32;
  decode = to_signed half32;
  InRange = InSigned half32;
  decode-encode = to_signed-of_signed half32;
  encode-lt = of_signed-lt half32;
  divides = four-Divides;
  wide = omega arith;
}

abbrev pub i64_codec : Codec ℤ
i64_codec = record {
  width = 8;
  type = ColumnType.i64;
  encode = of_signed half64;
  decode = to_signed half64;
  InRange = InSigned half64;
  decode-encode = to_signed-of_signed half64;
  encode-lt = of_signed-lt half64;
  divides = eight-Divides;
  wide = omega arith;
}

-- Floats and doubles are bit patterns.
abbrev pub flt_codec : Codec ℕ
flt_codec = record {
  width = 4;
  type = ColumnType.flt;
  encode = λ v. v;
  decode = λ v. v;
  InRange = λ v. v < 256 ^ 4;
  decode-encode = λ v h. refl;
  encode-lt = λ v h. h;
  divides = four-Divides;
  wide = omega arith;
}

abbrev pub dbl_codec : Codec ℕ
dbl_codec = record {
  width = 8;
  type = ColumnType.dbl;
  encode = λ v. v;
  decode = λ v. v;
  InRange = λ v. v < 256 ^ 8;
  decode-encode = λ v h. refl;
  encode-lt = λ v h. h;
  divides = eight-Divides;
  wide = omega arith;
}

module _ {A : Type 0} (codec : Codec A) where
  -- The column's contents are the values `vs`.
  pub record Holds (vs : List A) (column : Column) : Type 0 where
    pub typed : column.type ≡ codec.type
    pub stored : column.buffer ≡ bytes_of codec.width (map codec.encode vs)
    pub tail : column.offset ≡ codec.width * length vs
    pub counted : column.count ≡ length vs
    pub in_range : All codec.InRange vs

  -- The cursor stands before value `p` of a column that holds `vs`.
  pub record At (vs : List A) (c : Cursor) (p : ℕ) : Type 0 where
    pub holds : Holds vs c.column
    pub small : codec.width * length vs < word_mod
    pub at : c.position ≡ codec.width * p
    pub inside : p ≤ length vs

  encoded-Fits : (vs : List A) → All codec.InRange vs → Fits codec.width (map codec.encode vs)
  encoded-Fits [] r = tt
  encoded-Fits (v ∷ vs) r = (codec.encode-lt v r.0, encoded-Fits vs r.1)

  decoded_take :
      (m : ℕ) (vs : List A)
      → All codec.InRange vs
      → map codec.decode (take m (map codec.encode vs)) ≡ take m vs
  decoded_take zero vs r = refl
  decoded_take (suc m) [] r = refl
  decoded_take (suc m) (v ∷ vs) r = ap₂ ◌∷◌ (codec.decode-encode v r.0) (decoded_take m vs r.1)

  decoded :
      (m p : ℕ) (vs : List A)
      → All codec.InRange vs
      → map codec.decode (take m (drop p (map codec.encode vs))) ≡ take m (drop p vs)
  decoded m zero vs r = decoded_take m vs r
  decoded m (suc p) [] r = decoded_take m [] r
  decoded m (suc p) (v ∷ vs) r = decoded m p vs r.1

  module _ {vs : List A} {c : Cursor} {p : ℕ} (a : At vs c p) where
    At-CellsAt : CellsAt codec.width codec.type (map codec.encode vs) c p
    At-CellsAt = record {
      typed = a.holds.typed;
      stored = a.holds.stored;
      tail = rw (length-map codec.encode vs) a.holds.tail;
      fits = encoded-Fits vs a.holds.in_range;
      small = rw (length-map codec.encode vs) a.small;
      at = a.at;
      inside = rw (length-map codec.encode vs) a.inside;
    }

    -- The cursor after a skip of `k` values.
    abbrev pub behind : ℕ → Cursor
    behind k = record c { position = codec.width * (p + min k (length vs - p)) }

    pub skip-At : (k : ℕ) → skip c codec.type codec.width k ≡ done (min k (length vs - p), behind k)
    skip-At k =
        skip_cells codec.divides At-CellsAt k
        ∙ ap (λ n. done (min k (n - p), record c { position = codec.width * (p + min k (n - p)) }))
            (length-map codec.encode vs)

    pub behind-At : (k : ℕ) → At vs (behind k) (p + min k (length vs - p))
    behind-At k = record {
      holds = a.holds;
      small = a.small;
      at = refl;
      inside = omega (arith, a.inside);
    }

    pub read-At :
        (k : ℕ)
        → map codec.decode (cells (min k (length vs - p)) codec.width (bytes_at c))
          ≡ take k (drop p vs)
    read-At k =
        ap (λ n. map codec.decode (cells (min k (n - p)) codec.width (bytes_at c)))
          (sym (length-map codec.encode vs))
        ∙ ap (map codec.decode) (cells_at codec.divides At-CellsAt k)
        ∙ decoded (left (map codec.encode vs) p k) p vs a.holds.in_range
        ∙ take-min k (left (map codec.encode vs) p k) (drop p vs)
            (omega (arith, length-drop p vs, length-map codec.encode vs))

map-id : (xs : List ℕ) → map (λ v. v) xs ≡ xs
map-id [] = refl
map-id (x ∷ xs) = ap (λ t. x ∷ t) (map-id xs)

-- The batch that is read, and the cursor behind it.
module _ {vs : List ℤ} {c : Cursor} {p : ℕ} where
  pub next_batch_i32-At :
      (a : At i32_codec vs c p)
      → next_batch_i32 c ≡ done (take 64 (drop p vs), behind i32_codec a 64)
  unfolding next_batch_i32 skip_i32
  next_batch_i32-At a = rw (skip-At i32_codec a 64, read-At i32_codec a 64) refl

  pub next_batch_i64-At :
      (a : At i64_codec vs c p)
      → next_batch_i64 c ≡ done (take 64 (drop p vs), behind i64_codec a 64)
  unfolding next_batch_i64 skip_i64
  next_batch_i64-At a = rw (skip-At i64_codec a 64, read-At i64_codec a 64) refl

module _ {vs : List ℕ} {c : Cursor} {p : ℕ} where
  pub next_batch_flt-At :
      (a : At flt_codec vs c p)
      → next_batch_flt c ≡ done (take 64 (drop p vs), behind flt_codec a 64)
  unfolding next_batch_flt skip_flt
  next_batch_flt-At a = rw (skip-At flt_codec a 64, sym (map-id _) ∙ read-At flt_codec a 64) refl

  pub next_batch_dbl-At :
      (a : At dbl_codec vs c p)
      → next_batch_dbl c ≡ done (take 64 (drop p vs), behind dbl_codec a 64)
  unfolding next_batch_dbl skip_dbl
  next_batch_dbl-At a = rw (skip-At dbl_codec a 64, sym (map-id _) ∙ read-At dbl_codec a 64) refl
