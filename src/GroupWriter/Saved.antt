-- ===== src/GroupWriter/Saved.antt =====
-- lib/writer.c: what the columns of a row group are in the file, and that an error of
-- `cx_row_group_writer_put` leaves what was in the file before.
use columnix.Base.{
  ℕ, zero, suc, ◌+◌, ◌≤◌, ◌≡◌, refl, sym, ap, ◌∙◌, ◌⊎◌, inl, inr, List, [], ◌∷◌, ◌++◌, length,
  length-append, take, drop, take-le, drop-length_append, ℤ, done, Outcome-cases, arith,
}
use mathlib.Core.List.{append_assoc}
use columnix.Attempt.{pure, Ends, Ends-bind}
use columnix.System.{System}
use columnix.Column.{Column}
use columnix.Index.{Index}
use columnix.RowGroup.{RowGroup, column_index, group_column, group_nulls}
use columnix.File.{ColumnDescriptor, ColumnHeader}
use columnix.File.Stream.{Disk, Stream}
use columnix.GroupReader.{bytes_at}
use columnix.GroupWriter.{GroupWriter, encoding_code, align, write}
use columnix.GroupWriter.Append.{align-IsNext}
use columnix.GroupWriter.Tail.{no_bytes}
use columnix.GroupWriter.Put.{Stored, compress_column, put_column, null_compression, null_level}
use columnix.GroupWriter.Written.{
  Limits, offset_max, kept, length-kept, Within, Extends-refl, Extends-trans, Wrote, Wrote-Extends,
  OnlyFile-trans, Spoilt, WroteBlock, write-Ends, take-append_left,
}

align_mono : (a b : ℕ) → a ≤ b → b ≤ offset_max → align a ≤ align b
align_mono a b h m = omega (arith, align-IsNext a (omega arith), align-IsNext b (omega arith))

drop-append_left : (n : ℕ) (xs ys : List ℕ) → n ≤ length xs → drop n (xs ++ ys) ≡ drop n xs ++ ys
drop-append_left zero xs ys h = refl
drop-append_left (suc n) [] ys h = absurd (omega arith)
drop-append_left (suc n) (x ∷ xs) ys h = drop-append_left n xs ys (omega arith)

length-drop_le : (n k : ℕ) (xs : List ℕ) → n + k ≤ length xs → k ≤ length (drop n xs)
length-drop_le zero k xs h = omega arith
length-drop_le (suc n) k [] h = omega arith
length-drop_le (suc n) k (x ∷ xs) h = length-drop_le n k xs (omega arith)

-- What lies inside the bytes is not changed by what comes behind them.
pub bytes_at-append :
    (bs more : List ℕ) (offset size : ℕ)
    → offset + size ≤ length bs
    → bytes_at (bs ++ more) offset size ≡ bytes_at bs offset size
bytes_at-append bs more offset size h =
    ap (take size) (drop-append_left offset bs more (omega arith))
    ∙ take-append_left size (drop offset bs) more (length-drop_le offset size bs h)

-- The buffer of a column is in the file, compressed as its header says.
pub record Saved (sys : System) (column : Column) (index : Index) (code : ℕ) (level : ℤ)
    (bs : List ℕ) (h : ColumnHeader) : Type 0 where
  pub stored : Stored
  pub compressed : compress_column sys code level (take column.offset column.buffer) ≡ done stored
  pub block : bytes_at bs h.offset h.size ≡ stored.block
  pub reach : h.offset + h.size ≤ align (length bs)
  pub there : (h.size ≡ 0) ⊎ (h.offset + h.size ≤ length bs)
  pub size : h.size ≡ length stored.block
  pub whole : h.decompressed_size ≡ column.offset
  pub code_of : h.compression ≡ stored.code
  pub index_of : h.index ≡ index

module _ (sys : System) (column : Column) (index : Index) (code : ℕ) (level : ℤ) where
  pub Saved-append :
      (bs more : List ℕ) (h : ColumnHeader)
      → length (bs ++ more) ≤ offset_max
      → Saved sys column index code level bs h
      → Saved sys column index code level (bs ++ more) h
  Saved-append bs more h m s = record {
    stored = s.stored;
    compressed = s.compressed;
    block = same s.there ∙ s.block;
    reach = omega (
      arith,
      s.reach,
      align_mono (length bs) (length (bs ++ more)) (omega (arith, length-append bs more)) m,
    );
    there = elim s.there [ inl z ↦ inl z | inr l ↦ inr (omega (arith, l, length-append bs more)) ];
    size = s.size;
    whole = s.whole;
    code_of = s.code_of;
    index_of = s.index_of;
  }
    where
      same :
          ((h.size ≡ 0) ⊎ (h.offset + h.size ≤ length bs))
          → bytes_at (bs ++ more) h.offset h.size ≡ bytes_at bs h.offset h.size
      same (inl z) = rw z refl
      same (inr l) = bytes_at-append bs more h.offset h.size l

  abbrev header : Stream → Stored → ColumnHeader
  header f stored = record {
    offset = align f.position;
    size = length stored.block;
    decompressed_size = column.offset;
    compression = stored.code;
    encoding = encoding_code column.encoding;
    index = index;
  }

  -- A block that has just been written.
  module _ (f last : Stream) (w : Within f) (stored : Stored) (o : Wrote f last stored.block)
      (e : compress_column sys code level (take column.offset column.buffer) ≡ done stored) where
    made :
        bytes_at (kept last) (align f.position) (length stored.block) ≡ stored.block
        → align f.position + length stored.block ≤ align (length (kept last))
        → ((length stored.block ≡ 0)
            ⊎ (align f.position + length stored.block ≤ length (kept last)))
        → Saved sys column index code level (kept last) (header f stored)
    made b r t = record {
      stored = stored;
      compressed = e;
      block = b;
      reach = r;
      there = t;
      size = refl;
      whole = refl;
      code_of = refl;
      index_of = refl;
    }

    -- It lies behind the bytes before it and the gap.
    block-found :
        f.position + length o.space ≡ align f.position
        → bytes_at (kept last) (align f.position) (length stored.block) ≡ stored.block
    block-found p =
        let here : align f.position ≡ length (kept f ++ o.space) =
          omega (arith, p, length-append (kept f) o.space, length-kept f w) in
        ap (λ bs. bytes_at bs (align f.position) (length stored.block))
          (o.stored ∙ sym (append_assoc (kept f) o.space stored.block))
        ∙ ap (λ n. take (length stored.block) (drop n (kept f ++ o.space ++ stored.block))) here
        ∙ ap (take (length stored.block)) (drop-length_append (kept f ++ o.space) stored.block)
        ∙ take-le (length stored.block) stored.block (omega arith)

    length-last : length (kept last) ≡ f.position + (length o.space + length stored.block)
    length-last = omega (
      arith,
      ap length o.stored,
      length-append (kept f) (o.space ++ stored.block),
      length-append o.space stored.block,
      length-kept f w,
    )

    written-Saved : Saved sys column index code level (kept last) (header f stored)
    written-Saved = elim o.place [
      | inl z ↦
          let empty : bytes_at (kept last) (align f.position) (length stored.block) ≡ stored.block =
            ap (bytes_at (kept last) (align f.position)) z.0
            ∙ sym (no_bytes stored.block (ground (arith, z.0))) in
          let same : align (length (kept last)) ≡ align f.position =
            ap align (length-kept last o.within ∙ ap (λ t. t.position) z.1) in
          made empty (omega (arith, z.0, same)) (inl z.0)
      | inr p ↦
          let inside : align f.position + length stored.block ≡ length (kept last) =
            omega (arith, p, length-last) in
          made (block-found p)
            (omega (
              arith,
              inside,
              align-IsNext (length (kept last))
                  (omega (arith, length-kept last o.within, o.within.small)),
            ))
            (inr (omega (arith, inside)))
    ]

-- The columns of a row group from `i` on, and their null bits, are in the file.
pub record SavedColumn (sys : System) (bs : List ℕ) (row_group : RowGroup) (i : ℕ)
    (d : ColumnDescriptor) (h n : ColumnHeader) (next : RowGroup) : Type 0 where
  pub column : Column
  pub nulls : Column
  pub with_column : RowGroup
  pub index : Index
  pub column_of : group_column sys row_group i ≡ done (column, with_column)
  pub nulls_of : group_nulls sys with_column i ≡ done (nulls, next)
  pub index_of : column_index row_group i ≡ done index
  pub values_saved : Saved sys column index d.compression d.compression_level bs h
  pub nulls_saved : Saved sys nulls index null_compression null_level bs n

abbrev pub SavedColumns :
    System → List ℕ → RowGroup → ℕ → List ColumnDescriptor → List ColumnHeader → Type 0
SavedColumns sys bs row_group i [] [] = Unit
SavedColumns sys bs row_group i [] (h ∷ hs) = ⊥
SavedColumns sys bs row_group i (d ∷ ds) [] = ⊥
SavedColumns sys bs row_group i (d ∷ ds) (h ∷ []) = ⊥
SavedColumns sys bs row_group i (d ∷ ds) (h ∷ n ∷ hs) =
    (next : RowGroup) × SavedColumn sys bs row_group i d h n next
    × SavedColumns sys bs next (suc i) ds hs

pub SavedColumns-append :
    (sys : System) (bs more : List ℕ) (row_group : RowGroup) (i : ℕ) (ds : List ColumnDescriptor)
    (hs : List ColumnHeader)
    → length (bs ++ more) ≤ offset_max
    → SavedColumns sys bs row_group i ds hs
    → SavedColumns sys (bs ++ more) row_group i ds hs
SavedColumns-append sys bs more row_group i [] [] m s = s
SavedColumns-append sys bs more row_group i [] (h ∷ hs) m s = absurd s
SavedColumns-append sys bs more row_group i (d ∷ ds) [] m s = absurd s
SavedColumns-append sys bs more row_group i (d ∷ ds) (h ∷ []) m s = absurd s
SavedColumns-append sys bs more row_group i (d ∷ ds) (h ∷ n ∷ hs) m s =
    let c = s.1 in
    (
      s.0,
      record {
        column = c.column;
        nulls = c.nulls;
        with_column = c.with_column;
        index = c.index;
        column_of = c.column_of;
        nulls_of = c.nulls_of;
        index_of = c.index_of;
        values_saved =
            Saved-append sys c.column c.index d.compression d.compression_level bs more h m
              c.values_saved;
        nulls_saved =
            Saved-append sys c.nulls c.index null_compression null_level bs more n m c.nulls_saved;
      },
      SavedColumns-append sys bs more s.0 (suc i) ds hs m s.2,
    )

pub Spoilt-trans : (w v u : GroupWriter) → Spoilt w v → Spoilt v u → Spoilt w u
Spoilt-trans w v u a b = (OnlyFile-trans w v u a.0 b.0, Extends-trans w.file v.file u.file a.1 b.1)

module _ (sys : System) (disk : Disk) (limits : Limits disk) where
  pub put_column-Ends :
      (w : GroupWriter) (column : Column) (index : Index) (code : ℕ) (level : ℤ)
      → Within w.file
      → Ends
          (λ h v. Spoilt w v × Saved sys column index code level (kept v.file) h)
          (Spoilt w)
          (put_column sys disk column index code level w)
  unfolding put_column
  put_column-Ends w column index code level i =
      elim (Outcome-cases (compress_column sys code level (take column.offset column.buffer))) [
        | inl e ↦
            rw (put_column, e.1)
              (Ends-bind (λ _ v. WroteBlock w e.0.block v) (Spoilt w)
                (λ h v. Spoilt w v × Saved sys column index code level (kept v.file) h)
                (λ _. pure (header sys column index code level w.file e.0)) (write disk e.0.block w)
                (write-Ends disk limits w i e.0.block)
                (λ _ v o. (
                  (o.0, Wrote-Extends w.file v.file e.0.block o.1),
                  written-Saved sys column index code level w.file v.file i e.0 o.1 e.1,
                )))
        | inr (inl e) ↦ rw (put_column, e) (refl, Extends-refl w.file i)
        | inr (inr e) ↦ rw (put_column, e) tt
      ]
