-- ===== src/GroupWriter/Building.antt =====
-- lib/writer.c: a new row group writer, and one with a column more, can be finished.
use columnix.Base.{
  ℕ, ◌+◌, ◌*◌, ◌%◌, ◌≤◌, ◌<◌, ◌≡◌, refl, ap, ◌∙◌, inl, inr, true, false, not, ◌&&◌, List, [], ◌∷◌,
  ◌++◌, none, ◌==◌, ltb, word_mod, length, length-append, All-append, Bool-cases, ℤ, InSigned, done,
  arith,
}
use columnix.Attempt.{success, Call, ◌>>=◌, ◌>>◌, modify, check, then-success}
use columnix.Common.{
  ColumnType, EncodingType, plain, CompressionType, column_type_code, compression_code,
}
use columnix.System.{System}
use columnix.Column.{Column, new, new_size, half64, half32, column_struct_size, column_initial_size}
use columnix.Column.Strings.{NulFree, text}
use columnix.Column.Texts.{HoldsText, put_str-Appends, grows-text}
use columnix.File.{ColumnDescriptor}
use columnix.File.Fits.{DescriptorFits}
use columnix.Column.Grow.{Grants, Writable}
use columnix.File.Stream.{Disk}
use columnix.GroupWriter.{
  GroupWriter, group_writer_new, group_writer_size, encoding_code, add_string, ensure_descriptors,
  set_name, group_writer_add_column,
}
use columnix.GroupWriter.Finish.{word32}
use columnix.GroupWriter.Closing.{Ready, extra, add_string-put}

abbrev pub blank : GroupWriter
blank = record {
  file = record { bytes = []; position = 0 };
  descriptors = [];
  descriptors_size = 0;
  headers = [];
  headers_size = 0;
  strings = record {
    buffer = [];
    count = 0;
    offset = 0;
    size = 64;
    type = ColumnType.str;
    encoding = plain;
    mmapped = false;
  };
  strings_count = 0;
  metadata = none;
  row_count = 0;
  header_written = false;
  footer_written = false;
}

-- A new writer, which can be finished.
pub group_writer_new-Ready :
    (sys : System) (disk : Disk)
    → Grants sys
    → disk.opens ≡ true
    → (group_writer_new sys disk ≡ done blank) × Ready [] blank
unfolding group_writer_new new new_size
group_writer_new-Ready sys disk grants opens = (
  rw
      (
        group_writer_new,
        grants group_writer_size,
        new,
        new_size,
        grants column_struct_size,
        grants column_initial_size,
        opens,
      )
      refl,
  record {
    at_end = refl;
    aligned = refl;
    unfinished = refl;
    stocked = record {
      writable = record { own = refl; some_size = omega arith; within = omega arith; full = refl };
      holds = record { typed = refl; stored = refl; tail = refl; counted = refl; clean = tt };
      counted = refl;
      few = omega arith;
      room = omega arith;
      clean = tt;
    };
    headers_fit = tt;
    descriptors_fit = tt;
    few_headers = omega arith;
    few_descriptors = omega arith;
    rows = omega arith;
    small = omega arith;
  },
)

-- Room for a column more: in the arrays, the strings and the file.
pub record Spare (ss : List (List ℕ)) (name : List ℕ) (level : ℤ) (w : GroupWriter) : Type 0 where
  pub clean : NulFree name
  pub few : length ss + 1 < half32
  pub room : length (text ((ss ++ name ∷ []) ++ extra w.metadata)) ≤ half64
  pub signed : InSigned half32 level
  pub array : length w.descriptors ≤ w.descriptors_size
  pub size : w.descriptors_size * 2 < word_mod
  pub few_descriptors : length w.descriptors + 1 < word32
  pub small :
      w.file.position
        + length (text ((ss ++ name ∷ []) ++ extra w.metadata))
        + 16 * length w.headers
        + 24 * length w.descriptors
        + 224
      < word_mod

-- The descriptor of a column, whose name is the string `id`.
abbrev pub descriptor : ℕ → ColumnType → EncodingType → CompressionType → ℤ → ColumnDescriptor
descriptor id type encoding compression level = record {
  name = id;
  type = column_type_code type;
  encoding = encoding_code encoding;
  compression = compression_code compression;
  compression_level = level;
}

descriptor-Fits :
    (id : ℕ) (type : ColumnType) (encoding : EncodingType) (compression : CompressionType)
    (level : ℤ)
    → id < half32
    → InSigned half32 level
    → DescriptorFits (descriptor id type encoding compression level)
descriptor-Fits id type encoding compression level h l = record {
  name = omega (arith, h);
  type = ground arith;
  encoding = ground arith;
  compression = ground arith;
  level = l;
}

set_name-append :
    (id : ℕ) (ds : List ColumnDescriptor) (d : ColumnDescriptor)
    → set_name id (ds ++ d ∷ []) ≡ ds ++ record d { name = id } ∷ []
set_name-append id [] d = refl
set_name-append id (e ∷ []) d = refl
set_name-append id (e ∷ f ∷ ds) d = ap (λ xs. e ∷ xs) (set_name-append id (f ∷ ds) d)

module _ (sys : System) (grants : Grants sys) where
  ensure_descriptors-room :
      (w : GroupWriter)
      → length w.descriptors ≤ w.descriptors_size
      → w.descriptors_size * 2 < word_mod
      → (n : ℕ) × (ensure_descriptors sys w ≡ success tt (record w { descriptors_size = n }))
        × (length w.descriptors + 1 ≤ n)
        × (w.descriptors_size ≤ 2 * length w.descriptors + 8 → n ≤ 2 * length w.descriptors + 8)
  unfolding ensure_descriptors
  ensure_descriptors-room w h small = elim (Bool-cases (length w.descriptors == 0)) [
    | inl e ↦ (8, rw (e, grants (24 * 8)) refl, ground (arith, e), λ b. omega arith)
    | inr e ↦ elim (Bool-cases (length w.descriptors == w.descriptors_size)) [
      | inr f ↦ (w.descriptors_size, rw (e, f) refl, ground (arith, f, h), λ b. b)
      | inl f ↦
          let n = w.descriptors_size * 2 % word_mod in
          let flat : n ≡ w.descriptors_size * 2 = omega (arith, small) in
          let grows : (not (n == 0) && ltb w.descriptors_size n) ≡ true =
            ground (arith, e, f, flat) in
          (
            n,
            rw (e, f, grows, grants (n * 24)) refl,
            ground (arith, e, f, flat),
            λ b. ground (arith, f, flat),
          )
    ]
  ]

  -- The descriptors and the strings with the name and the column.
  abbrev pub enlarged : GroupWriter → List ℕ → ColumnDescriptor → ℕ → Column → GroupWriter
  enlarged w name d n strings = record w {
    descriptors = w.descriptors ++ d ∷ [];
    descriptors_size = n;
    strings = strings;
    strings_count = w.strings_count + 1;
  }

  module _ (ss : List (List ℕ)) (name : List ℕ) (type : ColumnType) (encoding : EncodingType)
      (compression : CompressionType) (level : ℤ) (w : GroupWriter) (ready : Ready ss w)
      (spare : Spare ss name level w) where
    abbrev added : ColumnDescriptor
    added = descriptor (length ss) type encoding compression level

    enlarged-Ready :
        (n : ℕ) (strings : Column)
        → Writable strings
        → HoldsText (ss ++ name ∷ []) strings
        → Ready (ss ++ name ∷ []) (enlarged w name added n strings)
    enlarged-Ready n strings own holds = record {
      at_end = ready.at_end;
      aligned = ready.aligned;
      unfinished = ready.unfinished;
      stocked = record {
        writable = own;
        holds = holds;
        counted = omega (arith, ready.stocked.counted, length-append ss (name ∷ []));
        few = omega (arith, spare.few, length-append ss (name ∷ []));
        room = spare.room;
        clean = ready.stocked.clean;
      };
      headers_fit = ready.headers_fit;
      descriptors_fit = All-append DescriptorFits w.descriptors (added ∷ []) ready.descriptors_fit (
        descriptor-Fits (length ss) type encoding compression level (omega (arith, spare.few))
            spare.signed,
        tt,
      );
      few_headers = ready.few_headers;
      few_descriptors =
          omega (arith, spare.few_descriptors, length-append w.descriptors (added ∷ []));
      rows = ready.rows;
      small = omega (arith, spare.small, length-append w.descriptors (added ∷ []));
    }

    abbrev set_id : ℕ → Call GroupWriter (Unit {0})
    set_id id = modify (λ v. record v { descriptors = set_name id v.descriptors })

    abbrev named : Call GroupWriter (Unit {0})
    named =
        modify (λ v. record v {
          descriptors = v.descriptors ++ descriptor 0 type encoding compression level ∷ [];
        })
        >> (add_string sys name >>= set_id)

    pub group_writer_add_column-Enlarged :
        w.header_written ≡ false
        → (n : ℕ) × (strings : Column) × (group_writer_add_column sys name type encoding compression
              level w
            ≡ success tt (enlarged w name added n strings))
          × Ready (ss ++ name ∷ []) (enlarged w name added n strings)
          × (length w.descriptors + 1 ≤ n)
          × (w.descriptors_size ≤ 2 * length w.descriptors + 8 → n ≤ 2 * length w.descriptors + 8)
    unfolding group_writer_add_column
    group_writer_add_column-Enlarged early =
        let (n, ensured, room, bound) = ensure_descriptors-room w spare.array spare.size in
        let nameless : ColumnDescriptor = descriptor 0 type encoding compression level in
        let begun : GroupWriter = record w {
          descriptors_size = n;
          descriptors = w.descriptors ++ nameless ∷ [];
        } in
        let (strings, put, own, holds) =
          put_str-Appends sys grants w.strings ss name ready.stocked.writable ready.stocked.holds
            spare.clean (omega (arith, spare.room, grows-text (ss ++ name ∷ []) (extra w.metadata)))
            (omega (arith, spare.few)) in
        let string =
          add_string-put sys grants begun name strings put
            (omega (arith, ready.stocked.counted, spare.few)) in
        (
          n,
          strings,
          ap (λ b. (check (not b) >> (ensure_descriptors sys >> named)) w) early
              ∙ then-success (ensure_descriptors sys) (λ _. named) w
                  (record w { descriptors_size = n }) tt ensured
              ∙ then-success (add_string sys name) set_id begun
                  (record begun { strings = strings; strings_count = w.strings_count + 1 })
                  w.strings_count string
              ∙ ap
                  (λ ds. success tt (record (enlarged w name added n strings) { descriptors = ds }))
                  (set_name-append w.strings_count w.descriptors nameless
                    ∙ ap (λ id. w.descriptors ++ descriptor id type encoding compression level ∷ [])
                        ready.stocked.counted),
          enlarged-Ready n strings own holds,
          room,
          bound,
        )

    -- Where no memory is refused: for a row group writer that can be finished, has not written the
    -- file header, and has room in its arrays, the strings and the file,
    -- cx_row_group_writer_add_column with a name without a NUL succeeds and gives a writer that
    -- can be finished, with the name behind its strings and, behind its descriptors, one of the
    -- column, whose name is the number of that string, within the size of the array.
    pub group_writer_add_column-Ready :
        w.header_written ≡ false
        → (v : GroupWriter) × (group_writer_add_column sys name type encoding compression level w
            ≡ success tt v)
          × Ready (ss ++ name ∷ []) v
          × (v.descriptors
              ≡ w.descriptors ++ descriptor (length ss) type encoding compression level ∷ [])
          × (length v.descriptors ≤ v.descriptors_size)
    group_writer_add_column-Ready early =
        let (n, strings, e, next, room, bound) = group_writer_add_column-Enlarged early in
        (
          enlarged w name added n strings,
          e,
          next,
          refl,
          omega (arith, room, length-append w.descriptors (added ∷ [])),
        )
