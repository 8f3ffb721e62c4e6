-- ===== src/GroupWriter/Written.antt =====
-- lib/writer.c: `cx_row_group_writer_write` on any disk. What stands before the position of the stream
-- stays, whether the write succeeds or is refused half-way.
use columnix.Base.{
  ℕ, zero, suc, ◌+◌, ◌-◌, ◌%◌, ◌≤◌, ◌<◌, ◌≡◌, refl, sym, ap, ◌∙◌, ◌⊎◌, inl, inr, true, List, [],
  ◌∷◌, ◌++◌, ◌==◌, length, length-append, length-take, length-drop, take, drop, take-append-drop,
  take-length_append, Bool-cases, arith,
}
use mathlib.Core.List.{append-nil, append_assoc}
use columnix.Attempt.{Call, ◌>>◌, Ends}
use columnix.File.Stream.{Disk, Stream, zeros, padded, fwrite, fseeko}
use columnix.GroupWriter.{GroupWriter, align, seek, write, on_file}
use columnix.GroupWriter.Append.{align-IsNext, length-zeros}
use columnix.GroupWriter.Tail.{no_bytes}

-- The largest `off_t`.
abbrev pub offset_max : ℕ
offset_max = 9223372036854775807

-- What POSIX says of a file: at most the block arrives, and no offset passes the largest one.
pub record Limits (disk : Disk) : Type 0 where
  pub accepts-le : (p n : ℕ) → disk.accepts p n ≤ n
  pub accepts-max : (p n : ℕ) → p ≤ offset_max → p + disk.accepts p n ≤ offset_max
  pub seeks-max : (p : ℕ) → disk.seeks p ≡ true → p ≤ offset_max

-- The bytes before the position.
abbrev pub kept : Stream → List ℕ
kept f = take f.position f.bytes

pub record Within (f : Stream) : Type 0 where
  pub inside : f.position ≤ length f.bytes
  pub small : f.position ≤ offset_max

pub length-kept : (f : Stream) → Within f → length (kept f) ≡ f.position
length-kept f w = omega (arith, length-take f.position f.bytes, w.inside)

-- Later bytes behind those that were there.
pub record Extends (f last : Stream) : Type 0 where
  pub more : List ℕ
  pub stored : kept last ≡ kept f ++ more
  pub within : Within last

pub Extends-refl : (f : Stream) → Within f → Extends f f
Extends-refl f w = record { more = []; stored = sym (append-nil (kept f)); within = w }

pub Extends-trans : (f g h : Stream) → Extends f g → Extends g h → Extends f h
Extends-trans f g h a b = record {
  more = a.more ++ b.more;
  stored = b.stored ∙ ap (λ bs. bs ++ b.more) a.stored ∙ append_assoc (kept f) a.more b.more;
  within = b.within;
}

-- The block stands at the next multiple of 8, or nothing is written for no bytes.
pub record Wrote (f last : Stream) (block : List ℕ) : Type 0 where
  pub space : List ℕ
  pub stored : kept last ≡ kept f ++ (space ++ block)
  pub within : Within last
  pub place : ((length block ≡ 0) × (last ≡ f)) ⊎ (f.position + length space ≡ align f.position)

pub Wrote-Extends : (f last : Stream) (block : List ℕ) → Wrote f last block → Extends f last
Wrote-Extends f last block w = record {
  more = w.space ++ block;
  stored = w.stored;
  within = w.within;
}

pub take-take : (m n : ℕ) (xs : List ℕ) → m ≤ n → take m (take n xs) ≡ take m xs
take-take zero n xs h = refl
take-take (suc m) zero xs h = absurd (omega arith)
take-take (suc m) (suc n) [] h = refl
take-take (suc m) (suc n) (x ∷ xs) h = ap (λ t. x ∷ t) (take-take m n xs (omega arith))

pub take-append_left : (n : ℕ) (xs ys : List ℕ) → n ≤ length xs → take n (xs ++ ys) ≡ take n xs
take-append_left zero xs ys h = refl
take-append_left (suc n) [] ys h = absurd (omega arith)
take-append_left (suc n) (x ∷ xs) ys h = ap (λ t. x ∷ t) (take-append_left n xs ys (omega arith))

take-whole : (n : ℕ) (xs : List ℕ) → length (take n xs) ≡ length xs → take n xs ≡ xs
take-whole zero [] h = refl
take-whole zero (x ∷ xs) h = absurd (omega arith)
take-whole (suc n) [] h = refl
take-whole (suc n) (x ∷ xs) h = ap (λ t. x ∷ t) (take-whole n xs (omega arith))

length-padded : (p : ℕ) (bytes : List ℕ) → length (padded p bytes) ≡ p
length-padded p bytes = omega (
  arith,
  length-append (take p bytes) (zeros (p - length bytes)),
  length-take p bytes,
  length-zeros (p - length bytes),
)

take-padded :
    (n p : ℕ) (bytes : List ℕ) → n ≤ p → n ≤ length bytes → take n (padded p bytes) ≡ take n bytes
take-padded n p bytes h i =
    take-append_left n (take p bytes) (zeros (p - length bytes))
      (omega (arith, length-take p bytes, h, i))
    ∙ take-take n p bytes h

-- The stream after some bytes have arrived at `p`.
abbrev overwritten : Stream → ℕ → List ℕ → Stream
overwritten f p arrived = record {
  bytes = padded p f.bytes ++ arrived ++ drop (p + length arrived) f.bytes;
  position = p + length arrived;
}

module _ (f : Stream) (w : Within f) (p : ℕ) (arrived : List ℕ) (later : f.position ≤ p) where
  kept-overwritten : kept (overwritten f p arrived) ≡ padded p f.bytes ++ arrived
  kept-overwritten =
      let here : p + length arrived ≡ length (padded p f.bytes ++ arrived) =
        omega (arith, length-append (padded p f.bytes) arrived, length-padded p f.bytes) in
      ap (λ n. take n (padded p f.bytes ++ arrived ++ drop (p + length arrived) f.bytes)) here
      ∙ take-length_append (padded p f.bytes ++ arrived) (drop (p + length arrived) f.bytes)

  abbrev between : List ℕ
  between = drop f.position (padded p f.bytes)

  stored-overwritten : kept (overwritten f p arrived) ≡ kept f ++ (between ++ arrived)
  stored-overwritten =
      kept-overwritten
      ∙ ap (λ bs. bs ++ arrived)
          (sym (take-append-drop f.position (padded p f.bytes))
            ∙ ap (λ bs. bs ++ between) (take-padded f.position p f.bytes later w.inside))
      ∙ append_assoc (kept f) between arrived

  length-between : length between ≡ p - f.position
  length-between = omega (arith, length-drop f.position (padded p f.bytes), length-padded p f.bytes)

  Within-overwritten : p + length arrived ≤ offset_max → Within (overwritten f p arrived)
  Within-overwritten h = record {
    inside = omega (
      arith,
      length-append (padded p f.bytes ++ arrived) (drop (p + length arrived) f.bytes),
      length-append (padded p f.bytes) arrived,
      length-padded p f.bytes,
    );
    small = h;
  }

-- Everything but the file is as it was.
abbrev pub OnlyFile : GroupWriter → GroupWriter → Type 0
OnlyFile w v = v ≡ record w { file = v.file }

pub OnlyFile-trans : (w v u : GroupWriter) → OnlyFile w v → OnlyFile v u → OnlyFile w u
OnlyFile-trans w v u a b = b ∙ ap (λ (x : GroupWriter). record x { file = u.file }) a

abbrev pub Spoilt : GroupWriter → GroupWriter → Type 0
Spoilt w v = OnlyFile w v × Extends w.file v.file

abbrev pub WroteBlock : GroupWriter → List ℕ → GroupWriter → Type 0
WroteBlock w block v = OnlyFile w v × Wrote w.file v.file block

module _ (disk : Disk) (limits : Limits disk) (w : GroupWriter) (i : Within w.file)
    (block : List ℕ) where
  abbrev arrived : ℕ → List ℕ
  arrived p = take (disk.accepts p (length block)) block

  arrived-max : (p : ℕ) → p ≤ offset_max → p + length (arrived p) ≤ offset_max
  arrived-max p m = omega (
    arith,
    length-take (disk.accepts p (length block)) block,
    limits.accepts-max p (length block) m,
  )

  abbrev after : ℕ → GroupWriter
  after p = record w { file = overwritten w.file p (arrived p) }

  Spoilt-after : (p : ℕ) → w.file.position ≤ p → p ≤ offset_max → Spoilt w (after p)
  Spoilt-after p h m = (
    refl,
    record {
      more = between w.file i p (arrived p) h ++ arrived p;
      stored = stored-overwritten w.file i p (arrived p) h;
      within = Within-overwritten w.file i p (arrived p) h (arrived-max p m);
    },
  )

  wrote-after :
      (p : ℕ)
      → p ≡ align w.file.position
      → w.file.position ≤ p
      → p ≤ offset_max
      → arrived p ≡ block
      → WroteBlock w block (after p)
  wrote-after p e h m all = (
    refl,
    record {
      space = between w.file i p (arrived p) h;
      stored =
          stored-overwritten w.file i p (arrived p) h
          ∙ ap (λ bs. kept w.file ++ (between w.file i p (arrived p) h ++ bs)) all;
      within = Within-overwritten w.file i p (arrived p) h (arrived-max p m);
      place = inr (omega (arith, length-between w.file i p (arrived p) h, h, e));
    },
  )

  fwrite-Ends :
      (p : ℕ)
      → p ≡ align w.file.position
      → w.file.position ≤ p
      → p ≤ offset_max
      → Ends
          (λ _ v. WroteBlock w block v)
          (Spoilt w)
          (on_file
            (λ file. fwrite disk file block)
            (record w { file = record w.file { position = p } }))
  unfolding fwrite
  fwrite-Ends p e h m = elim (Bool-cases (length (arrived p) == length block)) [
    | inl a ↦
        rw (on_file, fwrite, a)
          (wrote-after p e h m
            (take-whole (disk.accepts p (length block)) block (ground (arith, a))))
    | inr a ↦ rw (on_file, fwrite, a) (Spoilt-after p h m)
  ]

  nothing-Wrote : (length block == 0) ≡ true → WroteBlock w block w
  nothing-Wrote z =
      let none_there = no_bytes block z in
      (
        refl,
        record {
          space = [];
          stored = sym (append-nil (kept w.file)) ∙ ap (λ bs. kept w.file ++ bs) (sym none_there);
          within = i;
          place = inl (ap length none_there, refl);
        },
      )

  next :
      (align w.file.position % 8 ≡ 0)
      × (w.file.position ≤ align w.file.position)
      × (align w.file.position < w.file.position + 8)
  next = align-IsNext w.file.position (omega (arith, i.small))

  abbrev moved : Call GroupWriter (Unit {0})
  moved = seek disk (align w.file.position) >> on_file (λ file. fwrite disk file block)

  seek-Ends : Ends (λ _ v. WroteBlock w block v) (Spoilt w) (moved w)
  unfolding seek fseeko
  seek-Ends = elim (Bool-cases (disk.seeks (align w.file.position))) [
    | inl s ↦
        rw (moved, seek, fseeko, s)
          (fwrite-Ends (align w.file.position) refl next.1
            (limits.seeks-max (align w.file.position) s))
    | inr s ↦ rw (moved, seek, fseeko, s) (refl, Extends-refl w.file i)
  ]

  pub write-Ends : Ends (λ _ v. WroteBlock w block v) (Spoilt w) (write disk block w)
  unfolding write
  write-Ends = elim (Bool-cases (length block == 0)) [
    | inl z ↦ rw (write, z) (nothing-Wrote z)
    | inr z ↦ elim (Bool-cases (w.file.position == align w.file.position)) [
      | inl a ↦
          rw (write, z, a) (fwrite-Ends w.file.position (ground (arith, a)) (omega arith) i.small)
      | inr a ↦ rw (write, z, a) seek-Ends
    ]
  ]
