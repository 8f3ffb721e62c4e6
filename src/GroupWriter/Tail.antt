-- ===== src/GroupWriter/Tail.antt =====
-- lib/writer.c: blocks of multiples of 8 bytes that are written one after the other lie next to each
-- other, behind one gap at most. So the footer, the descriptors and the row group headers are found
-- from the end of the file.
use columnix.Base.{
  ℕ, ◌+◌, ◌%◌, ◌≤◌, ◌<◌, ◌≡◌, refl, sym, ap, ◌∙◌, ◌⊎◌, inl, inr, true, false, List, [], ◌∷◌, ◌++◌,
  ◌==◌, word_mod, length, length-append, Bool-cases, arith,
}
use mathlib.Core.List.{append-nil, append_assoc}
use columnix.File.Stream.{Stream, zeros}
use columnix.GroupWriter.Append.{
  align-IsNext, align-multiple, AtEnd, gap, with_block, extend, length-zeros,
}

pub no_bytes : {A : Type 0} (xs : List A) → (length xs == 0) ≡ true → xs ≡ []
no_bytes [] h = refl
no_bytes (x ∷ xs) h = absurd (ground arith)

with_block-AtEnd :
    (f : Stream) (block : List ℕ) → AtEnd f → f.position + 8 ≤ word_mod → AtEnd (with_block f block)
with_block-AtEnd f block e h =
    let next = align-IsNext f.position h in
    omega (
      arith,
      next.1,
      e,
      length-append (f.bytes ++ zeros (gap f.position)) block,
      length-append f.bytes (zeros (gap f.position)),
      length-zeros (gap f.position),
    )

pub extend-AtEnd :
    (f : Stream) (block : List ℕ) → AtEnd f → f.position + 8 ≤ word_mod → AtEnd (extend f block)
extend-AtEnd f block e h = elim (Bool-cases (length block == 0)) [
  | inl z ↦ rw z e
  | inr z ↦ rw z (with_block-AtEnd f block e h)
]

-- At a multiple of 8 there is no gap.
with_block-bytes :
    (f : Stream) (block : List ℕ)
    → f.position % 8 ≡ 0
    → (with_block f block).bytes ≡ f.bytes ++ block
with_block-bytes f block h =
    let flat : gap f.position ≡ 0 = omega (arith, align-multiple f.position h) in
    rw flat (ap (λ bs. bs ++ block) (append-nil f.bytes))

pub extend-bytes :
    (f : Stream) (block : List ℕ) → f.position % 8 ≡ 0 → (extend f block).bytes ≡ f.bytes ++ block
extend-bytes f block h = elim (Bool-cases (length block == 0)) [
  | inl z ↦ rw z (sym (append-nil f.bytes) ∙ ap (λ bs. f.bytes ++ bs) (sym (no_bytes block z)))
  | inr z ↦ rw z (with_block-bytes f block h)
]

-- The stream `last` is `f` with the block behind it, which the next multiple of 8 starts.
pub record Follows (f last : Stream) (block : List ℕ) : Type 0 where
  pub space : ℕ
  pub narrow : space < 8
  pub stored : last.bytes ≡ f.bytes ++ (zeros space ++ block)
  pub at_end : AtEnd last
  pub next : ((last ≡ f) × (block ≡ [])) ⊎ (last.position % 8 ≡ 0)

pub Follows-nil : (f : Stream) → AtEnd f → Follows f f []
Follows-nil f e = record {
  space = 0;
  narrow = omega arith;
  stored = sym (append-nil f.bytes);
  at_end = e;
  next = inl (refl, refl);
}

-- How long the file is now.
pub Follows-length :
    {f last : Stream} {block : List ℕ} (s : Follows f last block)
    → AtEnd f
    → last.position ≡ f.position + s.space + length block
Follows-length {f} {last} {block} s e = omega (
  arith,
  s.at_end,
  e,
  ap length s.stored,
  length-append f.bytes (zeros s.space ++ block),
  length-append (zeros s.space) block,
  length-zeros s.space,
)

module _ (f : Stream) (block more : List ℕ) (e : AtEnd f) (eights : length more % 8 ≡ 0) where
  -- The first block, behind a gap.
  first-Follows :
      f.position + 8 ≤ word_mod → (length more == 0) ≡ false → Follows f (with_block f more) more
  first-Follows h z =
      let aligned = align-IsNext f.position h in
      record {
        space = gap f.position;
        narrow = omega (arith, aligned.2, aligned.1);
        stored = append_assoc f.bytes (zeros (gap f.position)) more;
        at_end = with_block-AtEnd f more e h;
        next = inr (omega (arith, aligned.0, eights));
      }

  -- A block next to those that are there.
  next-Follows :
      (last : Stream) (s : Follows f last block)
      → last.position + 8 ≤ word_mod
      → last.position % 8 ≡ 0
      → Follows f (extend last more) (block ++ more)
  next-Follows last s h even = record {
    space = s.space;
    narrow = s.narrow;
    stored =
        extend-bytes last more even
        ∙ ap (λ bs. bs ++ more) s.stored
        ∙ append_assoc f.bytes (zeros s.space ++ block) more
        ∙ ap (λ bs. f.bytes ++ bs) (append_assoc (zeros s.space) block more);
    at_end = extend-AtEnd last more s.at_end h;
    next = inr (elim (Bool-cases (length more == 0)) [
      | inl z ↦ rw z even
      | inr z ↦ rw z (omega (arith, align-multiple last.position even, even, eights))
    ]);
  }

  pub Follows-extend :
      (last : Stream)
      → Follows f last block
      → last.position + 8 ≤ word_mod
      → Follows f (extend last more) (block ++ more)
  Follows-extend last s h = elim s.next [
    | inr even ↦ next-Follows last s h even
    | inl nothing ↦ elim (Bool-cases (length more == 0)) [
      | inl z ↦ rw (z, nothing.1, no_bytes more z, nothing.0) (Follows-nil f e)
      | inr z ↦
          rw (z, nothing.1, nothing.0)
            (first-Follows (omega (arith, h, ap (λ t. t.position) nothing.0)) z)
    ]
  ]
