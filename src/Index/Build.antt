-- ===== src/Index/Build.antt =====
-- lib/index.c: `cx_index_new` sees every value of the column once, in order, and counts them.
use columnix.Base.{
  ℕ, zero, suc, ◌+◌, ◌-◌, ◌*◌, ◌≤◌, ◌<◌, ◌≡◌, refl, ap, ◌∙◌, sym, true, false, List, [], ◌∷◌, ◌++◌,
  min, ltb, ltb→lt, lt→ltb, Bool-cases, inl, inr, word_mod, not, ◌==◌, add64, length, length-take,
  length-drop, take, drop, drop-le, Outcome, done, arith, Bool,
}
use columnix.Scalar.{Scalar}
use columnix.Column.Cursor.{Cursor}
use columnix.Column.Reads.{Reads, drop-batch}
use columnix.Index.{Index, update_batches, update_bits, update_bit, update_values, update_value}

-- An index with another count.
abbrev pub counted : Index → ℕ → Index
counted index n = record index { count = n }

-- What the loop needs of the update by a batch: batches can be joined, and the count is not touched.
pub record Folds {A : Type 0} (step : Index → List A → Index) : Type 0 where
  pub joins : (index : Index) (vs ws : List A) → step index (vs ++ ws) ≡ step (step index vs) ws
  pub counts :
      (index : Index) (n : ℕ) (vs : List A) → step (counted index n) vs ≡ counted (step index vs) n
  pub empty : (index : Index) → step index [] ≡ index

pub update_bits-Folds : Folds update_bits
unfolding update_bits
update_bits-Folds = record {
  joins = joined;
  counts = λ index n vs. kept index n vs;
  empty = λ index. refl;
}
  where
    joined :
        (index : Index) (vs ws : List Bool)
        → update_bits index (vs ++ ws) ≡ update_bits (update_bits index vs) ws
    joined index [] ws = refl
    joined index (v ∷ vs) ws = joined (update_bit index v) vs ws

    kept :
        (index : Index) (n : ℕ) (vs : List Bool)
        → update_bits (counted index n) vs ≡ counted (update_bits index vs) n
    kept index n [] = refl
    kept index n (v ∷ vs) = kept (update_bit index v) n vs

module _ {A : Type 0} (s : Scalar A) where
  pub update_values-Folds : Folds (update_values s)
  unfolding update_values
  update_values-Folds = record {
    joins = joined;
    counts = λ index n vs. kept index n vs;
    empty = λ index. refl;
  }
    where
      joined :
          (index : Index) (vs ws : List A)
          → update_values s index (vs ++ ws) ≡ update_values s (update_values s index vs) ws
      joined index [] ws = refl
      joined index (v ∷ vs) ws = joined (update_value s index v) vs ws

      one :
          (index : Index) (n : ℕ) (v : A)
          → update_value s (counted index n) v ≡ counted (update_value s index v) n
      one index n v = ground arith

      kept :
          (index : Index) (n : ℕ) (vs : List A)
          → update_values s (counted index n) vs ≡ counted (update_values s index vs) n
      kept index n [] = refl
      kept index n (v ∷ vs) =
          ap (λ i. update_values s i vs) (one index n v) ∙ kept (update_value s index v) n vs

module _ {A : Type 0} {next : Cursor → Outcome (List A × Cursor)} {vs : List A}
    {At : Cursor → ℕ → Type 0} (reads : Reads next vs At) {step : Index → List A → Index}
    (folds : Folds step) where
  abbrev batch_at : ℕ → List A
  batch_at p = take 64 (drop p vs)

  length-batch : (p : ℕ) → length (batch_at p) ≡ min 64 (length vs - p)
  length-batch p = omega (arith, length-take 64 (drop p vs), length-drop p vs)

  not_empty : (n : ℕ) → 0 < n → not (n == 0) ≡ true
  not_empty n h = ground arith

  abbrev after : ℕ → ℕ
  after p = p + min 64 (length vs - p)

  -- A batch and the values behind it are the values from the batch on.
  folded :
      (index : Index) (p n total : ℕ)
      → n + (length vs - after p) ≡ total
      → counted
          (step (counted (step index (batch_at p)) n) (drop (after p) vs))
          (n + (length vs - after p))
        ≡ counted (step index (drop p vs)) total
  folded index p n total e =
      ap (λ i. counted i (n + (length vs - after p)))
        (folds.counts (step index (batch_at p)) n (drop (after p) vs))
      ∙ ap (λ i. counted i (n + (length vs - after p)))
          (sym (folds.joins index (batch_at p) (drop (after p) vs)))
      ∙ ap (λ xs. counted (step index xs) (n + (length vs - after p))) (drop-batch reads p)
      ∙ ap (counted (step index (drop p vs))) e

  ended :
      (index : Index) (p : ℕ)
      → ltb p (length vs) ≡ false
      → index ≡ counted (step index (drop p vs)) (index.count + (length vs - p))
  ended index p h =
      let none_left : index.count ≡ index.count + (length vs - p) = ground (arith, h) in
      ap (counted index) none_left
      ∙ ap (λ i. counted i (index.count + (length vs - p))) (sym (folds.empty index))
      ∙ ap (λ xs. counted (step index xs) (index.count + (length vs - p)))
          (sym (drop-le p vs (ground (arith, h))))

  one_batch :
      (fuel : ℕ) (index : Index) (c : Cursor) (p : ℕ)
      → At c p
      → p < length vs
      → index.count + (length vs - p) < word_mod
      → (rest : Cursor) × (update_batches next step (suc fuel) index c
          ≡ update_batches next step fuel
              (counted (step index (batch_at p)) (index.count + min 64 (length vs - p)))
              rest)
        × At rest (after p)
  unfolding update_batches
  one_batch fuel index c p a inside small =
      let (rest, e, b) = reads.batch c p a inside in
      let total : add64 index.count (min 64 (length vs - p))
          ≡ index.count + min 64 (length vs - p) =
        omega arith in
      (
        rest,
        rw
            (
              reads.more c p a,
              lt→ltb p (length vs) inside,
              e,
              length-batch p,
              not_empty (min 64 (length vs - p)) (omega arith),
              total,
              folds.counts index (index.count + min 64 (length vs - p)) (batch_at p),
            )
            refl,
        b,
      )

  pub update_batches-drop :
      (fuel : ℕ) (index : Index) (c : Cursor) (p : ℕ)
      → At c p
      → length vs - p ≤ 64 * fuel
      → index.count + (length vs - p) < word_mod
      → update_batches next step (suc fuel) index c
        ≡ done (counted (step index (drop p vs)) (index.count + (length vs - p)))
  unfolding update_batches
  update_batches-drop zero index c p a enough small =
      let at_end : ltb p (length vs) ≡ false = ground arith in
      rw (reads.more c p a, at_end) (ap done (ended index p at_end))
  update_batches-drop (suc fuel) index c p a enough small = elim (Bool-cases (ltb p (length vs))) [
    | inr at_end ↦ rw (reads.more c p a, at_end) (ap done (ended index p at_end))
    | inl inside ↦
        let (rest, e, b) = one_batch (suc fuel) index c p a (ltb→lt p (length vs) inside) small in
        let n = index.count + min 64 (length vs - p) in
        e
        ∙ update_batches-drop fuel (counted (step index (batch_at p)) n) rest (after p) b
            (omega arith) (omega arith)
        ∙ ap done (folded index p n (index.count + (length vs - p)) (omega arith))
  ]
