-- ===== src/GroupWriter/Puts.antt =====
-- lib/writer.c: `cx_row_group_writer_put`, from its columns to the whole call.
use columnix.Base.{
  ℕ, suc, ◌≤◌, ◌≡◌, refl, sym, ap, inl, inr, List, [], ◌∷◌, ◌++◌, length, ℤ, done, Outcome-cases,
  arith,
}
use mathlib.Core.Path.{subst}
use columnix.Attempt.{Attempt, Call, pure, ◌>>=◌, Ends, Ends-bind, Ends-weaken}
use columnix.System.{System}
use columnix.Column.{Column}
use columnix.Index.{Index}
use columnix.RowGroup.{RowGroup, column_index, group_column, group_nulls}
use columnix.File.{ColumnDescriptor, ColumnHeader}
use columnix.File.Stream.{Disk, Stream}
use columnix.GroupWriter.{GroupWriter}
use columnix.GroupWriter.Put.{put_column, put_columns, null_compression, null_level}
use columnix.GroupWriter.Written.{
  Limits, offset_max, kept, length-kept, Within, Extends, Extends-refl, Spoilt,
}
use columnix.GroupWriter.Saved.{Saved, Saved-append, SavedColumns, Spoilt-trans, put_column-Ends}

-- A later call starts from a spoilt writer.
module _ {A : Type 0} (Q R : A → GroupWriter → Type 0) (w v : GroupWriter) (a : Spoilt w v) where
  pub from_Spoilt :
      (r : Attempt GroupWriter A)
      → Ends Q (Spoilt v) r
      → ((x : A) (u : GroupWriter) → Q x u → R x u)
      → Ends R (Spoilt w) r
  from_Spoilt r e f = Ends-weaken Q R (Spoilt v) (Spoilt w) r e f (λ u b. Spoilt-trans w v u a b)

-- What was saved stays saved.
Saved-later :
    (sys : System) (column : Column) (index : Index) (code : ℕ) (level : ℤ) (f g : Stream)
    (h : ColumnHeader)
    → Extends f g
    → Saved sys column index code level (kept f) h
    → Saved sys column index code level (kept g) h
Saved-later sys column index code level f g h e s =
    let long : length (kept f ++ e.more) ≤ offset_max =
      omega (arith, ap length e.stored, length-kept g e.within, e.within.small) in
    subst (λ bs. Saved sys column index code level bs h) (sym e.stored)
      (Saved-append sys column index code level (kept f) e.more h long s)

module _ (sys : System) (disk : Disk) (limits : Limits disk) where
  abbrev pub Puts :
      GroupWriter → RowGroup → ℕ → List ColumnDescriptor → List ColumnHeader → GroupWriter → Type 0
  Puts w row_group i ds hs v = Spoilt w v × SavedColumns sys (kept v.file) row_group i ds hs

  -- The files of the loop's body: both headers, then the rest.
  module _ (w : GroupWriter) (row_group : RowGroup) (i : ℕ) (d : ColumnDescriptor)
      (ds : List ColumnDescriptor) (c n : Column) (with_column next : RowGroup) (index : Index)
      (e : group_column sys row_group i ≡ done (c, with_column))
      (f : group_nulls sys with_column i ≡ done (n, next))
      (g : column_index row_group i ≡ done index)
      (rest : (v : GroupWriter)
        → Within v.file
        → Ends (Puts v next (suc i) ds) (Spoilt v) (put_columns sys disk next (suc i) ds v)) where
    abbrev third : ColumnHeader → ColumnHeader → Call GroupWriter (List ColumnHeader)
    third h k = put_columns sys disk next (suc i) ds >>= λ hs. pure (h ∷ k ∷ hs)

    abbrev second : ColumnHeader → Call GroupWriter (List ColumnHeader)
    second h = put_column sys disk n index null_compression null_level >>= λ k. third h k

    third-Ends :
        (v : GroupWriter) (h k : ColumnHeader)
        → Spoilt w v
        → Saved sys c index d.compression d.compression_level (kept v.file) h
        → Saved sys n index null_compression null_level (kept v.file) k
        → Ends (Puts w row_group i (d ∷ ds)) (Spoilt w) (third h k v)
    third-Ends v h k a s t =
        Ends-bind
          (λ hs u.
            Spoilt w u × Extends v.file u.file × SavedColumns sys (kept u.file) next (suc i) ds hs)
          (Spoilt w) (Puts w row_group i (d ∷ ds)) (λ hs. pure (h ∷ k ∷ hs))
          (put_columns sys disk next (suc i) ds v)
          (from_Spoilt (Puts v next (suc i) ds)
            (λ hs u.
              Spoilt w u
              × Extends v.file u.file
              × SavedColumns sys (kept u.file) next (suc i) ds hs)
            w v a (put_columns sys disk next (suc i) ds v) (rest v a.1.within)
            (λ hs u p. (Spoilt-trans w v u a p.0, p.0.1, p.1)))
          (λ hs u p. (
            p.0,
            (
              next,
              record {
                column = c;
                nulls = n;
                with_column = with_column;
                index = index;
                column_of = e;
                nulls_of = f;
                index_of = g;
                values_saved =
                    Saved-later sys c index d.compression d.compression_level v.file u.file h p.1 s;
                nulls_saved =
                    Saved-later sys n index null_compression null_level v.file u.file k p.1 t;
              },
              p.2,
            ),
          ))

    second-Ends :
        (v : GroupWriter) (h : ColumnHeader)
        → Spoilt w v
        → Saved sys c index d.compression d.compression_level (kept v.file) h
        → Ends (Puts w row_group i (d ∷ ds)) (Spoilt w) (second h v)
    second-Ends v h a s =
        Ends-bind
          (λ k u.
            Spoilt w u
            × Extends v.file u.file
            × Saved sys n index null_compression null_level (kept u.file) k)
          (Spoilt w) (Puts w row_group i (d ∷ ds)) (third h)
          (put_column sys disk n index null_compression null_level v)
          (from_Spoilt
            (λ k u. Spoilt v u × Saved sys n index null_compression null_level (kept u.file) k)
            (λ k u.
              Spoilt w u
              × Extends v.file u.file
              × Saved sys n index null_compression null_level (kept u.file) k)
            w v a (put_column sys disk n index null_compression null_level v)
            (put_column-Ends sys disk limits v n index null_compression null_level a.1.within)
            (λ k u p. (Spoilt-trans w v u a p.0, p.0.1, p.1)))
          (λ k u p.
            third-Ends u h k p.0
              (Saved-later sys c index d.compression d.compression_level v.file u.file h p.1 s) p.2)

    first-Ends :
        Within w.file
        → Ends
            (Puts w row_group i (d ∷ ds))
            (Spoilt w)
            ((put_column sys disk c index d.compression d.compression_level >>= second) w)
    first-Ends q =
        Ends-bind
          (λ h v. Spoilt w v × Saved sys c index d.compression d.compression_level (kept v.file) h)
          (Spoilt w) (Puts w row_group i (d ∷ ds)) second
          (put_column sys disk c index d.compression d.compression_level w)
          (put_column-Ends sys disk limits w c index d.compression d.compression_level q)
          (λ h v p. second-Ends v h p.0 p.1)

  pub put_columns-Ends :
      (ds : List ColumnDescriptor) (row_group : RowGroup) (i : ℕ) (w : GroupWriter)
      → Within w.file
      → Ends (Puts w row_group i ds) (Spoilt w) (put_columns sys disk row_group i ds w)
  unfolding put_columns
  put_columns-Ends [] row_group i w q = ((refl, Extends-refl w.file q), tt)
  put_columns-Ends (d ∷ ds) row_group i w q =
      let same : Spoilt w w = (refl, Extends-refl w.file q) in
      elim (Outcome-cases (group_column sys row_group i)) [
        | inr (inl e) ↦ rw (put_columns, e) same
        | inr (inr e) ↦ rw (put_columns, e) tt
        | inl ((c, with_column), e) ↦ elim (Outcome-cases (group_nulls sys with_column i)) [
          | inr (inl f) ↦ rw (put_columns, e, f) same
          | inr (inr f) ↦ rw (put_columns, e, f) tt
          | inl ((n, next), f) ↦ elim (Outcome-cases (column_index row_group i)) [
            | inr (inl g) ↦ rw (put_columns, e, f, g) same
            | inr (inr g) ↦ rw (put_columns, e, f, g) tt
            | inl (index, g) ↦
                rw (put_columns, e, f, g)
                  (first-Ends w row_group i d ds c n with_column next index e f g
                    (λ v r. put_columns-Ends ds next (suc i) v r) q)
          ]
        ]
      ]
