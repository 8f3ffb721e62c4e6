-- ===== src/Writer/Stores.antt =====
-- lib/writer.c: where a value that `cx_writer` takes goes, and what is written before it.
use columnix.Base.{
  ℕ, suc, ◌*◌, ◌≡◌, ◌≢◌, refl, sym, ap, Bool, true, false, not, ◌&&◌, List, [], ◌∷◌, Option, none,
  some, ◌==◌, ltb, if◌then◌else◌, length, Outcome, done, arith,
}
use mathlib.Core.Path.{subst}
use columnix.Attempt.{success, Call, pure, ◌>>◌, modify, Ends-bind, Ends-weaken}
use columnix.System.{System}
use columnix.Column.{Column}
use columnix.RowGroup.{RowGroup, count, new as row_group_new}
use columnix.File.Stream.{Disk}
use columnix.GroupWriter.{GroupWriter}
use columnix.GroupWriter.Put.{group_writer_put}
use columnix.GroupWriter.Written.{Limits, Within}
use columnix.GroupWriter.Whole.{Put, group_writer_put-Put}
use columnix.Writer.{
  Gathered, Writer, add_columns, flush_columns, flush_row_group, new_columns, ensure_columns,
  have_columns, put_check, put_gathered, put_value,
}
use columnix.Writer.Gathers.{contents, gathered, Gathers, add_columns-Gathers}
use columnix.Writer.Steps.{Anything, On, behind_check, behind_ensure, behind_inner, behind_lift}
use columnix.Writer.Taken.{Taken, put_gathered-Taken}

module _ (sys : System) (disk : Disk) (limits : Limits disk) where
  -- The writer when the value is put: as it was, with the first columns, or, if its row group was
  -- full, with that row group in the file and new columns.
  pub data Opened (w : Writer) (full : Bool) : Writer → Type 0 where
    kept : (cs : List Gathered) → w.columns ≡ some cs → full ≡ false → Opened w full w
    begun :
        (cs : List Gathered)
        → w.columns ≡ none
        → new_columns sys w.column_count w.writer.descriptors ≡ done cs
        → Opened w full (record w { columns = some cs })
    flushed :
        (old cs : List Gathered) (row_group : RowGroup) (v : GroupWriter)
        → w.columns ≡ some old
        → full ≡ true
        → Gathers old row_group
        → Put sys disk limits row_group w.writer v
        → new_columns sys w.column_count v.descriptors ≡ done cs
        → Opened w full (record w { writer = v; columns = some cs; position = 0 })

  -- New columns, where there are none.
  ensure_columns-On :
      (P : Writer → Type 0) (w : Writer)
      → ((cs : List Gathered)
          → new_columns sys w.column_count w.writer.descriptors ≡ done cs
          → On P (success tt (record w { columns = some cs })))
      → On P (ensure_columns sys w)
  unfolding ensure_columns
  ensure_columns-On P w f =
      behind_ensure P (elim w.columns [ none ↦ not (w.column_count == 0) | some _ ↦ false ]) _ w
        (behind_check P (sys.grants (w.column_count * 16)) _ w (λ _.
          behind_lift P (new_columns sys w.column_count w.writer.descriptors)
            (λ columns. modify (λ v. record v { columns = some columns })) w (λ cs e. f cs e)))

  abbrev then_columns : Call Writer (Unit {0})
  then_columns v = have_columns sys v.columns v

  module _ (w : Writer) (within : Within w.writer.file) (occupied : w.columns ≢ some []) where
    -- The row group is in the file, and the columns are gone.
    Emptied : List Gathered → Writer → Type 0
    Emptied old u =
        (row_group : RowGroup) × (v : GroupWriter) × Gathers old row_group
        × Put sys disk limits row_group w.writer v
        × (u ≡ record w { writer = v; columns = none; position = 0 })

    Gathers-some :
        (old : List Gathered) (row_group : RowGroup)
        → w.columns ≡ some old
        → Gathers old row_group
        → (count row_group == 0) ≡ false
    Gathers-some [] row_group e g = absurd (occupied e)
    Gathers-some (c ∷ cs) row_group e g = some_columns row_group.columns (ap length g.holds)
      where
        some_columns :
            (l : List _)
            → length (contents l) ≡ suc (length (gathered cs))
            → (length l == 0) ≡ false
        some_columns [] h = absurd (omega (arith, h))
        some_columns (x ∷ l) h = ground arith

    flush_columns-Emptied :
        (old : List Gathered)
        → w.columns ≡ some old
        → On (Emptied old) (flush_columns sys disk (some old) w)
    unfolding Emptied
    flush_columns-Emptied old e = behind_lift (Emptied old) (row_group_new sys) _ w (λ empty a.
        behind_lift (Emptied old) (add_columns sys empty old) _ w (λ row_group b.
          let g = add_columns-Gathers sys old empty row_group a b in
          behind_inner (Emptied old) (group_writer_put sys disk row_group)
            (modify (λ v. record v { columns = none; position = 0 })) w
            (λ v put. (
              row_group,
              v,
              g,
              group_writer_put-Put sys disk limits row_group w.writer v within
                  (Gathers-some old row_group e g) put,
              refl,
            ))))

    full-Opened :
        (o : Option (List Gathered))
        → w.columns ≡ o
        → On (Opened w true) ((flush_columns sys disk o >> then_columns) w)
    unfolding Emptied
    full-Opened none e =
        subst (λ o. On (Opened w true) (have_columns sys o w)) (sym e)
          (ensure_columns-On (Opened w true) w (λ cs f. begun cs e f))
    full-Opened (some old) e =
        Ends-bind (λ _ u. Emptied old u) Anything (λ _ u. Opened w true u) (λ _. then_columns)
          (flush_columns sys disk (some old) w) (flush_columns-Emptied old e)
          (λ _ u (row_group, v, g, p, same).
            subst (λ u. On (Opened w true) (then_columns u)) (sym same)
              (ensure_columns-On (Opened w true)
                (record w { writer = v; columns = none; position = 0 })
                (λ cs f. flushed old cs row_group v e refl g p f)))

    here-Opened :
        (o : Option (List Gathered)) → w.columns ≡ o → On (Opened w false) (have_columns sys o w)
    here-Opened none e = ensure_columns-On (Opened w false) w (λ cs f. begun cs e f)
    here-Opened (some cs) e = kept cs e refl

    by_full :
        (full : Bool)
        → On
            (Opened w full)
            (((if full then flush_row_group sys disk else pure tt) >> then_columns) w)
    unfolding flush_row_group
    by_full true = full-Opened w.columns refl
    by_full false = here-Opened w.columns refl

    pub put_check-Opened :
        (i : ℕ) → On (Opened w (i == 0 && w.position == w.row_group_size)) (put_check sys disk i w)
    unfolding put_check
    put_check-Opened i =
        behind_check (Opened w (i == 0 && w.position == w.row_group_size)) (ltb i w.column_count)
          ((if i == 0 && w.position == w.row_group_size then flush_row_group sys disk else pure tt)
            >> then_columns)
          w (λ _. by_full (i == 0 && w.position == w.row_group_size))

-- A value has been taken by `v`: what was written first, and where the value is.
pub record Stored (sys : System) (disk : Disk) (limits : Limits disk)
    (put : Column → Outcome Column) (null : Bool) (i : ℕ) (w v : Writer) : Type 0 where
  pub opened : Writer
  pub before : Opened sys disk limits w (i == 0 && w.position == w.row_group_size) opened
  pub taken : Taken sys put null i opened v

module _ (sys : System) (disk : Disk) (limits : Limits disk) (put : Column → Outcome Column)
    (null : Bool) (i : ℕ) where
  Opened-columns : (w u : Writer) (full : Bool) → Opened sys disk limits w full u → u.columns ≢ none
  Opened-columns w u full (kept cs e f) = λ h. cc
  Opened-columns w u full (begun cs e f) = λ h. cc
  Opened-columns w u full (flushed old cs g v e f h k l) = λ h. cc

  pub put_value-On :
      (w : Writer)
      → Within w.writer.file
      → w.columns ≢ some []
      → On (Stored sys disk limits put null i w) (put_value sys disk i put null w)
  unfolding put_value
  put_value-On w within occupied =
      Ends-bind (λ _ u. Opened sys disk limits w (i == 0 && w.position == w.row_group_size) u)
        Anything (λ _ v. Stored sys disk limits put null i w v) (λ _. put_gathered sys i put null)
        (put_check sys disk i w) (put_check-Opened sys disk limits w within occupied i)
        (λ _ u o.
          Ends-weaken (λ _ v. Taken sys put null i u v)
            (λ _ v. Stored sys disk limits put null i w v) Anything Anything
            (put_gathered sys i put null u)
            (put_gathered-Taken sys put null i u (Opened-columns w u _ o))
            (λ _ v t. record { opened = u; before = o; taken = t }) (λ v h. h))
