-- ===== src/Column/Counts.antt =====
-- lib/column.c: every put adds one value.
use columnix.Base.{
  ℕ, ◌%◌, ◌++◌, [], ◌∷◌, ◌||◌, ◌≡◌, refl, ap, Bool, true, false, not, List, ℤ, pos, ◌==◌, ltb,
  length, le_bytes, of_signed, add64, if◌then◌else◌, Outcome, done, require, ◌>>=◌, Lands,
  Lands-bind, Lands-then, Lands-done,
}
use columnix.Common.{ColumnType, same_type}
use columnix.System.{System}
use columnix.Column.{
  Column, half32, half64, resize, grow, grow_fuel, put, put_bit, put_i32, put_i64, put_flt, put_dbl,
  put_str, put_unit, or_last_word, shift_one,
}

-- A put adds a value.
abbrev pub AddsOne : (Column → Outcome Column) → Type 0
AddsOne put = (c d : Column) → put c ≡ done d → d.count ≡ add64 c.count 1

module _ (sys : System) (c : Column) where
  abbrev OneMore : Column → Type 0
  OneMore d = d.count ≡ add64 c.count 1

  abbrev Same : Column → Type 0
  Same d = d.count ≡ c.count

  resize-Same : (n : ℕ) → Lands Same (resize sys c n)
  unfolding resize
  resize-Same n =
      Lands-then Same (grow grow_fuel c.size (add64 c.offset n)) _
        (λ size. Lands-then Same (require (sys.grants size)) _ (λ _. refl))

  put-OneMore : (type : ColumnType) (value : List ℕ) → Lands OneMore (put sys c type value)
  unfolding put
  put-OneMore type value =
      Lands-then OneMore (require (not (c.mmapped || not (same_type c.type type)))) _ (λ _.
        Lands-bind Same OneMore
          (if ltb c.size (add64 c.offset (length value))
            then resize sys c (length value)
            else done c)
          _ (room (ltb c.size (add64 c.offset (length value)))) (λ d e. ap (λ n. add64 n 1) e))
    where
      room : (b : Bool) → Lands Same (if b then resize sys c (length value) else done c)
      room true = resize-Same (length value)
      room false = refl

  put_bit-OneMore : (value : Bool) → Lands OneMore (put_bit sys c value)
  unfolding put_bit
  put_bit-OneMore value = by_word (c.count % 64 == 0)
    where
      inside : Column
      inside = record c {
        buffer = if value then or_last_word c (shift_one c.count) else c.buffer;
        count = add64 c.count 1;
      }

      by_word :
          (b : Bool)
          → Lands OneMore (
              if b
              then put sys c ColumnType.bit (le_bytes 8 (if value then 1 else 0))
              else (require (not (not (same_type c.type ColumnType.bit) || c.mmapped)) >>= λ _.
                  done inside))
      by_word true = put-OneMore ColumnType.bit (le_bytes 8 (if value then 1 else 0))
      by_word false =
          Lands-then OneMore (require (not (not (same_type c.type ColumnType.bit) || c.mmapped))) _
            (λ _. refl)

  put_unit-OneMore : Lands OneMore (put_unit sys c)
  unfolding put_unit put_i32 put_i64 put_flt put_dbl put_str
  put_unit-OneMore = by_type c.type
    where
      by_type :
          (t : ColumnType)
          → Lands OneMore (elim t as (λ _. Outcome Column) [
            | ColumnType.bit ↦ put_bit sys c false
            | ColumnType.i32 ↦ put_i32 sys c (pos 0)
            | ColumnType.i64 ↦ put_i64 sys c (pos 0)
            | ColumnType.flt ↦ put_flt sys c 0
            | ColumnType.dbl ↦ put_dbl sys c 0
            | ColumnType.str ↦ put_str sys c []
          ])
      by_type ColumnType.bit = put_bit-OneMore false
      by_type ColumnType.i32 = put-OneMore ColumnType.i32 (le_bytes 4 (of_signed half32 (pos 0)))
      by_type ColumnType.i64 = put-OneMore ColumnType.i64 (le_bytes 8 (of_signed half64 (pos 0)))
      by_type ColumnType.flt = put-OneMore ColumnType.flt (le_bytes 4 0)
      by_type ColumnType.dbl = put-OneMore ColumnType.dbl (le_bytes 8 0)
      by_type ColumnType.str = put-OneMore ColumnType.str ([] ++ 0 ∷ [])

module _ (sys : System) where
  Lands-AddsOne :
      (p : Column → Outcome Column) → ((c : Column) → Lands (OneMore sys c) (p c)) → AddsOne p
  Lands-AddsOne p h c d e = Lands-done (OneMore sys c) (p c) d e (h c)

  pub put_bit-AddsOne : (value : Bool) → AddsOne (λ c. put_bit sys c value)
  put_bit-AddsOne value =
      Lands-AddsOne (λ c. put_bit sys c value) (λ c. put_bit-OneMore sys c value)

  pub put_i32-AddsOne : (value : ℤ) → AddsOne (λ c. put_i32 sys c value)
  unfolding put_i32
  put_i32-AddsOne value =
      Lands-AddsOne (λ c. put_i32 sys c value)
        (λ c. put-OneMore sys c ColumnType.i32 (le_bytes 4 (of_signed half32 value)))

  pub put_i64-AddsOne : (value : ℤ) → AddsOne (λ c. put_i64 sys c value)
  unfolding put_i64
  put_i64-AddsOne value =
      Lands-AddsOne (λ c. put_i64 sys c value)
        (λ c. put-OneMore sys c ColumnType.i64 (le_bytes 8 (of_signed half64 value)))

  pub put_flt-AddsOne : (value : ℕ) → AddsOne (λ c. put_flt sys c value)
  unfolding put_flt
  put_flt-AddsOne value =
      Lands-AddsOne (λ c. put_flt sys c value)
        (λ c. put-OneMore sys c ColumnType.flt (le_bytes 4 value))

  pub put_dbl-AddsOne : (value : ℕ) → AddsOne (λ c. put_dbl sys c value)
  unfolding put_dbl
  put_dbl-AddsOne value =
      Lands-AddsOne (λ c. put_dbl sys c value)
        (λ c. put-OneMore sys c ColumnType.dbl (le_bytes 8 value))

  pub put_str-AddsOne : (value : List ℕ) → AddsOne (λ c. put_str sys c value)
  unfolding put_str
  put_str-AddsOne value =
      Lands-AddsOne (λ c. put_str sys c value)
        (λ c. put-OneMore sys c ColumnType.str (value ++ 0 ∷ []))

  pub put_unit-AddsOne : AddsOne (put_unit sys)
  put_unit-AddsOne = Lands-AddsOne (put_unit sys) (λ c. put_unit-OneMore sys c)
