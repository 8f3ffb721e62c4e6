-- ===== src/Column/Put.antt =====
-- lib/column.c: `cx_column_put_i32`, `_i64`, `_flt` and `_dbl` append a value to the contents.
use native.Mathlib.Nat.{mul-add}
use mathlib.Core.List.{append-nil}
use columnix.Base.{
  ap₂, ℕ, ◌+◌, ◌*◌, ◌≤◌, ◌<◌, ◌≡◌, refl, ap, ◌∙◌, sym, List, [], ◌∷◌, map, ◌++◌, length,
  length-append, All-append, bytes_of, bytes_of-append, le_bytes, length-le_bytes, Outcome, arith,
}
use columnix.System.{System}
use columnix.Column.{Column, half64, put, put_i32, put_i64, put_flt, put_dbl}
use columnix.Column.Grow.{Grants, Writable, written, put-written}
use columnix.Column.Access.{Appends}
use columnix.Column.Cells.{Codec, i32_codec, i64_codec, flt_codec, dbl_codec, Holds}

module _ {A : Type 0} (codec : Codec A) where
  map-append :
      (vs : List A) (v : A)
      → map codec.encode (vs ++ v ∷ []) ≡ map codec.encode vs ++ codec.encode v ∷ []
  map-append [] v = refl
  map-append (w ∷ vs) v = ap (λ t. codec.encode w ∷ t) (map-append vs v)

  one_more :
      (vs : List A) (v : A)
      → codec.width * length (vs ++ v ∷ []) ≡ codec.width * length vs + codec.width
  one_more vs v = rw (length-append vs (v ∷ [])) (omega (arith, mul-add codec.width (length vs) 1))

  written-Holds :
      {column : Column} {vs : List A} (r : ℕ) (v : A)
      → Holds codec vs column
      → codec.InRange v
      → Holds codec (vs ++ v ∷ []) (written column r (le_bytes codec.width (codec.encode v)))
  written-Holds {column = column} {vs = vs} r v h range = record {
    typed = h.typed;
    stored =
        ap₂ ◌++◌ h.stored (sym (append-nil (le_bytes codec.width (codec.encode v))))
        ∙ sym (bytes_of-append codec.width (map codec.encode vs) (codec.encode v ∷ []))
        ∙ ap (bytes_of codec.width) (sym (map-append vs v));
    tail = omega (arith, h.tail, one_more vs v, length-le_bytes codec.width (codec.encode v));
    counted = omega (arith, h.counted, length-append vs (v ∷ []));
    in_range = All-append codec.InRange vs (v ∷ []) h.in_range (range, tt);
  }

  put-Appends :
      (sys : System)
      → Grants sys
      → (column : Column) (vs : List A) (v : A) → Writable column
      → Holds codec vs column
      → codec.InRange v
      → codec.width * length (vs ++ v ∷ []) ≤ half64
      → length vs < half64
      → Appends
          (Holds codec)
          (put sys column codec.type (le_bytes codec.width (codec.encode v)))
          vs
          v
  put-Appends sys grants column vs v w h range small few =
      let (r, e, w') =
        put-written sys grants w (le_bytes codec.width (codec.encode v))
          (omega (arith, h.tail, one_more vs v, length-le_bytes codec.width (codec.encode v)))
          (omega (arith, h.counted)) in
      (
        written column r (le_bytes codec.width (codec.encode v)),
        ap (λ t. put sys column t (le_bytes codec.width (codec.encode v))) (sym h.typed) ∙ e,
        w',
        written-Holds r v h range,
      )

-- The put function of a codec's type.
abbrev pub IsPut : {A : Type 0} → Codec A → (System → Column → A → Outcome Column) → Type 0
IsPut {A} codec put_value =
    (sys : System)
    → Grants sys
    → (column : Column) (vs : List A) (v : A) → Writable column
    → Holds codec vs column
    → codec.InRange v
    → codec.width * length (vs ++ v ∷ []) ≤ half64
    → length vs < half64
    → Appends (Holds codec) (put_value sys column v) vs v

pub put_i32-IsPut : IsPut i32_codec put_i32
unfolding put_i32
put_i32-IsPut = put-Appends i32_codec

pub put_i64-IsPut : IsPut i64_codec put_i64
unfolding put_i64
put_i64-IsPut = put-Appends i64_codec

pub put_flt-IsPut : IsPut flt_codec put_flt
unfolding put_flt
put_flt-IsPut = put-Appends flt_codec

pub put_dbl-IsPut : IsPut dbl_codec put_dbl
unfolding put_dbl
put_dbl-IsPut = put-Appends dbl_codec
