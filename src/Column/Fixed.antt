-- ===== src/Column/Fixed.antt =====
-- lib/column.c: the four column types whose values lie in cells of 4 or 8 bytes.
use native.Mathlib.Nat.{mul-le-mul_left, mul-lt-mul_of_pos_left, mul-le-mul_right, one-mul}
use columnix.Base.{
  ℕ, ◌*◌, ◌≤◌, ◌≡◌, List, ltb, lt→ltb, ltb→lt, Bool-cases, inl, inr, length, length-append, take,
  drop, ℤ, Outcome, done, arith,
}
use columnix.System.{System}
use columnix.Column.{Column, put_i32, put_i64, put_flt, put_dbl}
use columnix.Column.Cursor.{Cursor, next_batch_i32, next_batch_i64, next_batch_flt, next_batch_dbl}
use columnix.Column.Cells.{
  Codec, i32_codec, i64_codec, flt_codec, dbl_codec, Holds, At, behind, behind-At,
  next_batch_i32-At, next_batch_i64-At, next_batch_flt-At, next_batch_dbl-At,
}
use columnix.Column.Put.{IsPut, put_i32-IsPut, put_i64-IsPut, put_flt-IsPut, put_dbl-IsPut}
use columnix.Column.Reads.{Reads}
use columnix.Column.Access.{Access}

module _ {A : Type 0} (codec : Codec A) where
  scaled : (p n : ℕ) → ltb (codec.width * p) (codec.width * n) ≡ ltb p n
  scaled p n = elim (Bool-cases (ltb p n)) [
    | inl l ↦ rw l (lt→ltb _ _ (mul-lt-mul_of_pos_left (ltb→lt p n l) codec.wide))
    | inr l ↦
        let back : codec.width * n ≤ codec.width * p =
          mul-le-mul_left codec.width (ground (arith, l)) in
        rw l (ground (arith, back))
  ]

  module _ (put : System → Column → A → Outcome Column) (put-IsPut : IsPut codec put)
      (next : Cursor → Outcome (List A × Cursor))
      (next-At : (vs : List A) (c : Cursor) (p : ℕ) (a : At codec vs c p)
        → next c ≡ done (take 64 (drop p vs), behind codec a 64)) where
    pub cells-Reads : (vs : List A) → Reads next vs (At codec vs)
    cells-Reads vs = record {
      batch = λ c p a h. (behind codec a 64, next-At vs c p a, behind-At codec a 64);
      more = λ c p a. rw (a.holds.tail, a.at) (scaled p (length vs));
      few = λ c p a.
          omega (arith, a.holds.tail, one-mul (length vs), mul-le-mul_right (length vs) codec.wide);
    }

    abbrev pub cells_access : Access A
    cells_access = record {
      type = codec.type;
      put = put;
      next = next;
      InRange = codec.InRange;
      bytes = λ vs. codec.width * length vs;
      Contains = Holds codec;
      At = At codec;
      put-Appends = put-IsPut;
      reads = cells-Reads;
      empty = λ column t b o n. record {
        typed = t;
        stored = b;
        tail = omega (arith, o);
        counted = n;
        in_range = tt;
      };
      first = λ column vs h small. record {
        holds = h;
        small = small;
        at = omega arith;
        inside = omega arith;
      };
      grows = λ vs ws. mul-le-mul_left codec.width (omega (arith, length-append vs ws));
    }

abbrev pub i32_access : Access ℤ
i32_access =
    cells_access i32_codec put_i32 put_i32-IsPut next_batch_i32 (λ vs c p a. next_batch_i32-At a)

abbrev pub i64_access : Access ℤ
i64_access =
    cells_access i64_codec put_i64 put_i64-IsPut next_batch_i64 (λ vs c p a. next_batch_i64-At a)

abbrev pub flt_access : Access ℕ
flt_access =
    cells_access flt_codec put_flt put_flt-IsPut next_batch_flt (λ vs c p a. next_batch_flt-At a)

abbrev pub dbl_access : Access ℕ
dbl_access =
    cells_access dbl_codec put_dbl put_dbl-IsPut next_batch_dbl (λ vs c p a. next_batch_dbl-At a)
