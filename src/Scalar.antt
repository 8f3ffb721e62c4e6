-- ===== src/Scalar.antt =====
-- The C types whose values an index orders: `int32_t`, `int64_t`, `float`, `double` and the
-- `uint64_t` of a string's length. C repeats the same code at each; here it is written once over a
-- description of the type. A float is its IEEE-754 bit pattern: a NaN is no number and compares
-- with nothing, all other patterns are ordered by sign and magnitude.
use columnix.Base.{
  ℕ, ◌+◌, ◌-◌, ◌%◌, Bool, true, ◌&&◌, not, ltb, leb, ◌==◌, if◌then◌else◌, ℤ, pos, negsuc, ltb_ℤ,
  eqb_ℤ, to_signed, of_signed, word_mod,
}
use columnix.Column.{half32, half64}

pub record Scalar (A : Type 0) : Type 0 where
  -- A read of the type's member of the 64-bit union `cx_index_value_t`.
  pub get : ℕ → A
  -- A write of the member; the bytes beyond it stay.
  pub store : ℕ → A → ℕ
  -- Whether a value is ordered at all, and where it stands.
  pub number : A → Bool
  pub key : A → ℤ
  -- INT32_MAX, INT64_MAX, FLT_MAX, DBL_MAX, UINT64_MAX.
  pub top : A

module _ {A : Type 0} (s : Scalar A) where
  abbrev pub lt : A → A → Bool
  lt a b = s.number a && s.number b && ltb_ℤ (s.key a) (s.key b)

  abbrev pub eq : A → A → Bool
  eq a b = s.number a && s.number b && eqb_ℤ (s.key a) (s.key b)

  abbrev pub gt : A → A → Bool
  gt a b = s.number a && s.number b && ltb_ℤ (s.key b) (s.key a)

  abbrev pub le : A → A → Bool
  le a b = s.number a && s.number b && not (ltb_ℤ (s.key b) (s.key a))

  abbrev pub ge : A → A → Bool
  ge a b = s.number a && s.number b && not (ltb_ℤ (s.key a) (s.key b))

abbrev pub word32 : ℕ
word32 = 4294967296

abbrev pub i32 : Scalar ℤ
i32 = record {
  get = λ raw. to_signed half32 (raw % word32);
  store = λ raw z. raw - raw % word32 + of_signed half32 z;
  number = λ z. true;
  key = λ z. z;
  top = pos 2147483647;
}

abbrev pub i64 : Scalar ℤ
i64 = record {
  get = λ raw. to_signed half64 (raw % word_mod);
  store = λ raw z. of_signed half64 z;
  number = λ z. true;
  key = λ z. z;
  top = pos 9223372036854775807;
}

-- A pattern with the sign bit `half` and the exponent of infinity `inf`.
abbrev pub float_key : ℕ → ℕ → ℤ
float_key half n =
    if ltb n half then pos n else (if n == half then pos 0 else negsuc (n - half - 1))

abbrev pub flt : Scalar ℕ
flt = record {
  get = λ raw. raw % word32;
  store = λ raw n. raw - raw % word32 + n;
  number = λ n. leb (n % half32) 2139095040;
  key = float_key half32;
  top = 2139095039;
}

abbrev pub dbl : Scalar ℕ
dbl = record {
  get = λ raw. raw % word_mod;
  store = λ raw n. n;
  number = λ n. leb (n % half64) 9218868437227405312;
  key = float_key half64;
  top = 9218868437227405311;
}

abbrev pub len : Scalar ℕ
len = record {
  get = λ raw. raw % word_mod;
  store = λ raw n. n;
  number = λ n. true;
  key = pos;
  top = 18446744073709551615;
}
