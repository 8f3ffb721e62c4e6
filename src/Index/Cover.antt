-- ===== src/Index/Cover.antt =====
-- The bounds of an index enclose the values that it was updated with.
use columnix.Base.{
  ℕ, ◌+◌, ◌-◌, ◌%◌, ◌<◌, ◌≡◌, refl, true, List, [], ◌∷◌, All, ℤ, ◌≤ℤ◌, InSigned, arith,
  to_signed-of_signed, of_signed-lt, to_signed, of_signed, word_mod,
}
use columnix.Scalar
use columnix.Scalar.{Scalar, word32}
use columnix.Column.{half32, half64}
use columnix.Index.{Index, update_value, update_values, blank}

-- What the proofs need of a scalar type: its values survive a store into the union, and the first
-- minimum and the zeroed maximum are numbers.
pub record IsLawful {A : Type 0} (s : Scalar A) (InRange : A → Type 0) : Type 0 where
  pub get_store : (raw : ℕ) (v : A) → InRange v → s.get (s.store raw v) ≡ v
  pub top_number : s.number s.top ≡ true
  pub top_range : InRange s.top
  pub zero_number : s.number (s.get 0) ≡ true

pub i32-IsLawful : IsLawful Scalar.i32 (InSigned half32)
i32-IsLawful = record {
  get_store = λ raw v h. stored raw v h;
  top_number = refl;
  top_range = omega arith;
  zero_number = refl;
}
  where
    stored :
        (raw : ℕ) (v : ℤ)
        → InSigned half32 v
        → to_signed half32 ((raw - raw % word32 + of_signed half32 v) % word32) ≡ v
    stored raw v h =
        let kept : (raw - raw % word32 + of_signed half32 v) % word32 ≡ of_signed half32 v =
          omega (arith, of_signed-lt half32 v h) in
        rw kept (to_signed-of_signed half32 v h)

pub i64-IsLawful : IsLawful Scalar.i64 (InSigned half64)
i64-IsLawful = record {
  get_store = λ raw v h. stored v h;
  top_number = refl;
  top_range = omega arith;
  zero_number = refl;
}
  where
    stored : (v : ℤ) → InSigned half64 v → to_signed half64 (of_signed half64 v % word_mod) ≡ v
    stored v h =
        let kept : of_signed half64 v % word_mod ≡ of_signed half64 v =
          omega (arith, of_signed-lt half64 v h) in
        rw kept (to_signed-of_signed half64 v h)

pub flt-IsLawful : IsLawful Scalar.flt (λ n. n < word32)
flt-IsLawful = record {
  get_store = λ raw v h. omega arith;
  top_number = refl;
  top_range = omega arith;
  zero_number = refl;
}

pub dbl-IsLawful : IsLawful Scalar.dbl (λ n. n < word_mod)
dbl-IsLawful = record {
  get_store = λ raw v h. omega arith;
  top_number = refl;
  top_range = omega arith;
  zero_number = refl;
}

pub len-IsLawful : IsLawful Scalar.len (λ n. n < word_mod)
len-IsLawful = record {
  get_store = λ raw v h. omega arith;
  top_number = refl;
  top_range = omega arith;
  zero_number = refl;
}

module _ {A : Type 0} (s : Scalar A) where
  -- A value that is a number lies between the bounds.
  pub record Within (index : Index) (v : A) : Type 0 where
    pub above : s.number v ≡ true → s.key (s.get index.min) ≤ℤ s.key v
    pub below : s.number v ≡ true → s.key v ≤ℤ s.key (s.get index.max)

  pub record HasBounds (index : Index) : Type 0 where
    pub low_number : s.number (s.get index.min) ≡ true
    pub high_number : s.number (s.get index.max) ≡ true

module _ {A : Type 0} {s : Scalar A} {InRange : A → Type 0} (laws : IsLawful s InRange) where
  update_value-HasBounds :
      (index : Index) (v : A) → InRange v → HasBounds s index → HasBounds s (update_value s index v)
  unfolding update_value
  update_value-HasBounds index v r b =
      ground (arith, laws.get_store index.max v r, laws.get_store index.min v r)

  update_value-Within :
      (index : Index) (v : A) → InRange v → HasBounds s index → Within s (update_value s index v) v
  unfolding update_value
  update_value-Within index v r b =
      ground (arith, laws.get_store index.max v r, laws.get_store index.min v r)

  update_value-keeps :
      (index : Index) (v w : A)
      → InRange v
      → HasBounds s index
      → Within s index w
      → Within s (update_value s index v) w
  unfolding update_value
  update_value-keeps index v w r b k =
      ground (arith, laws.get_store index.max v r, laws.get_store index.min v r)

  update_values-keeps :
      (index : Index) (vs : List A) (w : A)
      → All InRange vs
      → HasBounds s index
      → Within s index w
      → Within s (update_values s index vs) w
  unfolding update_values
  update_values-keeps index [] w r b k = k
  update_values-keeps index (v ∷ vs) w r b k =
      update_values-keeps (update_value s index v) vs w r.1 (update_value-HasBounds index v r.0 b)
        (update_value-keeps index v w r.0 b k)

  pub update_values-HasBounds :
      (index : Index) (vs : List A)
      → All InRange vs
      → HasBounds s index
      → HasBounds s (update_values s index vs)
  unfolding update_values
  update_values-HasBounds index [] r b = b
  update_values-HasBounds index (v ∷ vs) r b =
      update_values-HasBounds (update_value s index v) vs r.1 (update_value-HasBounds index v r.0 b)

  pub update_values-Within :
      (index : Index) (vs : List A)
      → All InRange vs
      → HasBounds s index
      → All (Within s (update_values s index vs)) vs
  unfolding update_values
  update_values-Within index [] r b = tt
  update_values-Within index (v ∷ vs) r b =
      let b' = update_value-HasBounds index v r.0 b in
      (
        update_values-keeps (update_value s index v) vs v r.1 b'
            (update_value-Within index v r.0 b),
        update_values-Within (update_value s index v) vs r.1 b',
      )

  pub blank-HasBounds : HasBounds s (blank s)
  blank-HasBounds =
      ground (arith, laws.get_store 0 s.top laws.top_range, laws.top_number, laws.zero_number)
