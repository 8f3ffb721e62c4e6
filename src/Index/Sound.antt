-- ===== src/Index/Sound.antt =====
-- What an index answers holds of every value that it was built from.
use columnix.Base.{◌≡◌, Bool, true, false, List, [], ◌∷◌, All, arith}
use columnix.Scalar.{Scalar, lt, gt, eq}
use columnix.Index.{Index, update_values, blank}
use columnix.Index.Match.{IndexMatch, nothing, everything, match_eq, match_lt, match_gt}
use columnix.Index.Cover.{
  IsLawful, HasBounds, Within, blank-HasBounds, update_values-HasBounds, update_values-Within,
}

pub All-map {ℓ κ μ} :
    {A : Type ℓ} {P : A → Type κ} {Q : A → Type μ} (xs : List A)
    → ((x : A) → P x → Q x)
    → All P xs
    → All Q xs
All-map [] f h = tt
All-map (x ∷ xs) f h = (f x h.0, All-map xs f h.1)

-- An answer for all rows: `nothing` means that no value passes `test`, `everything` that each
-- value that is a number does.
pub record Answers {A : Type 0} (s : Scalar A) (test : A → Bool) (vs : List A) (answer : IndexMatch)
    : Type 0 where
  pub no_row : answer ≡ nothing → All (λ v. test v ≡ false) vs
  pub each_row : answer ≡ everything → All (λ v. s.number v ≡ true → test v ≡ true) vs

module _ {A : Type 0} (s : Scalar A) (index : Index) (bounds : HasBounds s index) (x v : A)
    (w : Within s index v) where
  match_eq-nothing : match_eq s index x ≡ nothing → eq s v x ≡ false
  unfolding match_eq
  match_eq-nothing h = ground arith

  match_eq-everything : match_eq s index x ≡ everything → s.number v ≡ true → eq s v x ≡ true
  unfolding match_eq
  match_eq-everything h n = ground arith

  match_lt-nothing : match_lt s index x ≡ nothing → lt s v x ≡ false
  unfolding match_lt
  match_lt-nothing h = ground arith

  match_lt-everything : match_lt s index x ≡ everything → s.number v ≡ true → lt s v x ≡ true
  unfolding match_lt
  match_lt-everything h n = ground arith

  match_gt-nothing : match_gt s index x ≡ nothing → gt s v x ≡ false
  unfolding match_gt
  match_gt-nothing h = ground arith

  match_gt-everything : match_gt s index x ≡ everything → s.number v ≡ true → gt s v x ≡ true
  unfolding match_gt
  match_gt-everything h n = ground arith

module _ {A : Type 0} {s : Scalar A} {InRange : A → Type 0} (laws : IsLawful s InRange) (x : A)
    (vs : List A) (r : All InRange vs) where
  -- An index that starts blank and is updated with values in the range of their type answers an ==
  -- correctly for all of them: nothing only if no value is equal to x, everything only if each
  -- value that is no NaN is.
  pub match_eq-Answers : Answers s (λ v. eq s v x) vs (match_eq s (update_values s (blank s) vs) x)
  match_eq-Answers =
      let index = update_values s (blank s) vs in
      let b : HasBounds s index =
        update_values-HasBounds laws (blank s) vs r (blank-HasBounds laws) in
      let w : All (Within s index) vs =
        update_values-Within laws (blank s) vs r (blank-HasBounds laws) in
      record {
        no_row = λ h. All-map vs (λ v k. match_eq-nothing s index b x v k h) w;
        each_row = λ h. All-map vs (λ v k. match_eq-everything s index b x v k h) w;
      }

  -- An index that starts blank and is updated with values in the range of their type answers a <
  -- correctly for all of them: nothing only if no value is less than x, everything only if each
  -- value that is no NaN is.
  pub match_lt-Answers : Answers s (λ v. lt s v x) vs (match_lt s (update_values s (blank s) vs) x)
  match_lt-Answers =
      let index = update_values s (blank s) vs in
      let b : HasBounds s index =
        update_values-HasBounds laws (blank s) vs r (blank-HasBounds laws) in
      let w : All (Within s index) vs =
        update_values-Within laws (blank s) vs r (blank-HasBounds laws) in
      record {
        no_row = λ h. All-map vs (λ v k. match_lt-nothing s index b x v k h) w;
        each_row = λ h. All-map vs (λ v k. match_lt-everything s index b x v k h) w;
      }

  -- An index that starts blank and is updated with values in the range of their type answers a >
  -- correctly for all of them: nothing only if no value is greater than x, everything only if each
  -- value that is no NaN is.
  pub match_gt-Answers : Answers s (λ v. gt s v x) vs (match_gt s (update_values s (blank s) vs) x)
  match_gt-Answers =
      let index = update_values s (blank s) vs in
      let b : HasBounds s index =
        update_values-HasBounds laws (blank s) vs r (blank-HasBounds laws) in
      let w : All (Within s index) vs =
        update_values-Within laws (blank s) vs r (blank-HasBounds laws) in
      record {
        no_row = λ h. All-map vs (λ v k. match_gt-nothing s index b x v k h) w;
        each_row = λ h. All-map vs (λ v k. match_gt-everything s index b x v k h) w;
      }
