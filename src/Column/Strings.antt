-- ===== src/Column/Strings.antt =====
-- lib/column.c: a string column, whose strings lie one after the other, each with its NUL.
use columnix.Base.{
  ℕ, zero, suc, ◌+◌, ◌<◌, ◌≡◌, ◌≢◌, refl, ap, ◌∙◌, true, false, List, [], ◌∷◌, ◌++◌, min, ltb, leb,
  lt→ltb, add64, word_mod, ◌==◌, length, length-append, take, drop, drop-add, drop-length_append,
  take-length_append, All, done, arith,
}
use columnix.Column.Cursor.{Cursor, valid, advance, strlen, bytes_at, skip_strs, collect}

abbrev pub NulFree : List ℕ → Type 0
NulFree = All (λ b. b ≢ 0)

-- The bytes of strings.
abbrev pub text : List (List ℕ) → List ℕ
text [] = []
text (s ∷ ss) = s ++ 0 ∷ text ss

pub strlen-text : (s : List ℕ) (rest : List ℕ) → NulFree s → strlen (s ++ 0 ∷ rest) ≡ length s
strlen-text [] rest h = refl
strlen-text (b ∷ s) rest h =
    let not_nul : (b == 0) ≡ false = ground (arith, h.0) in
    rw (not_nul, strlen-text s rest h.1) refl

pub drop-text : (s : List ℕ) (rest : List ℕ) → drop (length s + 1) (s ++ 0 ∷ rest) ≡ rest
drop-text s rest =
    drop-add (length s) 1 (length s + 1) (s ++ 0 ∷ rest) refl
    ∙ ap (drop 1) (drop-length_append s (0 ∷ rest))

pub take-text : (s : List ℕ) (rest : List ℕ) → take (length s) (s ++ 0 ∷ rest) ≡ s
take-text s rest = take-length_append s (0 ∷ rest)

-- The cursor stands before the strings `left`, the last ones of the column.
pub record TextAt (left : List (List ℕ)) (c : Cursor) : Type 0 where
  pub ahead : bytes_at c ≡ text left
  pub ends : c.position + length (text left) ≡ c.column.offset
  pub small : c.column.offset < word_mod
  pub clean : All NulFree left

module _ {c : Cursor} where
  TextAt-nil : TextAt [] c → valid c ≡ false
  TextAt-nil a = ground (arith, a.ends)

  module _ {s : List ℕ} {left : List (List ℕ)} (a : TextAt (s ∷ left) c) where
    size_ahead : c.position + (length s + 1) + length (text left) ≡ c.column.offset
    size_ahead = omega (arith, a.ends, length-append s (0 ∷ text left))

    TextAt-cons : valid c ≡ true
    TextAt-cons = lt→ltb c.position c.column.offset (omega (arith, size_ahead))

    abbrev pub past : Cursor
    past = record c { position = c.position + (length s + 1) }

    pub strlen-ahead : strlen (bytes_at c) ≡ length s
    strlen-ahead = ap strlen a.ahead ∙ strlen-text s (text left) a.clean.0

    pub take-ahead : take (length s) (bytes_at c) ≡ s
    take-ahead = ap (take (length s)) a.ahead ∙ take-length_append s (0 ∷ text left)

    no_wrap : add64 c.position (length s + 1) ≡ c.position + (length s + 1)
    no_wrap = omega (arith, size_ahead, a.small)

    within : leb (c.position + (length s + 1)) c.column.offset ≡ true
    within = ground (arith, size_ahead)

    pub advance-past : advance c (length s + 1) ≡ done past
    unfolding advance
    advance-past = rw (no_wrap, within) refl

    pub past-TextAt : TextAt left past
    past-TextAt = record {
      ahead =
          drop-add c.position (length s + 1) (c.position + (length s + 1)) c.column.buffer refl
          ∙ ap (drop (length s + 1)) a.ahead
          ∙ drop-text s (text left);
      ends = size_ahead;
      small = a.small;
      clean = a.clean.1;
    }

pub TextAt-valid :
    (left : List (List ℕ)) {c : Cursor} → TextAt left c → valid c ≡ ltb 0 (length left)
TextAt-valid [] a = TextAt-nil a
TextAt-valid (s ∷ left) a = TextAt-cons a ∙ ground arith

-- What a loop over at most `k` strings leaves.
abbrev pub Leaves : ℕ → List (List ℕ) → Cursor → Cursor → Type 0
Leaves k left c rest = TextAt (drop k left) rest × (rest.column ≡ c.column)

pub collect-take :
    (k : ℕ) (left : List (List ℕ)) (c : Cursor)
    → TextAt left c
    → (rest : Cursor) × (collect k c ≡ done (take k left, rest)) × Leaves k left c rest
unfolding collect
collect-take zero left c a = (c, refl, (a, refl))
collect-take (suc k) [] c a = (c, rw (TextAt-nil a) refl, (a, refl))
collect-take (suc k) (s ∷ left) c a =
    let (rest, e, b) = collect-take k left (past a) (past-TextAt a) in
    (rest, rw (TextAt-cons a, strlen-ahead a, advance-past a, e, take-ahead a) refl, b)

pub skip_strs-drop :
    (k n : ℕ) (left : List (List ℕ)) (c : Cursor)
    → TextAt left c
    → (rest : Cursor) × (skip_strs k n c ≡ done (n + min k (length left), rest))
      × Leaves k left c rest
unfolding skip_strs
skip_strs-drop zero n left c a =
    (c, ap (λ m. done (m, c)) {x = n} {y = n + min 0 (length left)} (omega arith), (a, refl))
skip_strs-drop (suc k) n [] c a = (
  c,
  rw (TextAt-nil a) (ap (λ m. done (m, c)) {x = n} {y = n + min (suc k) 0} (omega arith)),
  (a, refl),
)
skip_strs-drop (suc k) n (s ∷ left) c a =
    let (rest, e, b) = skip_strs-drop k (n + 1) left (past a) (past-TextAt a) in
    (
      rest,
      rw (TextAt-cons a, strlen-ahead a, advance-past a, e)
          (ap (λ m. done (m, rest)) {x = n + 1 + min k (length left)}
            {y = n + min (suc k) (suc (length left))} (omega arith)),
      b,
    )
