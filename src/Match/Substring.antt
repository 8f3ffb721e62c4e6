-- ===== src/Match/Substring.antt =====
-- lib/match.c: what the comparisons of strings find, said without an index.
use mathlib.Core.Path.{subst}
use mathlib.Core.Bool.{false≢true}
use columnix.Base.{
  ap₂, ℕ, ◌+◌, ◌≡◌, refl, ap, ◌∙◌, Bool, true, false, ◌&&◌, ◌||◌, List, [], ◌∷◌, ◌++◌, ltb, ◌==◌,
  if◌then◌else◌, length, length-append, arith, ◌↔◌, Bool-cases, inl, inr, ==_iff,
}
use columnix.Match.Str.{same_bytes, strstr, str_contains_any, str_contains_start}

-- The string begins with `p`, or has it somewhere.
abbrev pub Begins : List ℕ → List ℕ → Type 0
Begins p s = (rest : List ℕ) × (s ≡ p ++ rest)

abbrev pub Occurs : List ℕ → List ℕ → Type 0
Occurs p s = (before : List ℕ) × (after : List ℕ) × (s ≡ before ++ (p ++ after))

and-true : (a b : Bool) → a && b ≡ true → (a ≡ true) × (b ≡ true)
and-true true true h = (refl, refl)
and-true true false h = cc
and-true false b h = cc

same_bytes-Begins : (p s : List ℕ) → same_bytes (length p) s p ≡ true → Begins p s
same_bytes-Begins [] s h = (s, refl)
same_bytes-Begins (x ∷ p) [] h = cc
same_bytes-Begins (x ∷ p) (y ∷ s) h =
    let (same, more) = and-true (y == x) (same_bytes (length p) s p) h in
    let (rest, e) = same_bytes-Begins p s more in (rest, ap₂ ◌∷◌ ((==_iff y x).0 same) e)

Begins-same_bytes : (p rest : List ℕ) → same_bytes (length p) (p ++ rest) p ≡ true
Begins-same_bytes [] rest = refl
Begins-same_bytes (x ∷ p) rest =
    let same : (x == x) ≡ true = (==_iff x x).1 refl in rw same (Begins-same_bytes p rest)

strstr-Occurs : (p s : List ℕ) → strstr s p ≡ true → Occurs p s
strstr-Occurs p [] h = let (rest, e) = same_bytes-Begins p [] h in ([], rest, e)
strstr-Occurs p (x ∷ s) h = elim (Bool-cases (same_bytes (length p) (x ∷ s) p)) [
  | inl b ↦ let (rest, e) = same_bytes-Begins p (x ∷ s) b in ([], rest, e)
  | inr b ↦
      let (before, after, e) =
        strstr-Occurs p s (subst (λ found. found || strstr s p ≡ true) b h) in
      (x ∷ before, after, ap (λ t. x ∷ t) e)
]

begins-strstr : (s p : List ℕ) → same_bytes (length p) s p ≡ true → strstr s p ≡ true
begins-strstr [] p h = h
begins-strstr (x ∷ s) p h = rw h refl

or_true : (a : Bool) → a || true ≡ true
or_true true = refl
or_true false = refl

Occurs-strstr : (before p after : List ℕ) → strstr (before ++ (p ++ after)) p ≡ true
Occurs-strstr [] p after = begins-strstr (p ++ after) p (Begins-same_bytes p after)
Occurs-strstr (x ∷ before) p after = rw (Occurs-strstr before p after) (or_true _)

long_enough : (p s : List ℕ) → Occurs p s → ltb (length s) (length p) ≡ false
long_enough p s o =
    let (before, after, e) = o in
    let size : length s ≡ length before + (length p + length after) =
      ap length e
      ∙ length-append before (p ++ after)
      ∙ ap (λ n. length before + n) (length-append p after) in
    ground (arith, size)

Begins-Occurs : (p s : List ℕ) → Begins p s → Occurs p s
Begins-Occurs p s b = let (rest, e) = b in ([], rest, e)

-- str_contains_start is true exactly when the first string begins with the second.
pub str_contains_start-Begins : (s p : List ℕ) → (str_contains_start s p ≡ true) ↔ Begins p s
unfolding str_contains_start
str_contains_start-Begins s p = (
  λ h. elim (Bool-cases (ltb (length s) (length p))) [
    | inl l ↦ absurd (
        false≢true
          (subst (λ short. (if short then false else same_bytes (length p) s p) ≡ true) l h))
    | inr l ↦
        same_bytes-Begins p s
          (subst (λ short. (if short then false else same_bytes (length p) s p) ≡ true) l h)
  ],
  λ b.
      let (rest, e) = b in
      rw (long_enough p s (Begins-Occurs p s b))
        (ap (λ t. same_bytes (length p) t p) e ∙ Begins-same_bytes p rest),
)

-- `str_contains_any` is true exactly when the second string stands somewhere in the first.
pub str_contains_any-Occurs : (s p : List ℕ) → (str_contains_any s p ≡ true) ↔ Occurs p s
unfolding str_contains_any
str_contains_any-Occurs s p = (
  λ h. elim (Bool-cases (ltb (length s) (length p))) [
    | inl l ↦
        absurd (false≢true (subst (λ short. (if short then false else strstr s p) ≡ true) l h))
    | inr l ↦ strstr-Occurs p s (subst (λ short. (if short then false else strstr s p) ≡ true) l h)
  ],
  λ o.
      let (before, after, e) = o in
      rw (long_enough p s o) (ap (λ t. strstr t p) e ∙ Occurs-strstr before p after),
)
