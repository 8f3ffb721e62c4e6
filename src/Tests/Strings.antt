-- ===== src/Tests/Strings.antt =====
-- The theorems on the comparisons of strings at concrete inputs.
use columnix.Base.{◌≡◌, refl, true, false, [], ◌∷◌, ◌↔◌}
use columnix.Match.Str.{str_contains_any, str_contains_start}
use columnix.Match.Substring.{Begins, Occurs, str_contains_any-Occurs, str_contains_start-Begins}

str_contains_any-Occurs_example :
    (str_contains_any (1 ∷ 2 ∷ 3 ∷ 4 ∷ []) (2 ∷ 3 ∷ []) ≡ true)
    ↔ Occurs (2 ∷ 3 ∷ []) (1 ∷ 2 ∷ 3 ∷ 4 ∷ [])
str_contains_any-Occurs_example = str_contains_any-Occurs (1 ∷ 2 ∷ 3 ∷ 4 ∷ []) (2 ∷ 3 ∷ [])

str_contains_start-Begins_example :
    (str_contains_start (1 ∷ 2 ∷ 3 ∷ []) (1 ∷ 2 ∷ []) ≡ true) ↔ Begins (1 ∷ 2 ∷ []) (1 ∷ 2 ∷ 3 ∷ [])
str_contains_start-Begins_example = str_contains_start-Begins (1 ∷ 2 ∷ 3 ∷ []) (1 ∷ 2 ∷ [])

contains_runs :
    (str_contains_any (1 ∷ 2 ∷ 3 ∷ 4 ∷ []) (2 ∷ 3 ∷ []) ≡ true)
    × (str_contains_start (1 ∷ 2 ∷ 3 ∷ []) (2 ∷ []) ≡ false)
unfolding str_contains_any str_contains_start
contains_runs = (refl, refl)
