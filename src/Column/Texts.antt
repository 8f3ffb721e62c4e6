-- ===== src/Column/Texts.antt =====
-- lib/column.c: what a string column holds, how `cx_column_put_str` adds to it, and that the
-- strings are read back.
use columnix.Base.{
  ℕ, ◌+◌, ◌-◌, ◌≤◌, ◌<◌, ◌≡◌, refl, ap, ◌∙◌, sym, true, List, [], ◌∷◌, ◌++◌, min, ltb, All,
  All-append, drop-add, drop-min, length, length-append, length-drop, take, drop, done, arith,
}
use mathlib.Core.Path.{subst}
use mathlib.Core.List.{append_assoc}
use columnix.Common.{ColumnType, same_type}
use columnix.System.{System}
use columnix.Column.{Column, half64, put, put_str}
use columnix.Column.Cursor.{Cursor, valid, next_batch_str, collect, batch_size}
use columnix.Column.Grow.{Grants, Writable, written, put-written}
use columnix.Column.Strings.{NulFree, text, TextAt, TextAt-valid, collect-take}
use columnix.Column.Reads.{Reads}
use columnix.Column.Access.{Access, Appends}

-- The column's contents are the strings `ss`.
pub record HoldsText (ss : List (List ℕ)) (column : Column) : Type 0 where
  pub typed : column.type ≡ ColumnType.str
  pub stored : column.buffer ≡ text ss
  pub tail : column.offset ≡ length (text ss)
  pub counted : column.count ≡ length ss
  pub clean : All NulFree ss

-- The cursor stands before string `p` of a column of the strings `ss`.
pub record StrAt (ss : List (List ℕ)) (c : Cursor) (p : ℕ) : Type 0 where
  pub holds : HoldsText ss c.column
  pub rest : TextAt (drop p ss) c
  pub inside : p ≤ length ss

text-append : (ss : List (List ℕ)) (s : List ℕ) → text (ss ++ s ∷ []) ≡ text ss ++ (s ++ 0 ∷ [])
text-append [] s = refl
text-append (t ∷ ss) s =
    ap (λ bs. t ++ (0 ∷ bs)) (text-append ss s) ∙ sym (append_assoc t (0 ∷ text ss) (s ++ 0 ∷ []))

-- A string takes a byte at least.
pub length-text : (ss : List (List ℕ)) → length ss ≤ length (text ss)
length-text [] = omega arith
length-text (s ∷ ss) = omega (arith, length-append s (0 ∷ text ss), length-text ss)

longer :
    (ss : List (List ℕ)) (s : List ℕ)
    → length (text (ss ++ s ∷ [])) ≡ length (text ss) + (length s + 1)
longer ss s = omega (
  arith,
  ap length (text-append ss s),
  length-append (text ss) (s ++ 0 ∷ []),
  length-append s (0 ∷ []),
)

pub grows-text : (ss ts : List (List ℕ)) → length (text ss) ≤ length (text (ss ++ ts))
grows-text [] ts = omega arith
grows-text (s ∷ ss) ts =
    omega (
      arith,
      grows-text ss ts,
      length-append s (0 ∷ text ss),
      length-append s (0 ∷ text (ss ++ ts)),
    )

pub put_str-Appends :
    (sys : System)
    → Grants sys
    → (column : Column) (ss : List (List ℕ)) (s : List ℕ) → Writable column
    → HoldsText ss column
    → NulFree s
    → length (text (ss ++ s ∷ [])) ≤ half64
    → length ss < half64
    → Appends HoldsText (put_str sys column s) ss s
unfolding put_str
put_str-Appends sys grants column ss s w h clean small few =
    let (r, e, w') =
      put-written sys grants w (s ++ 0 ∷ [])
        (omega (arith, h.tail, longer ss s, length-append s (0 ∷ [])))
        (omega (arith, h.counted, length-text ss)) in
    (
      written column r (s ++ 0 ∷ []),
      ap (λ t. put sys column t (s ++ 0 ∷ [])) (sym h.typed) ∙ e,
      w',
      record {
        typed = h.typed;
        stored = ap (λ bs. bs ++ (s ++ 0 ∷ [])) h.stored ∙ sym (text-append ss s);
        tail = omega (arith, h.tail, longer ss s, length-append s (0 ∷ []));
        counted = omega (arith, h.counted, length-append ss (s ∷ []));
        clean = All-append NulFree ss (s ∷ []) h.clean (clean, tt);
      },
    )

next_batch_str-collect :
    (c : Cursor)
    → same_type c.column.type ColumnType.str ≡ true
    → next_batch_str c ≡ collect batch_size c
unfolding next_batch_str
next_batch_str-collect c h = rw h refl

next_batch_str-StrAt :
    (ss : List (List ℕ)) (c : Cursor) (p : ℕ)
    → StrAt ss c p
    → (rest : Cursor) × (next_batch_str c ≡ done (take 64 (drop p ss), rest))
      × StrAt ss rest (p + min 64 (length ss - p))
next_batch_str-StrAt ss c p a =
    let (rest, e, l) = collect-take 64 (drop p ss) c a.rest in
    let m = min 64 (length ss - p) in
    (
      rest,
      next_batch_str-collect c (rw a.holds.typed refl) ∙ e,
      record {
        holds = subst (HoldsText ss) (sym l.1) a.holds;
        rest =
            subst (λ left. TextAt left rest)
              (drop-min 64 m (drop p ss) (omega (arith, length-drop p ss))
                ∙ sym (drop-add p m (p + m) ss refl))
              l.0;
        inside = omega (arith, a.inside);
      },
    )

more-StrAt : (ss : List (List ℕ)) (c : Cursor) (p : ℕ) → StrAt ss c p → valid c ≡ ltb p (length ss)
more-StrAt ss c p a = TextAt-valid (drop p ss) a.rest ∙ rw (length-drop p ss) (ground arith)

pub strs-Reads : (ss : List (List ℕ)) → Reads next_batch_str ss (StrAt ss)
strs-Reads ss = record {
  batch = λ c p a h. next_batch_str-StrAt ss c p a;
  more = more-StrAt ss;
  few = λ c p a. omega (arith, a.holds.tail, length-text ss);
}

abbrev pub str_access : Access (List ℕ)
str_access = record {
  type = ColumnType.str;
  put = put_str;
  next = next_batch_str;
  InRange = NulFree;
  bytes = λ ss. length (text ss);
  Contains = HoldsText;
  At = StrAt;
  put-Appends = put_str-Appends;
  reads = strs-Reads;
  empty = λ column t b o n. record { typed = t; stored = b; tail = o; counted = n; clean = tt };
  first = λ column ss h small. record {
    holds = h;
    rest = record {
      ahead = h.stored;
      ends = omega (arith, h.tail);
      small = omega (arith, h.tail);
      clean = h.clean;
    };
    inside = omega arith;
  };
  grows = grows-text;
}
