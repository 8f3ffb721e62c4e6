-- ===== src/Predicate.antt =====
-- lib/predicate.c: predicates on rows, a tree of comparisons, negation, AND and OR; how they are
-- built and whether one fits a row group.
pub mod Indexes
pub mod Rows
pub mod Frame
pub mod Optimize
pub mod Tree
pub mod Keeps
pub mod Answer
pub mod Reorder
pub mod Cheapest
use columnix.Base.{
  ℕ, suc, ◌+◌, ◌*◌, Bool, true, false, ◌&&◌, ◌||◌, not, List, [], ◌∷◌, ◌++◌, Option, none, some,
  leb, ltb, ◌==◌, if◌then◌else◌, length, get_elem?, ℤ, pos, Outcome, done, failed, ◌>>=◌, ◌>>◌,
  require,
}
use columnix.Common.{ColumnType, same_type, StrLocation, Value}
use columnix.System.{System}
use columnix.Index.{Index}
use columnix.Index.Match.{IndexMatch}
use columnix.RowGroup.{RowGroup, count}
use columnix.RowGroup.Cursor.{Batch}

-- CX_PREDICATE_TRUE, …
pub data PredicateType : Type 0 where
  always null eq lt gt contains and or custom : PredicateType

-- The callbacks of a custom predicate, with their `data` applied. `match_rows` is handed the type,
-- the count and the values, and gives a mask or `none` for false.
pub record Custom : Type 0 where
  pub match_rows : Option (ColumnType → ℕ → Batch → Option ℕ)
  pub match_index : Option (ColumnType → Index → IndexMatch)
  pub cost : ℤ

-- The fields of `struct cx_predicate` but for the operands. `string` is the memory that
-- `value.str` points to, so it has no field of its own.
pub record Node : Type 0 where
  pub type : PredicateType
  pub column_type : ColumnType
  pub column : ℕ
  pub value : Value
  pub location : StrLocation
  pub case_sensitive : Bool
  pub negate : Bool
  pub custom : Custom

mutual
  pub data Predicate : Type 0 where
    node : Node → Operands → Predicate

  pub data Operands : Type 0 where
    nil : Operands
    cons : Predicate → Operands → Operands

abbrev pub root : Predicate → Node
root (node n ps) = n

abbrev pub operands : Predicate → Operands
operands (node n ps) = ps

abbrev pub of_list : List Predicate → Operands
of_list [] = nil
of_list (p ∷ ps) = cons p (of_list ps)

abbrev pub to_list : Operands → List Predicate
to_list nil = []
to_list (cons p ps) = p ∷ to_list ps

-- sizeof(struct cx_predicate)
abbrev pub predicate_struct_size : ℕ
predicate_struct_size = 96

-- What `calloc` leaves in a new predicate.
abbrev pub zeroed : Node
zeroed = record {
  type = PredicateType.always;
  column_type = ColumnType.bit;
  column = 0;
  value = Value.bit false;
  location = StrLocation.start;
  case_sensitive = false;
  negate = false;
  custom = record { match_rows = none; match_index = none; cost = pos 0 };
}

unfoldable pub new : System → Node → Outcome Predicate
new sys n = do require (sys.grants predicate_struct_size); done (node n nil)

unfoldable pub new_true : System → Outcome Predicate
unfolding new
new_true sys = new sys (record zeroed { type = PredicateType.always })

unfoldable pub new_null : System → ℕ → Outcome Predicate
unfolding new
new_null sys column = new sys (record zeroed { type = PredicateType.null; column = column })

unfoldable pub new_bit_eq : System → ℕ → Bool → Outcome Predicate
unfolding new
new_bit_eq sys column value = new sys (record zeroed {
  column = column;
  type = PredicateType.eq;
  column_type = ColumnType.bit;
  value = Value.bit value;
})

-- `type` is EQ, LT or GT in this and the next three.
unfoldable pub new_i32 : System → ℕ → ℤ → PredicateType → Outcome Predicate
unfolding new
new_i32 sys column value type = new sys (record zeroed {
  column = column;
  type = type;
  column_type = ColumnType.i32;
  value = Value.i32 value;
})

unfoldable pub new_i64 : System → ℕ → ℤ → PredicateType → Outcome Predicate
unfolding new
new_i64 sys column value type = new sys (record zeroed {
  column = column;
  type = type;
  column_type = ColumnType.i64;
  value = Value.i64 value;
})

unfoldable pub new_flt : System → ℕ → ℕ → PredicateType → Outcome Predicate
unfolding new
new_flt sys column value type = new sys (record zeroed {
  column = column;
  type = type;
  column_type = ColumnType.flt;
  value = Value.flt value;
})

unfoldable pub new_dbl : System → ℕ → ℕ → PredicateType → Outcome Predicate
unfolding new
new_dbl sys column value type = new sys (record zeroed {
  column = column;
  type = type;
  column_type = ColumnType.dbl;
  value = Value.dbl value;
})

-- EQ, LT, GT or CONTAINS; the string is copied.
unfoldable pub new_str : System → ℕ → List ℕ → PredicateType → Bool → Outcome Predicate
unfolding new
new_str sys column value type case_sensitive = do
  predicate ← new sys (record zeroed {
    column = column;
    type = type;
    column_type = ColumnType.str;
    value = Value.str value;
    case_sensitive = case_sensitive;
  })
  require (sys.grants (length value + 1))
  done predicate

unfoldable pub new_str_contains : System → ℕ → List ℕ → Bool → StrLocation → Outcome Predicate
unfolding new_str
new_str_contains sys column value case_sensitive location = do
  predicate ← new_str sys column value PredicateType.contains case_sensitive
  done (node (record (root predicate) { location = location }) (operands predicate))

unfoldable pub new_custom : System → ℕ → ColumnType → Custom → Outcome Predicate
unfolding new
new_custom sys column type callbacks = new sys (record zeroed {
  column = column;
  type = PredicateType.custom;
  column_type = type;
  custom = callbacks;
})

-- The operands up to the first that is NULL.
abbrev pub all_given : List (Option Predicate) → Outcome Operands
all_given [] = done nil
all_given (none ∷ ps) = failed
all_given (some p ∷ ps) = all_given ps >>= λ rest. done (cons p rest)

-- `cx_predicate_new_operator_array`, and `cx_predicate_new_operator`, whose operands come by va_arg.
unfoldable pub new_operator : System → PredicateType → List (Option Predicate) → Outcome Predicate
unfolding new
new_operator sys type given = do
  require (not (length given == 0))
  predicate ← new sys (record zeroed { type = type })
  require (sys.grants (length given * 8))
  ps ← all_given given
  done (node (root predicate) ps)

unfoldable pub new_and : System → List (Option Predicate) → Outcome Predicate
unfolding new_operator
new_and sys given = new_operator sys PredicateType.and given

unfoldable pub new_or : System → List (Option Predicate) → Outcome Predicate
unfolding new_operator
new_or sys given = new_operator sys PredicateType.or given

unfoldable pub negate : Predicate → Predicate
negate (node n ps) = node (record n { negate = not n.negate }) ps

-- `cx_predicate_valid` of a leaf, of the column's type.
unfoldable pub valid_leaf : Node → ColumnType → Bool
valid_leaf n type = elim n.type [
  | PredicateType.always ↦ true
  | PredicateType.null ↦ true
  | PredicateType.eq ↦ same_type n.column_type type
  | PredicateType.custom ↦ same_type n.column_type type
  | PredicateType.lt ↦ same_type n.column_type type && not (same_type type ColumnType.bit)
  | PredicateType.gt ↦ same_type n.column_type type && not (same_type type ColumnType.bit)
  | PredicateType.contains ↦ same_type n.column_type type && same_type type ColumnType.str
  | PredicateType.and ↦ true
  | PredicateType.or ↦ true
]

abbrev pub is_operator : PredicateType → Bool
is_operator PredicateType.and = true
is_operator PredicateType.or = true
is_operator _ = false

unfoldable mutual
  unfolding valid_leaf

  -- The operands of a leaf are not looked at.
  pub valid : RowGroup → Predicate → Bool
  valid row_group (node n ps) =
      let inner = valid_operands row_group ps in
      elim (get_elem? row_group.columns n.column) [
        | none ↦ false
        | some column ↦ valid_leaf n column.type && (if is_operator n.type then inner else true)
      ]

  pub valid_operands : RowGroup → Operands → Bool
  valid_operands row_group nil = true
  valid_operands row_group (cons p ps) = valid row_group p && valid_operands row_group ps
