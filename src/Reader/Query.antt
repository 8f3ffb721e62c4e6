-- ===== src/Reader/Query.antt =====
-- lib/reader.c: `cx_reader_query`, threads that take the row groups of a file one after the other.
-- The counter and the error flag are only touched under the mutex, so a turn of a thread is one
-- of its sections, and a schedule is the list of the threads in the order of their turns.
pub mod Once
pub mod Ends
use columnix.Base.{
  ℕ, zero, suc, ◌+◌, ◌*◌, Bool, true, false, not, List, [], ◌∷◌, ◌++◌, Option, none, some, ◌==◌,
  ltb, if◌then◌else◌, add64, get_elem?, set, ℤ, pos, negsuc, Outcome, done, failed, aborted, ◌>>=◌,
  ◌>>◌, require,
}
use columnix.System.{System}
use columnix.Row.{RowCursor, row_cursor_new}
use columnix.Reader.{Reader}
use columnix.GroupReader.Get.{group_reader_get}

-- Where a thread is: before it takes a row group, with one, behind the label `error` with the row
-- group that brought it there, or at its end.
pub data Thread : Type 0 where
  asking : Thread
  holding : ℕ → Thread
  failing : ℕ → Thread
  ended : Thread

-- `struct cx_reader_query_context`, the threads, and the row groups done so far without an error
-- and with one.
pub record Query : Type 0 where
  pub position : ℕ
  pub row_group_count : ℕ
  pub error : Bool
  pub threads : List Thread
  pub completed : List ℕ
  pub lost : List ℕ

-- The cursor of a row group is handed to `iter`, which moves it and may leave its error flag set.
unfoldable pub query_row_group :
    System → Reader → (RowCursor → Outcome RowCursor) → ℕ → Outcome RowCursor
query_row_group sys reader iter n = do
  row_group ← group_reader_get sys reader.reader n
  cursor ← row_cursor_new sys row_group reader.predicate
  iter cursor

abbrev pub set_thread : ℕ → Thread → Query → Query
set_thread i t q = record q { threads = set q.threads i t }

module _ (work : ℕ → Outcome RowCursor) where
  -- `cx_reader_query_thread`, a turn of thread `i`.
  unfoldable pub turn : Query → ℕ → Outcome Query
  turn q i = elim (get_elem? q.threads i) [
    | none ↦ done q
    | some asking ↦
        done
          (record (set_thread i
            (if ltb q.position q.row_group_count then holding q.position else ended) q) {
              position = add64 q.position 1;
            })
    | some (holding n) ↦ elim (work n) [
      | done c ↦ done (record (set_thread i asking q) { completed = n ∷ q.completed })
      | failed ↦ done (set_thread i (failing n) q)
      | aborted ↦ aborted
    ]
    | some (failing n) ↦ done (record (set_thread i ended q) { error = true; lost = n ∷ q.lost })
    | some ended ↦ done q
  ]

  unfoldable pub turns : Query → List ℕ → Outcome Query
  unfolding turn
  turns q [] = done q
  turns q (i ∷ is) = turn q i >>= λ r. turns r is

abbrev pub fresh_threads : ℕ → List Thread
fresh_threads zero = []
fresh_threads (suc n) = asking ∷ fresh_threads n

-- The state when the threads have been created.
abbrev pub query_start : ℕ → ℕ → Query
query_start row_group_count thread_count = record {
  position = 0;
  row_group_count = row_group_count;
  error = false;
  threads = fresh_threads thread_count;
  completed = [];
  lost = [];
}

abbrev pub has_ended : Thread → Bool
has_ended asking = false
has_ended (holding n) = false
has_ended (failing n) = false
has_ended ended = true

abbrev pub all_ended : List Thread → Bool
all_ended [] = true
all_ended (t ∷ ts) = if has_ended t then all_ended ts else false

-- What the query needs of pthreads: pthread_mutex_init, and pthread_create for all the threads.
pub record Threading : Type 0 where
  pub inits : Bool
  pub creates : Bool

-- The threads are joined: with a schedule in which not all of them end, the call does not return,
-- which is `none`. A `pthread_t` has 8 bytes.
unfoldable pub reader_query :
    System
    → Threading
    → Reader
    → (RowCursor → Outcome RowCursor)
    → ℤ
    → List ℕ
    → Outcome (Option Bool)
unfolding query_row_group turns
reader_query sys threading reader iter thread_count schedule = elim thread_count [
  | negsuc _ ↦ failed
  | pos zero ↦ failed
  | pos (suc n) ↦
      (let joined =
          require threading.inits
          >> require (sys.grants (suc n * 8))
          >> require threading.creates
          >> turns (query_row_group sys reader iter) (query_start reader.row_group_count (suc n))
              schedule
          >>= λ q. done (if all_ended q.threads then some (not q.error) else none) in
        if reader.row_group_count == 0 then done (some true) else joined)
]
