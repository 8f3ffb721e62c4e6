-- ===== src/Reader/Query/Once.antt =====
-- lib/reader.c: in every schedule of `cx_reader_query`, no row group is taken twice, and none is left
-- out when the threads have ended.
use columnix.Base.{
  ℕ, zero, suc, ◌+◌, ◌≤◌, ◌<◌, ◌≡◌, ◌⊎◌, inl, inr, refl, ap, ◌∙◌, Bool, true, false, List, [], ◌∷◌,
  Option, none, some, ◌==◌, ltb, word_mod, add64, length, get_elem?, set, All, ◌*◌, if◌then◌else◌,
  Outcome, done, failed, aborted, Lands, Lands-bind, Lands-done, ◌&&◌, not, Bool-cases, pos,
  require, ◌>>=◌, ◌>>◌, arith,
}
use columnix.System.{System}
use columnix.Row.{RowCursor}
use columnix.Reader.{Reader}
use columnix.Reader.Query.{
  Threading, reader_query, query_row_group, Thread, asking, holding, failing, ended, Query,
  set_thread, turn, turns, fresh_threads, query_start, all_ended,
}

-- How often a number is in a list.
abbrev pub occurs : ℕ → List ℕ → ℕ
occurs n [] = 0
occurs n (m ∷ ms) = (if n == m then 1 else 0) + occurs n ms

abbrev pub sum : (Thread → ℕ) → List Thread → ℕ
sum f [] = 0
sum f (t ∷ ts) = f t + sum f ts

pub sum-set :
    (f : Thread → ℕ) (ts : List Thread) (i : ℕ) (old new : Thread)
    → get_elem? ts i ≡ some old
    → sum f (set ts i new) + f old ≡ sum f ts + f new
sum-set f [] i old new h = cc
sum-set f (t ∷ ts) zero old new h = let e : t ≡ old = cc in omega (arith, ap f e)
sum-set f (t ∷ ts) (suc i) old new h = omega (arith, sum-set f ts i old new h)

-- Whether a thread has row group `n`, and whether it is at its end.
abbrev pub has : ℕ → Thread → ℕ
has n asking = 0
has n (holding m) = if n == m then 1 else 0
has n (failing m) = if n == m then 1 else 0
has n ended = 0

abbrev pub at_end : Thread → ℕ
at_end asking = 0
at_end (holding n) = 0
at_end (failing n) = 0
at_end ended = 1

pub length-set_threads : (ts : List Thread) (i : ℕ) (t : Thread) → length (set ts i t) ≡ length ts
length-set_threads [] i t = refl
length-set_threads (u ∷ ts) zero t = refl
length-set_threads (u ∷ ts) (suc i) t = ap suc (length-set_threads ts i t)

at_end-sum : (ts : List Thread) → sum at_end ts ≤ length ts
at_end-sum [] = omega arith
at_end-sum (asking ∷ ts) = omega (arith, at_end-sum ts)
at_end-sum (holding n ∷ ts) = omega (arith, at_end-sum ts)
at_end-sum (failing n ∷ ts) = omega (arith, at_end-sum ts)
at_end-sum (ended ∷ ts) = omega (arith, at_end-sum ts)

abbrev pub one_if : Bool → ℕ
one_if true = 1
one_if false = 0

-- Each row group that has been taken is in one place: with a thread, or done.
pub record Shared (work : ℕ → Outcome RowCursor) (count crew : ℕ) (q : Query) : Type 0 where
  pub groups : q.row_group_count ≡ count
  pub manned : length q.threads ≡ crew
  pub placed :
      (n : ℕ)
      → sum (has n) q.threads + occurs n q.completed + occurs n q.lost
        ≡ one_if (ltb n q.position && ltb n q.row_group_count)
  pub bounded : q.position ≤ q.row_group_count + sum at_end q.threads
  pub small : q.row_group_count + length q.threads < word_mod
  pub worked : All (λ n. (c : RowCursor) × (work n ≡ done c)) q.completed
  pub told : (q.lost ≡ []) ⊎ (q.error ≡ true)
  -- Why a thread has ended.
  pub reason : (sum at_end q.threads ≡ 0) ⊎ ((q.row_group_count ≤ q.position) ⊎ (q.error ≡ true))

-- What a thread that asks is given when the counter stands at `p`.
abbrev pub given : ℕ → ℕ → Thread
given p c = if ltb p c then holding p else ended

given-has :
    (n p c : ℕ)
    → one_if (ltb n (p + 1) && ltb n c) ≡ one_if (ltb n p && ltb n c) + has n (given p c)
given-has n p c = ground arith

given-at_end : (p c m : ℕ) → p ≤ c + m → p + 1 ≤ c + (m + at_end (given p c))
given-at_end p c m h = ground arith

given-reason :
    (p c m n : ℕ) → m ≡ n + at_end (given p c) → ((n ≡ 0) ⊎ (c ≤ p)) → (m ≡ 0) ⊎ (c ≤ p + 1)
given-reason p c m n e h = elim (Bool-cases (ltb p c)) [
  | inl l ↦ elim h [
    | inl z ↦ inl (let y : at_end (given p c) ≡ 0 = rw l refl in omega (arith, e, y, z))
    | inr z ↦ inr (omega arith)
  ]
  | inr l ↦ inr (ground (arith, l))
]

module _ (work : ℕ → Outcome RowCursor) (count crew : ℕ) (q : Query) (i : ℕ)
    (s : Shared work count crew q) where
  -- The reason stays where no more threads have ended.
  same_reason :
      (old new : Thread)
      → get_elem? q.threads i ≡ some old
      → at_end old ≡ at_end new
      → (sum at_end (set q.threads i new) ≡ 0)
        ⊎ ((q.row_group_count ≤ q.position) ⊎ (q.error ≡ true))
  same_reason old new e f = elim s.reason [
    | inl z ↦ inl (omega (arith, sum-set at_end q.threads i old new e))
    | inr z ↦ inr z
  ]

  ask_reason :
      get_elem? q.threads i ≡ some asking
      → add64 q.position 1 ≡ q.position + 1
      → (sum at_end (set q.threads i (given q.position q.row_group_count)) ≡ 0)
        ⊎ ((q.row_group_count ≤ add64 q.position 1) ⊎ (q.error ≡ true))
  ask_reason e w =
      let ends = sum-set at_end q.threads i asking (given q.position q.row_group_count) e in
      let step = λ (h : (sum at_end q.threads ≡ 0) ⊎ (q.row_group_count ≤ q.position)).
        given-reason q.position q.row_group_count
          (sum at_end (set q.threads i (given q.position q.row_group_count))) (sum at_end q.threads)
          (omega (arith, ends)) h in
      elim s.reason [
        | inl z ↦ elim (step (inl z)) [ inl a ↦ inl a | inr a ↦ inr (inl (omega (arith, w))) ]
        | inr (inl z) ↦ elim (step (inr z)) [ inl a ↦ inl a | inr a ↦ inr (inl (omega (arith, w))) ]
        | inr (inr z) ↦ inr (inr z)
      ]

  -- A thread that has not ended leaves room for one more step of the counter.
  pub not_wrapped : get_elem? q.threads i ≡ some asking → add64 q.position 1 ≡ q.position + 1
  not_wrapped e = omega (
    arith,
    s.bounded,
    s.small,
    sum-set at_end q.threads i asking ended e,
    at_end-sum (set q.threads i ended),
    length-set_threads q.threads i ended,
  )

  ask-Shared :
      get_elem? q.threads i ≡ some asking
      → Shared work count crew (record (set_thread i (given q.position q.row_group_count) q) {
        position = add64 q.position 1;
      })
  ask-Shared e =
      let t = given q.position q.row_group_count in
      let ends = sum-set at_end q.threads i asking t e in
      record {
        groups = s.groups;
        manned = length-set_threads q.threads i t ∙ s.manned;
        placed = λ n.
            rw (not_wrapped e, given-has n q.position q.row_group_count)
              (omega (arith, s.placed n, sum-set (has n) q.threads i asking t e));
        bounded = rw (not_wrapped e) (
            omega (
              arith,
              ends,
              given-at_end q.position q.row_group_count (sum at_end q.threads) s.bounded,
            ));
        small = omega (arith, s.small, length-set_threads q.threads i t);
        worked = s.worked;
        told = s.told;
        reason = ask_reason e (not_wrapped e);
      }

  -- A thread hands its row group on: to the done ones, or to itself when it fails.
  completed-Shared :
      (m : ℕ) (c : RowCursor)
      → get_elem? q.threads i ≡ some (holding m)
      → work m ≡ done c
      → Shared work count crew (record (set_thread i asking q) { completed = m ∷ q.completed })
  completed-Shared m c e w = record {
    groups = s.groups;
    manned = length-set_threads q.threads i asking ∙ s.manned;
    placed = λ n. omega (arith, s.placed n, sum-set (has n) q.threads i (holding m) asking e);
    bounded = omega (arith, s.bounded, sum-set at_end q.threads i (holding m) asking e);
    small = omega (arith, s.small, length-set_threads q.threads i asking);
    worked = ((c, w), s.worked);
    told = s.told;
    reason = same_reason (holding m) asking e refl;
  }

  failing-Shared :
      (m : ℕ)
      → get_elem? q.threads i ≡ some (holding m)
      → Shared work count crew (set_thread i (failing m) q)
  failing-Shared m e = record {
    groups = s.groups;
    manned = length-set_threads q.threads i (failing m) ∙ s.manned;
    placed = λ n. omega (arith, s.placed n, sum-set (has n) q.threads i (holding m) (failing m) e);
    bounded = omega (arith, s.bounded, sum-set at_end q.threads i (holding m) (failing m) e);
    small = omega (arith, s.small, length-set_threads q.threads i (failing m));
    worked = s.worked;
    told = s.told;
    reason = same_reason (holding m) (failing m) e refl;
  }

  lost-Shared :
      (m : ℕ)
      → get_elem? q.threads i ≡ some (failing m)
      → Shared work count crew (record (set_thread i ended q) { error = true; lost = m ∷ q.lost })
  lost-Shared m e = record {
    groups = s.groups;
    manned = length-set_threads q.threads i ended ∙ s.manned;
    placed = λ n. omega (arith, s.placed n, sum-set (has n) q.threads i (failing m) ended e);
    bounded = omega (arith, s.bounded, sum-set at_end q.threads i (failing m) ended e);
    small = omega (arith, s.small, length-set_threads q.threads i ended);
    worked = s.worked;
    told = inr refl;
    reason = inr (inr refl);
  }

  work-Shared :
      (m : ℕ) (o : Outcome RowCursor)
      → get_elem? q.threads i ≡ some (holding m)
      → work m ≡ o
      → Lands (Shared work count crew) (turn work q i)
  unfolding turn
  work-Shared m (done c) e w = rw (Lands, e, w) (completed-Shared m c e w)
  work-Shared m failed e w = rw (Lands, e, w) (failing-Shared m e)
  work-Shared m aborted e w = rw (Lands, e, w) tt

  pub at-Shared :
      (o : Option Thread)
      → get_elem? q.threads i ≡ o
      → Lands (Shared work count crew) (turn work q i)
  unfolding turn
  at-Shared none e = rw (Lands, e) s
  at-Shared (some asking) e = rw (Lands, e) (ask-Shared e)
  at-Shared (some (holding m)) e = work-Shared m (work m) e refl
  at-Shared (some (failing m)) e = rw (Lands, e) (lost-Shared m e)
  at-Shared (some ended) e = rw (Lands, e) s

module _ (work : ℕ → Outcome RowCursor) (count crew : ℕ) where
  turns-Shared :
      (is : List ℕ) (q : Query)
      → Shared work count crew q
      → Lands (Shared work count crew) (turns work q is)
  unfolding turns
  turns-Shared [] q s = s
  turns-Shared (i ∷ is) q s =
      Lands-bind (Shared work count crew) (Shared work count crew) (turn work q i)
        (λ r. turns work r is) (at-Shared work count crew q i s (get_elem? q.threads i) refl)
        (turns-Shared is)

pub fresh-sum : (f : Thread → ℕ) (t : ℕ) → f asking ≡ 0 → sum f (fresh_threads t) ≡ 0
fresh-sum f zero e = refl
fresh-sum f (suc t) e = omega (arith, e, fresh-sum f t e)

length-fresh_threads : (t : ℕ) → length (fresh_threads t) ≡ t
length-fresh_threads zero = refl
length-fresh_threads (suc t) = ap suc (length-fresh_threads t)

pub start-Shared :
    (work : ℕ → Outcome RowCursor) (count t : ℕ)
    → count + t < word_mod
    → Shared work count t (query_start count t)
start-Shared work count t h = record {
  groups = refl;
  manned = length-fresh_threads t;
  placed = λ n.
      let none_taken : ltb n 0 ≡ false = ground arith in
      rw none_taken (omega (arith, fresh-sum (has n) t refl));
  bounded = omega arith;
  small = omega (arith, h, length-fresh_threads t);
  worked = tt;
  told = inl refl;
  reason = inl (fresh-sum at_end t refl);
}

module _ (work : ℕ → Outcome RowCursor) where
  -- At every moment of every schedule, with fewer than 2^64 row groups and threads together: each
  -- row group that has been taken is in exactly one place, with one thread, among the completed,
  -- or among those lost to an error, no other is anywhere, the completed ones were worked on
  -- without an error, and if one was lost the error flag is set.
  pub schedule-Shared :
      (count t : ℕ) (is : List ℕ) (q : Query)
      → count + t < word_mod
      → turns work (query_start count t) is ≡ done q
      → Shared work count t q
  schedule-Shared count t is q h e =
      Lands-done (Shared work count t) (turns work (query_start count t) is) q e
        (turns-Shared work count t is (query_start count t) (start-Shared work count t h))

ended-has : (n : ℕ) (ts : List Thread) → all_ended ts ≡ true → sum (has n) ts ≡ 0
ended-has n [] h = refl
ended-has n (asking ∷ ts) h = cc
ended-has n (holding m ∷ ts) h = cc
ended-has n (failing m ∷ ts) h = cc
ended-has n (ended ∷ ts) h = omega (arith, ended-has n ts h)

ended-at_end : (ts : List Thread) → all_ended ts ≡ true → sum at_end ts ≡ length ts
ended-at_end [] h = refl
ended-at_end (asking ∷ ts) h = cc
ended-at_end (holding m ∷ ts) h = cc
ended-at_end (failing m ∷ ts) h = cc
ended-at_end (ended ∷ ts) h = omega (arith, ended-at_end ts h)

-- What is left to show of a query that has ended without an error.
module _ (work : ℕ → Outcome RowCursor) (count crew : ℕ) (q : Query)
    (s : Shared work count (suc crew) q) (over : all_ended q.threads ≡ true)
    (well : q.error ≡ false) where
  none_lost : q.lost ≡ []
  none_lost = elim s.told [ inl e ↦ e | inr e ↦ cc ]

  all_taken : count ≤ q.position
  all_taken = elim s.reason [
    | inl z ↦ absurd (omega (arith, z, ended-at_end q.threads over, s.manned))
    | inr (inl h) ↦ omega (arith, h, s.groups)
    | inr (inr e) ↦ cc
  ]

  completed-once : (n : ℕ) → occurs n q.completed ≡ one_if (ltb n count)
  completed-once n =
      let lost : occurs n q.lost ≡ 0 = rw none_lost refl in
      let reached : one_if (ltb n q.position && ltb n q.row_group_count) ≡ one_if (ltb n count) =
        rw s.groups (taken n q.position count all_taken) in
      omega (arith, s.placed n, ended-has n q.threads over, lost, reached)
    where
      taken : (n p c : ℕ) → c ≤ p → one_if (ltb n p && ltb n c) ≡ one_if (ltb n c)
      taken n p c h = ground arith

-- A query that has returned true: its threads have ended, and the flag is down.
answered : (a b : Bool) → (if a then some (not b) else none) ≡ some true → (a ≡ true) × (b ≡ false)
answered true true h = ground arith
answered true false h = (refl, refl)
answered false b h = cc

joined :
    (a b c : Bool) (m : Outcome Query)
    → (require a >> require b >> require c >> m >>= λ q.
        done (if all_ended q.threads then some (not q.error) else none))
      ≡ done (some true)
    → (q : Query) × (m ≡ done q) × (all_ended q.threads ≡ true) × (q.error ≡ false)
joined true true true (done q) h =
    let r = answered (all_ended q.threads) q.error (cc) in (q, refl, r.0, r.1)
joined true true true failed h = cc
joined true true true aborted h = cc
joined true true false m h = cc
joined true false c m h = cc
joined false b c m h = cc

-- If cx_reader_query with one thread or more returns true on a file with row groups, fewer than
-- 2^64 with the threads, then in whatever order the threads had their turns, each row group of the
-- file was completed exactly once, no other was, and iter left no error on any of them.
pub reader_query-Once :
    (sys : System) (threading : Threading) (reader : Reader) (iter : RowCursor → Outcome RowCursor)
    (crew : ℕ) (schedule : List ℕ)
    → (reader.row_group_count == 0) ≡ false
    → reader.row_group_count + suc crew < word_mod
    → reader_query sys threading reader iter (pos (suc crew)) schedule ≡ done (some true)
    → (q : Query) × (turns
          (query_row_group sys reader iter)
          (query_start reader.row_group_count (suc crew))
          schedule
        ≡ done q)
      × ((n : ℕ) → occurs n q.completed ≡ one_if (ltb n reader.row_group_count))
      × All (λ n. (c : RowCursor) × (query_row_group sys reader iter n ≡ done c)) q.completed
unfolding reader_query
reader_query-Once sys threading reader iter crew schedule some_groups h e =
    let work = query_row_group sys reader iter in
    let result = turns work (query_start reader.row_group_count (suc crew)) schedule in
    let r =
      joined threading.inits (sys.grants (suc crew * 8)) threading.creates result
        (rw some_groups at e) in
    let s = schedule-Shared work reader.row_group_count (suc crew) schedule r.0 h r.1 in
    (r.0, r.1, completed-once work reader.row_group_count crew r.0 s r.2 r.3, s.worked)
