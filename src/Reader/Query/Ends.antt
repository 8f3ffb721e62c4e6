-- ===== src/Reader/Query/Ends.antt =====
-- lib/reader.c: `cx_reader_query` returns when each of its threads gets a turn often enough.
use columnix.Base.{
  ℕ, zero, suc, ◌+◌, ◌-◌, ◌*◌, ◌≤◌, ◌<◌, ◌≡◌, ◌≢◌, ◌⊎◌, inl, inr, refl, sym, ap, ◌∙◌, Bool, true,
  not, List, [], ◌∷◌, ◌++◌, Option, none, some, ◌==◌, ltb, ◌&&◌, word_mod, add64, length, get_elem?,
  All, pos, Outcome, done, failed, aborted, ◌>>=◌, Lands-done, Outcome-cases, Bool-cases, arith,
}
use columnix.System.{System}
use columnix.Row.{RowCursor}
use columnix.Reader.{Reader}
use columnix.Reader.Query.{
  Threading, reader_query, query_row_group, Thread, asking, holding, failing, ended, Query,
  set_thread, turn, turns, fresh_threads, query_start, all_ended,
}
use columnix.Reader.Query.Once.{
  occurs, sum, sum-set, has, Shared, given, not_wrapped, at-Shared, start-Shared, one_if,
}

-- How many turns a thread has before it at most, not counting those for row groups not yet taken.
abbrev turns_of : Thread → ℕ
turns_of asking = 1
turns_of (holding n) = 2
turns_of (failing n) = 1
turns_of ended = 0

abbrev weight : Query → ℕ
weight q = 2 * (q.row_group_count - q.position) + sum turns_of q.threads

given-turns : (p c : ℕ) → 2 * (c - (p + 1)) + turns_of (given p c) < 2 * (c - p) + 1
given-turns p c = ground arith

-- A turn that the schedule gives to thread `i`.
record Turned (work : ℕ → Outcome RowCursor) (count crew : ℕ) (q : Query) (i : ℕ) : Type 0 where
  next : Query
  turned : turn work q i ≡ done next
  shared : Shared work count crew next
  -- It brings the query nearer to its end, or thread `i` has ended.
  nearer :
      (weight next < weight q)
      ⊎ ((next ≡ q) × ((t : Thread) → get_elem? q.threads i ≡ some t → t ≡ ended))

has-le :
    (n i : ℕ) (ts : List Thread) (t : Thread) → get_elem? ts i ≡ some t → has n t ≤ sum (has n) ts
has-le n i [] t e = cc
has-le n zero (u ∷ ts) t e = let f : u ≡ t = cc in omega (arith, ap (has n) f)
has-le n (suc i) (u ∷ ts) t e = omega (arith, has-le n i ts t e)

module _ (work : ℕ → Outcome RowCursor) (count crew : ℕ)
    (goes : (n : ℕ) → n < count → work n ≢ aborted) where
  module _ (q : Query) (i : ℕ) (s : Shared work count crew q) where
    to_next :
        (r : Query)
        → turn work q i ≡ done r
        → (weight r < weight q)
          ⊎ ((r ≡ q) × ((t : Thread) → get_elem? q.threads i ≡ some t → t ≡ ended))
        → Turned work count crew q i
    to_next r e n = record {
      next = r;
      turned = e;
      shared =
          Lands-done (Shared work count crew) (turn work q i) r e
            (at-Shared work count crew q i s (get_elem? q.threads i) refl);
      nearer = n;
    }

    held-lt : (n : ℕ) → get_elem? q.threads i ≡ some (holding n) → n < count
    held-lt n e =
        let mine : has n (holding n) ≡ 1 = ground arith in
        let bound : one_if (ltb n q.position && ltb n q.row_group_count) ≤ one_if (ltb n count) =
          rw s.groups (ground arith) in
        ground (arith, has-le n i q.threads (holding n) e, mine, s.placed n, bound)

    work-Turned :
        (n : ℕ) (o : Outcome RowCursor)
        → get_elem? q.threads i ≡ some (holding n)
        → work n ≡ o
        → Turned work count crew q i
    unfolding turn
    work-Turned n (done c) e w =
        to_next (record (set_thread i asking q) { completed = n ∷ q.completed })
          (rw (turn, e, w) refl)
          (inl (omega (arith, sum-set turns_of q.threads i (holding n) asking e)))
    work-Turned n failed e w =
        to_next (set_thread i (failing n) q) (rw (turn, e, w) refl)
          (inl (omega (arith, sum-set turns_of q.threads i (holding n) (failing n) e)))
    work-Turned n aborted e w = absurd (goes n (held-lt n e) w)

    turn-Turned : (o : Option Thread) → get_elem? q.threads i ≡ o → Turned work count crew q i
    unfolding turn
    turn-Turned none e = to_next q (rw (turn, e) refl) (inr (refl, λ t f. cc))
    turn-Turned (some asking) e =
        let t = given q.position q.row_group_count in
        let r = record (set_thread i t q) { position = add64 q.position 1 } in
        let wrap : add64 q.position 1 ≡ q.position + 1 = not_wrapped work count crew q i s e in
        to_next r (rw (turn, e) refl) (
          inl (
            rw wrap (
              omega (
                arith,
                sum-set turns_of q.threads i asking t e,
                given-turns q.position q.row_group_count,
              ))))
    turn-Turned (some (holding n)) e = work-Turned n (work n) e refl
    turn-Turned (some (failing n)) e =
        to_next (record (set_thread i ended q) { error = true; lost = n ∷ q.lost })
          (rw (turn, e) refl)
          (inl (omega (arith, sum-set turns_of q.threads i (failing n) ended e)))
    turn-Turned (some ended) e = to_next q (rw (turn, e) refl) (inr (refl, λ t f. cc))

-- The state after a list of turns, and that it has come nearer to the end, or that each thread with
-- a turn has ended.
record Round (work : ℕ → Outcome RowCursor) (count crew : ℕ) (q : Query) (is : List ℕ)
    : Type 0 where
  last : Query
  came : turns work q is ≡ done last
  stays : Shared work count crew last
  progress :
      (weight last < weight q)
      ⊎ ((last ≡ q)
          × ((j : ℕ) (t : Thread) → 0 < occurs j is → get_elem? q.threads j ≡ some t → t ≡ ended))

not_zero_le :
    (work : ℕ → Outcome RowCursor) (count crew : ℕ) (q : Query) (is : List ℕ)
    (r : Round work count crew q is)
    → weight r.last ≤ weight q
not_zero_le work count crew q is r = elim r.progress [
  | inl l ↦ omega (arith, l)
  | inr e ↦ omega (arith, ap weight e.0)
]

module _ (work : ℕ → Outcome RowCursor) (count crew : ℕ)
    (goes : (n : ℕ) → n < count → work n ≢ aborted) where
  turns-Round : (is : List ℕ) (q : Query) → Shared work count crew q → Round work count crew q is
  unfolding turns
  turns-Round [] q s = record {
    last = q;
    came = refl;
    stays = s;
    progress = inr (refl, λ j t h e. absurd (omega arith));
  }
  turns-Round (i ∷ is) q s =
      let first = turn-Turned work count crew goes q i s (get_elem? q.threads i) refl in
      let rest = turns-Round is first.next first.shared in
      record {
        last = rest.last;
        came = rw first.turned rest.came;
        stays = rest.stays;
        progress = elim first.nearer [
          | inl l ↦ inl (omega (arith, l, not_zero_le work count crew first.next is rest))
          | inr e ↦ elim rest.progress [
            | inl m ↦ inl (omega (arith, m, ap weight e.0))
            | inr f ↦ inr (
              f.0 ∙ e.0,
              λ j t h g. elim (Bool-cases (j == i)) [
                | inl y ↦
                    let same : j ≡ i = ground (arith, y) in
                    e.1 t (ap (get_elem? q.threads) (sym same) ∙ g)
                | inr y ↦
                    let later : 0 < occurs j is = ground (arith, h, y) in
                    f.1 j t later (ap (λ p. get_elem? p.threads j) e.0 ∙ g)
              ],
            )
          ]
        ];
      }

-- Each of the threads has a turn.
abbrev pub Covers : ℕ → List ℕ → Type 0
Covers crew is = (i : ℕ) → i < crew → 0 < occurs i is

abbrev pub concat : List (List ℕ) → List ℕ
concat [] = []
concat (r ∷ rs) = r ++ concat rs

turns-append :
    (work : ℕ → Outcome RowCursor) (is js : List ℕ) (q : Query)
    → turns work q (is ++ js) ≡ (turns work q is >>= λ r. turns work r js)
unfolding turns
turns-append work [] js q = refl
turns-append work (i ∷ is) js q = elim (Outcome-cases (turn work q i)) [
  | inl e ↦ rw e.1 (turns-append work is js e.0)
  | inr (inl e) ↦ rw e refl
  | inr (inr e) ↦ rw e refl
]

threads-ended :
    (ts : List Thread)
    → ((j : ℕ) (t : Thread) → j < length ts → get_elem? ts j ≡ some t → t ≡ ended)
    → sum turns_of ts ≡ 0
threads-ended [] h = refl
threads-ended (t ∷ ts) h = omega (
  arith,
  ap turns_of (h 0 t (omega arith) refl),
  threads-ended ts (λ j u l e. h (suc j) u (omega arith) e),
)

all_ended-zero : (ts : List Thread) → sum turns_of ts ≡ 0 → all_ended ts ≡ true
all_ended-zero [] h = refl
all_ended-zero (asking ∷ ts) h = absurd (omega arith)
all_ended-zero (holding n ∷ ts) h = absurd (omega arith)
all_ended-zero (failing n ∷ ts) h = absurd (omega arith)
all_ended-zero (ended ∷ ts) h = all_ended-zero ts (omega arith)

-- Where all threads have ended, a turn changes nothing.
idle :
    (ts : List Thread) (i : ℕ) (t : Thread)
    → sum turns_of ts ≡ 0
    → get_elem? ts i ≡ some t
    → turns_of t ≡ 0
idle [] i t h e = cc
idle (u ∷ ts) zero t h e = let f : u ≡ t = cc in omega (arith, h, ap turns_of f)
idle (u ∷ ts) (suc i) t h e = idle ts i t (omega arith) e

idle-turn :
    (work : ℕ → Outcome RowCursor) (q : Query) (i : ℕ) (o : Option Thread)
    → get_elem? q.threads i ≡ o
    → sum turns_of q.threads ≡ 0
    → turn work q i ≡ done q
unfolding turn
idle-turn work q i none e h = rw (turn, e) refl
idle-turn work q i (some asking) e h = absurd (omega (arith, idle q.threads i asking h e))
idle-turn work q i (some (holding n)) e h = absurd (omega (arith, idle q.threads i (holding n) h e))
idle-turn work q i (some (failing n)) e h = absurd (omega (arith, idle q.threads i (failing n) h e))
idle-turn work q i (some ended) e h = rw (turn, e) refl

idle-turns :
    (work : ℕ → Outcome RowCursor) (is : List ℕ) (q : Query)
    → sum turns_of q.threads ≡ 0
    → turns work q is ≡ done q
unfolding turns
idle-turns work [] q h = refl
idle-turns work (i ∷ is) q h =
    rw (idle-turn work q i (get_elem? q.threads i) refl h) (idle-turns work is q h)

-- The state after some rounds.
record After (work : ℕ → Outcome RowCursor) (q : Query) (rounds : List (List ℕ)) : Type 0 where
  final : Query
  reached : turns work q (concat rounds) ≡ done final
  so_far : (sum turns_of final.threads ≡ 0) ⊎ (weight final + length rounds ≤ weight q)

module _ (work : ℕ → Outcome RowCursor) (count crew : ℕ)
    (goes : (n : ℕ) → n < count → work n ≢ aborted) where
  rounds-After :
      (rounds : List (List ℕ)) (q : Query)
      → Shared work count crew q
      → All (Covers crew) rounds
      → After work q rounds
  unfolding turns
  rounds-After [] q s c = record { final = q; reached = refl; so_far = inr (omega arith) }
  rounds-After (is ∷ rounds) q s c =
      let r = turns-Round work count crew goes is q s in
      elim r.progress [
        | inl l ↦
            let a = rounds-After rounds r.last r.stays c.1 in
            record {
              final = a.final;
              reached = turns-append work is (concat rounds) q ∙ rw r.came a.reached;
              so_far = elim a.so_far [ inl z ↦ inl z | inr z ↦ inr (omega (arith, l, z)) ];
            }
        | inr e ↦
            let over =
              threads-ended q.threads (λ j t l f. e.1 j t (c.0 j (omega (arith, l, s.manned))) f) in
            record {
              final = q;
              reached = idle-turns work (is ++ concat rounds) q over;
              so_far = inl over;
            }
      ]

-- When a query has its mutex, memory and threads, and work on no row group aborts, cx_reader_query
-- returns after 2 * row groups + threads rounds, in each of which every thread has a turn or more,
-- in any order.
pub reader_query-Returns :
    (sys : System) (threading : Threading) (reader : Reader) (iter : RowCursor → Outcome RowCursor)
    (crew : ℕ) (rounds : List (List ℕ))
    → reader.row_group_count + suc crew < word_mod
    → threading.inits ≡ true
    → threading.creates ≡ true
    → sys.grants (suc crew * 8) ≡ true
    → ((n : ℕ) → n < reader.row_group_count → query_row_group sys reader iter n ≢ aborted)
    → All (Covers (suc crew)) rounds
    → 2 * reader.row_group_count + suc crew ≤ length rounds
    → (b : Bool) × (reader_query sys threading reader iter (pos (suc crew)) (concat rounds)
        ≡ done (some b))
unfolding reader_query
reader_query-Returns sys threading reader iter crew rounds h i c g goes fair enough =
    let work = query_row_group sys reader iter in
    let count = reader.row_group_count in
    let start = query_start count (suc crew) in
    let a =
      rounds-After work count (suc crew) goes rounds start (start-Shared work count (suc crew) h)
        fair in
    let over : all_ended a.final.threads ≡ true =
      all_ended-zero a.final.threads (elim a.so_far [
        | inl z ↦ z
        | inr z ↦ omega (arith, z, enough, turns_of-fresh (suc crew))
      ]) in
    elim (Bool-cases (count == 0)) [
      | inl e ↦ (true, rw e refl)
      | inr e ↦ (not a.final.error, rw (e, i, g, c, a.reached, over) refl)
    ]
  where
    turns_of-fresh : (t : ℕ) → sum turns_of (fresh_threads t) ≡ t
    turns_of-fresh zero = refl
    turns_of-fresh (suc t) = omega (arith, turns_of-fresh t)
