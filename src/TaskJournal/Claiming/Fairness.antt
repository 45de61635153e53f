-- ===== src/TaskJournal/Claiming/Fairness.antt =====
-- tasks.go, `ClaimNextTaskFenced`: held tasks do not hide the ones that have no deadline.
use passwall_node.Prelude.{
  ℕ, zero, suc, ◌+◌, ◌≡◌, ◌≢◌, refl, ◌⊎◌, inl, inr, Bool, true, false, Bool-cases, Option, none,
  some, List, [], ◌∷◌, ◌++◌, String, ◌==◌, arith, ℤ, to_ℕ, All, length, take, not_found, err,
}
use passwall_node.TaskJournal.Rows.{
  received, TaskExecution, Journal, Wire, StartClock, update_rows, select_rows, insert_row,
  row_before,
}
use passwall_node.TaskJournal.Results.{is_row, encode, put_immutable_task_result}
use passwall_node.TaskJournal.Claiming.{
  started, expired, start, expire, claim_loop, candidates, claim_next_task_fenced, is_candidate,
  is_legacy, has_legacy, with_legacy,
}

update_rows-not_found :
    (p : TaskExecution → Bool) (f : TaskExecution → TaskExecution) (xs : List TaskExecution)
    → update_rows p f xs ≢ err not_found
unfolding update_rows
update_rows-not_found p f [] h = cc h
update_rows-not_found p f (x ∷ xs) h = ground (arith, update_rows-not_found p f xs)

start-not_found :
    (token : Option String) (t : TaskExecution) (at_ms : ℕ) (j : Journal)
    → start token t at_ms j ≢ err not_found
unfolding start
start-not_found none t at_ms j h = cc h
start-not_found (some k) t at_ms j h =
    ground (arith, update_rows-not_found (is_row t.id received) (started k at_ms) j.tasks)

expire-not_found :
    (wire : Wire) (t : TaskExecution) (at_ms : ℕ) (j : Journal)
    → expire wire t at_ms j ≢ err not_found
unfolding expire encode put_immutable_task_result
expire-not_found wire t at_ms j h =
    ground (arith, update_rows-not_found (is_row t.id received) (expired at_ms) j.tasks)

loop_finds_legacy :
    (wire : Wire) (clock : Option StartClock) (token : Option String) (at_ms reads : ℕ)
    (ts : List TaskExecution) (j : Journal)
    → has_legacy ts ≡ true
    → claim_loop wire clock token at_ms reads ts j ≢ err not_found
unfolding claim_loop has_legacy
loop_finds_legacy wire clock token at_ms reads [] j h e = cc h
loop_finds_legacy wire clock token at_ms reads (t ∷ ts) j h e = ground (
  arith,
  start-not_found token t at_ms j,
  expire-not_found wire t at_ms j,
  loop_finds_legacy wire clock token at_ms (reads + 1) ts j,
)

-- Some row of the table passes the test.
abbrev pub Some : (TaskExecution → Bool) → List TaskExecution → Type 0
Some p [] = ⊥
Some p (t ∷ ts) = (p t ≡ true) ⊎ Some p ts

insert_row-Some-head :
    (p : TaskExecution → Bool) (t : TaskExecution) (ts : List TaskExecution)
    → p t ≡ true
    → Some p (insert_row t ts)
unfolding insert_row
insert_row-Some-head p t [] h = inl h
insert_row-Some-head p t (u ∷ us) h = elim (Bool-cases (row_before t u)) [
  | inl e ↦ rw e (inl h)
  | inr e ↦ rw e (inr (insert_row-Some-head p t us h))
]

insert_row-Some-tail :
    (p : TaskExecution → Bool) (t : TaskExecution) (ts : List TaskExecution)
    → Some p ts
    → Some p (insert_row t ts)
unfolding insert_row
insert_row-Some-tail p t [] h = absurd h
insert_row-Some-tail p t (u ∷ us) h = elim (Bool-cases (row_before t u)) [
  | inl e ↦ rw e (inr h)
  | inr e ↦ rw e (elim h [ inl x ↦ inl x | inr x ↦ inr (insert_row-Some-tail p t us x) ])
]

-- A selection keeps the rows that pass its test.
select_rows-Some :
    (p q : TaskExecution → Bool) (ts : List TaskExecution)
    → ((t : TaskExecution) → p t ≡ true → q t ≡ true)
    → Some p ts
    → Some p (select_rows q ts)
unfolding select_rows
select_rows-Some p q [] keep h = absurd h
select_rows-Some p q (t ∷ ts) keep (inl h) =
    rw (keep t h) (insert_row-Some-head p t (select_rows q ts) h)
select_rows-Some p q (t ∷ ts) keep (inr h) = elim (Bool-cases (q t)) [
  | inl e ↦ rw e (insert_row-Some-tail p t (select_rows q ts) (select_rows-Some p q ts keep h))
  | inr e ↦ rw e (select_rows-Some p q ts keep h)
]

Some-has_legacy : (ts : List TaskExecution) → Some is_legacy ts → has_legacy ts ≡ true
unfolding has_legacy is_legacy
Some-has_legacy [] h = absurd h
Some-has_legacy (t ∷ ts) (inl h) = ground arith
Some-has_legacy (t ∷ ts) (inr h) = ground (arith, Some-has_legacy ts h)

has_legacy-append :
    (xs ys : List TaskExecution) → has_legacy ys ≡ true → has_legacy (xs ++ ys) ≡ true
unfolding has_legacy
has_legacy-append [] ys h = h
has_legacy-append (x ∷ xs) ys h = ground (arith, has_legacy-append xs ys h)

take_short : (n : ℕ) (ts : List TaskExecution) → (length (take n ts) == n) ≡ false → take n ts ≡ ts
take_short zero ts h = cc h
take_short (suc n) [] h = refl
take_short (suc n) (t ∷ ts) h = ground (arith, take_short n ts)

insert_row-All :
    (p : TaskExecution → Bool) (t : TaskExecution) (ts : List TaskExecution)
    → p t ≡ true
    → All (λ u. p u ≡ true) ts
    → All (λ u. p u ≡ true) (insert_row t ts)
unfolding insert_row
insert_row-All p t [] h a = (h, tt)
insert_row-All p t (u ∷ us) h a = elim (Bool-cases (row_before t u)) [
  | inl e ↦ rw e (h, a)
  | inr e ↦ rw e (a.0, insert_row-All p t us h a.1)
]

-- Every selected row passes the test.
select_rows-All :
    (p : TaskExecution → Bool) (ts : List TaskExecution) → All (λ t. p t ≡ true) (select_rows p ts)
unfolding select_rows
select_rows-All p [] = tt
select_rows-All p (t ∷ ts) = elim (Bool-cases (p t)) [
  | inl e ↦ rw e (insert_row-All p t (select_rows p ts) e (select_rows-All p ts))
  | inr e ↦ rw e (select_rows-All p ts)
]

has_legacy-take :
    (n : ℕ) (ts : List TaskExecution)
    → All (λ t. is_legacy t ≡ true) ts
    → Some is_legacy ts
    → has_legacy (take (suc n) ts) ≡ true
unfolding has_legacy is_legacy
has_legacy-take n [] a h = absurd h
has_legacy-take n (t ∷ ts) a h = ground arith

legacy_candidate :
    (clock : StartClock) (t : TaskExecution)
    → is_legacy t ≡ true
    → is_candidate (some clock) t ≡ true
unfolding is_legacy is_candidate
legacy_candidate clock t h = ground arith

-- The page that a claim looks at holds a task without a deadline, if the table does.
candidates_legacy :
    (clock : Option StartClock) (rows : List TaskExecution)
    → Some is_legacy rows
    → has_legacy (candidates clock rows) ≡ true
unfolding candidates with_legacy
candidates_legacy none rows h =
    unfold is_candidate in
    has_legacy-take 63 (select_rows (is_candidate none) rows)
      (unfold is_legacy in select_rows-All (is_candidate none) rows)
      (unfold is_legacy in select_rows-Some is_legacy (is_candidate none) rows (λ t e. e) h)
candidates_legacy (some clock) rows h = elim (Bool-cases (length page == 64)) [
  | inl full ↦ elim (Bool-cases (has_legacy page)) [
    | inl e ↦ rw (full, e) e
    | inr e ↦
        rw (full, e)
          (has_legacy-append page (take 1 (select_rows is_legacy rows)) (
            has_legacy-take 0 (select_rows is_legacy rows) (select_rows-All is_legacy rows)
              (select_rows-Some is_legacy is_legacy rows (λ t x. x) h)))
  ]
  | inr short ↦
      rw (short, take_short 64 (select_rows (is_candidate (some clock)) rows) short)
        (Some-has_legacy (select_rows (is_candidate (some clock)) rows)
          (select_rows-Some is_legacy (is_candidate (some clock)) rows (legacy_candidate clock) h))
]
  where
    page : List TaskExecution
    page = take 64 (select_rows (is_candidate (some clock)) rows)

-- While the journal holds a received task without a deadline, a claim does not report that there is
-- no work, however many protected tasks are held, with or without a clock.
pub claim_next_no_starvation :
    (wire : Wire) (clock : Option StartClock) (token : Option String) (at_ms : ℤ) (j : Journal)
    → Some is_legacy j.tasks
    → (claim_next_task_fenced wire clock token at_ms j).1 ≢ err not_found
unfolding claim_next_task_fenced
claim_next_no_starvation wire clock token at_ms j h =
    let page = candidates clock j.tasks in
    ground (
      arith,
      loop_finds_legacy wire clock token (to_ℕ at_ms) 0 page j (candidates_legacy clock j.tasks h),
    )
