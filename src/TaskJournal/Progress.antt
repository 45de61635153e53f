-- ===== src/TaskJournal/Progress.antt =====
-- tasks.go: what every handler keeps of the journal's rows.
use passwall_node.Prelude.{
  ◌≡◌, refl, ◌∙◌, inl, inr, Bool, true, false, Bool-cases, Result-cases, map, List, [], ◌∷◌, ◌++◌,
  if◌then◌else◌, arith, All, ok,
}
use passwall_node.TaskJournal.Rows.{
  TaskState, received, running, succeeded, failed, indeterminate, terminal, same_state,
  TaskExecution, update_rows, insert_task,
}

-- The edges of the task's life: what one handler may do to a row's state.
abbrev pub allowed : TaskState → TaskState → Bool
allowed received received = true
allowed received running = true
allowed received failed = true
allowed running received = true
allowed running running = true
allowed running succeeded = true
allowed running failed = true
allowed running indeterminate = true
allowed succeeded succeeded = true
allowed failed failed = true
allowed indeterminate indeterminate = true
allowed _ _ = false

-- The columns of a row that a result report is made of.
pub record SameOutcome (x y : TaskExecution) : Type 0 where
  pub state : y.state ≡ x.state
  pub result : y.result ≡ x.result
  pub error_code : y.error_code ≡ x.error_code
  pub error : y.error ≡ x.error
  pub started : y.started_at_ms ≡ x.started_at_ms
  pub finished : y.finished_at_ms ≡ x.finished_at_ms
  pub token : y.claim_token ≡ x.claim_token

-- The identity of a task, which is fixed when it is accepted.
pub record SameIdentity (x y : TaskExecution) : Type 0 where
  pub id : y.id ≡ x.id
  pub kind : y.kind ≡ x.kind
  pub input : y.input_sha256 ≡ x.input_sha256
  pub args : y.args ≡ x.args
  pub deadline : y.not_after_ms ≡ x.not_after_ms
  pub received_at : y.received_at_ms ≡ x.received_at_ms

pub record Progress (x y : TaskExecution) : Type 0 where
  pub identity : SameIdentity x y
  pub edge : allowed x.state y.state ≡ true
  pub outcome : terminal x.state ≡ true → SameOutcome x y

-- A row that is the same but for the mark that its result was delivered.
pub record Same (x y : TaskExecution) : Type 0 where
  pub identity : SameIdentity x y
  pub outcome : SameOutcome x y

-- The rows stay in place, each makes a step, and new rows are received ones at the end.
abbrev pub EvolvesBy :
    (TaskExecution → TaskExecution → Type 0) → List TaskExecution → List TaskExecution → Type 0
EvolvesBy R [] ys = All (λ y. y.state ≡ received) ys
EvolvesBy R (x ∷ xs) [] = ⊥
EvolvesBy R (x ∷ xs) (y ∷ ys) = R x y × EvolvesBy R xs ys

abbrev pub Evolves : List TaskExecution → List TaskExecution → Type 0
Evolves = EvolvesBy Progress

allowed_refl : (s : TaskState) → allowed s s ≡ true
allowed_refl received = refl
allowed_refl running = refl
allowed_refl _ = refl

pub Same-refl : (x : TaskExecution) → Same x x
Same-refl x = ground arith

pub Same-trans : {x y z : TaskExecution} → Same x y → Same y z → Same x z
Same-trans p q = ground arith

Same-Progress : {x y : TaskExecution} → Same x y → Progress x y
Same-Progress {x} s = record {
  identity = s.identity;
  edge = rw (s.outcome.state) (allowed_refl x.state);
  outcome = λ _. s.outcome;
}

pub Progress-refl : (x : TaskExecution) → Progress x x
Progress-refl x = Same-Progress (Same-refl x)

-- What the test `a == b` on states says.
pub same_state→eq : (a b : TaskState) → same_state a b ≡ true → a ≡ b
same_state→eq a b h = ground arith

-- A step from a row that is not terminal.
pub step-Progress :
    {x y : TaskExecution}
    → SameIdentity x y
    → terminal x.state ≡ false
    → allowed x.state y.state ≡ true
    → Progress x y
step-Progress i live e = record { identity = i; edge = e; outcome = λ t. absurd (cc (live, t)) }

updated : (TaskExecution → Bool) → (TaskExecution → TaskExecution) → TaskExecution → TaskExecution
updated p f x = if p x then f x else x

-- An update that passes its CHECKs applies the assignment to the selected rows.
update_rows-eq :
    (p : TaskExecution → Bool) (f : TaskExecution → TaskExecution) (xs ys : List TaskExecution)
    → update_rows p f xs ≡ ok ys
    → ys ≡ map (updated p f) xs
unfolding update_rows updated
update_rows-eq p f [] ys h = ground arith
update_rows-eq p f (x ∷ xs) ys h = elim (Result-cases (update_rows p f xs)) [
  | inl (zs, e) ↦ ground (arith, update_rows-eq p f xs zs e)
  | inr (e, bad) ↦ ground arith
]

insert_task-eq :
    (t : TaskExecution) (xs ys : List TaskExecution) → insert_task t xs ≡ ok ys → ys ≡ xs ++ t ∷ []
unfolding insert_task
insert_task-eq t xs ys h = ground arith

module _ (R : TaskExecution → TaskExecution → Type 0) (R-refl : (x : TaskExecution) → R x x) where
  pub EvolvesBy-refl : (xs : List TaskExecution) → EvolvesBy R xs xs
  EvolvesBy-refl [] = tt
  EvolvesBy-refl (x ∷ xs) = (R-refl x, EvolvesBy-refl xs)

  append-EvolvesBy :
      (xs : List TaskExecution) (t : TaskExecution)
      → t.state ≡ received
      → EvolvesBy R xs (xs ++ t ∷ [])
  append-EvolvesBy [] t e = (e, tt)
  append-EvolvesBy (x ∷ xs) t e = (R-refl x, append-EvolvesBy xs t e)

  pub insert_task-EvolvesBy :
      (t : TaskExecution) (xs ys : List TaskExecution)
      → t.state ≡ received
      → insert_task t xs ≡ ok ys
      → EvolvesBy R xs ys
  insert_task-EvolvesBy t xs ys e h = rw (insert_task-eq t xs ys h) (append-EvolvesBy xs t e)

  -- An update evolves a table if it makes a step on each row that it selects.
  pub update_rows-EvolvesBy :
      (p : TaskExecution → Bool) (f : TaskExecution → TaskExecution)
      → ((x : TaskExecution) → p x ≡ true → R x (f x))
      → (xs ys : List TaskExecution) → update_rows p f xs ≡ ok ys
      → EvolvesBy R xs ys
  unfolding updated
  update_rows-EvolvesBy p f step xs ys h = rw (update_rows-eq p f xs ys h) (mapped xs)
    where
      stepped : (x : TaskExecution) → R x (updated p f x)
      stepped x = elim (Bool-cases (p x)) [
        | inl t ↦ rw (t, updated) (step x t)
        | inr t ↦ rw (t, updated) (R-refl x)
      ]

      mapped : (xs : List TaskExecution) → EvolvesBy R xs (map (updated p f) xs)
      mapped [] = tt
      mapped (x ∷ xs) = (stepped x, mapped xs)

pub Same-Evolves : (xs ys : List TaskExecution) → EvolvesBy Same xs ys → Evolves xs ys
Same-Evolves [] ys h = h
Same-Evolves (x ∷ xs) [] h = h
Same-Evolves (x ∷ xs) (y ∷ ys) h = (Same-Progress (h.0), Same-Evolves xs ys h.1)

received-EvolvesBy :
    (xs ys : List TaskExecution)
    → EvolvesBy Same xs ys
    → All (λ y. y.state ≡ received) xs
    → All (λ y. y.state ≡ received) ys
received-EvolvesBy [] ys h a = h
received-EvolvesBy (x ∷ xs) [] h a = absurd h
received-EvolvesBy (x ∷ xs) (y ∷ ys) h a =
    (h.0.outcome.state ∙ a.0, received-EvolvesBy xs ys h.1 a.1)

pub EvolvesBy-trans :
    (xs ys zs : List TaskExecution)
    → EvolvesBy Same xs ys
    → EvolvesBy Same ys zs
    → EvolvesBy Same xs zs
EvolvesBy-trans [] ys zs h k = received-EvolvesBy ys zs k h
EvolvesBy-trans (x ∷ xs) [] zs h k = absurd h
EvolvesBy-trans (x ∷ xs) (y ∷ ys) [] h k = k
EvolvesBy-trans (x ∷ xs) (y ∷ ys) (z ∷ zs) h k =
    (Same-trans (h.0) (k.0), EvolvesBy-trans xs ys zs h.1 k.1)
