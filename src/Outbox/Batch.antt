-- ===== src/Outbox/Batch.antt =====
-- outbox.go: what a report takes from the outbox.
use passwall_node.Prelude.{
  ℕ, ◌+◌, ◌≤◌, ◌≡◌, refl, sym, subst, Bool, true, false, not, ◌&&◌, ◌||◌, List, [], ◌∷◌, ◌++◌,
  length, take, All, length-append, All-append, All-take, ltb, leb, ◌==◌, ℤ, is_nonpositive, to_ℕ,
  plain, ok, refuse, >>=-eq-ok, arith, Bool-cases, Option-cases, inl, inr,
}
use passwall_node.TaskJournal.Rows.{TaskResult}
use passwall_node.Outbox.{
  OutboxKind, issue, task_result, OutboxRow, Reports, ReportWire, bytes_of, reported_before,
  insert_report, undelivered, OutboxBatch, empty_batch, add_issue, add_task_result, add_row,
  add_rows, pending_outbox,
}

-- A row of this id waits for its delivery.
unfoldable pub is_pending : ℕ → List OutboxRow → Bool
is_pending i [] = false
is_pending i (r ∷ rows) = r.id == i && not r.delivered || is_pending i rows

-- The bytes of some results
unfoldable pub result_bytes : List TaskResult → ℕ
result_bytes [] = 0
result_bytes (t ∷ ts) = bytes_of t.result + result_bytes ts

result_bytes-append :
    (a b : List TaskResult) → result_bytes (a ++ b) ≡ result_bytes a + result_bytes b
unfolding result_bytes
result_bytes-append [] b = omega arith
result_bytes-append (t ∷ a) b = omega (arith, result_bytes-append a b)

insert_report-All {κ} :
    (P : OutboxRow → Type κ) (r : OutboxRow) (rows : List OutboxRow)
    → P r
    → All P rows
    → All P (insert_report r rows)
unfolding insert_report
insert_report-All P r [] h hs = (h, tt)
insert_report-All P r (q ∷ rows) h hs = elim (Bool-cases (reported_before r q)) [
  | inl e ↦ rw e (h, hs)
  | inr e ↦ rw e (hs.0, insert_report-All P r rows h hs.1)
]

abbrev Pending : List OutboxRow → OutboxRow → Type 0
Pending rows r = is_pending r.id rows ≡ true

Pending-All :
    (q : OutboxRow) (rows some_rows : List OutboxRow)
    → All (Pending rows) some_rows
    → All (Pending (q ∷ rows)) some_rows
unfolding is_pending
Pending-All q rows [] h = tt
Pending-All q rows (r ∷ rs) h = (ground (arith, h.0), Pending-All q rows rs h.1)

undelivered_step :
    (r : OutboxRow) (rows : List OutboxRow)
    → (r.delivered ≡ true → undelivered (r ∷ rows) ≡ undelivered rows)
      × (r.delivered ≡ false → undelivered (r ∷ rows) ≡ insert_report r (undelivered rows))
unfolding undelivered
undelivered_step r rows = (λ e. ground (arith, e), λ e. ground (arith, e))

now-Pending : (q : OutboxRow) (qs : List OutboxRow) → q.delivered ≡ false → Pending (q ∷ qs) q
unfolding is_pending
now-Pending q qs e = ground (arith, e)

undelivered-Pending : (rows : List OutboxRow) → All (Pending rows) (undelivered rows)
unfolding undelivered
undelivered-Pending [] = tt
undelivered-Pending (r ∷ rows) =
    let rest = Pending-All r rows (undelivered rows) (undelivered-Pending rows) in
    elim (Bool-cases (r.delivered)) [
      | inl e ↦ subst (All (Pending (r ∷ rows))) (sym ((undelivered_step r rows).0 e)) rest
      | inr e ↦
          subst (All (Pending (r ∷ rows))) (sym ((undelivered_step r rows).1 e)) (
            insert_report-All (Pending (r ∷ rows)) r (undelivered rows) (now-Pending r rows e) rest)
    ]

module _ (wire : ReportWire) (rows : List OutboxRow) where
  -- A batch within the bounds of a report, of rows that wait for their delivery.
  pub record IsBatch (b : OutboxBatch) : Type 0 where
    pub issues_le : length b.issues ≤ wire.max_issues_per_report
    pub results_le : length b.task_results ≤ wire.max_task_results_per_report
    pub bytes_le : result_bytes b.task_results ≤ wire.max_task_result_bytes_per_report
    pub counted : b.task_result_bytes ≡ result_bytes b.task_results
    pub one_each : length b.ids ≡ length b.issues + length b.task_results
    pub pending : All (λ i. is_pending i rows ≡ true) b.ids

  empty_batch-IsBatch : IsBatch empty_batch
  unfolding result_bytes
  empty_batch-IsBatch = record {
    issues_le = omega arith;
    results_le = omega arith;
    bytes_le = omega arith;
    counted = refl;
    one_each = refl;
    pending = tt;
  }

  add_issue-IsBatch :
      (r : OutboxRow) (b c : OutboxBatch)
      → Pending rows r
      → IsBatch b
      → add_issue wire r b ≡ ok c
      → IsBatch c
  unfolding add_issue
  add_issue-IsBatch r b c p h e =
      elim (Bool-cases (leb wire.max_issues_per_report (length b.issues))) [
        | inl full ↦ (let it : c ≡ b = cc ((rw full at e)) in rw it h)
        | inr room ↦ elim (Option-cases (wire.unmarshal_issue r.payload)) [
          | inl bad ↦ cc ((rw (add_issue, room, bad) at e))
          | inr (i, good) ↦
              (let it : c ≡ record b { ids = b.ids ++ r.id ∷ []; issues = b.issues ++ i ∷ [] } =
                  cc ((rw (add_issue, room, good) at e)) in
                rw it (record {
                  issues_le = ground (arith, room, length-append b.issues (i ∷ []));
                  results_le = h.results_le;
                  bytes_le = h.bytes_le;
                  counted = h.counted;
                  one_each = omega (
                    arith,
                    h.one_each,
                    length-append b.ids (r.id ∷ []),
                    length-append b.issues (i ∷ []),
                  );
                  pending = All-append _ b.ids (r.id ∷ []) h.pending (p, tt);
                }))
        ]
      ]

  with_result :
      (r : OutboxRow) (b c : OutboxBatch) (t : TaskResult)
      → Pending rows r
      → IsBatch b
      → leb wire.max_task_results_per_report (length b.task_results) ≡ false
      → ltb wire.max_task_result_bytes_per_report (bytes_of t.result + b.task_result_bytes) ≡ false
      → c ≡ record b {
        ids = b.ids ++ r.id ∷ [];
        task_results = b.task_results ++ t ∷ [];
        task_result_bytes = b.task_result_bytes + bytes_of t.result;
      }
      → IsBatch c
  unfolding result_bytes
  with_result r b c t p h room fits it =
      let bytes = result_bytes-append b.task_results (t ∷ []) in
      let longer = length-append b.task_results (t ∷ []) in
      rw it (record {
        issues_le = h.issues_le;
        results_le = ground (arith, room, longer);
        bytes_le = ground (arith, fits, bytes, h.counted);
        counted = omega (arith, bytes, h.counted);
        one_each = omega (arith, h.one_each, length-append b.ids (r.id ∷ []), longer);
        pending = All-append _ b.ids (r.id ∷ []) h.pending (p, tt);
      })

  add_task_result-IsBatch :
      (r : OutboxRow) (b c : OutboxBatch)
      → Pending rows r
      → IsBatch b
      → add_task_result wire r b ≡ ok c
      → IsBatch c
  unfolding add_task_result
  add_task_result-IsBatch r b c p h e =
      elim (Bool-cases (leb wire.max_task_results_per_report (length b.task_results))) [
        | inl full ↦ (let it : c ≡ b = cc ((rw full at e)) in rw it h)
        | inr room ↦ elim (Option-cases (wire.unmarshal_task_result r.payload)) [
          | inl bad ↦ cc ((rw (add_task_result, room, bad) at e))
          | inr (t, good) ↦
              elim (Bool-cases (
                ltb wire.max_task_result_bytes_per_report
                  (bytes_of t.result + b.task_result_bytes))) [
                    | inl big ↦
                        (let it : c ≡ b = cc ((rw (add_task_result, room, good, big) at e)) in
                          rw it h)
                    | inr fits ↦
                        with_result r b c t p h room fits
                          (cc ((rw (add_task_result, room, good, fits) at e)))
                  ]
        ]
      ]

  add_row-IsBatch :
      (r : OutboxRow) (b c : OutboxBatch)
      → Pending rows r
      → IsBatch b
      → add_row wire r b ≡ ok c
      → IsBatch c
  unfolding add_row
  add_row-IsBatch r b c p h e = by_kind (r.kind) refl
    where
      by_kind : (k : OutboxKind) → r.kind ≡ k → IsBatch c
      by_kind issue is = add_issue-IsBatch r b c p h (rw (add_row, is) at e)
      by_kind task_result is = add_task_result-IsBatch r b c p h (rw (add_row, is) at e)

  add_rows-IsBatch :
      (rs : List OutboxRow) (b c : OutboxBatch)
      → All (Pending rows) rs
      → IsBatch b
      → add_rows wire rs b ≡ ok c
      → IsBatch c
  unfolding add_rows
  add_rows-IsBatch [] b c p h e = (let it : c ≡ b = cc e in rw it h)
  add_rows-IsBatch (r ∷ rs) b c p h e =
      let (d, at, rest) = >>=-eq-ok (add_row wire r b) _ e in
      add_rows-IsBatch rs d c p.1 (add_row-IsBatch r b d p.0 h at) rest

-- A batch that `PendingOutbox` returns keeps within the bounds of a report on issues, on results and on
-- the bytes of the results, and has one id for each of them, of a row that waits for its delivery.
pub pending_outbox-IsBatch :
    (wire : ReportWire) (limit : ℤ) (s : Reports) (b : OutboxBatch)
    → pending_outbox wire limit s ≡ ok b
    → IsBatch wire s.rows b
unfolding pending_outbox
pending_outbox-IsBatch wire limit s b h =
    let (u, t, run) =
      >>=-eq-ok (refuse (is_nonpositive limit || ltb 1000 (to_ℕ limit)) plain) _ h in
    add_rows-IsBatch wire s.rows (take (to_ℕ limit) (undelivered s.rows)) empty_batch b
      (All-take _ (to_ℕ limit) (undelivered s.rows) (undelivered-Pending s.rows))
      (empty_batch-IsBatch wire s.rows) run
