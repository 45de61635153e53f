-- ===== src/Outbox/Acknowledged.antt =====
-- outbox.go: what an acknowledgement leaves in the outbox.
use passwall_node.Prelude.{
  ℕ, ◌≡◌, refl, ap, ◌∙◌, Bool, false, not, ◌&&◌, ◌||◌, List, [], ◌∷◌, ◌==◌, ℤ, is_nonpositive, to_ℕ,
  ok, >>=-eq-ok, transact-ok, arith, Bool-cases, inl, inr,
}
use passwall_node.TaskJournal.Rows.{TaskExecution}
use passwall_node.Outbox.{
  OutboxRow, Reports, mark_delivered, compact, ack_row, ack_rows, ack_outbox,
}
use passwall_node.Outbox.Batch.{is_pending}

-- Whether an id is acknowledged
unfoldable pub is_acknowledged : ℕ → List ℤ → Bool
is_acknowledged i [] = false
is_acknowledged i (k ∷ ids) = to_ℕ k == i || is_acknowledged i ids

is_pending-compact :
    (i k : ℕ) (ts : List TaskExecution) (rows : List OutboxRow)
    → is_pending i (compact k ts (mark_delivered k rows)) ≡ (is_pending i rows && not (k == i))
unfolding is_pending compact mark_delivered
is_pending-compact i k ts [] = refl
is_pending-compact i k ts (r ∷ rows) =
    let rest = is_pending-compact i k ts rows in
    elim (Bool-cases (r.id == k)) [
      | inl e ↦ ground (arith, e, rest)
      | inr e ↦ ground (arith, e, rest)
    ]

is_pending-ack_rows :
    (i : ℕ) (ids : List ℤ) (s t : Reports)
    → ack_rows ids s ≡ ok t
    → is_pending i t.rows ≡ (is_pending i s.rows && not (is_acknowledged i ids))
unfolding ack_rows is_acknowledged
is_pending-ack_rows i [] s t h = (let it : t ≡ s = cc h in rw it (ground arith))
is_pending-ack_rows i (k ∷ ids) s t h = elim (Bool-cases (is_nonpositive k)) [
  | inl e ↦ cc ((rw (ack_rows, e) at h))
  | inr e ↦
      (let rest = is_pending-ack_rows i ids (ack_row (to_ℕ k) s) t (rw (ack_rows, e) at h) in
        let first : is_pending i (ack_row (to_ℕ k) s).rows
            ≡ (is_pending i s.rows && not (to_ℕ k == i)) =
          unfold ack_row in is_pending-compact i (to_ℕ k) _ s.rows in
        rest ∙ rw first (ground arith))
]

-- After a successful acknowledgement exactly those rows wait for their delivery that did so before and
-- are not acknowledged: a row that was acknowledged is not reported again, and no other is lost.
pub ack_outbox-is_pending :
    (ids : List ℤ) (s t : Reports) (i : ℕ)
    → ack_outbox ids s ≡ (t, ok tt)
    → is_pending i t.rows ≡ (is_pending i s.rows && not (is_acknowledged i ids))
unfolding ack_outbox
ack_outbox-is_pending ids s t i h =
    let (s', at, done) = >>=-eq-ok (ack_rows ids s) _ (transact-ok s _ h) in
    let it : s' ≡ t = cc done in is_pending-ack_rows i ids s t (at ∙ ap ok it)
