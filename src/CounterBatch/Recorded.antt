-- ===== src/CounterBatch/Recorded.antt =====
-- counters.go: what a batch that succeeds has recorded.
use passwall_node.Prelude.{
  ◌≡◌, Bool, false, [], ℤ, is_negative, plain, refuse, ok, arith, All, >>=-eq-ok, transact-ok,
}
use passwall_node.Clients.Rows.{Platform}
use passwall_node.CounterBatch.{
  CounterBatch, Counters, validate_clients, validate_counter_batch, apply_clients, apply_listeners,
  batch_transaction, apply_counter_batch,
}
use passwall_node.CounterBatch.ClientLoop.{ClientRecorded, clients-Recorded}
use passwall_node.CounterBatch.ListenerLoop.{ListenerRecorded, listeners-Recorded}

-- When a batch is applied with success, the tables hold the counters, the epoch, the presence and the
-- time of every update of it, for the clients and for the listeners, and the live addresses of each
-- client's update in the form that they are stored in.
pub apply_counter_batch-Recorded :
    (platform : Platform) (batch : CounterBatch) (at_ms : ℤ) (s s' : Counters) (changed : Bool)
    → apply_counter_batch platform batch at_ms s ≡ (s', ok changed)
    → All (ClientRecorded platform at_ms s'.clients) batch.clients
      × All (ListenerRecorded at_ms s'.listeners) batch.listeners
unfolding apply_counter_batch validate_counter_batch batch_transaction
apply_counter_batch-Recorded platform batch at_ms s s' changed h =
    let e = transact-ok s _ h in
    let (_, _, e1) = >>=-eq-ok (refuse (is_negative at_ms) plain) _ e in
    let (_, v, e2) = >>=-eq-ok (validate_counter_batch batch) _ e1 in
    let (_, vc, vl) = >>=-eq-ok (validate_clients [] batch.clients) _ v in
    let (r, cs, e3) = >>=-eq-ok (apply_clients platform batch.clients at_ms false s.clients) _ e2 in
    let (ls, le, e4) = >>=-eq-ok (apply_listeners batch.listeners at_ms s.listeners) _ e3 in
    let clients : s'.clients ≡ r.0 = ground (arith, e4) in
    let listeners : s'.listeners ≡ ls = ground (arith, e4) in
    (
      rw clients (
          clients-Recorded platform batch.clients at_ms false [] s.clients r (ground (arith, vc))
            cs),
      rw listeners (listeners-Recorded batch.listeners at_ms [] s.listeners ls vl le),
    )
