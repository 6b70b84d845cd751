-- ===== src/Events/Retry.antt =====
-- outbox.ts: how long a refused event waits. consumer.ts: a second delivery.
use erp_global.Common.{
  ℕ, zero, suc, ◌+◌, ◌^◌, ◌≤◌, ◌≡◌, ◌≢◌, ◌⊎◌, sym, ap, subst, ◌∙◌, min, inl, inr, List, In, In-map,
  Bool-cases, arith,
}
use erp_global.Common.Text.{Text, ===_iff, Text-discrete}
use erp_global.Common.Action.{ok}
use erp_global.Events.Outbox.{Envelope, Row, backoff, update_row, postpone}
use erp_global.Events.World.{
  HandlerEnd, returned, processed_key, already_processed, Inbox, Outcome, duplicate, transact,
  handle_once,
}

doubling : (n : ℕ) → n ≤ 7 → (1 ≤ 2 ^ n) × (2 ^ n ≤ 128)
doubling zero h = omega arith
doubling (suc zero) h = omega arith
doubling (suc (suc zero)) h = omega arith
doubling (suc (suc (suc zero))) h = omega arith
doubling (suc (suc (suc (suc zero)))) h = omega arith
doubling (suc (suc (suc (suc (suc zero))))) h = omega arith
doubling (suc (suc (suc (suc (suc (suc zero)))))) h = omega arith
doubling (suc (suc (suc (suc (suc (suc (suc zero))))))) h = omega arith
doubling (suc (suc (suc (suc (suc (suc (suc (suc n)))))))) h = absurd (omega (arith, h))

backoff_bounds : (attempts : ℕ) → (500 ≤ backoff attempts) × (backoff attempts ≤ 60000)
unfolding backoff
backoff_bounds attempts = omega (arith, doubling (min attempts 7) (omega arith))

-- A row whose event the bus refused is locked for half a second at least and a minute at most after
-- the refusal, whatever the number of tries; every other row stays as it is.
pub postpone_bounds :
    (now : ℕ) (r : Row) (rows : List Row) (q : Row)
    → In q (postpone now r rows)
    → ((q.id ≡ r.id) × (now + 500 ≤ q.locked_until) × (q.locked_until ≤ now + 60000))
      ⊎ ((q.id ≢ r.id) × In q rows)
unfolding postpone update_row
postpone_bounds now r rows q i =
    let (y, j, e) = In-map _ rows q i in
    elim (Text-discrete y.id r.id) [
      | yes same ↦ inl (ground (arith, e, same, backoff_bounds r.attempts))
      | no other ↦
          let k : q ≡ y = ground (arith, e, other) in
          inr ((λ m. other (sym (ap (λ x. x.id) k) ∙ m)), subst (λ x. In x rows) (sym k) j)
    ]

-- After a delivery that a handler returned from, every delivery of the same event to the same consumer
-- is answered as a duplicate and writes nothing.
pub handle_once_again :
    (c : Text) (e : Envelope) (now later : ℕ) (b : HandlerEnd) (s s' : Inbox) (o : Outcome)
    → handle_once c e now returned s ≡ ok (o, s')
    → handle_once c e later b s' ≡ ok (duplicate, s')
unfolding handle_once transact already_processed processed_key
handle_once_again c e now later b s s' o h =
    elim (Bool-cases (already_processed c e.event_id s.processed)) [
      | inl known ↦ ground (arith, h, known)
      | inr new ↦
          ground (arith, h, new, ===_iff (processed_key c e.event_id) (processed_key c e.event_id))
    ]
