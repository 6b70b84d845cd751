-- ===== src/Events/Flush.antt =====
-- outbox.ts: `flush` empties the outbox when the bus takes what it is given.
use erp_global.Common.{
  ℕ, zero, suc, ◌<◌, ◌≤◌, ◌≡◌, refl, inl, inr, true, none, some, List, [], ◌∷◌, length, Bool-cases,
  Option-cases, sym, arith,
}
use native.Mathlib.Decide.{dec_lt}
use erp_global.Events.Outbox.{
  Row, is_pending, is_due, older, oldest_due, update_row, locked, claim, settle,
}
use erp_global.Events.Rows.{Claimed, claim-Claimed}
use erp_global.Events.Relay.{Round, stopped, counted, flush_loop}
use erp_global.Events.Cleared.{
  waiting, DistinctIds, FreeAt, Good, others_of_In, Cleared, settle-Cleared,
}

oldest_due_finds :
    (t now : ℕ) (rows : List Row)
    → FreeAt t rows
    → t ≤ now
    → 0 < waiting rows
    → (x : Row) × (oldest_due now rows ≡ some x)
unfolding oldest_due is_due
oldest_due_finds t now [] f l w = absurd (omega (arith, w))
oldest_due_finds t now (r ∷ rs) (a, f) l w = elim (Bool-cases (is_pending r)) [
  | inl p ↦ (older r (oldest_due now rs), ground (arith, a p))
  | inr p ↦ let (x, e) = oldest_due_finds t now rs f l (ground arith) in (x, ground (arith, e))
]

-- Where a row waits that is not locked, the claim finds one.
claim_finds :
    (t now : ℕ) (rows : List Row)
    → FreeAt t rows
    → t ≤ now
    → 0 < waiting rows
    → (x : Row × List Row) × (claim now rows ≡ some x)
unfolding claim
claim_finds t now rows f l w =
    let (x, e) = oldest_due_finds t now rows f l w in
    ((locked now x, update_row x.id (locked now) rows), rw (e, claim) refl)

due_waits : (now : ℕ) (r : Row) → is_due now r ≡ true → is_pending r ≡ true
unfolding is_due
due_waits now r h = ground arith

-- One round in which a row is claimed.
flush_loop_step :
    (left : ℕ) (u : Round) (rounds : List Round) (rows : List Row) (r : Row) (after : List Row)
    → claim u.now rows ≡ some (r, after)
    → u.taken ≡ true
    → flush_loop (suc left) (u ∷ rounds) rows
      ≡ counted r (flush_loop left rounds (settle u.later r after))
unfolding flush_loop
flush_loop_step left u rounds rows r after e k = ground arith

flush_loop-zero :
    (rounds : List Round) (rows : List Row) → flush_loop zero rounds rows ≡ stopped rows
unfolding flush_loop
flush_loop-zero [] rows = refl
flush_loop-zero (u ∷ rounds) rows = refl

flush_loop_stop :
    (left : ℕ) (u : Round) (rounds : List Round) (rows : List Row)
    → claim u.now rows ≡ none
    → flush_loop (suc left) (u ∷ rounds) rows ≡ stopped rows
unfolding flush_loop
flush_loop_stop left u rounds rows e = ground arith

-- What is left after a round, to the rows before it.
Claimed-Cleared :
    (now later : ℕ) (r : Row) (rows after : List Row) (c : Claimed now r rows after)
    → Cleared c.found.id rows (settle later r after)
Claimed-Cleared now later r rows after c =
    rw (c.answer, c.written) (settle-Cleared now later c.found rows)

-- With ids that differ, no row locked beyond the time of the first round, rounds enough, and a bus that
-- takes what it is given, the loop publishes every row that waits, and none waits after it.
pub flush_loop_empties :
    (left t : ℕ) (rounds : List Round) (rows : List Row)
    → DistinctIds rows
    → FreeAt t rows
    → Good t rounds
    → waiting rows ≤ left
    → waiting rows < length rounds
    → let f = flush_loop left rounds rows in (f.count ≡ waiting rows) × (waiting f.rows ≡ 0)
flush_loop_empties zero t rounds rows d f g a b =
    rw (flush_loop-zero rounds rows) (omega (arith, a), omega (arith, a))
flush_loop_empties (suc left) t [] rows d f g a b = absurd (omega (arith, b))
flush_loop_empties (suc left) t (u ∷ rounds) rows d f (l, k, g) a b =
    elim (Option-cases (claim u.now rows)) [
      | inl e ↦
          let idle : waiting rows ≡ 0 = elim (dec_lt 0 (waiting rows)) [
            | yes w ↦ let (x, found) = claim_finds t u.now rows f l w in cc (e, found)
            | no n ↦ omega (arith, n)
          ] in
          rw (flush_loop_stop left u rounds rows e) (sym idle, idle)
      | inr ((r, after), e) ↦
          let c = claim-Claimed u.now r rows after e in
          let k2 = Claimed-Cleared u.now u.later r rows after c in
          let n = others_of_In c.found rows d c.stands (due_waits u.now c.found c.due) in
          let w : suc (waiting (settle u.later r after)) ≡ waiting rows =
            omega (arith, k2.waits, n) in
          let (count, none_left) =
            flush_loop_empties left t rounds (settle u.later r after) (k2.distinct d) (k2.free t f)
              g (omega (arith, w, a)) (omega (arith, w, b)) in
          rw (flush_loop_step left u rounds rows r after e k) (omega (arith, count, w), none_left)
    ]
