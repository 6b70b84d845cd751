-- ===== src/Events/Relay.antt =====
-- outbox.ts: `OutboxRelay.flush`.
use erp_global.Common.{ℕ, zero, suc, Bool, true, false, none, some, List, [], ◌∷◌, if◌then◌else◌}
use erp_global.Events.Outbox.{Row, claim, settle, postpone}

-- One round of the loop as its surroundings make it: the clock, whether the bus takes the event, and
-- the clock after that.
pub record Round : Type 0 where
  pub now : ℕ
  pub taken : Bool
  pub later : ℕ

-- How many were published, the collection, and the rows that the bus was given and took.
pub record Flushed : Type 0 where
  pub count : ℕ
  pub rows : List Row
  pub sent : List Row

abbrev pub stopped : List Row → Flushed
stopped rows = record { count = 0; rows = rows; sent = [] }

abbrev pub counted : Row → Flushed → Flushed
counted r f = record { count = suc f.count; rows = f.rows; sent = r ∷ f.sent }

-- The loop, with `left` rounds before `max`. Where no round is left the process has ended.
unfoldable pub flush_loop : ℕ → List Round → List Row → Flushed
unfolding claim settle postpone
flush_loop zero rounds rows = stopped rows
flush_loop (suc left) [] rows = stopped rows
flush_loop (suc left) (t ∷ rounds) rows = elim (claim t.now rows) [
  | none ↦ stopped rows
  | some (r, rows') ↦ elim t.taken [
    | true ↦ counted r (flush_loop left rounds (settle t.later r rows'))
    | false ↦ stopped (postpone t.later r rows')
  ]
]

-- `flush`: nothing while another call of this relay runs.
unfoldable pub flush : Bool → ℕ → List Round → List Row → Flushed
unfolding flush_loop
flush running max rounds rows = if running then stopped rows else flush_loop max rounds rows
