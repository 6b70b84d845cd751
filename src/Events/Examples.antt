-- ===== src/Events/Examples.antt =====
-- An event on its way from the outbox to a consumer, and the theorems applied to it.
use erp_global.Common.{
  ◌≡◌, ◌≢◌, ◌⊎◌, refl, inl, true, none, some, List, [], ◌∷◌, In, ◌+◌, ◌≤◌, arith,
}
use native.Mathlib.Decide.{ℕ_discrete}
use erp_global.Common.Text.{Text, Text-discrete, codes, starts_with}
use erp_global.Events.Outbox.{
  Actor, actor, Envelope, Row, Context, RecordOptions, RecordError, record_event, new_envelope,
  new_row, locked, claim, settle, postpone, is_pending, event_prefix, subject_for, backoff,
  notify_prefix,
}
use erp_global.Events.Relay.{Round, flush_loop}
use erp_global.Events.World.{
  returned, Inbox, done, transact, World, records, claims, publishes, checks, commits, Reachable,
  initial, next,
}
use erp_global.Events.Rows.{Waits}
use erp_global.Events.Sound.{keys, Distinct}
use erp_global.Events.Delivery.{recorded-kept, effects-Distinct}
use erp_global.Events.Cleared.{waiting}
use erp_global.Events.Flush.{flush_loop_empties}
use erp_global.Events.Retry.{postpone_bounds}

abbrev context : Context
context = record { tenant_id = some (codes "acme"); by = none; correlation_id = codes "c1" }

abbrev no_options : RecordOptions
no_options = record { tenant_id = none; version = none }

abbrev moved : Envelope
moved = record {
  event_id = codes "e1";
  type = codes "org.unit.moved";
  version = 1;
  tenant_id = codes "acme";
  by = actor (codes "system") (codes "org");
  occurred_at = 10;
  correlation_id = codes "c1";
  source = codes "org";
  payload = codes "{}";
}

abbrev moved_row : Row
moved_row = record {
  id = codes "e1";
  subject = codes "erp.org.unit.moved";
  envelope = moved;
  status = erp_global.Events.Outbox.pending;
  attempts = 0;
  locked_until = 0;
  created_at = 10;
  published_at = none;
}

abbrev claimed_row : Row
claimed_row = record moved_row { locked_until = 30020; attempts = 1 }

abbrev handled : Inbox
handled = record {
  processed =
      record {
        id = codes "audit:e1";
        consumer = codes "audit";
        event_id = codes "e1";
        processed_at = 30;
      }
      ∷ [];
  effects = (codes "audit", codes "e1") ∷ [];
}

abbrev last_world : World
last_world = record {
  rows = claimed_row ∷ [];
  recorded = moved ∷ [];
  claimed = claimed_row ∷ [];
  taken = claimed_row ∷ [];
  stream = moved ∷ [];
  checked = (codes "audit", moved) ∷ [];
  inbox = handled;
}

last_world-Reachable : Reachable last_world
unfolding record_event subject_for starts_with claim transact Text-discrete ℕ_discrete
last_world-Reachable =
    next
      (next
        (next
          (next
            (next initial (
              records {e = moved} {rows = moved_row ∷ []} (codes "e1") 10 (codes "org") context
                no_options (codes "org.unit.moved") (codes "{}") (λ f i. elim i [ ]) refl))
            (claims {r = claimed_row} {rows = claimed_row ∷ []} 20 refl))
          (publishes claimed_row (inl refl)))
        (checks (codes "audit") moved (inl refl) refl))
      (commits {o = done} {s = handled} (codes "audit") moved 30 returned (inl refl) refl)

recorded-kept_example : In moved last_world.stream ⊎ Waits moved last_world.rows
recorded-kept_example = recorded-kept last_world moved last_world-Reachable (inl refl)

effects-Distinct_example :
    Distinct (keys last_world.inbox.effects)
    × ((c id : Text)
        → In (c, id) last_world.inbox.effects
        → (e : Envelope) × In e last_world.recorded × (e.event_id ≡ id))
effects-Distinct_example = effects-Distinct last_world last_world-Reachable

abbrev rounds : List Round
rounds =
    record { now = 20; taken = true; later = 21 }
    ∷ record { now = 22; taken = true; later = 23 }
    ∷ []

flush_loop_empties_example :
    let f = flush_loop 500 rounds (moved_row ∷ []) in
    (f.count ≡ waiting (moved_row ∷ [])) × (waiting f.rows ≡ 0)
unfolding is_pending
flush_loop_empties_example =
    flush_loop_empties 500 20 rounds (moved_row ∷ []) (tt, tt) ((λ p. omega arith), tt)
      (omega arith, refl, (omega arith, refl, tt)) (omega arith) (omega arith)

abbrev postponed_row : Row
postponed_row = record claimed_row { locked_until = 1025 }

postpone_bounds_example :
    ((postponed_row.id ≡ claimed_row.id)
      × (25 + 500 ≤ postponed_row.locked_until)
      × (postponed_row.locked_until ≤ 25 + 60000))
    ⊎ ((postponed_row.id ≢ claimed_row.id) × In postponed_row (claimed_row ∷ []))
unfolding postpone Text-discrete ℕ_discrete
postpone_bounds_example = postpone_bounds 25 claimed_row (claimed_row ∷ []) postponed_row (inl refl)
