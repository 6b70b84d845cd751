-- ===== src/Events/World.antt =====
-- A service's outbox with its relays, the bus, and the consumers of another service: outbox.ts and
-- consumer.ts as steps that any replicas take in any order.
use erp_global.Common.{
  ℕ, ◌≡◌, ◌≢◌, Bool, false, ◌||◌, not, some, List, [], ◌∷◌, ◌++◌, any, filter, In, if◌then◌else◌,
}
use erp_global.Common.Text.{Text, ◌===◌}
use erp_global.Common.Action.{Result, ok, err}
use erp_global.Events.Outbox.{
  Envelope, Row, Context, RecordOptions, record_event, is_pending, claim, settle, postpone,
}

-- `ProcessedDoc`
pub record Processed : Type 0 where
  pub id : Text
  pub consumer : Text
  pub event_id : Text
  pub processed_at : ℕ

-- `${consumer}:${eventId}`
unfoldable pub processed_key : Text → Text → Text
processed_key consumer event_id = consumer ++ (b':' ∷ event_id)

unfoldable pub already_processed : Text → Text → List Processed → Bool
unfolding processed_key
already_processed consumer event_id ps = any (λ p. p.id === processed_key consumer event_id) ps

-- What one consumer's database holds: the markers, and the handlers' writes, each with its key.
pub record Inbox : Type 0 where
  pub processed : List Processed
  pub effects : List (Text × Text)

pub data Outcome : Type 0 where
  done duplicate : Outcome

-- How the handler ends: it returns, it throws the error of a unique index of its own (code 11000), or
-- it throws another.
pub data HandlerEnd : Type 0 where
  returned clashed thrown : HandlerEnd

-- The transaction of `handleOnce`: the marker, whose unique id may be taken, and the handler. A
-- transaction that fails writes nothing; the error of a unique index, whosever, is answered `duplicate`.
unfoldable pub transact : Text → Envelope → ℕ → HandlerEnd → Inbox → Result Text (Outcome × Inbox)
unfolding already_processed processed_key
transact consumer e now end s =
    if already_processed consumer e.event_id s.processed then ok (duplicate, s) else elim end [
      | returned ↦ ok (
        done,
        record {
          processed =
              record {
                id = processed_key consumer e.event_id;
                consumer = consumer;
                event_id = e.event_id;
                processed_at = now;
              }
              ∷ s.processed;
          effects = (consumer, e.event_id) ∷ s.effects;
        },
      )
      | clashed ↦ ok (duplicate, s)
      | thrown ↦ err consumer
    ]

-- `handleOnce` where nothing is written between its check and its transaction.
unfoldable pub handle_once :
    Text → Envelope → ℕ → HandlerEnd → Inbox → Result Text (Outcome × Inbox)
unfolding already_processed transact
handle_once consumer e now end s =
    if already_processed consumer e.event_id s.processed
    then ok (duplicate, s)
    else transact consumer e now end s

-- `claimed` holds the rows as the relays' claims returned them, `taken` those that the bus took. `stream`
-- is what the bus delivers, any number of times; `checked` the calls of `handleOnce` past their check.
pub record World : Type 0 where
  pub rows : List Row
  pub recorded : List Envelope
  pub claimed : List Row
  pub taken : List Row
  pub stream : List Envelope
  pub checked : List (Text × Envelope)
  pub inbox : Inbox

abbrev pub empty_world : World
empty_world = record {
  rows = [];
  recorded = [];
  claimed = [];
  taken = [];
  stream = [];
  checked = [];
  inbox = record { processed = []; effects = [] };
}

-- The id of a new event is one that no event has. A relay that stops takes no further step; its claims stay. `publish` may throw after the bus has taken
-- the event, so `postpones` asks only for a claim. The database removes published rows after a week.
pub data Step : World → World → Type 0 where
  records :
      {w : World} {e : Envelope} {rows : List Row} (id : Text) (now : ℕ) (source : Text)
      (ctx : Context) (opts : RecordOptions) (type payload : Text)
      → ((f : Envelope) → In f w.recorded → f.event_id ≢ id)
      → record_event id now source ctx opts type payload w.rows ≡ ok (e, rows)
      → Step w (record w { rows = rows; recorded = e ∷ w.recorded })
  claims :
      {w : World} {r : Row} {rows : List Row} (now : ℕ)
      → claim now w.rows ≡ some (r, rows)
      → Step w (record w { rows = rows; claimed = r ∷ w.claimed })
  publishes :
      {w : World} (r : Row)
      → In r w.claimed
      → Step w (record w { taken = r ∷ w.taken; stream = r.envelope ∷ w.stream })
  settles :
      {w : World} (r : Row) (now : ℕ)
      → In r w.taken
      → Step w (record w { rows = settle now r w.rows })
  postpones :
      {w : World} (r : Row) (now : ℕ)
      → In r w.claimed
      → Step w (record w { rows = postpone now r w.rows })
  expires :
      {w : World} (old : Row → Bool)
      → Step w (record w { rows = filter (λ r. is_pending r || not (old r)) w.rows })
  checks :
      {w : World} (consumer : Text) (e : Envelope)
      → In e w.stream
      → already_processed consumer e.event_id w.inbox.processed ≡ false
      → Step w (record w { checked = (consumer, e) ∷ w.checked })
  commits :
      {w : World} {o : Outcome} {s : Inbox} (consumer : Text) (e : Envelope) (now : ℕ)
      (end : HandlerEnd)
      → In (consumer, e) w.checked
      → transact consumer e now end w.inbox ≡ ok (o, s)
      → Step w (record w { inbox = s })

pub data Reachable : World → Type 0 where
  initial : Reachable empty_world
  next : {w w' : World} → Reachable w → Step w w' → Reachable w'
