-- ===== src/Events/Outbox.antt =====
-- outbox.ts: the rows of the outbox, `OutboxWriter.record` and `OutboxRelay.flush`. Times are
-- milliseconds.
use erp_global.Common.{
  ℕ, ◌+◌, ◌*◌, ◌^◌, min, Bool, true, false, ◌&&◌, not, Option, none, some, List, [], ◌∷◌, ◌++◌, map,
  filter, leb, if◌then◌else◌,
}
use erp_global.Common.Text.{Text, ◌===◌, codes, starts_with}
use erp_global.Common.Action.{Result, ok, err}

pub data Status : Type 0 where
  pending published : Status

pub data Actor : Type 0 where
  actor : Text → Text → Actor

-- `EventEnvelope`; the payload as its text.
pub record Envelope : Type 0 where
  pub event_id : Text
  pub type : Text
  pub version : ℕ
  pub tenant_id : Text
  pub by : Actor
  pub occurred_at : ℕ
  pub correlation_id : Text
  pub source : Text
  pub payload : Text

pub record Row : Type 0 where
  pub id : Text
  pub subject : Text
  pub envelope : Envelope
  pub status : Status
  pub attempts : ℕ
  pub locked_until : ℕ
  pub created_at : ℕ
  pub published_at : Option ℕ

-- What `record` takes from the request's context and from its options.
pub record Context : Type 0 where
  pub tenant_id : Option Text
  pub by : Option Actor
  pub correlation_id : Text

pub record RecordOptions : Type 0 where
  pub tenant_id : Option Text
  pub version : Option ℕ

abbrev pub get_or_else : {A : Type 0} → Option A → A → A
get_or_else none b = b
get_or_else (some a) b = a

abbrev pub first_of : {A : Type 0} → Option A → Option A → Option A
first_of none b = b
first_of (some a) b = some a

pub data RecordError : Type 0 where
  no_tenant : Text → RecordError

unfoldable pub is_empty : Text → Bool
is_empty [] = true
is_empty (c ∷ s) = false

abbrev pub notify_prefix : Text
notify_prefix = codes "notify."

abbrev pub event_prefix : Text
event_prefix = codes "erp."

-- `subjectFor`
unfoldable pub subject_for : Text → Text
subject_for type = if starts_with type notify_prefix then type else event_prefix ++ type

unfoldable pub new_envelope :
    Text → ℕ → Text → Context → RecordOptions → Text → Text → Text → Envelope
new_envelope event_id now source ctx opts tenant type payload = record {
  event_id = event_id;
  type = type;
  version = get_or_else opts.version 1;
  tenant_id = tenant;
  by = get_or_else ctx.by (actor (codes "system") source);
  occurred_at = now;
  correlation_id = ctx.correlation_id;
  source = source;
  payload = payload;
}

unfoldable pub new_row : Envelope → ℕ → Row
unfolding subject_for
new_row e now = record {
  id = e.event_id;
  subject = subject_for e.type;
  envelope = e;
  status = pending;
  attempts = 0;
  locked_until = 0;
  created_at = now;
  published_at = none;
}

-- `record`: the row that the transaction of the change writes with it, or the error that ends it.
unfoldable pub record_event :
    Text
    → ℕ
    → Text
    → Context
    → RecordOptions
    → Text
    → Text
    → List Row
    → Result RecordError (Envelope × List Row)
unfolding new_envelope new_row is_empty
record_event event_id now source ctx opts type payload rows =
    elim (first_of opts.tenant_id ctx.tenant_id) [
      | none ↦ err (no_tenant type)
      | some tenant ↦
          let e = new_envelope event_id now source ctx opts tenant type payload in
          if is_empty tenant then err (no_tenant type) else ok (e, rows ++ (new_row e now ∷ []))
    ]

unfoldable pub is_pending : Row → Bool
is_pending r = elim r.status [ pending ↦ true | published ↦ false ]

-- `{ status: 'pending', lockedUntil: { $lte: now } }`
unfoldable pub is_due : ℕ → Row → Bool
unfolding is_pending
is_due now r = is_pending r && leb r.locked_until now

-- The one that `sort: { createdAt: 1 }` puts first.
unfoldable pub older : Row → Option Row → Row
older r none = r
older r (some q) = if leb r.created_at q.created_at then r else q

unfoldable pub oldest_due : ℕ → List Row → Option Row
unfolding is_due older
oldest_due now [] = none
oldest_due now (r ∷ rs) =
    let rest = oldest_due now rs in if is_due now r then some (older r rest) else rest

-- `updateOne({ _id: id }, …)`
unfoldable pub update_row : Text → (Row → Row) → List Row → List Row
update_row id f = map (λ r. if r.id === id then f r else r)

-- `deleteOne({ _id: id })`
unfoldable pub delete_row : Text → List Row → List Row
delete_row id = filter (λ r. not (r.id === id))

unfoldable pub locked : ℕ → Row → Row
locked now r = record r { locked_until = now + 30000; attempts = r.attempts + 1 }

-- `findOneAndUpdate`: the row as it is after the update, and the collection.
unfoldable pub claim : ℕ → List Row → Option (Row × List Row)
unfolding oldest_due locked update_row
claim now rows = elim (oldest_due now rows) [
  | none ↦ none
  | some r ↦ some (locked now r, update_row r.id (locked now) rows)
]

unfoldable pub as_published : ℕ → Row → Row
as_published now r = record r { status = published; published_at = some now }

-- After the bus has taken the event.
unfoldable pub settle : ℕ → Row → List Row → List Row
unfolding delete_row update_row as_published
settle now r rows =
    if starts_with r.subject notify_prefix
    then delete_row r.id rows
    else update_row r.id (as_published now) rows

-- Milliseconds to the next try.
unfoldable pub backoff : ℕ → ℕ
backoff attempts = min 60000 (500 * 2 ^ min attempts 7)

-- After the bus has refused it.
unfoldable pub postpone : ℕ → Row → List Row → List Row
unfolding update_row backoff
postpone now r rows =
    update_row r.id (λ q. record q { locked_until = now + backoff r.attempts }) rows
