-- ===== src/Audit/Chain.antt =====
-- chain.ts, models.ts and audit.service.ts: appending an event to the hash chain of a company, and
-- verifying the chain. The collection is the list of its documents in the order of insertion.
use erp_global.Common.{
  ℕ, zero, suc, ◌+◌, ◌||◌, Bool, true, false, not, Option, none, some, List, [], ◌∷◌, ◌++◌, any,
  ◌==◌, leb, if◌then◌else◌,
}
use erp_global.Common.Text.{Text, codes, ◌===◌}
use erp_global.Common.Action.{Result, ok, err}
use erp_global.Audit.Json.{Json, str, num, obj, Fields, end, field, canonical_json, redact}

pub record ChainFields : Type 0 where
  pub tenant_id : Text
  pub seq : ℕ
  pub event_id : Text
  pub type : Text
  pub source : Text
  pub actor_type : Text
  pub actor_id : Text
  pub occurred_at : Text
  pub recorded_at : Text
  pub correlation_id : Option Text
  pub payload : Json

-- The event of the bus that is recorded; a missing payload is `null`.
pub record Envelope : Type 0 where
  pub tenant_id : Text
  pub event_id : Text
  pub type : Text
  pub source : Text
  pub actor_type : Text
  pub actor_id : Text
  pub occurred_at : Text
  pub correlation_id : Option Text
  pub payload : Json

pub record AuditRecord : Type 0 where
  pub fields : ChainFields
  pub prev_hash : Text
  pub hash : Text

pub record AuditHead : Type 0 where
  pub seq : ℕ
  pub hash : Text

pub record State : Type 0 where
  pub records : List AuditRecord
  pub head : Option AuditHead

-- A duplicate key of a unique index, and the error that makes the consumer try again.
pub data AuditError : Type 0 where
  duplicate_key head_moved : AuditError

replicate : ℕ → ℕ → Text
replicate zero c = []
replicate (suc n) c = c ∷ replicate n c

unfoldable pub genesis_hash : Text
unfolding replicate
genesis_hash = replicate 64 b'0'

-- `undefined` is dropped.
unfoldable pub correlation_field : Option Text → Fields → Fields
correlation_field none fs = fs
correlation_field (some c) fs = field (codes "correlationId") (str c) fs

-- The record as the value that is hashed; `print` writes a number in decimal.
unfoldable pub fields_json : (ℕ → Text) → ChainFields → Json
unfolding correlation_field
fields_json print f = obj (
    field (codes "tenantId") (str f.tenant_id) (
      field (codes "seq") (num (print f.seq)) (
        field (codes "eventId") (str f.event_id) (
          field (codes "type") (str f.type) (
            field (codes "source") (str f.source) (
              field (codes "actor")
                (obj (
                  field (codes "type") (str f.actor_type)
                    (field (codes "id") (str f.actor_id) end)))
                (field (codes "occurredAt") (str f.occurred_at) (
                  field (codes "recordedAt") (str f.recorded_at) (
                    correlation_field f.correlation_id
                      (field (codes "payload") f.payload end))))))))))

-- The position, the hash and the record that follow a head.
unfoldable pub next_seq : Option AuditHead → ℕ
next_seq none = 1
next_seq (some h) = h.seq + 1

unfoldable pub last_hash : Option AuditHead → Text
last_hash none = genesis_hash
last_hash (some h) = h.hash

unfoldable pub fields_of_event : Envelope → ℕ → Text → ChainFields
fields_of_event e seq now = record {
  tenant_id = e.tenant_id;
  seq = seq;
  event_id = e.event_id;
  type = e.type;
  source = e.source;
  actor_type = e.actor_type;
  actor_id = e.actor_id;
  occurred_at = e.occurred_at;
  recorded_at = now;
  correlation_id = e.correlation_id;
  payload = redact e.payload;
}

-- The cursor that reads the records by `seq`.
unfoldable pub insert_by_seq : AuditRecord → List AuditRecord → List AuditRecord
insert_by_seq r [] = r ∷ []
insert_by_seq r (x ∷ xs) =
    let rest = insert_by_seq r xs in if leb r.fields.seq x.fields.seq then r ∷ x ∷ xs else x ∷ rest

unfoldable pub by_seq : List AuditRecord → List AuditRecord
unfolding insert_by_seq
by_seq [] = []
by_seq (r ∷ rs) = insert_by_seq r (by_seq rs)

pub data Reason : Type 0 where
  missing_record link_broken content_changed tail_missing : Reason

pub record VerifyResult : Type 0 where
  pub valid : Bool
  pub records : ℕ
  pub head_seq : ℕ
  pub broken_at : Option (ℕ × Reason)

unfoldable pub seq_of : Option AuditHead → ℕ
seq_of none = 0
seq_of (some h) = h.seq

-- `head && head.hash !== prevHash`
unfoldable pub head_differs : Option AuditHead → Text → Bool
head_differs none prev = false
head_differs (some h) prev = not (h.hash === prev)

unfoldable pub broken : Option AuditHead → ℕ → ℕ → Reason → VerifyResult
broken head count seq reason = record {
  valid = false;
  records = count;
  head_seq = seq_of head;
  broken_at = some (seq, reason);
}

-- `sha256` is the hexadecimal digest of the crypto library, `print` the decimal digits of a number.
module _ (sha256 : Text → Text) (print : ℕ → Text) where
  unfoldable pub chain_hash : Text → ChainFields → Text
  chain_hash prev f = sha256 (prev ++ canonical_json (fields_json print f))

  unfoldable pub next_record : Option AuditHead → Envelope → Text → AuditRecord
  unfolding next_seq last_hash fields_of_event
  next_record head e now =
      let fields = fields_of_event e (next_seq head) now in
      record {
        fields = fields;
        prev_hash = last_hash head;
        hash = chain_hash (last_hash head) fields;
      }

  -- The transaction of `append`: `head` is the head that it read, the state the one that it writes to,
  -- which another writer may have changed in between. The unique indexes on `seq`, on `eventId` and on
  -- the head refuse a second document.
  unfoldable pub append : Option AuditHead → Envelope → Text → State → Result AuditError State
  append head e now s =
      let r = next_record head e now in
      let after : State = record {
        records = s.records ++ (r ∷ []);
        head = some (record { seq = r.fields.seq; hash = r.hash });
      } in
      if any (λ x. x.fields.seq == r.fields.seq || x.fields.event_id === r.fields.event_id)
        s.records
      then err duplicate_key
      else elim head [
        | none ↦ elim s.head [ none ↦ ok after | some _ ↦ err duplicate_key ]
        | some h ↦ elim s.head [
          | none ↦ err head_moved
          | some now_head ↦ if now_head.seq == h.seq then ok after else err head_moved
        ]
      ]

  -- The loop of `verify` over the records left, and the test of the head behind it.
  unfoldable pub verify_from : Option AuditHead → Text → ℕ → ℕ → List AuditRecord → VerifyResult
  verify_from head prev expected count [] =
      if not (seq_of head == count) || head_differs head prev
      then broken head count (count + 1) tail_missing
      else record { valid = true; records = count; head_seq = seq_of head; broken_at = none }
  verify_from head prev expected count (r ∷ rs) =
      let rest = verify_from head r.hash (expected + 1) (count + 1) rs in
      if not (r.fields.seq == expected)
      then broken head count expected missing_record
      else if not (r.prev_hash === prev)
      then broken head count r.fields.seq link_broken
      else if not (chain_hash prev r.fields === r.hash)
      then broken head count r.fields.seq content_changed
      else rest

  unfoldable pub verify : State → VerifyResult
  unfolding verify_from
  verify s = verify_from s.head genesis_hash 1 0 (by_seq s.records)
