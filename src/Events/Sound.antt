-- ===== src/Events/Sound.antt =====
-- The invariant of the outbox, the bus and the inbox, and what single writes do to it.
use erp_global.Common.{
  ℕ, ◌≡◌, ◌⊎◌, inl, inr, true, false, List, [], ◌∷◌, ◌++◌, any, In, sym, ◌∙◌, ap, subst, arith,
}
use erp_global.Common.Text.{Text, ◌===◌, ===_iff}
use erp_global.Common.Action.{ok}
use erp_global.Events.Outbox.{
  Envelope, Row, RecordOptions, Context, new_envelope, new_row, record_event, locked,
}
use erp_global.Events.Rows.{From, Waits, Claimed}
use erp_global.Events.World.{
  HandlerEnd, returned, clashed, thrown, Processed, processed_key, already_processed, Inbox,
  Outcome, transact, World,
}

-- Each envelope was recorded, and the row has its event's id.
abbrev pub IsOf : List Envelope → Row → Type 0
IsOf es r = In r.envelope es × (r.id ≡ r.envelope.event_id)

abbrev pub keys : List (Text × Text) → List Text
keys [] = []
keys ((c, e) ∷ ks) = processed_key c e ∷ keys ks

abbrev pub ids : List Processed → List Text
ids [] = []
ids (p ∷ ps) = p.id ∷ ids ps

abbrev pub Distinct : List Text → Type 0
Distinct [] = Unit
Distinct (k ∷ ks) = (In k ks → ⊥) × Distinct ks

pub record IsSound (w : World) : Type 0 where
  pub kept : (e : Envelope) → In e w.recorded → In e w.stream ⊎ Waits e w.rows
  pub rows_known : (r : Row) → In r w.rows → IsOf w.recorded r
  pub claimed_known : (r : Row) → In r w.claimed → IsOf w.recorded r
  pub taken_known : (r : Row) → In r w.taken → IsOf w.stream r
  pub stream_known : (e : Envelope) → In e w.stream → In e w.recorded
  pub checked_known : (c : Text) (e : Envelope) → In (c, e) w.checked → In e w.stream
  pub effects_known :
      (c id : Text)
      → In (c, id) w.inbox.effects
      → (e : Envelope) × In e w.stream × (e.event_id ≡ id)
  pub unique :
      (e f : Envelope) → In e w.recorded → In f w.recorded → e.event_id ≡ f.event_id → e ≡ f
  pub marked : ids w.inbox.processed ≡ keys w.inbox.effects
  pub once : Distinct (keys w.inbox.effects)

pub From-IsOf :
    (es : List Envelope) (rows after : List Row)
    → From rows after
    → ((r : Row) → In r rows → IsOf es r)
    → (r : Row) → In r after
    → IsOf es r
From-IsOf es rows after f h r i =
    let (y, j, same, same_id) = f r i in
    let (a, b) = h y j in
    (subst (λ e. In e es) (sym same) a, same_id ∙ b ∙ ap (λ e. e.event_id) (sym same))

pub recorded-new :
    (id : Text) (now : ℕ) (source : Text) (ctx : Context) (opts : RecordOptions)
    (type payload : Text) (rows after : List Row) (e : Envelope)
    → record_event id now source ctx opts type payload rows ≡ ok (e, after)
    → (after ≡ rows ++ (new_row e now ∷ [])) × (e.event_id ≡ id)
unfolding record_event new_envelope
recorded-new id now source ctx opts type payload rows after e h = ground arith

In-ids : (ps : List Processed) (k : Text) → In k (ids ps) → any (λ p. p.id === k) ps ≡ true
In-ids [] k i = elim i [ ]
In-ids (p ∷ ps) k (inl e) = ground (arith, ===_iff p.id k)
In-ids (p ∷ ps) k (inr i) = ground (arith, In-ids ps k i)

-- What a transaction that returns has done.
pub transact-cases :
    (c : Text) (e : Envelope) (now : ℕ) (b : HandlerEnd) (s s' : Inbox) (o : Outcome)
    → transact c e now b s ≡ ok (o, s')
    → (s' ≡ s)
      ⊎ (already_processed c e.event_id s.processed ≡ false)
        × (s'.effects ≡ (c, e.event_id) ∷ s.effects)
        × (ids s'.processed ≡ processed_key c e.event_id ∷ ids s.processed)
unfolding transact
transact-cases c e now returned s s' o h = ground arith
transact-cases c e now clashed s s' o h = ground arith
transact-cases c e now thrown s s' o h = ground arith

-- A step of the outbox alone: an event that waits goes on waiting, unless the bus has it.
pub rows-IsSound :
    (w : World) (rows : List Row)
    → IsSound w
    → From w.rows rows
    → ((e : Envelope) → Waits e w.rows → In e w.stream ⊎ Waits e rows)
    → IsSound (record w { rows = rows })
rows-IsSound w rows s from waits = record {
  kept = λ f i. elim (s.kept f i) [ inl sent ↦ inl sent | inr k ↦ waits f k ];
  rows_known = From-IsOf w.recorded w.rows rows from s.rows_known;
  claimed_known = s.claimed_known;
  taken_known = s.taken_known;
  stream_known = s.stream_known;
  checked_known = s.checked_known;
  effects_known = s.effects_known;
  unique = s.unique;
  marked = s.marked;
  once = s.once;
}

pub Claimed-IsOf :
    (now : ℕ) (r : Row) (rows after : List Row) (c : Claimed now r rows after) (es : List Envelope)
    → IsOf es c.found
    → IsOf es r
unfolding locked
Claimed-IsOf now r rows after c es k = subst (IsOf es) (sym c.answer) k

-- A transaction that runs the handler writes an effect that is not there.
pub handled-IsSound :
    (w : World) (c : Text) (e : Envelope) (s' : Inbox)
    → IsSound w
    → In e w.stream
    → already_processed c e.event_id w.inbox.processed ≡ false
    → s'.effects ≡ (c, e.event_id) ∷ w.inbox.effects
    → ids s'.processed ≡ processed_key c e.event_id ∷ ids w.inbox.processed
    → IsSound (record w { inbox = s' })
unfolding already_processed
handled-IsSound w c e s' s m free effects markers = record {
  kept = s.kept;
  rows_known = s.rows_known;
  claimed_known = s.claimed_known;
  taken_known = s.taken_known;
  stream_known = s.stream_known;
  checked_known = s.checked_known;
  effects_known = λ d id i. elim (subst (In (d, id)) effects i) [
    | inl same ↦ (e, m, sym (ap (λ x. x.1) same))
    | inr i ↦ s.effects_known d id i
  ];
  unique = s.unique;
  marked = markers ∙ ap (λ ks. processed_key c e.event_id ∷ ks) s.marked ∙ sym (ap keys effects);
  once =
      subst (λ xs. Distinct (keys xs)) (sym effects)
        (
          λ i. cc (
            free,
            In-ids w.inbox.processed (processed_key c e.event_id)
                (subst (In (processed_key c e.event_id)) (sym s.marked) i),
          ),
          s.once,
        );
}
