-- ===== src/Events/Delivery.antt =====
-- What holds of every reachable world: no recorded event is lost, nothing else is delivered, and each
-- consumer handles an event at most once.
use erp_global.Common.{
  ◌≡◌, refl, ◌⊎◌, inl, inr, In, In-append, append-In_left, append-In_right, sym, ◌∙◌, ap, subst,
}
use erp_global.Common.Text.{Text}
use erp_global.Events.Outbox.{Envelope, is_pending, new_row}
use erp_global.Events.Rows.{
  Waits, claim-Claimed, Claimed-From, Claimed-Waits, postpone-From, postpone-Waits, settle-From,
  settle-Waits, expire-From, expire-Waits,
}
use erp_global.Events.World.{
  World, Step, records, claims, publishes, settles, postpones, expires, checks, commits, Reachable,
  initial, next,
}
use erp_global.Events.Sound.{
  IsSound, IsOf, keys, Distinct, From-IsOf, recorded-new, transact-cases, rows-IsSound,
  Claimed-IsOf, handled-IsSound,
}

Step-IsSound : (w w' : World) → Step w w' → IsSound w → IsSound w'
unfolding is_pending new_row
Step-IsSound w w' (records {e = e} {rows = rows} id now source ctx opts type payload fresh h) s =
    let (written, new) = recorded-new id now source ctx opts type payload w.rows rows e h in
    record {
      kept = λ f i. elim i [
        | inl same ↦ inr (
          new_row e now,
          subst (In (new_row e now)) (sym written) (append-In_right w.rows _ _ (inl refl)),
          sym same,
          refl,
        )
        | inr i ↦ elim (s.kept f i) [
          | inl sent ↦ inl sent
          | inr (r, j, k, p) ↦
              inr (r, subst (In r) (sym written) (append-In_left w.rows _ r j), k, p)
        ]
      ];
      rows_known = λ r i. elim (In-append w.rows _ r (subst (In r) written i)) [
        | inl j ↦ let (a, b) = s.rows_known r j in (inr a, b)
        | inr (inl j) ↦
            (inl (ap (λ x. x.envelope) j), ap (λ x. x.id) j ∙ ap (λ x. x.envelope.event_id) (sym j))
        | inr (inr j) ↦ elim j [ ]
      ];
      claimed_known = λ r i. let (a, b) = s.claimed_known r i in (inr a, b);
      taken_known = s.taken_known;
      stream_known = λ f i. inr (s.stream_known f i);
      checked_known = s.checked_known;
      effects_known = s.effects_known;
      unique = λ f g i j k. elim i [
        | inl a ↦ elim j [
          | inl b ↦ a ∙ sym b
          | inr j ↦ absurd (fresh g j (sym k ∙ ap (λ x. x.event_id) a ∙ new))
        ]
        | inr i ↦ elim j [
          | inl b ↦ absurd (fresh f i (k ∙ ap (λ x. x.event_id) b ∙ new))
          | inr j ↦ s.unique f g i j k
        ]
      ];
      marked = s.marked;
      once = s.once;
    }
Step-IsSound w w' (claims {r = r} {rows = rows} now h) s =
    let c = claim-Claimed now r w.rows rows h in
    record {
      kept = λ f i. elim (s.kept f i) [
        | inl sent ↦ inl sent
        | inr waits ↦ inr (Claimed-Waits now r w.rows rows c f waits)
      ];
      rows_known = From-IsOf w.recorded w.rows rows (Claimed-From now r w.rows rows c) s.rows_known;
      claimed_known = λ q i. elim i [
        | inl same ↦
            subst (IsOf w.recorded) (sym same)
              (Claimed-IsOf now r w.rows rows c w.recorded (s.rows_known c.found c.stands))
        | inr i ↦ s.claimed_known q i
      ];
      taken_known = s.taken_known;
      stream_known = s.stream_known;
      checked_known = s.checked_known;
      effects_known = s.effects_known;
      unique = s.unique;
      marked = s.marked;
      once = s.once;
    }
Step-IsSound w w' (publishes r m) s = record {
  kept = λ f i. elim (s.kept f i) [ inl sent ↦ inl (inr sent) | inr waits ↦ inr waits ];
  rows_known = s.rows_known;
  claimed_known = s.claimed_known;
  taken_known = λ q i. elim i [
    | inl same ↦ (
      inl (ap (λ x. x.envelope) same),
      subst (λ x. x.id ≡ x.envelope.event_id) (sym same) (s.claimed_known r m).1,
    )
    | inr i ↦ let (a, b) = s.taken_known q i in (inr a, b)
  ];
  stream_known = λ f i. elim i [
    | inl same ↦ subst (λ x. In x w.recorded) (sym same) (s.claimed_known r m).0
    | inr i ↦ s.stream_known f i
  ];
  checked_known = λ c f i. inr (s.checked_known c f i);
  effects_known = λ c id i. let (f, j, k) = s.effects_known c id i in (f, inr j, k);
  unique = s.unique;
  marked = s.marked;
  once = s.once;
}
Step-IsSound w w' (settles r now m) s = rows-IsSound w _ s (settle-From now r w.rows) (λ f waits.
    elim (settle-Waits now r w.rows f waits) [
      | inl waits ↦ inr waits
      | inr (q, j, same, same_id) ↦
          let (a, b) = s.rows_known q j in
          let (sent, d) = s.taken_known r m in
          let one =
            s.unique q.envelope r.envelope a (s.stream_known r.envelope sent)
              (sym b ∙ same_id ∙ d) in
          inl (subst (λ x. In x w.stream) (sym one ∙ same) sent)
    ])
Step-IsSound w w' (postpones r now m) s =
    rows-IsSound w _ s (postpone-From now r w.rows)
      (λ f waits. inr (postpone-Waits now r w.rows f waits))
Step-IsSound w w' (expires old) s =
    rows-IsSound w _ s (expire-From old w.rows) (λ f waits. inr (expire-Waits old w.rows f waits))
Step-IsSound w w' (checks c e m h) s = record {
  kept = s.kept;
  rows_known = s.rows_known;
  claimed_known = s.claimed_known;
  taken_known = s.taken_known;
  stream_known = s.stream_known;
  checked_known = λ d f i. elim i [
    | inl same ↦ subst (λ x. In x w.stream) (sym (ap (λ x. x.1) same)) m
    | inr i ↦ s.checked_known d f i
  ];
  effects_known = s.effects_known;
  unique = s.unique;
  marked = s.marked;
  once = s.once;
}
Step-IsSound w w' (commits {o = o} {s = s'} c e now b m h) s =
    elim (transact-cases c e now b w.inbox s' o h) [
      | inl same ↦ subst (λ x. IsSound (record w { inbox = x })) (sym same) s
      | inr (free, effects, markers) ↦
          handled-IsSound w c e s' s (s.checked_known c e m) free effects markers
    ]

Reachable-IsSound : (w : World) → Reachable w → IsSound w
Reachable-IsSound w initial = record {
  kept = λ e i. elim i [ ];
  rows_known = λ r i. elim i [ ];
  claimed_known = λ r i. elim i [ ];
  taken_known = λ r i. elim i [ ];
  stream_known = λ e i. elim i [ ];
  checked_known = λ c e i. elim i [ ];
  effects_known = λ c e i. elim i [ ];
  unique = λ e f i. elim i [ ];
  marked = refl;
  once = tt;
}
Reachable-IsSound w (next {w = v} reachable step) =
    Step-IsSound v w step (Reachable-IsSound v reachable)

-- However the relays and the consumers interleave, stop and repeat, an event that a committed
-- transaction recorded has been taken by the bus or still waits in the outbox.
pub recorded-kept :
    (w : World) (e : Envelope) → Reachable w → In e w.recorded → In e w.stream ⊎ Waits e w.rows
recorded-kept w e reachable i = (Reachable-IsSound w reachable).kept e i

-- However often an event is published and delivered, and however its deliveries overlap, the handlers'
-- writes that stand are at most one for each key of consumer and event, and each is of an event that
-- a committed transaction recorded.
pub effects-Distinct :
    (w : World)
    → Reachable w
    → Distinct (keys w.inbox.effects)
      × ((c id : Text)
          → In (c, id) w.inbox.effects
          → (e : Envelope) × In e w.recorded × (e.event_id ≡ id))
effects-Distinct w reachable =
    let s = Reachable-IsSound w reachable in
    (s.once, λ c id i. let (e, j, k) = s.effects_known c id i in (e, s.stream_known e j, k))
