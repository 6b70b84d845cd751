-- ===== src/Events/Rows.antt =====
-- outbox.ts: what claiming, settling and postponing do to the rows.
use erp_global.Common.{
  ℕ, ◌≡◌, refl, ◌⊎◌, inl, inr, Bool, true, false, ◌||◌, not, if◌then◌else◌, some, List, [], ◌∷◌,
  map, filter, In, In-map, map-In, filter-In, In-filter, Bool-cases, Option-cases, sym, subst,
  arith,
}
use erp_global.Common.Text.{Text, ◌===◌, ===_iff, starts_with}
use erp_global.Events.Outbox.{
  Envelope, Row, is_pending, is_due, older, oldest_due, update_row, delete_row, locked, claim,
  notify_prefix, as_published, settle, postpone,
}

-- Every row is one of before, changed at most in its state.
abbrev pub From : List Row → List Row → Type 0
From before after =
    (x : Row) → In x after → (y : Row) × In y before × (x.envelope ≡ y.envelope) × (x.id ≡ y.id)

-- A row with the event waits to be published.
abbrev pub Waits : Envelope → List Row → Type 0
Waits e rows = (r : Row) × In r rows × (r.envelope ≡ e) × (is_pending r ≡ true)

pub record Kept (f : Row → Row) : Type 0 where
  pub same_envelope : (r : Row) → (f r).envelope ≡ r.envelope
  pub same_id : (r : Row) → (f r).id ≡ r.id

update_row-From :
    (id : Text) (f : Row → Row) (rows : List Row) → Kept f → From rows (update_row id f rows)
unfolding update_row
update_row-From id f rows k x i =
    let (y, j, e) = In-map _ rows x i in
    (y, j, ground (arith, e, k.same_envelope y), ground (arith, e, k.same_id y))

update_row-Waits :
    (id : Text) (f : Row → Row) (rows : List Row) (e : Envelope)
    → Kept f
    → ((r : Row) → is_pending (f r) ≡ is_pending r)
    → Waits e rows
    → Waits e (update_row id f rows)
unfolding update_row
update_row-Waits id f rows e k p (r, i, same, waits) =
    (_, map-In _ rows r i, ground (arith, same, k.same_envelope r), ground (arith, waits, p r))

-- A row with another id stays as it is.
update_row-In :
    (id : Text) (f : Row → Row) (rows : List Row) (q : Row)
    → In q rows
    → (q.id === id) ≡ false
    → In q (update_row id f rows)
unfolding update_row
update_row-In id f rows q i k =
    subst (λ x. In x (map (λ r. if r.id === id then f r else r) rows)) (ground arith)
      (map-In _ rows q i)

locked-Kept : (now : ℕ) → Kept (locked now)
unfolding locked
locked-Kept now = record { same_envelope = λ r. refl; same_id = λ r. refl }

oldest_due-cons :
    (now : ℕ) (r : Row) (rs : List Row) (x : Row)
    → oldest_due now (r ∷ rs) ≡ some x
    → ((x ≡ r) × (is_due now r ≡ true)) ⊎ (oldest_due now rs ≡ some x)
unfolding oldest_due older
oldest_due-cons now r rs x h = ground arith

pub oldest_due-In :
    (now : ℕ) (rows : List Row) (x : Row)
    → oldest_due now rows ≡ some x
    → In x rows × (is_due now x ≡ true)
unfolding oldest_due
oldest_due-In now [] x h = cc
oldest_due-In now (r ∷ rs) x h = elim (oldest_due-cons now r rs x h) [
  | inl (e, d) ↦ (inl e, subst (λ y. is_due now y ≡ true) (sym e) d)
  | inr later ↦ let (i, d) = oldest_due-In now rs x later in (inr i, d)
]

-- What a claim has found, and what it wrote.
pub record Claimed (now : ℕ) (r : Row) (rows after : List Row) : Type 0 where
  pub found : Row
  pub stands : In found rows
  pub due : is_due now found ≡ true
  pub answer : r ≡ locked now found
  pub written : after ≡ update_row found.id (locked now) rows

pub claim-Claimed :
    (now : ℕ) (r : Row) (rows after : List Row)
    → claim now rows ≡ some (r, after)
    → Claimed now r rows after
unfolding claim
claim-Claimed now r rows after h = elim (Option-cases (oldest_due now rows)) [
  | inl none_due ↦ cc
  | inr (x, e) ↦
      let (i, d) = oldest_due-In now rows x e in
      record { found = x; stands = i; due = d; answer = ground arith; written = ground arith }
]

module _ (now : ℕ) (r : Row) (rows after : List Row) (c : Claimed now r rows after) where
  pub Claimed-From : From rows after
  Claimed-From = subst (From rows) (sym c.written) (update_row-From _ _ rows (locked-Kept now))

  pub Claimed-Waits : (e : Envelope) → Waits e rows → Waits e after
  unfolding locked is_pending
  Claimed-Waits e w =
      subst (Waits e) (sym c.written) (update_row-Waits _ _ rows e (locked-Kept now) (λ q. refl) w)

pub postpone-From : (now : ℕ) (r : Row) (rows : List Row) → From rows (postpone now r rows)
unfolding postpone
postpone-From now r rows =
    update_row-From r.id _ rows (record { same_envelope = λ q. refl; same_id = λ q. refl })

pub postpone-Waits :
    (now : ℕ) (r : Row) (rows : List Row) (e : Envelope)
    → Waits e rows
    → Waits e (postpone now r rows)
unfolding postpone is_pending
postpone-Waits now r rows e w =
    update_row-Waits r.id _ rows e (record { same_envelope = λ q. refl; same_id = λ q. refl })
      (λ q. refl) w

filter-From : (p : Row → Bool) (rows : List Row) → From rows (filter p rows)
filter-From p rows x i = (x, (filter-In p rows x i).0, refl, refl)

pub settle-From : (now : ℕ) (r : Row) (rows : List Row) → From rows (settle now r rows)
unfolding settle delete_row as_published
settle-From now r rows = elim (Bool-cases (starts_with r.subject notify_prefix)) [
  | inl e ↦ rw e (filter-From _ rows)
  | inr e ↦
      rw e (update_row-From r.id _ rows (record { same_envelope = λ q. refl; same_id = λ q. refl }))
]

-- Only rows with the id of the published one stop waiting.
pub settle-Waits :
    (now : ℕ) (r : Row) (rows : List Row) (e : Envelope)
    → Waits e rows
    → Waits e (settle now r rows) ⊎ ((q : Row) × In q rows × (q.envelope ≡ e) × (q.id ≡ r.id))
unfolding settle delete_row update_row
settle-Waits now r rows e (q, i, same, waits) = elim (Bool-cases (q.id === r.id)) [
  | inl k ↦ inr (q, i, same, (===_iff _ _).0 k)
  | inr k ↦ inl (elim (Bool-cases (starts_with r.subject notify_prefix)) [
    | inl n ↦ rw n (q, In-filter _ rows q i (ground arith), same, waits)
    | inr n ↦ rw n (q, update_row-In r.id _ rows q i k, same, waits)
  ])
]

pub expire-Waits :
    (old : Row → Bool) (rows : List Row) (e : Envelope)
    → Waits e rows
    → Waits e (filter (λ r. is_pending r || not (old r)) rows)
expire-Waits old rows e (q, i, same, waits) = (q, In-filter _ rows q i (ground arith), same, waits)

pub expire-From :
    (old : Row → Bool) (rows : List Row)
    → From rows (filter (λ r. is_pending r || not (old r)) rows)
expire-From old rows = filter-From _ rows
