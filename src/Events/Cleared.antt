-- ===== src/Events/Cleared.antt =====
-- outbox.ts: how many rows wait, and what is left of them once one is published.
use erp_global.Common.{
  ℕ, suc, ◌≤◌, ◌≡◌, refl, inl, inr, true, false, ◌&&◌, not, List, [], ◌∷◌, filter, length, In,
  Bool-cases, sym, ap, subst, arith,
}
use erp_global.Common.Text.{Text, ◌===◌, ===_iff, starts_with}
use erp_global.Events.Outbox.{
  Row, is_pending, update_row, delete_row, locked, notify_prefix, as_published, settle,
}
use erp_global.Events.Relay.{Round}

-- Rows that wait, and rows that wait under another id.
abbrev pub waiting : List Row → ℕ
waiting rows = length (filter is_pending rows)

abbrev others : Text → List Row → ℕ
others id rows = length (filter (λ r. is_pending r && not (r.id === id)) rows)

abbrev Absent : Text → List Row → Type 0
Absent id [] = Unit
Absent id (r ∷ rs) = ((r.id === id) ≡ false) × Absent id rs

-- The ids differ, as the collection's key has it.
abbrev pub DistinctIds : List Row → Type 0
DistinctIds [] = Unit
DistinctIds (r ∷ rs) = Absent r.id rs × DistinctIds rs

-- No row that waits is locked beyond `t`.
abbrev pub FreeAt : ℕ → List Row → Type 0
FreeAt t [] = Unit
FreeAt t (r ∷ rs) = (is_pending r ≡ true → r.locked_until ≤ t) × FreeAt t rs

-- Every round is later than `t`, and the bus takes the event.
abbrev pub Good : ℕ → List Round → Type 0
Good t [] = Unit
Good t (u ∷ us) = (t ≤ u.now) × (u.taken ≡ true) × Good t us

others-Absent : (id : Text) (rows : List Row) → Absent id rows → others id rows ≡ waiting rows
others-Absent id [] a = refl
others-Absent id (r ∷ rs) (a, b) = ground (arith, others-Absent id rs b)

Absent-In :
    (id : Text) (rows : List Row) (q : Row) → Absent id rows → In q rows → (q.id === id) ≡ false
Absent-In id [] q a i = elim i [ ]
Absent-In id (r ∷ rs) q (a, b) (inl e) = subst (λ x. (x.id === id) ≡ false) (sym e) a
Absent-In id (r ∷ rs) q (a, b) (inr i) = Absent-In id rs q b i

-- The row that was claimed is one that waited.
pub others_of_In :
    (q : Row) (rows : List Row)
    → DistinctIds rows
    → In q rows
    → is_pending q ≡ true
    → suc (others q.id rows) ≡ waiting rows
others_of_In q [] d i p = elim i [ ]
others_of_In q (r ∷ rs) (a, d) (inl e) p =
    let absent = others-Absent q.id rs (subst (λ i. Absent i rs) (sym (ap (λ x. x.id) e)) a) in
    ground (arith, absent, ap (λ x. x.id) e, ap is_pending e, ===_iff r.id q.id)
others_of_In q (r ∷ rs) (a, d) (inr i) p =
    ground (
      arith,
      others_of_In q rs d i p,
      ===_iff q.id r.id,
      ===_iff r.id q.id,
      Absent-In r.id rs q a i,
    )

-- The rows after the one with the id is gone or waits no more.
pub record Cleared (id : Text) (rows after : List Row) : Type 0 where
  pub waits : waiting after ≡ others id rows
  pub distinct : DistinctIds rows → DistinctIds after
  pub free : (t : ℕ) → FreeAt t rows → FreeAt t after

delete_row-waiting : (id : Text) (rows : List Row) → waiting (delete_row id rows) ≡ others id rows
unfolding delete_row
delete_row-waiting id [] = refl
delete_row-waiting id (r ∷ rows) = ground (arith, delete_row-waiting id rows)

delete_row-Absent : (id k : Text) (rows : List Row) → Absent k rows → Absent k (delete_row id rows)
unfolding delete_row
delete_row-Absent id k [] a = tt
delete_row-Absent id k (r ∷ rows) (a, b) = elim (Bool-cases (r.id === id)) [
  | inl e ↦ rw (e, filter) (delete_row-Absent id k rows b)
  | inr e ↦ rw (e, filter) (a, delete_row-Absent id k rows b)
]

delete_row-DistinctIds :
    (id : Text) (rows : List Row) → DistinctIds rows → DistinctIds (delete_row id rows)
unfolding delete_row
delete_row-DistinctIds id [] d = tt
delete_row-DistinctIds id (r ∷ rows) (a, d) = elim (Bool-cases (r.id === id)) [
  | inl e ↦ rw (e, filter) (delete_row-DistinctIds id rows d)
  | inr e ↦ rw (e, filter) (delete_row-Absent id r.id rows a, delete_row-DistinctIds id rows d)
]

delete_row-FreeAt :
    (id : Text) (t : ℕ) (rows : List Row) → FreeAt t rows → FreeAt t (delete_row id rows)
unfolding delete_row
delete_row-FreeAt id t [] f = tt
delete_row-FreeAt id t (r ∷ rows) (a, f) = elim (Bool-cases (r.id === id)) [
  | inl e ↦ rw (e, filter) (delete_row-FreeAt id t rows f)
  | inr e ↦ rw (e, filter) (a, delete_row-FreeAt id t rows f)
]

-- An update that ends the waiting and keeps the id.
record Ends (f : Row → Row) : Type 0 where
  done : (r : Row) → is_pending (f r) ≡ false
  same_id : (r : Row) → (f r).id ≡ r.id

module _ (id : Text) (f : Row → Row) (k : Ends f) where
  update_row-waiting : (rows : List Row) → waiting (update_row id f rows) ≡ others id rows
  unfolding update_row
  update_row-waiting [] = refl
  update_row-waiting (r ∷ rows) = ground (arith, update_row-waiting rows, k.done r)

  update_row-Absent : (j : Text) (rows : List Row) → Absent j rows → Absent j (update_row id f rows)
  unfolding update_row
  update_row-Absent j [] a = tt
  update_row-Absent j (r ∷ rows) (a, b) =
      (ground (arith, a, k.same_id r), update_row-Absent j rows b)

  update_row-DistinctIds : (rows : List Row) → DistinctIds rows → DistinctIds (update_row id f rows)
  unfolding update_row
  update_row-DistinctIds [] d = tt
  update_row-DistinctIds (r ∷ rows) (a, d) = (
    subst (λ i. Absent i (update_row id f rows)) (ground (arith, k.same_id r))
        (update_row-Absent r.id rows a),
    update_row-DistinctIds rows d,
  )

  update_row-FreeAt : (t : ℕ) (rows : List Row) → FreeAt t rows → FreeAt t (update_row id f rows)
  unfolding update_row
  update_row-FreeAt t [] h = tt
  update_row-FreeAt t (r ∷ rows) (a, h) =
      (λ p. ground (arith, a, p, k.done r), update_row-FreeAt t rows h)

delete_row-update_row :
    (id : Text) (f : Row → Row) (rows : List Row)
    → ((r : Row) → (f r).id ≡ r.id)
    → delete_row id (update_row id f rows) ≡ delete_row id rows
unfolding delete_row update_row
delete_row-update_row id f [] h = refl
delete_row-update_row id f (r ∷ rows) h = ground (arith, delete_row-update_row id f rows h, h r)

update_row_twice :
    (id : Text) (f g : Row → Row) (rows : List Row)
    → ((r : Row) → (f r).id ≡ r.id)
    → update_row id g (update_row id f rows) ≡ update_row id (λ r. g (f r)) rows
unfolding update_row
update_row_twice id f g [] h = refl
update_row_twice id f g (r ∷ rows) h = ground (arith, update_row_twice id f g rows h, h r)

-- After the bus has taken the row that was claimed.
pub settle-Cleared :
    (now later : ℕ) (r : Row) (rows : List Row)
    → Cleared r.id rows (settle later (locked now r) (update_row r.id (locked now) rows))
unfolding settle locked as_published is_pending
settle-Cleared now later r rows = elim (Bool-cases (starts_with r.subject notify_prefix)) [
  | inl n ↦
      rw (n, delete_row-update_row r.id (locked now) rows (λ q. refl))
        (record {
          waits = delete_row-waiting r.id rows;
          distinct = delete_row-DistinctIds r.id rows;
          free = λ t. delete_row-FreeAt r.id t rows;
        })
  | inr n ↦
      let k : Ends (λ q. as_published later (locked now q)) = record {
        done = λ q. refl;
        same_id = λ q. refl;
      } in
      rw (n, update_row_twice r.id (locked now) (as_published later) rows (λ q. refl))
        (record {
          waits = update_row-waiting r.id _ k rows;
          distinct = update_row-DistinctIds r.id _ k rows;
          free = λ t. update_row-FreeAt r.id _ k t rows;
        })
]
