-- ===== src/Audit/Append.antt =====
-- An `append` that succeeds adds one record at the end of the chain.
use erp_global.Common.{
  ℕ, ◌+◌, ◌≤◌, ◌<◌, ◌≡◌, refl, ap, subst, sym, ◌∙◌, inl, inr, false, ◌||◌, Option, none, some, List,
  [], ◌∷◌, ◌++◌, length, length-append, All, any, ◌==◌, leb, Bool-cases, arith,
}
use erp_global.Common.Text.{Text, ◌===◌}
use erp_global.Common.Action.{ok}
use erp_global.Audit.Chain.{
  Envelope, AuditRecord, AuditHead, State, genesis_hash, insert_by_seq, by_seq, chain_hash,
  next_seq, last_hash, next_record, append, fields_of_event,
}
use erp_global.Audit.Verify.{last_of, IsChain, HeadFits, IsIntact}

insert_by_seq-All :
    (P : AuditRecord → Type 0) (r : AuditRecord) (rs : List AuditRecord)
    → All P (insert_by_seq r rs)
    → P r × All P rs
unfolding insert_by_seq
insert_by_seq-All P r [] h = h
insert_by_seq-All P r (x ∷ rs) h = elim (Bool-cases (leb r.fields.seq x.fields.seq)) [
  | inl e ↦ rw e at h
  | inr e ↦
      let (hx, rest) = let k : P x × All P (insert_by_seq r rs) = rw e at h in k in
      let (hr, hs) = insert_by_seq-All P r rs rest in (hr, (hx, hs))
]

by_seq-All : (P : AuditRecord → Type 0) (rs : List AuditRecord) → All P (by_seq rs) → All P rs
unfolding by_seq
by_seq-All P [] h = tt
by_seq-All P (r ∷ rs) h =
    let (hr, hs) = insert_by_seq-All P r (by_seq rs) h in (hr, by_seq-All P rs hs)

insert_by_seq-append :
    (x r : AuditRecord) (rs : List AuditRecord)
    → x.fields.seq < r.fields.seq
    → insert_by_seq x (rs ++ (r ∷ [])) ≡ insert_by_seq x rs ++ (r ∷ [])
unfolding insert_by_seq
insert_by_seq-append x r [] h = ground arith
insert_by_seq-append x r (y ∷ rs) h = ground (arith, insert_by_seq-append x r rs h)

-- A record with the greatest number is read last.
by_seq-append :
    (r : AuditRecord) (rs : List AuditRecord)
    → All (λ x. x.fields.seq < r.fields.seq) rs
    → by_seq (rs ++ (r ∷ [])) ≡ by_seq rs ++ (r ∷ [])
unfolding by_seq insert_by_seq
by_seq-append r [] h = refl
by_seq-append r (x ∷ rs) h =
    ap (insert_by_seq x) (by_seq-append r rs h.1) ∙ insert_by_seq-append x r (by_seq rs) h.0

pub last_of-append :
    (prev : Text) (rs : List AuditRecord) (r : AuditRecord) → last_of prev (rs ++ (r ∷ [])) ≡ r.hash
last_of-append prev [] r = refl
last_of-append prev (x ∷ rs) r = last_of-append x.hash rs r

-- What the transaction read agrees with the head that it writes over: the same position, the same hash.
abbrev pub Agrees : Option AuditHead → Option AuditHead → Type 0
Agrees none now = Unit
Agrees (some h) none = Unit
Agrees (some h) (some now) = now.seq ≡ h.seq → now.hash ≡ h.hash

-- What the transaction writes over: no head where it read none, a head at the same position otherwise.
abbrev pub Meets : Option AuditHead → Option AuditHead → Type 0
Meets none none = Unit
Meets none (some now) = ⊥
Meets (some h) none = ⊥
Meets (some h) (some now) = now.seq ≡ h.seq

module _ (sha256 : Text → Text) (print : ℕ → Text) where
  abbrev Chain : Text → ℕ → List AuditRecord → Type 0
  Chain prev n rs = IsChain sha256 print prev n rs

  pub IsChain-bound :
      (prev : Text) (n m : ℕ) (rs : List AuditRecord)
      → Chain prev n rs
      → n + length rs ≤ m
      → All (λ x. x.fields.seq < m) rs
  IsChain-bound prev n m [] c h = tt
  IsChain-bound prev n m (r ∷ rs) (a, b, e, c) h =
      (omega arith, IsChain-bound r.hash (n + 1) m rs c (omega arith))

  IsChain-append :
      (prev : Text) (n : ℕ) (rs : List AuditRecord) (r : AuditRecord)
      → Chain prev n rs
      → r.fields.seq ≡ n + length rs
      → r.prev_hash ≡ last_of prev rs
      → r.hash ≡ chain_hash sha256 print (last_of prev rs) r.fields
      → Chain prev n (rs ++ (r ∷ []))
  IsChain-append prev n [] r c a b e = (omega arith, b, e, tt)
  IsChain-append prev n (x ∷ rs) r (p, q, k, c) a b e =
      (p, q, k, IsChain-append x.hash (n + 1) rs r c (omega arith) b e)

  abbrev EndFits : Option AuditHead → List AuditRecord → Type 0
  EndFits head rs = HeadFits sha256 print head (length rs) (last_of genesis_hash rs)

  -- A transaction that was not refused follows the last record.
  follows_the_end :
      (head now_head : Option AuditHead) (rs : List AuditRecord)
      → Meets head now_head
      → Agrees head now_head
      → EndFits now_head rs
      → (next_seq head ≡ 1 + length rs) × (last_hash head ≡ last_of genesis_hash rs)
  unfolding next_seq last_hash
  follows_the_end none none [] m a f = (refl, refl)
  follows_the_end none none (r ∷ rs) m a f = (omega arith, ground arith)
  follows_the_end none (some k) rs m a f = elim m [ ]
  follows_the_end (some h) none rs m a f = elim m [ ]
  follows_the_end (some h) (some k) rs m a (f, g) = (omega arith, sym (a m) ∙ g)

  -- The collection with the record that follows `head` at its end.
  abbrev pub appended : Option AuditHead → Envelope → Text → List AuditRecord → State
  appended head e now rs =
      let r = next_record sha256 print head e now in
      record {
        records = rs ++ (r ∷ []);
        head = some (record { seq = r.fields.seq; hash = r.hash });
      }

  append_result_at :
      (head now_head : Option AuditHead) (e : Envelope) (now : Text) (rs : List AuditRecord)
      (s' : State)
      → append sha256 print head e now (record { records = rs; head = now_head }) ≡ ok s'
      → Meets head now_head × (s' ≡ appended head e now rs)
  unfolding append
  append_result_at none none e now rs s' h = (tt, ground arith)
  append_result_at none (some k) e now rs s' h = ground arith
  append_result_at (some k) none e now rs s' h = ground arith
  append_result_at (some k) (some l) e now rs s' h = (ground arith, ground arith)

  -- The records in the order of the numbers after an append at the end.
  by_seq-append_at_end :
      (r : AuditRecord) (rs : List AuditRecord)
      → Chain genesis_hash 1 (by_seq rs)
      → r.fields.seq ≡ 1 + length (by_seq rs)
      → by_seq (rs ++ (r ∷ [])) ≡ by_seq rs ++ (r ∷ [])
  by_seq-append_at_end r rs c e = by_seq-append r rs (
      by_seq-All (λ x. x.fields.seq < r.fields.seq) rs
        (IsChain-bound genesis_hash 1 r.fields.seq (by_seq rs) c (omega arith)))

  pub append-by_seq :
      (head : Option AuditHead) (e : Envelope) (now : Text) (s s' : State)
      → append sha256 print head e now s ≡ ok s'
      → Agrees head s.head
      → IsIntact sha256 print s
      → by_seq s'.records ≡ by_seq s.records ++ (next_record sha256 print head e now ∷ [])
  unfolding next_record fields_of_event
  append-by_seq head e now s s' h a i =
      let (meets, after) = append_result_at head s.head e now s.records s' h in
      let (pos, last) = follows_the_end head s.head (by_seq s.records) meets a i.fits in
      ap (λ x. by_seq x.records) after
      ∙ by_seq-append_at_end (next_record sha256 print head e now) s.records i.chain pos

  -- An `append` that read the end of an intact chain, and was not refused, leaves an intact chain.
  pub append-IsIntact :
      (head : Option AuditHead) (e : Envelope) (now : Text) (s s' : State)
      → append sha256 print head e now s ≡ ok s'
      → Agrees head s.head
      → IsIntact sha256 print s
      → IsIntact sha256 print s'
  unfolding next_record fields_of_event
  append-IsIntact head e now s s' h a i =
      let r = next_record sha256 print head e now in
      let (meets, after) = append_result_at head s.head e now s.records s' h in
      let (pos, last) = follows_the_end head s.head (by_seq s.records) meets a i.fits in
      let order = by_seq-append_at_end r s.records i.chain pos in
      let chain : Chain genesis_hash 1 (by_seq s.records ++ (r ∷ [])) =
        IsChain-append genesis_hash 1 (by_seq s.records) r i.chain pos last
          (ap (λ p. chain_hash sha256 print p r.fields) last) in
      let fits : EndFits (some (record { seq = r.fields.seq; hash = r.hash }))
          (by_seq s.records ++ (r ∷ [])) =
        (
          pos ∙ omega (arith, length-append (by_seq s.records) (r ∷ [])),
          sym (last_of-append genesis_hash (by_seq s.records) r),
        ) in
      subst (IsIntact sha256 print) (sym after) (record {
        chain = subst (Chain genesis_hash 1) (sym order) chain;
        fits =
            subst (EndFits (some (record { seq = r.fields.seq; hash = r.hash }))) (sym order) fits;
      })

  next_position :
      (head : Option AuditHead) (rs : List AuditRecord)
      → EndFits head rs
      → 1 + length rs ≤ next_seq head
  unfolding next_seq
  next_position none rs f = omega arith
  next_position (some h) rs (f, g) = omega arith

  no_duplicate :
      (n : ℕ) (id : Text) (rs : List AuditRecord)
      → All (λ x. x.fields.seq < n) rs
      → any (λ x. x.fields.event_id === id) rs ≡ false
      → any (λ x. x.fields.seq == n || x.fields.event_id === id) rs ≡ false
  no_duplicate n id [] h f = refl
  no_duplicate n id (x ∷ rs) (h, hs) f = ground (arith, no_duplicate n id rs hs)

  head_succeeds :
      (head : Option AuditHead) (e : Envelope) (now : Text) (rs : List AuditRecord)
      → any (λ x. x.fields.seq == next_seq head || x.fields.event_id === e.event_id) rs ≡ false
      → append sha256 print head e now (record { records = rs; head = head })
        ≡ ok (appended head e now rs)
  unfolding append next_record fields_of_event
  head_succeeds none e now rs f = ground arith
  head_succeeds (some h) e now rs f = ground arith

  -- A consumer that read the current head and records an event that is not recorded yet is not refused.
  pub append_succeeds :
      (e : Envelope) (now : Text) (s : State)
      → IsIntact sha256 print s
      → any (λ x. x.fields.event_id === e.event_id) s.records ≡ false
      → append sha256 print s.head e now s ≡ ok (appended s.head e now s.records)
  append_succeeds e now s i fresh = head_succeeds s.head e now s.records (
      no_duplicate (next_seq s.head) e.event_id s.records
        (by_seq-All (λ x. x.fields.seq < next_seq s.head) s.records
          (IsChain-bound genesis_hash 1 (next_seq s.head) (by_seq s.records) i.chain
            (next_position s.head (by_seq s.records) i.fits)))
        fresh)
