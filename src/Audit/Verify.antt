-- ===== src/Audit/Verify.antt =====
-- `verify` accepts exactly the chains, and `append` keeps one.
use erp_global.Common.{
  ℕ, ◌+◌, ◌≡◌, subst, ◌↔◌, true, Option, none, some, List, [], ◌∷◌, length, arith,
}
use erp_global.Common.Text.{Text}
use erp_global.Audit.Chain.{
  AuditRecord, AuditHead, State, genesis_hash, by_seq, seq_of, head_differs, broken, chain_hash,
  verify_from, verify,
}

-- The hash of the last record, or the one before the first.
abbrev pub last_of : Text → List AuditRecord → Text
last_of prev [] = prev
last_of prev (r ∷ rs) = last_of r.hash rs

module _ (sha256 : Text → Text) (print : ℕ → Text) where
  -- The records are numbered from `n`, and each holds the hash before it and its own.
  abbrev pub IsChain : Text → ℕ → List AuditRecord → Type 0
  IsChain prev n [] = Unit
  IsChain prev n (r ∷ rs) =
      (r.fields.seq ≡ n)
      × (r.prev_hash ≡ prev)
      × (r.hash ≡ chain_hash sha256 print prev r.fields)
      × IsChain r.hash (n + 1) rs

  -- The head is the position and the hash of the last record.
  abbrev pub HeadFits : Option AuditHead → ℕ → Text → Type 0
  HeadFits none n last = n ≡ 0
  HeadFits (some h) n last = (h.seq ≡ n) × (h.hash ≡ last)

  pub record IsIntact (s : State) : Type 0 where
    pub chain : IsChain genesis_hash 1 (by_seq s.records)
    pub fits : HeadFits s.head (length (by_seq s.records)) (last_of genesis_hash (by_seq s.records))

  verify_from_sound :
      (head : Option AuditHead) (prev : Text) (n count : ℕ) (rs : List AuditRecord)
      → (verify_from sha256 print head prev n count rs).valid ≡ true
      → IsChain prev n rs × HeadFits head (count + length rs) (last_of prev rs)
  unfolding verify_from broken seq_of head_differs
  verify_from_sound none prev n count [] h = (tt, ground arith)
  verify_from_sound (some k) prev n count [] h = (tt, (ground arith, ground arith))
  verify_from_sound head prev n count (r ∷ rs) h =
      let (chain, fits) = verify_from_sound head r.hash (n + 1) (count + 1) rs (ground arith) in
      (
        (ground arith, ground arith, ground arith, chain),
        subst (λ m. HeadFits head m (last_of r.hash rs)) (omega arith) fits,
      )

  verify_from_complete :
      (head : Option AuditHead) (prev : Text) (n count : ℕ) (rs : List AuditRecord)
      → IsChain prev n rs
      → HeadFits head (count + length rs) (last_of prev rs)
      → (verify_from sha256 print head prev n count rs).valid ≡ true
  unfolding verify_from broken seq_of head_differs
  verify_from_complete none prev n count [] c f = ground arith
  verify_from_complete (some k) prev n count [] c f = ground arith
  verify_from_complete head prev n count (r ∷ rs) (a, b, e, c) f =
      let rec =
        verify_from_complete head r.hash (n + 1) (count + 1) rs c
          (subst (λ m. HeadFits head m (last_of r.hash rs)) (omega arith) f) in
      ground arith

  -- `verify` answers `valid` exactly for a chain: the records numbered from 1 with no gap, each with the
  -- hash of the one before it and with the hash of its own content, and a head that is the last of them.
  pub verify_iff : (s : State) → ((verify sha256 print s).valid ≡ true) ↔ IsIntact s
  unfolding verify
  verify_iff s = (
    λ h.
        let (chain, fits) = verify_from_sound s.head genesis_hash 1 0 (by_seq s.records) h in
        record {
          chain = chain;
          fits =
              subst (λ m. HeadFits s.head m (last_of genesis_hash (by_seq s.records))) (omega arith)
                fits;
        },
    λ i. verify_from_complete s.head genesis_hash 1 0 (by_seq s.records) i.chain (
        subst (λ m. HeadFits s.head m (last_of genesis_hash (by_seq s.records))) (omega arith)
          i.fits),
  )
