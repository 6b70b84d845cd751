-- ===== src/Audit/Writers.antt =====
-- Several consumers that append at once: a transaction reads the head, and writes later over what the
-- collection is by then. (audit.service.ts, `append` inside the consumer's transaction.)
use erp_global.Common.{
  ℕ, ◌≡◌, refl, ap, subst, sym, ◌∙◌, true, Option, none, some, List, [], ◌∷◌, ◌++◌, length,
  length-append, All, In, arith, All-In, append_assoc, append-nil,
}
use erp_global.Common.Text.{Text}
use erp_global.Common.Action.{ok}
use erp_global.Audit.Chain.{
  Envelope, AuditRecord, AuditHead, State, genesis_hash, by_seq, next_record, append, verify,
}
use erp_global.Audit.Verify.{last_of, IsIntact, verify_iff, HeadFits}
use erp_global.Audit.Append.{Agrees, append-by_seq, append-IsIntact}

-- The database of a company, and what the transactions that are open have read.
pub record World : Type 0 where
  pub state : State
  pub snapshots : List (Option AuditHead)

abbrev pub empty_world : World
empty_world = record { state = record { records = []; head = none }; snapshots = [] }

-- A head that the chain once had: its first records end with the hash of the head.
record WasHead (rs : List AuditRecord) (h : AuditHead) : Type 0 where
  before : List AuditRecord
  since : List AuditRecord
  parts : rs ≡ before ++ since
  position : length before ≡ h.seq
  hash_of : last_of genesis_hash before ≡ h.hash

abbrev IsPast : List AuditRecord → Option AuditHead → Type 0
IsPast rs none = Unit
IsPast rs (some h) = WasHead rs h

last_of_prefix :
    (a b : List AuditRecord)
    → length (a ++ b) ≡ length a
    → last_of genesis_hash (a ++ b) ≡ last_of genesis_hash a
last_of_prefix a [] e = ap (last_of genesis_hash) (append-nil a)
last_of_prefix a (r ∷ b) e = ground (arith, length-append a (r ∷ b))

module _ (sha256 : Text → Text) (print : ℕ → Text) where
  -- A transaction reads the head; one that has read writes its event, whatever was written since.
  pub data Step : World → World → Type 0 where
    begins :
        {w : World} → Step w (record { state = w.state; snapshots = w.state.head ∷ w.snapshots })
    commits :
        {w : World} {s : State} (head : Option AuditHead) (e : Envelope) (now : Text)
        → In head w.snapshots
        → append sha256 print head e now w.state ≡ ok s
        → Step w (record { state = s; snapshots = w.snapshots })

  pub data Reachable : World → Type 0 where
    initial : Reachable empty_world
    next : {w w' : World} → Reachable w → Step w w' → Reachable w'

  record IsSound (w : World) : Type 0 where
    intact : IsIntact sha256 print w.state
    past : All (IsPast (by_seq w.state.records)) w.snapshots

  abbrev EndFits : Option AuditHead → List AuditRecord → Type 0
  EndFits head rs = HeadFits sha256 print head (length rs) (last_of genesis_hash rs)

  IsPast-head : (head : Option AuditHead) (rs : List AuditRecord) → EndFits head rs → IsPast rs head
  IsPast-head none rs f = tt
  IsPast-head (some h) rs (f, g) = record {
    before = rs;
    since = [];
    parts = sym (append-nil rs);
    position = sym f;
    hash_of = sym g;
  }

  Agrees-of_IsPast :
      (head now_head : Option AuditHead) (rs : List AuditRecord)
      → EndFits now_head rs
      → IsPast rs head
      → Agrees head now_head
  Agrees-of_IsPast none now_head rs f p = tt
  Agrees-of_IsPast (some h) none rs f p = tt
  Agrees-of_IsPast (some h) (some k) rs (f, g) p = λ e.
      g
      ∙ ap (last_of genesis_hash) p.parts
      ∙ last_of_prefix p.before p.since (ap length (sym p.parts) ∙ omega (arith, f, e, p.position))
      ∙ p.hash_of

  IsPast-append :
      (rs : List AuditRecord) (r : AuditRecord) (h : Option AuditHead)
      → IsPast rs h
      → IsPast (rs ++ (r ∷ [])) h
  IsPast-append rs r none p = tt
  IsPast-append rs r (some h) p = record {
    before = p.before;
    since = p.since ++ (r ∷ []);
    parts = ap (λ x. x ++ (r ∷ [])) p.parts ∙ append_assoc p.before p.since (r ∷ []);
    position = p.position;
    hash_of = p.hash_of;
  }

  All-IsPast-append :
      (rs : List AuditRecord) (r : AuditRecord) (hs : List (Option AuditHead))
      → All (IsPast rs) hs
      → All (IsPast (rs ++ (r ∷ []))) hs
  All-IsPast-append rs r [] p = tt
  All-IsPast-append rs r (h ∷ hs) (p, ps) = (IsPast-append rs r h p, All-IsPast-append rs r hs ps)

  Step-IsSound : (w w' : World) → Step w w' → IsSound w → IsSound w'
  Step-IsSound w w' begins i = record {
    intact = i.intact;
    past = (IsPast-head w.state.head (by_seq w.state.records) i.intact.fits, i.past);
  }
  Step-IsSound w w' (commits head e now m h) i =
      let agrees =
        Agrees-of_IsPast head w.state.head (by_seq w.state.records) i.intact.fits
          (All-In (IsPast (by_seq w.state.records)) w.snapshots head i.past m) in
      record {
        intact = append-IsIntact sha256 print head e now w.state w'.state h agrees i.intact;
        past =
            subst (λ rs. All (IsPast rs) w.snapshots)
              (sym (append-by_seq sha256 print head e now w.state w'.state h agrees i.intact))
              (All-IsPast-append (by_seq w.state.records) (next_record sha256 print head e now)
                w.snapshots i.past);
      }

  Reachable-IsSound : (w : World) → Reachable w → IsSound w
  unfolding by_seq
  Reachable-IsSound w initial = record { intact = record { chain = tt; fits = refl }; past = tt }
  Reachable-IsSound w (next {w = v} r s) = Step-IsSound v w s (Reachable-IsSound v r)

  -- Whatever the order in which transactions read the head and write, `verify` finds the chain valid: no
  -- transaction that read an old head forks it.
  pub verify_of_Reachable : (w : World) → Reachable w → (verify sha256 print w.state).valid ≡ true
  verify_of_Reachable w r =
      let i = Reachable-IsSound w r in (verify_iff sha256 print w.state).1 i.intact
