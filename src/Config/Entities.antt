-- ===== src/Config/Entities.antt =====
-- `mergeEntity` and the map of entities of `mergeLayers`: what is said of an entity after a merge.
use erp_global.Common.{
  false, ◌≡◌, refl, sym, ap, subst, ◌∙◌, inl, inr, Option, none, some, List, [], ◌∷◌, ◌++◌,
  if◌then◌else◌, Bool-cases, Option-cases, All,
}
use erp_global.Common.Text.{Text, ◌===◌, ===_iff}
use erp_global.Config.Maps.{
  or_earlier, or_earlier_assoc, or_earlier-none, put, put_all, last_at, last_at-append, Differ,
  last_at-put, put-Differ, put_all-Differ, last_at-put_all,
}
use erp_global.Config.Layers.{
  Field, Props, name_of, EntityPatch, merge_tax, merge_roles, merge_entity, put_entities,
}
use erp_global.Config.Views.{at_entity, field_of, prop_of, tax_of, role_of}

-- The keys of the objects in a patch differ.
abbrev pub OptionDiffer : Option Props → Type 0
OptionDiffer none = Unit
OptionDiffer (some t) = Differ name_of t

abbrev pub PatchDiffer : EntityPatch → Type 0
PatchDiffer p = Differ name_of p.props × OptionDiffer p.tax

-- A reading of patches that a merge overrides.
abbrev Overrides : {B : Type 0} → (EntityPatch → Option B) → Type 0
Overrides get =
    (prev patch : EntityPatch)
    → PatchDiffer prev
    → get (merge_entity (some prev) patch) ≡ or_earlier (get patch) (get prev)

pub field_of-Overrides : (f : Text) → Overrides (field_of f)
unfolding field_of merge_entity Differ last_at put_all
field_of-Overrides f prev patch d =
    last_at-put_all Field.key patch.fields _ f (put_all-Differ Field.key prev.fields [] tt)
    ∙ ap (or_earlier (last_at Field.key f patch.fields))
        (last_at-put_all Field.key prev.fields [] f tt ∙ or_earlier-none _)

pub prop_of-Overrides : (k : Text) → Overrides (prop_of k)
unfolding prop_of merge_entity
prop_of-Overrides k prev patch (d, u) = last_at-put_all name_of patch.props prev.props k d

merge_tax_lem :
    (k : Text) (prev patch : Option Props)
    → OptionDiffer prev
    → elim (merge_tax prev patch) [ none ↦ none | some t ↦ last_at name_of k t ]
      ≡ or_earlier
          (elim patch [ none ↦ none | some t ↦ last_at name_of k t ])
          (elim prev [ none ↦ none | some t ↦ last_at name_of k t ])
unfolding merge_tax
merge_tax_lem k none patch d = sym (or_earlier-none _)
merge_tax_lem k (some prev) none d = refl
merge_tax_lem k (some prev) (some patch) d = last_at-put_all name_of patch prev k d

pub tax_of-Overrides : (k : Text) → Overrides (tax_of k)
unfolding tax_of merge_entity
tax_of-Overrides k prev patch (d, u) = merge_tax_lem k prev.tax patch.tax u

merge_roles_lem :
    (r : Text) (prev patch : Option (List Text))
    → elim (merge_roles prev patch) [ none ↦ none | some rs ↦ last_at (λ x. x) r rs ]
      ≡ or_earlier
          (elim patch [ none ↦ none | some rs ↦ last_at (λ x. x) r rs ])
          (elim prev [ none ↦ none | some rs ↦ last_at (λ x. x) r rs ])
unfolding merge_roles Differ
merge_roles_lem r none patch = sym (or_earlier-none _)
merge_roles_lem r (some prev) none = refl
merge_roles_lem r (some prev) (some patch) =
    last_at-put_all (λ x. x) (prev ++ patch) [] r tt
    ∙ or_earlier-none _
    ∙ last_at-append (λ x. x) r prev patch

pub role_of-Overrides : (r : Text) → Overrides (role_of r)
unfolding role_of merge_entity
role_of-Overrides r prev patch d = merge_roles_lem r prev.roles patch.roles

merge_tax-OptionDiffer :
    (prev patch : Option Props)
    → OptionDiffer prev
    → OptionDiffer patch
    → OptionDiffer (merge_tax prev patch)
unfolding merge_tax
merge_tax-OptionDiffer none patch d e = e
merge_tax-OptionDiffer (some prev) none d e = d
merge_tax-OptionDiffer (some prev) (some patch) d e = put_all-Differ name_of patch prev d

merge_entity-PatchDiffer :
    (prev patch : EntityPatch)
    → PatchDiffer prev
    → PatchDiffer patch
    → PatchDiffer (merge_entity (some prev) patch)
unfolding merge_entity
merge_entity-PatchDiffer prev patch (d, u) (e, v) =
    (put_all-Differ name_of patch.props prev.props d, merge_tax-OptionDiffer prev.tax patch.tax u v)

-- In a map of entities that differ, a reading is that of the one entity.
at_entity-last_at :
    {B : Type 0} (get : EntityPatch → Option B) (e : Text) (m : List EntityPatch)
    → Differ EntityPatch.key m
    → at_entity get e m ≡ elim (last_at EntityPatch.key e m) [ none ↦ none | some p ↦ get p ]
unfolding at_entity last_at Differ
at_entity-last_at get e [] d = refl
at_entity-last_at get e (p ∷ ps) (fresh, d) = elim (Bool-cases (p.key === e)) [
  | inl h ↦
      let same = (===_iff p.key e).0 h in
      let fresh' : last_at EntityPatch.key e ps ≡ none = rw same at fresh in
      rw h (rw (at_entity-last_at get e ps d) (rw fresh' refl))
  | inr h ↦ rw h (
      rw (at_entity-last_at get e ps d) (elim (Option-cases (last_at EntityPatch.key e ps)) [
        | inl n ↦ rw n refl
        | inr (q, n) ↦ rw n (or_earlier-none (get q))
      ]))
]

last_at-All :
    (P : EntityPatch → Type 0) (e : Text) (m : List EntityPatch) (p : EntityPatch)
    → All P m
    → last_at EntityPatch.key e m ≡ some p
    → P p
unfolding last_at
last_at-All P e [] p h k = cc
last_at-All P e (q ∷ m) p (h, hs) k = elim (Option-cases (last_at EntityPatch.key e m)) [
  | inr (r, n) ↦
      let same : r ≡ p = (let k1 = rw (n, last_at) at k in cc) in
      subst P same (last_at-All P e m r hs n)
  | inl n ↦ elim (Bool-cases (q.key === e)) [
    | inl f ↦ let same : q ≡ p = (let k1 = rw (n, f, last_at) at k in cc) in subst P same h
    | inr f ↦ let k1 = rw (n, f, last_at) at k in cc
  ]
]

put-All :
    (P : EntityPatch → Type 0) (x : EntityPatch) (m : List EntityPatch)
    → P x
    → All P m
    → All P (put EntityPatch.key x m)
unfolding put
put-All P x [] h hs = (h, tt)
put-All P x (y ∷ m) h (hy, hs) = elim (Bool-cases (y.key === x.key)) [
  | inl e ↦ rw e (h, hs)
  | inr e ↦ rw e (hy, put-All P x m h hs)
]

merge_entity-key : (o : Option EntityPatch) (p : EntityPatch) → (merge_entity o p).key ≡ p.key
unfolding merge_entity
merge_entity-key none p = refl
merge_entity-key (some q) p = refl

-- A map of entities as the merge keeps it.
abbrev pub Sound : List EntityPatch → Type 0
Sound m = Differ EntityPatch.key m × All PatchDiffer m

abbrev merged : List EntityPatch → EntityPatch → EntityPatch
merged m p = merge_entity (last_at EntityPatch.key p.key m) p

put-Sound :
    (m : List EntityPatch) (p : EntityPatch)
    → Sound m
    → PatchDiffer p
    → Sound (put EntityPatch.key (merged m p) m)
unfolding merge_entity
put-Sound m p (d, hs) h = (
  put-Differ EntityPatch.key (merged m p) m d,
  put-All PatchDiffer (merged m p) m
      (elim (Option-cases (last_at EntityPatch.key p.key m)) [
        | inl e ↦ rw e h
        | inr (q, e) ↦
            rw e (merge_entity-PatchDiffer q p (last_at-All PatchDiffer p.key m q hs e) h)
      ])
      hs,
)

module _ {B : Type 0} (get : EntityPatch → Option B) (over : Overrides get) where
  merged_lem :
      (m : List EntityPatch) (p : EntityPatch)
      → Sound m
      → get (merged m p) ≡ or_earlier (get p) (at_entity get p.key m)
  unfolding merge_entity
  merged_lem m p (d, hs) = elim (Option-cases (last_at EntityPatch.key p.key m)) [
    | inl e ↦ rw (at_entity-last_at get p.key m d) (rw e (sym (or_earlier-none (get p))))
    | inr (q, e) ↦
        rw (at_entity-last_at get p.key m d)
          (rw e (over q p (last_at-All PatchDiffer p.key m q hs e)))
  ]

  put_here :
      (e : Text) (m : List EntityPatch) (x : EntityPatch)
      → Differ EntityPatch.key m
      → x.key ≡ e
      → at_entity get e (put EntityPatch.key x m) ≡ get x
  put_here e m x d same =
      at_entity-last_at get e _ (put-Differ EntityPatch.key x m d)
      ∙ ap (λ o. elim o [ none ↦ none | some p ↦ get p ])
          (last_at-put EntityPatch.key x m e d
            ∙ ap (λ b. or_earlier (if b then some x else none) (last_at EntityPatch.key e m))
                ((===_iff x.key e).1 same))

  put_there :
      (e : Text) (m : List EntityPatch) (x : EntityPatch)
      → Differ EntityPatch.key m
      → (x.key === e) ≡ false
      → at_entity get e (put EntityPatch.key x m) ≡ at_entity get e m
  put_there e m x d apart =
      at_entity-last_at get e _ (put-Differ EntityPatch.key x m d)
      ∙ ap (λ o. elim o [ none ↦ none | some p ↦ get p ])
          (last_at-put EntityPatch.key x m e d
            ∙ ap (λ b. or_earlier (if b then some x else none) (last_at EntityPatch.key e m)) apart)
      ∙ sym (at_entity-last_at get e m d)

  -- What is said after one patch has been merged in: what the patch says, or what was said.
  put-merged :
      (e : Text) (m : List EntityPatch) (p : EntityPatch)
      → Sound m
      → at_entity get e (put EntityPatch.key (merged m p) m)
        ≡ or_earlier (if p.key === e then get p else none) (at_entity get e m)
  put-merged e m p (d, hs) = elim (Bool-cases (p.key === e)) [
    | inl h ↦
        let same : p.key ≡ e = (===_iff p.key e).0 h in
        rw h (
          put_here e m (merged m p) d (merge_entity-key _ p ∙ same)
          ∙ merged_lem m p (d, hs)
          ∙ ap (λ k. or_earlier (get p) (at_entity get k m)) same)
    | inr h ↦ rw h (put_there e m (merged m p) d (ap (λ k. k === e) (merge_entity-key _ p) ∙ h))
  ]

  pub at_entity-put_entities :
      (e : Text) (es m : List EntityPatch)
      → Sound m
      → All PatchDiffer es
      → at_entity get e (put_entities m es) ≡ or_earlier (at_entity get e es) (at_entity get e m)
  unfolding put_entities at_entity
  at_entity-put_entities e [] m s hs = refl
  at_entity-put_entities e (p ∷ es) m s (h, hs) =
      at_entity-put_entities e es _ (put-Sound m p s h) hs
      ∙ ap (or_earlier (at_entity get e es)) (put-merged e m p s)
      ∙ or_earlier_assoc (at_entity get e es) _ (at_entity get e m)

pub put_entities-Sound :
    (es m : List EntityPatch) → Sound m → All PatchDiffer es → Sound (put_entities m es)
unfolding put_entities
put_entities-Sound [] m s hs = s
put_entities-Sound (p ∷ es) m s (h, hs) = put_entities-Sound es _ (put-Sound m p s h) hs
