-- ===== src/Tenancy/Allowed.antt =====
-- Which pipelines `checkStages` of plugin.ts and the hook `aggregate` let pass.
use erp_global.Common.{
  Bool, true, false, not, ◌≡◌, refl, sym, ap, subst, ◌↔◌, ◌⊎◌, inl, inr, Option, none, some, [],
  any, Bool-cases, In, any-In, any_of_In, arith,
}
use erp_global.Common.Text.{Text, ◌===◌, ===_iff}
use erp_global.Common.Action.{Result, ok, err}
use erp_global.Tenancy.Context.{
  RequestContext, TenancyError, isolation_violation, require_tenant_id, bypass,
}
use erp_global.Tenancy.Plugin.{
  Fields, Unknown, text, null, other, get, set, tenant_field, then_check, require,
}
use erp_global.Tenancy.Stages.{
  Stages, nil, cons, Entries, end, lookup, bare_lookup, facet, match_, named, Facets, no_facet, sub,
  forbidden_stages, is_text, matches_tenant, scoped, lookup_error, check_stages, check_entries,
  check_facets, pre_aggregate,
}

-- The stages of a pipeline that matter here, at any depth: within `$lookup` and `$facet` too.
pub data Item : Type 0 where
  a_lookup : Stages → Item
  a_bare_lookup : Item
  a_stage : Text → Item

unfoldable mutual
  pub WithinStages : Item → Stages → Type 0
  WithinStages i nil = ⊥
  WithinStages i (cons s p) = WithinEntries i s ⊎ WithinStages i p

  pub WithinEntries : Item → Entries → Type 0
  WithinEntries i end = ⊥
  WithinEntries i (lookup p es) = (i ≡ a_lookup p) ⊎ WithinStages i p ⊎ WithinEntries i es
  WithinEntries i (bare_lookup es) = (i ≡ a_bare_lookup) ⊎ WithinEntries i es
  WithinEntries i (facet fs es) = WithinFacets i fs ⊎ WithinEntries i es
  WithinEntries i (match_ filter es) = WithinEntries i es
  WithinEntries i (named n es) = (i ≡ a_stage n) ⊎ WithinEntries i es

  pub WithinFacets : Item → Facets → Type 0
  WithinFacets i no_facet = ⊥
  WithinFacets i (sub p fs) = WithinStages i p ⊎ WithinFacets i fs

-- The filter of a stage that is a `$match`.
unfoldable pub filter_of : Entries → Option Fields
filter_of end = none
filter_of (lookup p es) = filter_of es
filter_of (bare_lookup es) = filter_of es
filter_of (facet fs es) = filter_of es
filter_of (match_ filter es) = some filter
filter_of (named n es) = filter_of es

unfoldable pub FiltersBy : Fields → Stages → Type 0
unfolding filter_of
FiltersBy f nil = ⊥
FiltersBy f (cons s p) = (filter_of s ≡ some f) ⊎ FiltersBy f p

-- What is allowed: a lookup one of whose own stages filters by the tenant, and any stage but the
-- forbidden ones.
abbrev pub Allowed : Text → Item → Type 0
Allowed t (a_lookup p) = (f : Fields) × FiltersBy f p × (get tenant_field f ≡ some (text t))
Allowed t a_bare_lookup = ⊥
Allowed t (a_stage n) = ¬ (In n forbidden_stages)

is_text_iff : (v : Option Unknown) (t : Text) → (is_text v t ≡ true) ↔ (v ≡ some (text t))
unfolding is_text
is_text_iff none t = (λ h. cc, λ h. cc)
is_text_iff (some (text s)) t =
    (λ h. ap (λ x. some (text x)) ((===_iff s t).0 h), λ h. (===_iff s t).1 (cc))
is_text_iff (some null) t = (λ h. cc, λ h. cc)
is_text_iff (some (other n)) t = (λ h. cc, λ h. cc)

matches_tenant_iff :
    (s : Entries) (t : Text)
    → (matches_tenant s t ≡ true)
      ↔ ((f : Fields) × (filter_of s ≡ some f) × (get tenant_field f ≡ some (text t)))
unfolding matches_tenant filter_of
matches_tenant_iff end t = (λ h. cc, λ (f, e, h). cc)
matches_tenant_iff (lookup p es) t = matches_tenant_iff es t
matches_tenant_iff (bare_lookup es) t = matches_tenant_iff es t
matches_tenant_iff (facet fs es) t = matches_tenant_iff es t
matches_tenant_iff (match_ filter es) t =
    (λ h. (filter, refl, (is_text_iff _ t).0 h), λ (f, e, h). (is_text_iff _ t).1 (cc))
matches_tenant_iff (named n es) t = matches_tenant_iff es t

scoped_iff : (p : Stages) (t : Text) → (scoped p t ≡ true) ↔ Allowed t (a_lookup p)
unfolding scoped FiltersBy
scoped_iff nil t = (λ h. cc, λ (f, e, h). absurd e)
scoped_iff (cons s p) t = (
  λ h. elim (Bool-cases (matches_tenant s t)) [
    | inl e ↦ let (f, same, g) = (matches_tenant_iff s t).0 e in (f, inl same, g)
    | inr e ↦ let (f, i, g) = (scoped_iff p t).0 (rw e at h) in (f, inr i, g)
  ],
  λ (f, w, g). elim w [
    | inl same ↦ let e = (matches_tenant_iff s t).1 (f, same, g) in rw e refl
    | inr i ↦ let e = (scoped_iff p t).1 (f, i, g) in ground arith
  ],
)

module _ {A : Type 0} where
  -- A check and what follows it both pass, or the two together do not.
  pub then_check_iff :
      (r : Result TenancyError (Unit {0})) (s : Result TenancyError A) (a : A)
      → (then_check r (λ _. s) ≡ ok a) ↔ ((r ≡ ok tt) × (s ≡ ok a))
  then_check_iff (ok u) s a = (λ h. (refl, h), λ p. p.1)
  then_check_iff (err e) s a = (λ h. cc, λ p. cc)

require_iff : (b : Bool) (e : TenancyError) → (require b e ≡ ok tt) ↔ (b ≡ true)
require_iff true e = (λ h. refl, λ h. refl)
require_iff false e = (λ h. cc, λ h. cc)

forbidden_iff :
    (n : Text) → (not (any (λ f. f === n) forbidden_stages) ≡ true) ↔ ¬ (In n forbidden_stages)
forbidden_iff n = elim (Bool-cases (any (λ f. f === n) forbidden_stages)) [
  | inl e ↦ (
    λ h. cc,
    λ h.
        let (f, i, same) = any-In (λ (f : Text). f === n) forbidden_stages e in
        absurd (h (subst (λ (x : Text). In x forbidden_stages) ((===_iff f n).0 same) i)),
  )
  | inr e ↦ (
    λ h i.
        let found = any_of_In (λ (f : Text). f === n) n forbidden_stages i ((===_iff n n).1 refl) in
        cc,
    λ h. cc,
  )
]

-- The check of a part passes exactly when all that stands within the part is allowed.
abbrev pub AllAllowed : Text → (Item → Type 0) → Type 0
AllAllowed t Within = (i : Item) → Within i → Allowed t i

split_iff :
    (t : Text) (P Q : Item → Type 0) (r s : Result TenancyError (Unit {0}))
    → (r ≡ ok tt) ↔ AllAllowed t P
    → (s ≡ ok tt) ↔ AllAllowed t Q
    → (then_check r (λ _. s) ≡ ok tt) ↔ AllAllowed t (λ i. P i ⊎ Q i)
split_iff t P Q r s p q = (
  λ h i w.
      let (hr, hs) = (then_check_iff r s tt).0 h in
      elim w [ inl u ↦ p.0 hr i u | inr u ↦ q.0 hs i u ],
  λ h. (then_check_iff r s tt).1 (p.1 (λ i w. h i (inl w)), q.1 (λ i w. h i (inr w))),
)

one_iff :
    (t : Text) (j : Item) (b : Bool) (e : TenancyError)
    → (b ≡ true) ↔ Allowed t j
    → (require b e ≡ ok tt) ↔ AllAllowed t (λ i. i ≡ j)
one_iff t j b e p = (
  λ h i same. subst (Allowed t) (sym same) (p.0 ((require_iff b e).0 h)),
  λ h. (require_iff b e).1 (p.1 (h j refl)),
)

mutual
  unfolding check_stages WithinStages

  stages_iff :
      (p : Stages) (t : Text) → (check_stages p t ≡ ok tt) ↔ AllAllowed t (λ i. WithinStages i p)
  stages_iff nil t = (λ h i w. absurd w, λ h. refl)
  stages_iff (cons s p) t = split_iff t _ _ _ _ (entries_iff s t) (stages_iff p t)

  entries_iff :
      (s : Entries) (t : Text) → (check_entries s t ≡ ok tt) ↔ AllAllowed t (λ i. WithinEntries i s)
  entries_iff end t = (λ h i w. absurd w, λ h. refl)
  entries_iff (lookup p es) t =
      split_iff t _ _ _ _ (one_iff t (a_lookup p) (scoped p t) lookup_error (scoped_iff p t))
        (split_iff t _ _ _ _ (stages_iff p t) (entries_iff es t))
  entries_iff (bare_lookup es) t = (λ h i w. cc, λ h. absurd (h a_bare_lookup (inl refl)))
  entries_iff (facet fs es) t = split_iff t _ _ _ _ (facets_iff fs t) (entries_iff es t)
  entries_iff (match_ filter es) t = entries_iff es t
  entries_iff (named n es) t =
      split_iff t _ _ _ _ (one_iff t (a_stage n) _ (isolation_violation n) (forbidden_iff n))
        (entries_iff es t)

  facets_iff :
      (fs : Facets) (t : Text) → (check_facets fs t ≡ ok tt) ↔ AllAllowed t (λ i. WithinFacets i fs)
  facets_iff no_facet t = (λ h i w. absurd w, λ h. refl)
  facets_iff (sub p fs) t = split_iff t _ _ _ _ (stages_iff p t) (facets_iff fs t)

-- `pre_aggregate` lets a pipeline of the context's tenant pass exactly when, at every depth, each
-- `$lookup` has a pipeline with a stage that filters by the tenant and no stage is a forbidden one, and
-- then it puts a `$match` by the tenant in front. The context does not bypass the tenants.
pub pre_aggregate_iff :
    (ctx : Option RequestContext) (t : Text) (p q : Stages)
    → bypass ctx ≡ false
    → require_tenant_id ctx ≡ ok t
    → (pre_aggregate ctx p ≡ ok q) ↔ (
        (cons (match_ (set tenant_field (text t) []) end) p ≡ q)
        × AllAllowed t (λ i. WithinStages i p))
unfolding pre_aggregate
pre_aggregate_iff ctx t p q b r =
    rw (b, r)
      (
        λ h.
            let (c, e) =
              (then_check_iff (check_stages p t)
                  (ok (cons (match_ (set tenant_field (text t) []) end) p)) q).0
                h in
            (cc, (stages_iff p t).0 c),
        λ (e, a).
            (then_check_iff (check_stages p t)
                (ok (cons (match_ (set tenant_field (text t) []) end) p)) q).1
              ((stages_iff p t).1 a, ap ok e),
      )
