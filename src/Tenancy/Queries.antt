-- ===== src/Tenancy/Queries.antt =====
-- The filters of plugin.ts: what the checks on the tenant field mean, and what a query that its hook
-- lets pass may take.
use erp_global.Common.{
  true, false, ◌&&◌, ◌≡◌, refl, sym, ap, ◌∙◌, ◌⊎◌, inl, inr, Option, none, some, [], ◌∷◌, all,
  Bool-cases, arith,
}
use erp_global.Common.Text.{Text, ◌===◌, ===_iff}
use erp_global.Common.Action.{Result, ok, err}
use erp_global.Tenancy.Context.{RequestContext, TenancyError, require_tenant_id, bypass}
use erp_global.Tenancy.Plugin.{
  Fields, Unknown, text, null, other, get, set, tenant_field, then_check, assert_same_tenant,
  guard_update, Query, pre_query,
}
use erp_global.Tenancy.Stages.{is_text}
use erp_global.Tenancy.Driver.{Driver, matches}

-- A value that is absent, or the text `t`.
abbrev pub AbsentOr : Text → Option Unknown → Type 0
AbsentOr t v = (v ≡ none) ⊎ (v ≡ some (text t))

pub assert_same_tenant-AbsentOr :
    (v : Option Unknown) (t place : Text) → assert_same_tenant v t place ≡ ok tt → AbsentOr t v
unfolding assert_same_tenant
assert_same_tenant-AbsentOr none t place h = inl refl
assert_same_tenant-AbsentOr (some (text s)) t place h = elim (Bool-cases (s === t)) [
  | inl e ↦ inr (ap (λ x. some (text x)) ((===_iff s t).0 e))
  | inr e ↦ cc
]
assert_same_tenant-AbsentOr (some null) t place h = cc
assert_same_tenant-AbsentOr (some (other n)) t place h = cc

-- Checks in a row that give a value have each passed.
pub then_check-ok :
    {A B : Type 0} (r : Result TenancyError A) (k : A → Result TenancyError B) (b : B)
    → then_check r k ≡ ok b
    → (a : A) × (r ≡ ok a) × (k a ≡ ok b)
then_check-ok (ok a) k b h = (a, refl, h)
then_check-ok (err e) k b h = cc

pub get-set : (k : Text) (v : Unknown) (fs : Fields) → get k (set k v fs) ≡ some v
unfolding get set
get-set k v [] = let e = (===_iff k k).1 refl in rw e refl
get-set k v ((j, w) ∷ fs) =
    let e = (===_iff k k).1 refl in
    elim (Bool-cases (j === k)) [ inl h ↦ rw h (rw e refl) | inr h ↦ rw h (rw h (get-set k v fs)) ]

-- A value that is one text is no other.
pub is_text_apart :
    (t u : Text) (v : Option Unknown) → AbsentOr t v → ¬ (t ≡ u) → is_text v u ≡ false
unfolding is_text
is_text_apart t u v (inl e) d = rw e refl
is_text_apart t u v (inr e) d =
    rw e (elim (Bool-cases (t === u)) [ inl h ↦ absurd (d ((===_iff t u).0 h)) | inr h ↦ h ])

pub is_text-get : (v : Option Unknown) (t : Text) → is_text v t ≡ true → v ≡ some (text t)
unfolding is_text
is_text-get none t h = cc
is_text-get (some (text s)) t h = ap (λ x. some (text x)) ((===_iff s t).0 h)
is_text-get (some null) t h = cc
is_text-get (some (other n)) t h = cc

-- A query that is let pass: its filter named no other tenant, its update was checked, and the tenant
-- was put into the filter.
pub pre_query-ok :
    (ctx : Option RequestContext) (t : Text) (q q' : Query)
    → bypass ctx ≡ false
    → require_tenant_id ctx ≡ ok t
    → pre_query ctx q ≡ ok q'
    → AbsentOr t (get tenant_field q.filter)
      × (guard_update q.update t ≡ ok tt)
      × (record q { filter = set tenant_field (text t) q.filter } ≡ q')
unfolding pre_query
pre_query-ok ctx t q q' b r h =
    let h1 = rw (b, r) at h in
    let (u, hf, h2) = then_check-ok (assert_same_tenant (get tenant_field q.filter) t _) _ q' h1 in
    let (w, hg, h3) = then_check-ok (guard_update q.update t) _ q' h2 in
    (assert_same_tenant-AbsentOr _ t _ hf, hg, cc)

module _ (D : Driver) where
  -- The filter with the tenant put in is the filter and the test of the tenant.
  pub matches-set :
      (t : Text) (f d : Fields)
      → AbsentOr t (get tenant_field f)
      → matches D (set tenant_field (text t) f) d
        ≡ (matches D f d && is_text (get tenant_field d) t)
  unfolding matches set get
  matches-set t [] d h = rw (D.holds_tenant t d) (ground arith)
  matches-set t ((k, v) ∷ fs) d h = elim (Bool-cases (k === tenant_field)) [
    | inl e ↦
        let same : AbsentOr t (some v) = rw e at h in
        let kt = (===_iff k tenant_field).0 e in
        let law = D.holds_tenant t d in
        rw e (elim same [ inl no_ ↦ cc | inr is ↦ both_same t k v fs d kt is ])
    | inr e ↦ rw e (ground (arith, matches-set t fs d (rw e at h)))
  ]
    where
      both_same :
          (t k : Text) (v : Unknown) (fs d : Fields)
          → k ≡ tenant_field
          → some v ≡ some (text t)
          → (D.holds tenant_field (text t) d && all (λ e. D.holds e.0 e.1 d) fs)
            ≡ ((D.holds k v d && all (λ e. D.holds e.0 e.1 d) fs) && is_text (get tenant_field d) t)
      both_same t k v fs d kt is =
          let vt : v ≡ text t = cc in rw (kt, vt, D.holds_tenant t d) (ground arith)

  -- What a query that is let pass takes is what the caller's filter takes among the tenant's documents.
  pub pre_query-matches :
      (ctx : Option RequestContext) (t : Text) (q q' : Query) (d : Fields)
      → bypass ctx ≡ false
      → require_tenant_id ctx ≡ ok t
      → pre_query ctx q ≡ ok q'
      → matches D q'.filter d ≡ (matches D q.filter d && is_text (get tenant_field d) t)
  pre_query-matches ctx t q q' d b r h =
      let (same, guarded, e) = pre_query-ok ctx t q q' b r h in
      ap (λ (x : Query). matches D x.filter d) (sym e) ∙ matches-set t q.filter d same
