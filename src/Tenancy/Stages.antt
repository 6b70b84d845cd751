-- ===== src/Tenancy/Stages.antt =====
-- `checkStages` of plugin.ts and the hook `aggregate`.
use erp_global.Common.{
  Bool, false, ◌||◌, not, Option, none, some, List, [], ◌∷◌, any, if◌then◌else◌,
}
use erp_global.Common.Text.{Text, ◌===◌, codes}
use erp_global.Common.Action.{Result, ok, err}
use erp_global.Tenancy.Context.{
  RequestContext, TenancyError, isolation_violation, require_tenant_id, bypass,
}
use erp_global.Tenancy.Plugin.{
  Fields, Unknown, text, null, other, get, set, tenant_field, then_check, require,
}

-- A pipeline, and a stage by its entries: `$lookup` with its pipeline or without one, `$facet` with its
-- pipelines, `$match` with its filter, and the other stages by name.
mutual
  pub data Stages : Type 0 where
    nil : Stages
    cons : Entries → Stages → Stages

  pub data Entries : Type 0 where
    end : Entries
    lookup : Stages → Entries → Entries
    bare_lookup : Entries → Entries
    facet : Facets → Entries → Entries
    match_ : Fields → Entries → Entries
    named : Text → Entries → Entries

  pub data Facets : Type 0 where
    no_facet : Facets
    sub : Stages → Facets → Facets

abbrev pub forbidden_stages : List Text
forbidden_stages =
    codes "$graphLookup"
    ∷ codes "$unionWith"
    ∷ codes "$out"
    ∷ codes "$merge"
    ∷ codes "$geoNear"
    ∷ codes "$search"
    ∷ codes "$searchMeta"
    ∷ codes "$vectorSearch"
    ∷ []

unfoldable pub is_text : Option Unknown → Text → Bool
is_text none t = false
is_text (some (text s)) t = s === t
is_text (some null) t = false
is_text (some (other n)) t = false

-- `'$match' in s && s.$match[TENANT_FIELD] === tenantId`
unfoldable pub matches_tenant : Entries → Text → Bool
unfolding is_text get
matches_tenant end t = false
matches_tenant (lookup p es) t = matches_tenant es t
matches_tenant (bare_lookup es) t = matches_tenant es t
matches_tenant (facet fs es) t = matches_tenant es t
matches_tenant (match_ filter es) t = is_text (get tenant_field filter) t
matches_tenant (named n es) t = matches_tenant es t

-- `lookup.pipeline.some(…)`
unfoldable pub scoped : Stages → Text → Bool
unfolding matches_tenant
scoped nil t = false
scoped (cons s p) t = matches_tenant s t || scoped p t

abbrev pub lookup_error : TenancyError
lookup_error = isolation_violation (codes "$lookup")

unfoldable mutual
  unfolding scoped

  pub check_stages : Stages → Text → Result TenancyError (Unit {0})
  check_stages nil t = ok tt
  check_stages (cons s p) t = then_check (check_entries s t) (λ _. check_stages p t)

  pub check_entries : Entries → Text → Result TenancyError (Unit {0})
  check_entries end t = ok tt
  check_entries (lookup p es) t =
      then_check (require (scoped p t) lookup_error)
        (λ _. then_check (check_stages p t) (λ _. check_entries es t))
  check_entries (bare_lookup es) t = err lookup_error
  check_entries (facet fs es) t = then_check (check_facets fs t) (λ _. check_entries es t)
  check_entries (match_ filter es) t = check_entries es t
  check_entries (named n es) t =
      then_check (require (not (any (λ f. f === n) forbidden_stages)) (isolation_violation n))
        (λ _. check_entries es t)

  pub check_facets : Facets → Text → Result TenancyError (Unit {0})
  check_facets no_facet t = ok tt
  check_facets (sub p fs) t = then_check (check_stages p t) (λ _. check_facets fs t)

-- The hook `aggregate`.
unfoldable pub pre_aggregate : Option RequestContext → Stages → Result TenancyError Stages
unfolding check_stages
pre_aggregate ctx p =
    if bypass ctx
    then ok p
    else then_check (require_tenant_id ctx) (λ t.
      then_check (check_stages p t) (λ _. ok (cons (match_ (set tenant_field (text t) []) end) p)))
