-- ===== src/Tenancy/Isolation.antt =====
-- The promise of plugin.ts: whatever tenants do to the collection that they share, each other tenant
-- sees it unchanged; and code without a tenant does nothing.
use erp_global.Common.{false, ◌≡◌, refl, ◌∙◌, inl, inr, Option, List, [], ◌∷◌, All}
use erp_global.Common.Text.{Text}
use erp_global.Common.Action.{err, Result-cases}
use erp_global.Tenancy.Context.{RequestContext, TenancyError, require_tenant_id, bypass}
use erp_global.Tenancy.Plugin.{pre_query, pre_insert_many, pre_validate, pre_bulk_write}
use erp_global.Tenancy.Driver.{Driver, Collection}
use erp_global.Tenancy.Effects.{
  Act, query, insert_many, save, bulk_write, view, perform, step, run, Foreign,
}
use erp_global.Tenancy.Unseen.{perform_unseen}

module _ (D : Driver) where
  -- Outside of the bypass, an operation in a context without a tenant fails with the error of the
  -- missing tenant, whichever it is: a query, an insert, the save of a new document, a bulk write.
  pub perform_without_tenant :
      (ctx : Option RequestContext) (e : TenancyError) (act : Act) (s : Collection)
      → bypass ctx ≡ false
      → require_tenant_id ctx ≡ err e
      → perform D ctx act s ≡ err e
  unfolding perform pre_query pre_insert_many pre_validate pre_bulk_write
  perform_without_tenant ctx e (query q) s b r = rw (b, r) refl
  perform_without_tenant ctx e (insert_many docs) s b r = rw (b, r) refl
  perform_without_tenant ctx e (save doc) s b r = rw (b, r) refl
  perform_without_tenant ctx e (bulk_write ops) s b r = rw (b, r) refl

  -- One operation that is not of the tenant `u`.
  step_unseen :
      (u : Text) (ctx : Option RequestContext) (act : Act) (s : Collection)
      → Foreign u (ctx, act)
      → view u (step D ctx act s) ≡ view u s
  unfolding step
  step_unseen u ctx act s (b, apart, plain) = elim (Result-cases (require_tenant_id ctx)) [
    | inr (e, r) ↦ rw (perform_without_tenant ctx e act s b r, step) refl
    | inl (t, r) ↦ elim (Result-cases (perform D ctx act s)) [
      | inr (e, h) ↦ rw (h, step) refl
      | inl (s', h) ↦ rw (h, step) (perform_unseen D t u (apart t r) ctx act s s' b r plain h)
    ]
  ]

  -- A sequence of queries, inserts, saves of new documents and bulk writes that runs in contexts which are
  -- not of the tenant `u` and do not bypass the tenants leaves `u` with the same documents of the shared
  -- collection in the same order, whether the operations succeed or fail, provided that every update is
  -- an object of operators with distinct keys, not an array of stages, and renames no field into the
  -- tenant field, and that the driver keeps its laws.
  pub run_unseen :
      (u : Text) (acts : List (Option RequestContext × Act)) (s : Collection)
      → All (Foreign u) acts
      → view u (run D acts s) ≡ view u s
  unfolding run
  run_unseen u [] s h = refl
  run_unseen u ((ctx, act) ∷ acts) s (h, hs) = run_unseen u acts _ hs ∙ step_unseen u ctx act s h
