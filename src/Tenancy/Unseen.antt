-- ===== src/Tenancy/Unseen.antt =====
-- One operation through the hooks of plugin.ts: the documents of another tenant stay as they are.
use erp_global.Common.{
  Bool, false, ◌≡◌, refl, ◌∙◌, inl, inr, Option, none, some, List, [], ◌∷◌, ◌++◌, any, filter,
  append-nil, Bool-cases, Option-cases, All,
}
use erp_global.Common.Text.{Text, ◌===◌}
use erp_global.Common.Action.{Result, ok}
use erp_global.Tenancy.Context.{RequestContext, TenancyError, require_tenant_id, bypass}
use erp_global.Tenancy.Plugin.{
  Fields, Unknown, text, null, other, get, set, tenant_field, then_check, assert_same_tenant,
  own_or_same, own_all, own_if_nullish, scope_filter, guard_update, Update, pipeline, document,
  Query, pre_query, pre_insert_many, pre_validate, pre_save, BulkOp, insert_one, change, own_bulk,
  own_bulks, own_replacement, pre_bulk_write,
}
use erp_global.Tenancy.Stages.{is_text}
use erp_global.Tenancy.Queries.{
  AbsentOr, assert_same_tenant-AbsentOr, then_check-ok, get-set, pre_query-ok,
}
use erp_global.Tenancy.Updates.{Plain, guard_update_keeps}
use erp_global.Tenancy.Driver.{
  Driver, Collection, apply, execute, execute_bulk, execute_bulks, filter_or_all, delete_ops,
  update_ops, replace_ops, replacement_of,
}
use erp_global.Tenancy.Effects.{
  Act, query, insert_many, save, bulk_write, view, perform, PlainBulk, PlainAct, filter-append,
  set-Scoped, unseen, remove_keeps, alter_keeps,
}

-- The documents that an insert leaves are of the tenant: filled in, or checked.
filled_tenant :
    (d : Fields) (t : Text) (d' : Fields)
    → ◌≡◌ {A = Result TenancyError Fields} (ok (set tenant_field (text t) d)) (ok d')
    → get tenant_field d' ≡ some (text t)
filled_tenant d t d' h =
    let same : set tenant_field (text t) d ≡ d' = cc in
    rw (← same) (get-set tenant_field (text t) d)

checked_tenant :
    (d : Fields) (v : Unknown) (t place : Text) (d' : Fields)
    → get tenant_field d ≡ some v
    → then_check (assert_same_tenant (some v) t place) (λ _. ok d) ≡ ok d'
    → get tenant_field d' ≡ some (text t)
checked_tenant d v t place d' e h =
    let (u, h1, h2) = then_check-ok (assert_same_tenant (some v) t place) _ d' h in
    let same : d ≡ d' = cc in
    let checked : AbsentOr t (some v) = assert_same_tenant-AbsentOr _ t place h1 in
    rw (← same) (elim checked [ inl no_ ↦ cc | inr is ↦ e ∙ is ])

own_or_same_tenant :
    (d : Fields) (t place : Text) (d' : Fields)
    → own_or_same d t place ≡ ok d'
    → get tenant_field d' ≡ some (text t)
unfolding own_or_same
own_or_same_tenant d t place d' h = elim (Option-cases (get tenant_field d)) [
  | inl e ↦ filled_tenant d t d' (rw (e, own_or_same) at h)
  | inr (v, e) ↦ checked_tenant d v t place d' e (rw (e, own_or_same) at h)
]

own_if_nullish_tenant :
    (d : Fields) (t : Text) (d' : Fields)
    → own_if_nullish d t ≡ ok d'
    → get tenant_field d' ≡ some (text t)
unfolding own_if_nullish
own_if_nullish_tenant d t d' h = elim (Option-cases (get tenant_field d)) [
  | inl e ↦ filled_tenant d t d' (rw (e, own_if_nullish) at h)
  | inr (null, e) ↦ filled_tenant d t d' (rw (e, own_if_nullish) at h)
  | inr (text s, e) ↦ checked_tenant d (text s) t _ d' e (rw (e, own_if_nullish) at h)
  | inr (other n, e) ↦ checked_tenant d (other n) t _ d' e (rw (e, own_if_nullish) at h)
]

scope_filter_lem :
    (f : Option Fields) (t place : Text) (f' : Fields)
    → scope_filter f t place ≡ ok f'
    → AbsentOr t (get tenant_field (filter_or_all f))
      × (set tenant_field (text t) (filter_or_all f) ≡ f')
unfolding scope_filter get
scope_filter_lem none t place f' h = (inl refl, cc)
scope_filter_lem (some f) t place f' h =
    let (u, h1, h2) = then_check-ok (assert_same_tenant _ t place) _ f' h in
    (assert_same_tenant-AbsentOr _ t place h1, cc)

replacement_of-AbsentOr :
    (update : Option Update) (t : Text)
    → guard_update update t ≡ ok tt
    → AbsentOr t (get tenant_field (replacement_of update))
unfolding guard_update get
replacement_of-AbsentOr none t g = inl refl
replacement_of-AbsentOr (some pipeline) t g = inl refl
replacement_of-AbsentOr (some (document top ops blank)) t g =
    let (u, h, rest) = then_check-ok (assert_same_tenant _ t _) _ tt g in
    assert_same_tenant-AbsentOr _ t _ h

replace-AbsentOr :
    (D : Driver) (t : Text) (r d : Fields)
    → AbsentOr t (get tenant_field r)
    → get tenant_field d ≡ some (text t)
    → AbsentOr t (get tenant_field (D.replace r d))
replace-AbsentOr D t r d a h = elim (D.replace_tenant r d) [ inl e ↦ rw e a | inr e ↦ inr (e ∙ h) ]

module _ (D : Driver) (t u : Text) (apart : ¬ (t ≡ u)) where
  added_unseen :
      (s : Collection) (d : Fields)
      → get tenant_field d ≡ some (text t)
      → view u (s ++ (d ∷ [])) ≡ view u s
  unfolding view
  added_unseen s d e =
      filter-append _ s (d ∷ []) ∙ (let no_ = unseen D t u apart _ (inr e) in rw no_ (append-nil _))

  own_all_unseen :
      (ds ds' : List Fields)
      → own_all ds t ≡ ok ds'
      → filter (λ d. is_text (get tenant_field d) u) ds' ≡ []
  unfolding own_all
  own_all_unseen [] ds' h = let e : [] ≡ ds' = cc in rw (← e) refl
  own_all_unseen (d ∷ ds) ds' h =
      let (d1, h1, h2) = then_check-ok (own_or_same d t _) _ ds' h in
      let (ds1, h3, h4) = then_check-ok (own_all ds t) _ ds' h2 in
      let e : (d1 ∷ ds1) ≡ ds' = cc in
      let no_ = unseen D t u apart _ (inr (own_or_same_tenant d t _ d1 h1)) in
      rw (← e) (rw no_ (own_all_unseen ds ds1 h3))

  many_unseen : (s ds ds' : Collection) → own_all ds t ≡ ok ds' → view u (s ++ ds') ≡ view u s
  unfolding view
  many_unseen s ds ds' h = filter-append _ s ds' ∙ (rw (own_all_unseen ds ds' h) (append-nil _))

  execute_unseen :
      (q : Query) (f : Fields) (s : Collection)
      → AbsentOr t (get tenant_field f)
      → guard_update q.update t ≡ ok tt
      → Plain q.update
      → view u (execute D (record q { filter = set tenant_field (text t) f }) s) ≡ view u s
  unfolding execute
  execute_unseen q f s a g p =
      let scope = set-Scoped D t u apart f a in
      elim (Bool-cases (any (λ o. o === q.op) delete_ops)) [
        | inl e ↦ rw e (remove_keeps D t u apart q.op _ s scope)
        | inr e ↦ rw e (elim (Bool-cases (any (λ o. o === q.op) update_ops)) [
          | inl k ↦ rw k (
              alter_keeps D t u apart (apply D q.update) q.upsert q.op _ s scope
                (λ d h. inr (guard_update_keeps D t q.update d g p h)))
          | inr k ↦ rw k (elim (Bool-cases (any (λ o. o === q.op) replace_ops)) [
            | inl r ↦ rw r (
                alter_keeps D t u apart (D.replace (replacement_of q.update)) q.upsert q.op _ s
                  scope (λ d h. replace-AbsentOr D t _ d (replacement_of-AbsentOr q.update t g) h))
            | inr r ↦ rw r refl
          ])
        ])
      ]

  change_unseen :
      (kind : Text) (f : Fields) (update : Option Update) (r r' : Option Fields) (upsert : Bool)
      (s : Collection)
      → AbsentOr t (get tenant_field f)
      → guard_update update t ≡ ok tt
      → Plain update
      → own_replacement r t ≡ ok r'
      → view u
          (execute_bulk D (change kind (some (set tenant_field (text t) f)) update r' upsert) s)
        ≡ view u s
  unfolding execute_bulk own_replacement
  change_unseen kind f none none r' upsert s a g p h =
      let e : none ≡ r' = cc in
      rw (← e) (remove_keeps D t u apart kind _ s (set-Scoped D t u apart f a))
  change_unseen kind f (some v) none r' upsert s a g p h =
      let e : none ≡ r' = cc in
      rw (← e) (
        alter_keeps D t u apart (apply D (some v)) upsert kind _ s (set-Scoped D t u apart f a)
          (λ d own. inr (guard_update_keeps D t (some v) d g p own)))
  change_unseen kind f update (some r) r' upsert s a g p h =
      let (v, h1, h2) = then_check-ok (assert_same_tenant (get tenant_field r) t _) _ r' h in
      let e : some (set tenant_field (text t) r) ≡ r' = cc in
      rw (← e) (
        alter_keeps D t u apart (D.replace (set tenant_field (text t) r)) upsert kind _ s
          (set-Scoped D t u apart f a)
          (λ d own. replace-AbsentOr D t _ d (inr (get-set tenant_field (text t) r)) own))

  own_bulk_unseen :
      (o o' : BulkOp) (s : Collection)
      → own_bulk o t ≡ ok o'
      → PlainBulk o
      → view u (execute_bulk D o' s) ≡ view u s
  unfolding own_bulk execute_bulk
  own_bulk_unseen (insert_one d) o' s h p =
      let (d1, h1, h2) = then_check-ok (own_or_same d t _) _ o' h in
      let e : insert_one d1 ≡ o' = cc in
      rw (← e) (added_unseen s d1 (own_or_same_tenant d t _ d1 h1))
  own_bulk_unseen (change kind f update r upsert) o' s h p =
      let (f1, h1, h2) = then_check-ok (scope_filter f t _) _ o' h in
      let (v, h3, h4) = then_check-ok (guard_update update t) _ o' h2 in
      let (r1, h5, h6) = then_check-ok (own_replacement r t) _ o' h4 in
      let (a, ef) = scope_filter_lem f t _ f1 h1 in
      let e : change kind (some f1) update r1 upsert ≡ o' = cc in
      rw (← e) (rw (← ef) (change_unseen kind (filter_or_all f) update r r1 upsert s a h3 p h5))

  own_bulks_unseen :
      (os os' : List BulkOp) (s : Collection)
      → own_bulks os t ≡ ok os'
      → All PlainBulk os
      → view u (execute_bulks D os' s) ≡ view u s
  unfolding own_bulks execute_bulks
  own_bulks_unseen [] os' s h p = let e : [] ≡ os' = cc in rw (← e) refl
  own_bulks_unseen (o ∷ os) os' s h (p, ps) =
      let (o1, h1, h2) = then_check-ok (own_bulk o t) _ os' h in
      let (os1, h3, h4) = then_check-ok (own_bulks os t) _ os' h2 in
      let e : (o1 ∷ os1) ≡ os' = cc in
      rw (← e) (own_bulks_unseen os os1 _ h3 ps ∙ own_bulk_unseen o o1 s h1 p)

  -- One operation in a context of `t`.
  pub perform_unseen :
      (ctx : Option RequestContext) (act : Act) (s s' : Collection)
      → bypass ctx ≡ false
      → require_tenant_id ctx ≡ ok t
      → PlainAct act
      → perform D ctx act s ≡ ok s'
      → view u s' ≡ view u s
  unfolding perform pre_insert_many pre_validate pre_save pre_bulk_write
  perform_unseen ctx (query q) s s' b r p h =
      let (q1, h1, h2) = then_check-ok (pre_query ctx q) _ s' h in
      let (a, g, e) = pre_query-ok ctx t q q1 b r h1 in
      let e' : execute D q1 s ≡ s' = cc in rw (← e') (rw (← e) (execute_unseen q q.filter s a g p))
  perform_unseen ctx (insert_many docs) s s' b r p h =
      let (ds, h1, h2) = then_check-ok (pre_insert_many ctx docs) _ s' h in
      let e' : s ++ ds ≡ s' = cc in
      rw (← e') (many_unseen s docs ds (rw (b, r, pre_insert_many) at h1))
  perform_unseen ctx (save doc) s s' b r p h =
      let (d1, h1, h2) = then_check-ok (pre_validate ctx doc) _ s' h in
      let (d2, h3, h4) = then_check-ok (pre_save ctx d1) _ s' h2 in
      let (v, h5, h6) =
        then_check-ok (assert_same_tenant (get tenant_field d1) t _) _ d2
          (rw (b, r, pre_save) at h3) in
      let e' : s ++ (d1 ∷ []) ≡ s' = cc in
      rw (← e') (added_unseen s d1 (own_if_nullish_tenant doc t d1 (rw (b, r, pre_validate) at h1)))
  perform_unseen ctx (bulk_write os) s s' b r p h =
      let (os1, h1, h2) = then_check-ok (pre_bulk_write ctx os) _ s' h in
      let e' : execute_bulks D os1 s ≡ s' = cc in
      rw (← e') (own_bulks_unseen os os1 s (rw (b, r, pre_bulk_write) at h1) p)
