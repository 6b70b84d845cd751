-- ===== src/Tenancy/Effects.antt =====
-- What the operations through the hooks of plugin.ts do to the collection that the tenants share, and
-- what a tenant sees of it after a removal or an update of another.
use erp_global.Common.{
  Bool, true, false, ◌&&◌, not, ◌≡◌, refl, ap₂, ◌∙◌, ◌⊎◌, inl, inr, Option, some, List, [], ◌∷◌,
  ◌++◌, any, filter, map, append-nil, if◌then◌else◌, Bool-cases, All, arith,
}
use erp_global.Common.Text.{Text}
use erp_global.Common.Action.{Result, ok, err}
use erp_global.Tenancy.Context.{RequestContext, TenancyError, require_tenant_id, bypass}
use erp_global.Tenancy.Plugin.{
  Fields, Unknown, text, get, set, tenant_field, then_check, Query, pre_query, pre_insert_many,
  pre_validate, pre_save, BulkOp, insert_one, change, pre_bulk_write,
}
use erp_global.Tenancy.Stages.{is_text}
use erp_global.Tenancy.Queries.{AbsentOr, get-set, is_text_apart, is_text-get, matches-set}
use erp_global.Tenancy.Updates.{Plain}
use erp_global.Tenancy.Driver.{
  Driver, Collection, matches, taken, remove, alter, execute, execute_bulks,
}

-- What code does to a collection: a query, `insertMany`, the `save` of a new document, `bulkWrite`.
pub data Act : Type 0 where
  query : Query → Act
  insert_many : List Fields → Act
  save : Fields → Act
  bulk_write : List BulkOp → Act

-- The collection that a tenant sees.
unfoldable pub view : Text → Collection → Collection
unfolding is_text get
view u s = filter (λ d. is_text (get tenant_field d) u) s

module _ (D : Driver) where
  -- The hooks of an operation, then its effect; a hook that throws stops the operation.
  unfoldable pub perform : Option RequestContext → Act → Collection → Result TenancyError Collection
  unfolding pre_query execute pre_insert_many pre_validate pre_save pre_bulk_write execute_bulks
  perform ctx (query q) s = then_check (pre_query ctx q) (λ q'. ok (execute D q' s))
  perform ctx (insert_many docs) s =
      then_check (pre_insert_many ctx docs) (λ docs'. ok (s ++ docs'))
  perform ctx (save doc) s =
      then_check (pre_validate ctx doc)
        (λ d. then_check (pre_save ctx d) (λ d'. ok (s ++ (d' ∷ []))))
  perform ctx (bulk_write ops) s =
      then_check (pre_bulk_write ctx ops) (λ ops'. ok (execute_bulks D ops' s))

  unfoldable pub step : Option RequestContext → Act → Collection → Collection
  unfolding perform
  step ctx act s = elim (perform ctx act s) [ ok s' ↦ s' | err e ↦ s ]

  -- Operations of any contexts, one after the other.
  unfoldable pub run : List (Option RequestContext × Act) → Collection → Collection
  unfolding step
  run [] s = s
  run ((ctx, act) ∷ acts) s = run acts (step ctx act s)

-- The updates of an operation are objects that rename no field into the tenant field.
abbrev pub PlainBulk : BulkOp → Type 0
PlainBulk (insert_one d) = Unit
PlainBulk (change kind f update r upsert) = Plain update

abbrev pub PlainAct : Act → Type 0
PlainAct (query q) = Plain q.update
PlainAct (insert_many docs) = Unit
PlainAct (save doc) = Unit
PlainAct (bulk_write ops) = All PlainBulk ops

-- An operation in a context that does not bypass the tenants and is not of the tenant `u`.
abbrev pub Foreign : Text → Option RequestContext × Act → Type 0
Foreign u (ctx, act) =
    (bypass ctx ≡ false) × ((t : Text) → require_tenant_id ctx ≡ ok t → ¬ (t ≡ u)) × PlainAct act

pub filter-append :
    {A : Type 0} (p : A → Bool) (xs ys : List A) → filter p (xs ++ ys) ≡ filter p xs ++ filter p ys
filter-append p [] ys = refl
filter-append p (x ∷ xs) ys = ground (arith, filter-append p xs ys)

filter-filter_same :
    {A : Type 0} (p q : A → Bool) (xs : List A)
    → ((x : A) → p x ≡ true → q x ≡ true)
    → filter p (filter q xs) ≡ filter p xs
filter-filter_same p q [] h = refl
filter-filter_same p q (x ∷ xs) h = ground (arith, filter-filter_same p q xs h, h x)

filter-map_same :
    {A : Type 0} (p : A → Bool) (g : A → A) (xs : List A)
    → ((x : A) → (g x ≡ x) ⊎ ((p (g x) ≡ false) × (p x ≡ false)))
    → filter p (map g xs) ≡ filter p xs
filter-map_same p g [] h = refl
filter-map_same p g (x ∷ xs) h = elim (h x) [
  | inl e ↦ rw e (ground (arith, filter-map_same p g xs h))
  | inr (e, k) ↦ ground (arith, filter-map_same p g xs h)
]

module _ (D : Driver) (t u : Text) (apart : ¬ (t ≡ u)) where
  -- A filter that only the documents of `t` match, as every filter is that has `t` put in.
  abbrev pub Scoped : Fields → Type 0
  Scoped f =
      get tenant_field f ≡ some (text t)
      × ((d : Fields) → matches D f d ≡ true → get tenant_field d ≡ some (text t))

  pub set-Scoped :
      (f : Fields) → AbsentOr t (get tenant_field f) → Scoped (set tenant_field (text t) f)
  set-Scoped f a = (
    get-set tenant_field (text t) f,
    λ d h. is_text-get _ t (let e = matches-set D t f d a in ground arith),
  )

  pub unseen : (v : Option Unknown) → AbsentOr t v → is_text v u ≡ false
  unseen v a = is_text_apart t u v a apart

  pub remove_keeps :
      (op : Text) (f : Fields) (s : Collection) → Scoped f → view u (remove D op f s) ≡ view u s
  unfolding remove view taken
  remove_keeps op f s (own, all_own) = filter-filter_same _ _ s (λ d seen.
      elim (Bool-cases (matches D f d)) [
        | inl e ↦ let no_ = unseen _ (inr (all_own d e)) in cc
        | inr e ↦ rw e refl
      ])

  pub alter_keeps :
      (g : Fields → Fields) (upsert : Bool) (op : Text) (f : Fields) (s : Collection)
      → Scoped f
      → ((d : Fields) → get tenant_field d ≡ some (text t) → AbsentOr t (get tenant_field (g d)))
      → view u (alter D g upsert op f s) ≡ view u s
  unfolding alter view taken
  alter_keeps g upsert op f s (own, all_own) keeps =
      filter-append _ (map (λ d. if taken D op f s d then g d else d) s) _
      ∙ ap₂ (λ (x y : Collection). x ++ y) old_same new_unseen
      ∙ append-nil _
    where
      old_same :
          filter
            (λ d. is_text (get tenant_field d) u)
            (map (λ d. if taken D op f s d then g d else d) s)
          ≡ view u s
      old_same = filter-map_same _ _ s (λ d. elim (Bool-cases (matches D f d)) [
        | inl e ↦ elim (Bool-cases (D.picks op f s d)) [
          | inl k ↦ inr (rw (e, k) (unseen _ (keeps d (all_own d e))), unseen _ (inr (all_own d e)))
          | inr k ↦ inl (rw (e, k) refl)
        ]
        | inr e ↦ inl (rw e refl)
      ])

      new_unseen :
          filter
            (λ d. is_text (get tenant_field d) u)
            (if upsert && not (any (matches D f) s) then g (D.from_filter f) ∷ [] else [])
          ≡ []
      new_unseen = elim (Bool-cases (upsert && not (any (matches D f) s))) [
        | inl e ↦ rw e (let no_ = unseen _ (keeps _ (D.from_filter_text f t own)) in rw no_ refl)
        | inr e ↦ rw e refl
      ]
