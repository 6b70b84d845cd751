-- ===== src/Tenancy/Examples.antt =====
-- A driver that keeps the laws: `$set` and `$unset` written out, the other operators without effect,
-- and the theorems about plugin.ts at a few documents.
use erp_global.Common.{
  Bool, true, false, not, ◌≡◌, ◌≢◌, refl, ◌∙◌, ◌⊎◌, ◌↔◌, ◌&&◌, inl, inr, Option, none, some, List,
  [], ◌∷◌, filter, In, if◌then◌else◌, Bool-cases,
}
use native.Mathlib.Decide.{ℕ_discrete}
use erp_global.Common.Text.{Text, Text-discrete, ◌===◌, ===_iff, codes}
use erp_global.Common.Action.{ok}
use erp_global.Tenancy.Context.{RequestContext, require_tenant_id, bypass, tenant_of_id}
use erp_global.Tenancy.Plugin.{
  Fields, Unknown, text, null, other, get, set, tenant_field, operator_fields, assert_same_tenant,
  set_operators, guarded_operators, document, Query, pre_query, guard_update, BulkOp, change,
}
use erp_global.Tenancy.Stages.{
  Stages, nil, cons, end, lookup, match_, named, is_text, pre_aggregate,
}
use erp_global.Tenancy.Allowed.{pre_aggregate_iff, AllAllowed, WithinStages}
use erp_global.Tenancy.Queries.{get-set, pre_query-matches}
use erp_global.Tenancy.Driver.{Driver, Collection, rename, matches}
use erp_global.Tenancy.Effects.{Act, query, insert_many, bulk_write, view, run}
use erp_global.Tenancy.Isolation.{run_unseen}

unfoldable erase : Text → Fields → Fields
erase k d = filter (λ e. not (e.0 === k)) d

unfoldable holds_one : Text → Unknown → Fields → Bool
unfolding is_text get
holds_one k (text t) d = is_text (get k d) t
holds_one k null d = elim (get k d) [ none ↦ true | some v ↦ false ]
holds_one k (other n) d = false

unfoldable write_one : Text → Text → Unknown → Fields → Fields
unfolding erase set
write_one op k v d =
    if op === codes "$set" then set k v d else if op === codes "$unset" then erase k d else d

get-set_apart :
    (j k : Text) (v : Unknown) (d : Fields) → (k === j) ≡ false → get j (set k v d) ≡ get j d
unfolding get set
get-set_apart j k v [] h = rw h refl
get-set_apart j k v ((i, w) ∷ d) h = elim (Bool-cases (i === k)) [
  | inl e ↦ let same = (===_iff i k).0 e in rw (e, h) (rw same (rw h refl))
  | inr e ↦
      rw e
        (elim (Bool-cases (i === j)) [ inl f ↦ rw f refl | inr f ↦ rw f (get-set_apart j k v d h) ])
]

get-erase : (j k : Text) (d : Fields) → (k === j) ≡ false → get j (erase k d) ≡ get j d
unfolding get erase
get-erase j k [] h = refl
get-erase j k ((i, w) ∷ d) h = elim (Bool-cases (i === k)) [
  | inl e ↦ let same = (===_iff i k).0 e in rw e (rw same (rw h (get-erase j k d h)))
  | inr e ↦
      rw e (elim (Bool-cases (i === j)) [ inl f ↦ rw f refl | inr f ↦ rw f (get-erase j k d h) ])
]

apart_false : (k j : Text) → k ≢ j → (k === j) ≡ false
apart_false k j d = elim (Bool-cases (k === j)) [
  | inl e ↦ absurd (d ((===_iff k j).0 e))
  | inr e ↦ e
]

write_one_elsewhere :
    (op k : Text) (v : Unknown) (d : Fields)
    → k ≢ tenant_field
    → ¬ ((op ≡ rename) × (v ≡ text tenant_field))
    → get tenant_field (write_one op k v d) ≡ get tenant_field d
unfolding write_one
write_one_elsewhere op k v d far h = elim (Bool-cases (op === codes "$set")) [
  | inl e ↦ rw e (get-set_apart tenant_field k v d (apart_false k tenant_field far))
  | inr e ↦ rw e (elim (Bool-cases (op === codes "$unset")) [
    | inl f ↦ rw f (get-erase tenant_field k d (apart_false k tenant_field far))
    | inr f ↦ rw f refl
  ])
]

write_one_set :
    (op : Text) (v : Unknown) (d : Fields)
    → In op set_operators
    → (get tenant_field (write_one op tenant_field v d) ≡ some v)
      ⊎ (get tenant_field (write_one op tenant_field v d) ≡ get tenant_field d)
unfolding write_one Text-discrete ℕ_discrete
write_one_set op v d (inl e) = inl (rw e (get-set tenant_field v d))
write_one_set op v d (inr (inl e)) = inr (rw e refl)
write_one_set op v d (inr (inr e)) = absurd e

write_one_other :
    (op : Text) (v : Unknown) (d : Fields)
    → ¬ (In op set_operators)
    → ¬ (In op guarded_operators)
    → get tenant_field (write_one op tenant_field v d) ≡ get tenant_field d
unfolding write_one
write_one_other op v d no_set no_other = elim (Bool-cases (op === codes "$set")) [
  | inl e ↦ absurd (no_set (inl ((===_iff op _).0 e)))
  | inr e ↦ rw e (elim (Bool-cases (op === codes "$unset")) [
    | inl f ↦ absurd (no_other (inl ((===_iff op _).0 f)))
    | inr f ↦ rw f refl
  ])
]

holds_one_tenant :
    (t : Text) (d : Fields) → holds_one tenant_field (text t) d ≡ is_text (get tenant_field d) t
unfolding holds_one
holds_one_tenant t d = refl

abbrev driver : Driver
unfolding holds_one write_one
driver = record {
  holds = holds_one;
  picks = λ op f s d. true;
  write = write_one;
  run_stages = λ d. d;
  replace = λ r d. r;
  from_filter = λ f. f;
  holds_tenant = holds_one_tenant;
  write_elsewhere = write_one_elsewhere;
  write_set = write_one_set;
  write_other = write_one_other;
  replace_tenant = λ r d. inl refl;
  from_filter_text = λ f t h. h;
}

abbrev a : Text
a = codes "a"

abbrev b : Text
b = codes "b"

abbrev in_a : Option RequestContext
in_a = some (record {
  correlation_id = codes "r";
  tenant_id = some a;
  actor = none;
  session_id = none;
  acl = [];
  plat = [];
  lang = none;
  bypass_tenant = false;
})

abbrev named_of : Text → Fields
named_of t = (tenant_field, text t) ∷ (codes "name", text (codes "x")) ∷ []

-- An update of every document, an upsert, as tenant `a` sends it.
abbrev rename_all : Query
rename_all = record {
  op = codes "updateMany";
  filter = [];
  update = some (document [] ((codes "$set", (codes "name", text (codes "y")) ∷ []) ∷ []) []);
  upsert = true;
}

abbrev delete_all : BulkOp
delete_all = change (codes "deleteMany") none none none false

abbrev acts : List (Option RequestContext × Act)
acts =
    (in_a, query rename_all)
    ∷ (in_a, insert_many (((codes "name", text (codes "z")) ∷ []) ∷ []))
    ∷ (in_a, bulk_write (delete_all ∷ []))
    ∷ []

abbrev shared : Collection
shared = named_of a ∷ named_of b ∷ []

-- The three operations run; what is left is the document of the other tenant.
acts-run : run driver acts shared ≡ named_of b ∷ []
unfolding run Text-discrete ℕ_discrete holds_one write_one require_tenant_id bypass
acts-run = refl

require_a : require_tenant_id in_a ≡ ok a
unfolding require_tenant_id
require_a = refl

a_is_not_b : ¬ (a ≡ b)
unfolding Text-discrete ℕ_discrete
a_is_not_b h = let e : (a === b) ≡ true = (===_iff a b).1 h in cc

only_a : (t : Text) → require_tenant_id in_a ≡ ok t → ¬ (t ≡ b)
unfolding require_tenant_id tenant_of_id
only_a t h e = a_is_not_b (let same : a ≡ t = cc in same ∙ e)

run_unseen_example : view b (run driver acts shared) ≡ view b shared
unfolding bypass operator_fields Text-discrete ℕ_discrete
run_unseen_example = run_unseen driver b acts shared (
  (refl, only_a, (tt, (tt, tt), ((tt, tt), tt), tt)),
  ((refl, only_a, tt), ((refl, only_a, (tt, tt)), tt)),
)

-- A find by name as tenant `a`.
abbrev find_x : Query
find_x = record {
  op = codes "find";
  filter = (codes "name", text (codes "x")) ∷ [];
  update = none;
  upsert = false;
}

abbrev find_x_in_a : Query
find_x_in_a = record find_x {
  filter = (codes "name", text (codes "x")) ∷ (tenant_field, text a) ∷ [];
}

pre_query-matches_example :
    matches driver find_x_in_a.filter (named_of b)
    ≡ (matches driver find_x.filter (named_of b) && is_text (get tenant_field (named_of b)) a)
unfolding bypass require_tenant_id pre_query assert_same_tenant guard_update get set Text-discrete
    ℕ_discrete
pre_query-matches_example =
    pre_query-matches driver in_a a find_x find_x_in_a (named_of b) refl refl refl

-- A report that joins the orders of the same tenant.
abbrev joined : Stages
joined =
    cons (lookup (cons (match_ ((tenant_field, text a) ∷ []) end) nil) end)
      (cons (named (codes "$sort") end) nil)

pre_aggregate_iff_example :
    (pre_aggregate in_a joined ≡ ok (cons (match_ ((tenant_field, text a) ∷ []) end) joined)) ↔ (
      (cons (match_ (set tenant_field (text a) []) end) joined
        ≡ cons (match_ ((tenant_field, text a) ∷ []) end) joined)
      × AllAllowed a (λ i. WithinStages i joined))
unfolding bypass require_tenant_id
pre_aggregate_iff_example =
    pre_aggregate_iff in_a a joined (cons (match_ ((tenant_field, text a) ∷ []) end) joined) refl
      refl
