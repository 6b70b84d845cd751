-- ===== src/Tenancy/Updates.antt =====
-- `guardUpdate` of plugin.ts: an update that it lets pass keeps the tenant of a document.
use erp_global.Common.{
  true, false, ◌≡◌, ◌≢◌, refl, sym, ap, subst, ◌∙◌, ◌⊎◌, inl, inr, Option, none, some, List, [],
  ◌∷◌, any, Bool-cases, In, All, All-In, any-In, any_of_In, arith,
}
use native.Mathlib.Decide.{ℕ_discrete}
use erp_global.Common.Text.{Text, Text-discrete, ◌===◌, ===_iff, codes}
use erp_global.Common.Action.{ok}
use erp_global.Tenancy.Plugin.{
  Fields, Unknown, text, get, tenant_field, assert_same_tenant, set_operators, guarded_operators,
  Update, pipeline, document, operator_fields, guard_sets, guard_others, guard_update,
}
use erp_global.Tenancy.Queries.{AbsentOr, assert_same_tenant-AbsentOr, then_check-ok}
use erp_global.Tenancy.Driver.{Driver, rename, write_all, write_ops, apply}

-- The keys of an object differ.
abbrev pub KeysDiffer : {A : Type 0} → List (Text × A) → Type 0
KeysDiffer [] = Unit
KeysDiffer ((k, a) ∷ es) = All (λ e. ¬ (e.0 ≡ k)) es × KeysDiffer es

-- An update that is an object and renames no field into the tenant field.
abbrev pub Plain : Option Update → Type 0
Plain none = Unit
Plain (some pipeline) = ⊥
Plain (some (document top ops blank)) =
    KeysDiffer top
    × KeysDiffer ops
    × All (λ e. KeysDiffer e.1) ops
    × All (λ e. ¬ (e.1 ≡ text tenant_field)) (operator_fields rename ops)

In-get : (k : Text) (v : Unknown) (fs : Fields) → KeysDiffer fs → In (k, v) fs → get k fs ≡ some v
unfolding get
In-get k v [] u i = elim i [ ]
In-get k v ((j, w) ∷ fs) (apart, u) i = elim (Bool-cases (j === k)) [
  | inl e ↦ elim i [
    | inl same ↦ rw e (ap (λ (x : Text × Unknown). some x.1) (sym same))
    | inr m ↦ absurd (All-In _ fs (k, v) apart m (sym ((===_iff j k).0 e)))
  ]
  | inr e ↦ elim i [
    | inl same ↦ let e' = (===_iff j k).1 (ap (λ (x : Text × Unknown). x.0) (sym same)) in cc
    | inr m ↦ rw e (In-get k v fs u m)
  ]
]

In-operator_fields :
    (op : Text) (fs : Fields) (ops : List (Text × Fields))
    → KeysDiffer ops
    → In (op, fs) ops
    → operator_fields op ops ≡ fs
unfolding operator_fields
In-operator_fields op fs [] u i = elim i [ ]
In-operator_fields op fs ((o, gs) ∷ ops) (apart, u) i = elim (Bool-cases (o === op)) [
  | inl e ↦ elim i [
    | inl same ↦ rw e (ap (λ (x : Text × Fields). x.1) (sym same))
    | inr m ↦ absurd (All-In _ ops (op, fs) apart m (sym ((===_iff o op).0 e)))
  ]
  | inr e ↦ elim i [
    | inl same ↦ let e' = (===_iff o op).1 (ap (λ (x : Text × Fields). x.0) (sym same)) in cc
    | inr m ↦ rw e (In-operator_fields op fs ops u m)
  ]
]

guard_sets-AbsentOr :
    (names : List Text) (ops : List (Text × Fields)) (t op : Text)
    → guard_sets names ops t ≡ ok tt
    → In op names
    → AbsentOr t (get tenant_field (operator_fields op ops))
unfolding guard_sets
guard_sets-AbsentOr [] ops t op h i = elim i [ ]
guard_sets-AbsentOr (n ∷ names) ops t op h i =
    let (u, first, rest) = then_check-ok (assert_same_tenant _ t _) _ tt h in
    elim i [
      | inl e ↦ rw e (assert_same_tenant-AbsentOr _ t _ first)
      | inr m ↦ guard_sets-AbsentOr names ops t op rest m
    ]

guard_others-none :
    (names : List Text) (ops : List (Text × Fields)) (blank : List Text) (op : Text)
    → guard_others names ops blank ≡ ok tt
    → In op names
    → get tenant_field (operator_fields op ops) ≡ none
unfolding guard_others
guard_others-none [] ops blank op h i = elim i [ ]
guard_others-none (n ∷ names) ops blank op h i = elim i [
  | inl e ↦ ground arith
  | inr m ↦ guard_others-none names ops blank op (ground arith) m
]

absent-In : (x : Text) (xs : List Text) → any (λ y. y === x) xs ≡ false → ¬ (In x xs)
absent-In x xs h i =
    let found = any_of_In (λ (y : Text). y === x) x xs i ((===_iff x x).1 refl) in cc

In-dec : (x : Text) (xs : List Text) → In x xs ⊎ ¬ (In x xs)
In-dec x xs = elim (Bool-cases (any (λ y. y === x) xs)) [
  | inl e ↦
      let (y, i, same) = any-In (λ (y : Text). y === x) xs e in
      inl (subst (λ (z : Text). In z xs) ((===_iff y x).0 same) i)
  | inr e ↦ inr (absent-In x xs e)
]

set_is_no_other : ¬ (In (codes "$set") guarded_operators)
unfolding Text-discrete ℕ_discrete
set_is_no_other = absent-In (codes "$set") guarded_operators refl

set_is_no_rename : ¬ (codes "$set" ≡ rename)
unfolding Text-discrete ℕ_discrete
set_is_no_rename h =
    let e : (codes "$set" === rename) ≡ true = (===_iff (codes "$set") rename).1 h in cc

-- Why an entry keeps the tenant `t`: it writes another field, or writes `t`, or its operator leaves
-- a text alone.
abbrev Keeps : Text → Text → Text → Unknown → Type 0
Keeps t op k v =
    ((k ≢ tenant_field) × ¬ ((op ≡ rename) × (v ≡ text tenant_field)))
    ⊎ ((k ≡ tenant_field) × In op set_operators × (v ≡ text t))
    ⊎ ((k ≡ tenant_field) × ¬ (In op set_operators) × ¬ (In op guarded_operators))

abbrev Of : Text → Fields → Type 0
Of t d = get tenant_field d ≡ some (text t)

module _ (D : Driver) where
  write-Keeps :
      (t op k : Text) (v : Unknown) (d : Fields) → Keeps t op k v → Of t d → Of t (D.write op k v d)
  write-Keeps t op k v d (inl (far, no_rename)) h = D.write_elsewhere op k v d far no_rename ∙ h
  write-Keeps t op k v d (inr (inl (here, set_op, same))) h =
      rw (here, same) (elim (D.write_set op (text t) d set_op) [ inl e ↦ e | inr e ↦ e ∙ h ])
  write-Keeps t op k v d (inr (inr (here, no_set, no_other))) h =
      rw here (D.write_other op v d no_set no_other ∙ h)

  write_all-Keeps :
      (t op : Text) (fs d : Fields)
      → ((k : Text) (v : Unknown) → In (k, v) fs → Keeps t op k v)
      → Of t d
      → Of t (write_all D op fs d)
  unfolding write_all
  write_all-Keeps t op [] d safe h = h
  write_all-Keeps t op ((k, v) ∷ fs) d safe h =
      write_all-Keeps t op fs _ (λ j w i. safe j w (inr i))
        (write-Keeps t op k v d (safe k v (inl refl)) h)

  write_ops-Keeps :
      (t : Text) (ops : List (Text × Fields)) (d : Fields)
      → ((op : Text) (fs : Fields)
          → In (op, fs) ops
          → (k : Text) (v : Unknown) → In (k, v) fs
          → Keeps t op k v)
      → Of t d
      → Of t (write_ops D ops d)
  unfolding write_ops
  write_ops-Keeps t [] d safe h = h
  write_ops-Keeps t ((op, fs) ∷ ops) d safe h =
      write_ops-Keeps t ops _ (λ o gs i. safe o gs (inr i))
        (write_all-Keeps t op fs d (safe op fs (inl refl)) h)

-- An entry of a guarded update keeps the tenant.
entry-Keeps :
    (t op k : Text) (v : Unknown) (fs : Fields)
    → KeysDiffer fs
    → (In op set_operators → AbsentOr t (get tenant_field fs))
    → (In op guarded_operators → get tenant_field fs ≡ none)
    → ¬ ((op ≡ rename) × (v ≡ text tenant_field))
    → In (k, v) fs
    → Keeps t op k v
entry-Keeps t op k v fs u sets others no_rename i = elim (Bool-cases (k === tenant_field)) [
  | inr e ↦ inl (λ same. let e' = (===_iff k tenant_field).1 same in cc, no_rename)
  | inl e ↦
      let here = (===_iff k tenant_field).0 e in
      let found : get tenant_field fs ≡ some v =
        In-get tenant_field v fs u (subst (λ (x : Text). In (x, v) fs) here i) in
      elim (In-dec op set_operators) [
        | inl s ↦ inr (inl (here, s, elim (sets s) [ inl no_ ↦ cc | inr is ↦ cc ]))
        | inr ns ↦ elim (In-dec op guarded_operators) [
          | inl o ↦ let gone = others o in cc
          | inr no_ ↦ inr (inr (here, ns, no_))
        ]
      ]
]

module _ (D : Driver) where
  -- An update that the guard lets pass keeps the tenant of a document, where it is plain.
  pub guard_update_keeps :
      (t : Text) (update : Option Update) (d : Fields)
      → guard_update update t ≡ ok tt
      → Plain update
      → get tenant_field d ≡ some (text t)
      → get tenant_field (apply D update d) ≡ some (text t)
  unfolding guard_update apply
  guard_update_keeps t none d g p h = h
  guard_update_keeps t (some pipeline) d g p h = absurd p
  guard_update_keeps t (some (document top ops blank)) d g (u, us, parts, renames) h =
      let (a, top_ok, g') = then_check-ok (assert_same_tenant _ t _) _ tt g in
      let (b, sets_ok, others_ok) = then_check-ok (guard_sets set_operators ops t) _ tt g' in
      write_ops-Keeps D t ops _
        (λ op fs i k v j.
          let is : operator_fields op ops ≡ fs = In-operator_fields op fs ops us i in
          entry-Keeps t op k v fs (All-In _ ops (op, fs) parts i)
            (λ s.
              subst (λ x. AbsentOr t (get tenant_field x)) is
                (guard_sets-AbsentOr set_operators ops t op sets_ok s))
            (λ o.
              subst (λ x. get tenant_field x ≡ none) is
                (guard_others-none guarded_operators ops blank op others_ok o))
            (λ (r, w).
              All-In _ fs (k, v)
                (subst (All _) (sym (ap (λ o. operator_fields o ops) r) ∙ is) renames) j w)
            j)
        (write_all-Keeps D t (codes "$set") top d
          (λ k v j.
            entry-Keeps t (codes "$set") k v top u (λ s. assert_same_tenant-AbsentOr _ t _ top_ok)
              (λ o. absurd (set_is_no_other o)) (λ (r, w). set_is_no_rename r) j)
          h)
