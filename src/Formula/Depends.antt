-- ===== src/Formula/Depends.antt =====
-- formula.ts: the value of a formula depends on no field that `collectFields` leaves out.
use erp_global.Common.{
  ◌≡◌, refl, ◌⊎◌, inl, inr, Bool, true, false, ◌&&◌, not, Option, none, some, List, [], ◌∷◌, ◌++◌,
  In, Bool-cases, sym, ap, ap₂, subst, ◌∙◌, arith,
}
use erp_global.Common.Text.{Text, ◌===◌, codes, drop, includes, starts_with, starts_with_sound}
use erp_global.Common.Action.{ok}
use erp_global.Formula.Tree.{
  Fn, Node, num, str, bool, null, field, unary, binary, call, Nodes, nil, cons,
}
use erp_global.Formula.Parser.{is_changed, parse_formula}
use erp_global.Formula.Values.{Language, EvalContext, Answer, boolean, then_value, to_value}
use erp_global.Formula.Eval.{
  old_prefix, user_prefix, is_context_name, is_column_ref, is_aggregate, table_of, field_name,
  field_value, column_values, has_changed, json_of, changed_value, negated, combined, expanded,
  call_fn, evaluate, evaluate_args,
}
use erp_global.Formula.Collect.{
  Names, is_field_node, collect_name, note_context, collect, collect_args, no_names, finite_only,
  compile_formula,
}
use erp_global.Formula.Collected.{
  Sub, then_value-ok, ok_injective, add-In, collect_name-cases, collect-Sub, collect_args-Sub,
}

old_dotted : (x : Text) → starts_with x old_prefix ≡ true → includes x b'.' ≡ true
unfolding includes
old_dotted x h =
    let (r, e) = starts_with_sound x old_prefix h in
    subst (λ t. includes t b'.' ≡ true) (sym e) refl

-- The value of a name before the change, where there was one.
abbrev pub old_at : {D R : Type 0} → EvalContext D R → Text → Option (Option R)
old_at c k = elim c.old [ none ↦ none | some before ↦ some (before k) ]

-- The same but for fields: on the names, on the tables of the names, and on names with a dot, which no
-- record has.
pub record Agree {D R : Type 0} (ns : List Text) (c d : EvalContext D R) : Type 0 where
  pub ambient : c.ambient ≡ d.ambient
  pub fields : (k : Text) → In k ns ⊎ (includes k b'.' ≡ true) → c.fields k ≡ d.fields k
  pub tables : (k : Text) → In k ns → c.fields (table_of k) ≡ d.fields (table_of k)
  pub before : (k : Text) → In k ns ⊎ (includes k b'.' ≡ true) → old_at c k ≡ old_at d k

Agree-Sub :
    {D R : Type 0} (a b : Names) (c d : EvalContext D R)
    → Sub a b
    → Agree b.fields c d
    → Agree a.fields c d
Agree-Sub a b c d s g = record {
  ambient = g.ambient;
  fields = λ k i. elim i [ inl j ↦ g.fields k (inl (s k j)) | inr j ↦ g.fields k (inr j) ];
  tables = λ k i. g.tables k (s k i);
  before = λ k i. elim i [ inl j ↦ g.before k (inl (s k j)) | inr j ↦ g.before k (inr j) ];
}

module _ {N D R : Type 0} (js : Language N D R) (c d : EvalContext D R) where
  abbrev flat : Option (Option R) → Option R
  flat none = none
  flat (some r) = r

  old_value :
      (e : EvalContext D R) (x : Text)
      → starts_with x old_prefix ≡ true
      → field_value js x e ≡ to_value js (flat (old_at e (drop 4 x)))
  unfolding field_value
  old_value e x h = ground arith

  user_value :
      (x : Text)
      → starts_with x old_prefix ≡ false
      → starts_with x user_prefix ≡ true
      → c.ambient ≡ d.ambient
      → field_value js x c ≡ field_value js x d
  unfolding field_value
  user_value x h k e = ground arith

  column_value : (x : Text) → is_column_ref x ≡ true → field_value js x c ≡ field_value js x d
  unfolding field_value is_column_ref is_context_name
  column_value x h = ground arith

  plain_value :
      (e : EvalContext D R) (x : Text)
      → starts_with x old_prefix ≡ false
      → starts_with x user_prefix ≡ false
      → is_column_ref x ≡ false
      → field_value js x e ≡ to_value js (e.fields x)
  unfolding field_value
  plain_value e x h k l = ground arith

  context_is_user :
      (x : Text)
      → is_column_ref x ≡ false
      → includes x b'.' ≡ true
      → starts_with x old_prefix ≡ false
      → starts_with x user_prefix ≡ true
  unfolding is_column_ref is_context_name
  context_is_user x h k l = ground arith

  field_depends :
      (x : Text) (b : Bool) (out out' : Names)
      → collect_name x b out ≡ ok out'
      → Agree out'.fields c d
      → field_value js x c ≡ field_value js x d
  field_depends x b out out' h g = elim (collect_name-cases x b out out' h) [
    | inr (inl k) ↦ column_value x k.1
    | inr (inr (inl k)) ↦
        old_value c x k.3
        ∙ ap (λ r. to_value js (flat r))
            (g.before (drop 4 x) (inl (rw k.0 (add-In (drop 4 x) out.fields))))
        ∙ sym (old_value d x k.3)
    | inr (inr (inr k)) ↦ user_value x k.3 (context_is_user x k.1 k.2 k.3) g.ambient
    | inl k ↦ elim (Bool-cases (starts_with x old_prefix)) [
      | inl o ↦ cc (old_dotted x o, k.2)
      | inr o ↦ elim (Bool-cases (starts_with x user_prefix)) [
        | inl u ↦ user_value x o u g.ambient
        | inr u ↦
            plain_value c x o u k.1
            ∙ ap (to_value js) (g.fields x (inl (rw k.0 (add-In x out.fields))))
            ∙ sym (plain_value d x o u k.1)
      ]
    ]
  ]

  -- CHANGED by what it compares.
  abbrev differ : Option R → Option (Option R) → Bool
  differ now none = not (json_of js now === codes "null") && not (json_of js now === codes "\"\"")
  differ now (some before) = not (json_of js now === json_of js before)

  has_changed_at :
      (e : EvalContext D R) (x : Text) → has_changed js x e ≡ differ (e.fields x) (old_at e x)
  unfolding has_changed
  has_changed_at e x = ground arith

  name_read :
      (x : Text) (out out' : Names)
      → collect_name x false out ≡ ok out'
      → In x out'.fields ⊎ (includes x b'.' ≡ true)
  name_read x out out' h = elim (collect_name-cases x false out out' h) [
    | inl k ↦ inl (rw k.0 (add-In x out.fields))
    | inr (inl k) ↦ cc k.2
    | inr (inr (inl k)) ↦ inr k.2
    | inr (inr (inr k)) ↦ inr k.2
  ]

  changed_depends :
      (as_ : Nodes) (out out' : Names)
      → collect_args false as_ out ≡ ok out'
      → Agree out'.fields c d
      → changed_value js (field_name as_) c ≡ changed_value js (field_name as_) d
  unfolding changed_value field_name collect collect_args is_field_node
  changed_depends nil out out' h g = refl
  changed_depends (cons (field x) as_) out out' h g =
      let (mid, ha, hs) =
        then_value-ok (collect_name x false out) (collect_args false as_) out' h in
      let a = Agree-Sub mid out' c d (collect_args-Sub false as_ mid out' hs) g in
      let r = name_read x out mid ha in
      ap (λ b. ok (boolean b))
        (has_changed_at c x ∙ ap₂ differ (a.fields x r) (a.before x r) ∙ sym (has_changed_at d x))
  changed_depends (cons (num t) as_) out out' h g = refl
  changed_depends (cons (str t) as_) out out' h g = refl
  changed_depends (cons (bool t) as_) out out' h g = refl
  changed_depends (cons null as_) out out' h g = refl
  changed_depends (cons (unary o a) as_) out out' h g = refl
  changed_depends (cons (binary o l r) as_) out out' h g = refl
  changed_depends (cons (call f bs) as_) out out' h g = refl

  columns_depend :
      (x : Text) (f g : Text → Option R)
      → f (table_of x) ≡ g (table_of x)
      → column_values js x f ≡ column_values js x g
  unfolding column_values
  columns_depend x f g e = ground (arith, e)

  abbrev argument : Bool → Node → EvalContext D R → List (Answer js)
  argument b a e = elim (expanded js b a) [
    | none ↦ evaluate js a e ∷ []
    | some ref ↦ column_values js ref e.fields
  ]

  argument_depends :
      (b : Bool) (a : Node) (out mid : Names)
      → collect a (b && is_field_node a) out ≡ ok mid
      → Agree mid.fields c d
      → evaluate js a c ≡ evaluate js a d
      → argument b a c ≡ argument b a d
  unfolding collect expanded is_field_node
  argument_depends b (field x) out mid h g e = elim (Bool-cases (b && is_column_ref x)) [
    | inl k ↦ elim (collect_name-cases x (b && true) out mid h) [
      | inl l ↦ ground (arith, k, l.1)
      | inr (inl l) ↦
          rw (argument, k)
            (columns_depend x c.fields d.fields (g.tables x (rw l.0 (add-In x out.fields))))
      | inr (inr (inl l)) ↦ ground (arith, k, l.1)
      | inr (inr (inr l)) ↦ ground (arith, k, l.1)
    ]
    | inr k ↦ rw (argument, k) (ap (λ v. v ∷ []) e)
  ]
  argument_depends b (num t) out mid h g e = ap (λ v. v ∷ []) e
  argument_depends b (str t) out mid h g e = ap (λ v. v ∷ []) e
  argument_depends b (bool t) out mid h g e = ap (λ v. v ∷ []) e
  argument_depends b null out mid h g e = ap (λ v. v ∷ []) e
  argument_depends b (unary o a) out mid h g e = ap (λ v. v ∷ []) e
  argument_depends b (binary o l r) out mid h g e = ap (λ v. v ∷ []) e
  argument_depends b (call f as_) out mid h g e = ap (λ v. v ∷ []) e

  changed_no_aggregate : (f : Fn) → is_changed f ≡ true → is_aggregate f ≡ false
  unfolding is_changed is_aggregate
  changed_no_aggregate f h = ground arith

  call_depends :
      (f : Fn) (as_ : Nodes) (out out' : Names)
      → collect_args (is_aggregate f) as_ out ≡ ok out'
      → Agree out'.fields c d
      → evaluate_args js (is_aggregate f) as_ c ≡ evaluate_args js (is_aggregate f) as_ d
      → evaluate js (call f as_) c ≡ evaluate js (call f as_) d
  unfolding evaluate
  call_depends f as_ out out' h g e = elim (Bool-cases (is_changed f)) [
    | inl k ↦ rw k (
        changed_depends as_ out out'
          (subst (λ b. collect_args b as_ out ≡ ok out') (changed_no_aggregate f k) h) g)
    | inr k ↦ rw k (ap₂ (call_fn js f) g.ambient e)
  ]

  mutual
    unfolding evaluate collect

    evaluate_depends :
        (e : Node) (b : Bool) (out out' : Names)
        → collect e b out ≡ ok out'
        → Agree out'.fields c d
        → evaluate js e c ≡ evaluate js e d
    evaluate_depends (num t) b out out' h g = refl
    evaluate_depends (str t) b out out' h g = refl
    evaluate_depends (bool t) b out out' h g = refl
    evaluate_depends null b out out' h g = refl
    evaluate_depends (field x) b out out' h g = field_depends x b out out' h g
    evaluate_depends (unary o a) b out out' h g =
        ap (λ r. then_value r (negated js o)) (evaluate_depends a false out out' h g)
    evaluate_depends (binary o l r) b out out' h g =
        let (mid, hl, hr) = then_value-ok (collect l false out) (collect r false) out' h in
        ap₂ (combined js o)
          (evaluate_depends l false out mid hl
            (Agree-Sub mid out' c d (collect-Sub r false mid out' hr) g))
          (evaluate_depends r false mid out' hr g)
    evaluate_depends (call f as_) b out out' h g =
        call_depends f as_ (note_context f out) out' h g
          (arguments_depend (is_aggregate f) as_ (note_context f out) out' h g)

    arguments_depend :
        (b : Bool) (as_ : Nodes) (out out' : Names)
        → collect_args b as_ out ≡ ok out'
        → Agree out'.fields c d
        → evaluate_args js b as_ c ≡ evaluate_args js b as_ d
    arguments_depend b nil out out' h g = refl
    arguments_depend b (cons a as_) out out' h g =
        let (mid, ha, hs) =
          then_value-ok (collect a (b && is_field_node a) out) (collect_args b as_) out' h in
        let k = Agree-Sub mid out' c d (collect_args-Sub b as_ mid out' hs) g in
        ap₂ (λ xs ys. xs ++ ys)
          (argument_depends b a out mid ha k
            (evaluate_depends a (b && is_field_node a) out mid ha k))
          (arguments_depend b as_ mid out' hs g)

-- A formula that compiles gives the same value, or the same error, for two records that agree on the
-- fields that `compileFormula` lists for it, before the change and after, and on the tables of those
-- fields, where the time, the user, the unit codes and the status are the same. Names with a dot are
-- none of a record's, so that both have the same there.
pub compile_formula_depends :
    {N D R : Type 0} (js : Language N D R) (source : Text) (names : Names)
    (run : EvalContext D R → Answer js) (c d : EvalContext D R)
    → compile_formula js source ≡ ok (names, run)
    → Agree names.fields c d
    → run c ≡ run d
unfolding compile_formula
compile_formula_depends js source names run c d h g =
    let (tree, hp, ht) = then_value-ok (parse_formula source) _ _ h in
    let (ns, hc, hr) = then_value-ok (collect tree false no_names) _ _ ht in
    let e = ok_injective hr in
    let fields : names ≡ ns = sym (ap (λ p. p.0) e) in
    let r = ap (λ p. p.1) e in
    let same =
      evaluate_depends js c d tree false no_names ns hc
        (subst (λ n. Agree n.fields c d) fields g) in
    sym (ap (λ f. f c) r)
    ∙ ap (λ v. then_value v (λ w. ok (finite_only js w))) same
    ∙ ap (λ f. f d) r
