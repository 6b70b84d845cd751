-- ===== src/Formula/Collected.antt =====
-- formula.ts: what `collectFields` adds to the names, and that it takes none away.
use erp_global.Common.{
  ◌≡◌, refl, ◌⊎◌, inl, inr, Bool, true, false, ◌&&◌, List, [], ◌∷◌, any, any-In, In, append-In_left,
  append-In_right, Bool-cases, ap, subst, arith,
}
use erp_global.Common.Text.{Text, ◌===◌, ===_iff, drop, includes, starts_with}
use erp_global.Common.Action.{Result, ok, err}
use erp_global.Formula.Tokens.{FormulaError}
use erp_global.Formula.Tree.{
  Fn, Node, num, str, bool, null, field, unary, binary, call, Nodes, nil, cons,
}
use erp_global.Formula.Values.{then_value}
use erp_global.Formula.Eval.{old_prefix, is_column_ref, is_aggregate}
use erp_global.Formula.Collect.{
  Names, add, is_field_node, collect_name, note_context, collect, collect_args,
}

pub then_value-ok :
    {A B : Type 0} (r : Result FormulaError A) (k : A → Result FormulaError B) (b : B)
    → then_value r k ≡ ok b
    → (a : A) × (r ≡ ok a) × (k a ≡ ok b)
then_value-ok (ok a) k b h = (a, refl, h)
then_value-ok (err e) k b h = cc

pub ok_injective : {A : Type 0} {a b : A} → ◌≡◌ {A = Result FormulaError A} (ok a) (ok b) → a ≡ b
ok_injective {a = a} e = ap (λ r. elim r [ ok x ↦ x | err e ↦ a ]) e

In-add : (x k : Text) (xs : List Text) → In k xs → In k (add x xs)
unfolding add
In-add x k xs i = elim (Bool-cases (any (λ y. y === x) xs)) [
  | inl e ↦ rw e i
  | inr e ↦ rw e (append-In_left xs (x ∷ []) k i)
]

pub add-In : (x : Text) (xs : List Text) → In x (add x xs)
unfolding add
add-In x xs = elim (Bool-cases (any (λ y. y === x) xs)) [
  | inl e ↦
      let (y, i, same) = any-In (λ y. y === x) xs e in
      rw e (subst (λ z. In z xs) ((===_iff y x).0 same) i)
  | inr e ↦ rw e (append-In_right xs (x ∷ []) x (inl refl))
]

abbrev pub Sub : Names → Names → Type 0
Sub a b = (k : Text) → In k a.fields → In k b.fields

pub collect_name-cases :
    (x : Text) (b : Bool) (out out' : Names)
    → collect_name x b out ≡ ok out'
    → ((out'.fields ≡ add x out.fields) × (is_column_ref x ≡ false) × (includes x b'.' ≡ false))
      ⊎ ((out'.fields ≡ add x out.fields) × (is_column_ref x ≡ true) × (b ≡ true))
      ⊎ ((out'.fields ≡ add (drop 4 x) out.fields)
          × (is_column_ref x ≡ false)
          × (includes x b'.' ≡ true)
          × (starts_with x old_prefix ≡ true))
      ⊎ ((out'.fields ≡ out.fields)
          × (is_column_ref x ≡ false)
          × (includes x b'.' ≡ true)
          × (starts_with x old_prefix ≡ false))
unfolding collect_name
collect_name-cases x b out out' h = ground arith

collect_name-Sub :
    (x : Text) (b : Bool) (out out' : Names) → collect_name x b out ≡ ok out' → Sub out out'
collect_name-Sub x b out out' h k i = elim (collect_name-cases x b out out' h) [
  | inl c ↦ rw c.0 (In-add x k out.fields i)
  | inr (inl c) ↦ rw c.0 (In-add x k out.fields i)
  | inr (inr (inl c)) ↦ rw c.0 (In-add (drop 4 x) k out.fields i)
  | inr (inr (inr c)) ↦ rw c.0 i
]

note_context_fields : (f : Fn) (out : Names) → (note_context f out).fields ≡ out.fields
note_context_fields f out = ground arith

mutual
  unfolding collect collect_args

  pub collect-Sub :
      (e : Node) (b : Bool) (out out' : Names) → collect e b out ≡ ok out' → Sub out out'
  collect-Sub (num t) b out out' h k i = ground (arith, h, i)
  collect-Sub (str t) b out out' h k i = ground (arith, h, i)
  collect-Sub (bool t) b out out' h k i = ground (arith, h, i)
  collect-Sub null b out out' h k i = ground (arith, h, i)
  collect-Sub (field x) b out out' h k i = collect_name-Sub x b out out' h k i
  collect-Sub (unary o a) b out out' h k i = collect-Sub a false out out' h k i
  collect-Sub (binary o l r) b out out' h k i =
      let (mid, hl, hr) = then_value-ok (collect l false out) (collect r false) out' h in
      collect-Sub r false mid out' hr k (collect-Sub l false out mid hl k i)
  collect-Sub (call f as_) b out out' h k i =
      collect_args-Sub (is_aggregate f) as_ (note_context f out) out' h k
        (rw (note_context_fields f out) i)

  pub collect_args-Sub :
      (b : Bool) (as_ : Nodes) (out out' : Names) → collect_args b as_ out ≡ ok out' → Sub out out'
  collect_args-Sub b nil out out' h k i = ground (arith, h, i)
  collect_args-Sub b (cons a as_) out out' h k i =
      let (mid, ha, hs) =
        then_value-ok (collect a (b && is_field_node a) out) (collect_args b as_) out' h in
      collect_args-Sub b as_ mid out' hs k (collect-Sub a (b && is_field_node a) out mid ha k i)
