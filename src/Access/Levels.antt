-- ===== src/Access/Levels.antt =====
-- The paths that `roleHolders` of access.service.ts looks at, from a unit up to the top.
use erp_global.Common.{
  ◌≡◌, ◌≢◌, refl, sym, ap, ap₂, subst, ◌∙◌, inl, inr, true, ◌&&◌, some, List, [], ◌∷◌, ◌++◌,
  append_assoc, any, any_of_In, filter, map, In, In-append, Bool-cases, arith,
}
use mathlib.Core.List.{reverse, reverse-append, map-append}
use erp_global.Common.Text.{Text, ◌===◌, ===_iff, split}
use erp_global.Contracts.Split.{join}
use erp_global.Org.Units.{child_path}
use erp_global.Org.Paths.{NoSlash, EndsSlash}
use erp_global.Config.Overrides.{path_ids, filled, path_ids-child_path}
use erp_global.Access.Roles.{Assignment, State}
use erp_global.Access.Holders.{segments, slices, path_to, prefixes, at_level, nearest, holders_at}

segments-child_path :
    (p id : Text)
    → EndsSlash p
    → NoSlash id
    → id ≢ []
    → segments (child_path p id) ≡ segments p ++ (id ∷ [])
unfolding segments path_ids filled
segments-child_path p id ends plain ne = path_ids-child_path p id ends plain ne

slices-append :
    (ids : List Text) (id : Text)
    → slices (ids ++ (id ∷ [])) ≡ slices ids ++ ((ids ++ (id ∷ [])) ∷ [])
unfolding slices
slices-append [] id = refl
slices-append (x ∷ ids) id =
    ap (λ l. (x ∷ []) ∷ l)
      (ap (map (λ l. x ∷ l)) (slices-append ids id) ∙ map-append (λ l. x ∷ l) (slices ids) _)

join-append :
    (x : Text) (ids : List Text) (id : Text)
    → join b'/' ((x ∷ ids) ++ (id ∷ [])) ≡ join b'/' (x ∷ ids) ++ (b'/' ∷ id)
join-append x [] id = refl
join-append x (y ∷ ids) id =
    ap (λ t. x ++ (b'/' ∷ t)) (join-append y ids id)
    ∙ sym (append_assoc x (b'/' ∷ join b'/' (y ∷ ids)) (b'/' ∷ id))

path_to-append :
    (x : Text) (ids : List Text) (id : Text)
    → path_to ((x ∷ ids) ++ (id ∷ [])) ≡ child_path (path_to (x ∷ ids)) id
unfolding path_to child_path
path_to-append x ids id =
    let above = join b'/' (x ∷ ids) in
    ap (λ t. b'/' ∷ t)
      (ap (λ t. t ++ (b'/' ∷ [])) (join-append x ids id)
        ∙ append_assoc above (b'/' ∷ id) (b'/' ∷ [])
        ∙ sym (append_assoc above (b'/' ∷ []) (id ++ (b'/' ∷ []))))

-- The path is written from its segments, of which there is one at least.
pub record IsWritten (p : Text) : Type 0 where
  pub head : Text
  pub rest : List Text
  pub split_ : segments p ≡ head ∷ rest
  pub joined : path_to (head ∷ rest) ≡ p

pub child_path-IsWritten :
    (p id : Text) → EndsSlash p → NoSlash id → id ≢ [] → IsWritten p → IsWritten (child_path p id)
child_path-IsWritten p id ends plain ne w = record {
  head = w.head;
  rest = w.rest ++ (id ∷ []);
  split_ = segments-child_path p id ends plain ne ∙ ap (λ l. l ++ (id ∷ [])) w.split_;
  joined = path_to-append w.head w.rest id ∙ ap (λ q. child_path q id) w.joined;
}

pub top-IsWritten : (id : Text) → NoSlash id → id ≢ [] → IsWritten (child_path (b'/' ∷ []) id)
unfolding segments path_to child_path split
top-IsWritten id plain ne = record {
  head = id;
  rest = [];
  split_ = segments-child_path (b'/' ∷ []) id ([], refl) plain ne;
  joined = refl;
}

-- The levels that are asked for a child are those for its parent, and its own.
pub prefixes-child_path :
    (p id : Text)
    → EndsSlash p
    → NoSlash id
    → id ≢ []
    → IsWritten p
    → prefixes (child_path p id) ≡ prefixes p ++ (child_path p id ∷ [])
unfolding prefixes
prefixes-child_path p id ends plain ne w =
    ap (λ l. map path_to (slices l)) (segments-child_path p id ends plain ne)
    ∙ ap (map path_to) (slices-append (segments p) id)
    ∙ map-append path_to (slices (segments p)) _
    ∙ ap (λ l. map path_to (slices (segments p)) ++ (path_to (l ++ (id ∷ [])) ∷ [])) w.split_
    ∙ ap (λ q. map path_to (slices (segments p)) ++ (q ∷ []))
        (path_to-append w.head w.rest id ∙ ap (λ q. child_path q id) w.joined)

pub prefixes_top :
    (id : Text)
    → NoSlash id
    → id ≢ []
    → prefixes (child_path (b'/' ∷ []) id) ≡ child_path (b'/' ∷ []) id ∷ []
unfolding prefixes slices path_to child_path split segments
prefixes_top id plain ne =
    ap (λ l. map path_to (slices l)) (segments-child_path (b'/' ∷ []) id ([], refl) plain ne)

-- The query keeps every assignment of the levels that are looked at.
same_level :
    (role p : Text) (ps : List Text) (list : List Assignment)
    → In p ps
    → filter
        (λ a. a.org_unit_path === p)
        (filter (λ a. a.role_id === role && any (λ q. q === a.org_unit_path) ps) list)
      ≡ filter (λ a. a.org_unit_path === p) (filter (λ a. a.role_id === role) list)
same_level role p ps [] i = refl
same_level role p ps (a ∷ list) i = elim (Bool-cases (a.org_unit_path === p)) [
  | inl e ↦
      let here : any (λ q. q === a.org_unit_path) ps ≡ true =
        any_of_In (λ q. q === a.org_unit_path) p ps i
          ((===_iff p a.org_unit_path).1 (sym ((===_iff a.org_unit_path p).0 e))) in
      ground (arith, same_level role p ps list i)
  | inr e ↦ ground (arith, same_level role p ps list i)
]

nearest_same :
    (role : Text) (ps qs : List Text) (list : List Assignment)
    → ((p : Text) → In p qs → In p ps)
    → nearest (filter (λ a. a.role_id === role && any (λ q. q === a.org_unit_path) ps) list) qs
      ≡ nearest (filter (λ a. a.role_id === role) list) qs
unfolding nearest
nearest_same role ps [] list h = refl
nearest_same role ps (q ∷ qs) list h =
    ap₂ at_level (same_level role q ps list (h q (inl refl)))
      (nearest_same role ps qs list (λ p i. h p (inr i)))

In-reverse : {A : Type 0} (xs : List A) (x : A) → In x (reverse xs) → In x xs
In-reverse [] x i = elim i [ ]
In-reverse (y ∷ xs) x i =
    elim (In-append (reverse xs) (y ∷ []) x (subst (In x) (reverse-append (y ∷ []) xs) i)) [
      | inl j ↦ inr (In-reverse xs x j)
      | inr j ↦ elim j [ inl e ↦ inl e | inr k ↦ elim k [ ] ]
    ]

-- Without the restriction of the query to the levels.
pub holders_at-nearest :
    (role p : Text) (s : State)
    → IsWritten p
    → holders_at role (some p) s
      ≡ nearest (filter (λ a. a.role_id === role) s.assignments) (reverse (prefixes p))
unfolding holders_at path_to
holders_at-nearest role p s w =
    subst
      (λ q.
        holders_at role (some q) s
        ≡ nearest (filter (λ a. a.role_id === role) s.assignments) (reverse (prefixes q)))
      w.joined
      (nearest_same role (prefixes (path_to (w.head ∷ w.rest)))
        (reverse (prefixes (path_to (w.head ∷ w.rest)))) s.assignments
        (In-reverse (prefixes (path_to (w.head ∷ w.rest)))))
