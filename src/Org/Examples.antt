-- ===== src/Org/Examples.antt =====
-- A small company, the handlers run on it, and the theorems applied to it.
use erp_global.Common.{
  ℕ, ◌≡◌, ◌≢◌, refl, ◌⊎◌, inl, inr, true, Option, none, some, List, [], ◌∷◌, In, map, All, subst,
  sym, ap, ◌∙◌, ◌<◌, arith,
}
use Prim.Native.String.{String}
use native.Mathlib.Decide.{ℕ_discrete}
use erp_global.Common.Text.{Text, codes, Text-discrete, starts_with, drop}
use erp_global.Common.Action.{Result, ok, err}
use erp_global.Org.Units.{
  active, OrgUnit, State, Caller, OrgError, unit_with_id, child_path, shift_path, moved_units,
  shift_unit, set_parent, deepest_below, assert_scope, in_scope, has_parent, set_status,
  CreateInput, UpdateInput, new_unit, insert_unit, code_or_none, code_taken, under_itself,
  active_children, unit_moved, max_depth,
}
use erp_global.Org.Handlers.{find_by_id, load, get, move, create, deactivate}
use erp_global.Org.Paths.{NoSlash}
use erp_global.Org.Tree.{IsPlaced, top, below, IsTree}
use erp_global.Org.Invariant.{IsPlainId}
use erp_global.Org.History.{
  Request, creates, updates, moves, deactivates, handle_all, handle_all-IsTree,
}
use erp_global.Org.Authority.{move_writes, Moved}

abbrev unit : String → String → Option Text → ℕ → OrgUnit
unit id path parent depth = record {
  id = codes id;
  name = codes id;
  code = none;
  type = codes "Branch";
  parent_id = parent;
  path = codes path;
  depth = depth;
  status = active;
  custom = codes "{}";
  head_user_id = none;
}

abbrev company : OrgUnit
company = unit "r" "/r/" none 0

abbrev north : OrgUnit
north = unit "n" "/r/n/" (some (codes "r")) 1

abbrev south : OrgUnit
south = unit "s" "/r/s/" (some (codes "r")) 1

abbrev pub shop : OrgUnit
shop = unit "p" "/r/n/p/" (some (codes "n")) 2

abbrev pub units : List OrgUnit
units = company ∷ north ∷ south ∷ shop ∷ []

abbrev before : State
before = record { units = units; outbox = [] }

abbrev service : Caller
service = record { is_service = true; claims = record { acl = []; plat = none } }

abbrev all_valid : Text → Option Text
all_valid id = some id

abbrev keep_custom : Option Text → Option Text → Text → Result OrgError Text
keep_custom none old path = ok (codes "{}")
keep_custom (some c) old path = ok c

everything : Unit {0}
unfolding find_by_id load get move create deactivate assert_scope in_scope unit_with_id
    deepest_below moved_units child_path has_parent set_status starts_with drop shift_path
    shift_unit set_parent Text-discrete ℕ_discrete new_unit insert_unit code_or_none code_taken
everything = tt

-- North moves under south, and its shop moves along.
moved_paths :
    map (λ u. u.path) (move all_valid service (codes "n") (codes "s") before).1.units
    ≡ codes "/r/" ∷ codes "/r/s/n/" ∷ codes "/r/s/" ∷ codes "/r/s/n/p/" ∷ []
unfolding everything
moved_paths = refl

under_itself_refused : (move all_valid service (codes "n") (codes "p") before).0 ≡ err under_itself
unfolding everything
under_itself_refused = refl

active_children_refused : (deactivate all_valid service (codes "n") before).0 ≡ err active_children
unfolding everything
active_children_refused = refl

sample-IsPlaced : (u : OrgUnit) → In u units → IsPlaced units u
unfolding child_path
sample-IsPlaced u (inl e) = rw e (top refl refl refl)
sample-IsPlaced u (inr (inl e)) = rw e (below company (inl refl) refl refl refl (λ _. refl))
sample-IsPlaced u (inr (inr (inl e))) = rw e (below company (inl refl) refl refl refl (λ _. refl))
sample-IsPlaced u (inr (inr (inr (inl e)))) =
    rw e (below north (inr (inl refl)) refl refl refl (λ _. refl))
sample-IsPlaced u (inr (inr (inr (inr i)))) = elim i [ ]

DistinctIds : List OrgUnit → Type 0
DistinctIds [] = Unit
DistinctIds (u ∷ us) = All (λ v. u.id ≢ v.id) us × DistinctIds us

All-In : (P : OrgUnit → Type 0) (us : List OrgUnit) (u : OrgUnit) → All P us → In u us → P u
All-In P [] u h i = elim i [ ]
All-In P (v ∷ us) u h (inl e) = subst P (sym e) h.0
All-In P (v ∷ us) u h (inr i) = All-In P us u h.1 i

DistinctIds-In :
    (us : List OrgUnit) (u v : OrgUnit) → DistinctIds us → In u us → In v us → u.id ≡ v.id → u ≡ v
unfolding DistinctIds
DistinctIds-In [] u v h i j e = elim i [ ]
DistinctIds-In (w ∷ us) u v h (inl a) (inl b) e = a ∙ sym b
DistinctIds-In (w ∷ us) u v h (inl a) (inr b) e =
    absurd (All-In _ us v h.0 b (ap (λ x. x.id) (sym a) ∙ e))
DistinctIds-In (w ∷ us) u v h (inr a) (inl b) e =
    absurd (All-In _ us u h.0 a (ap (λ x. x.id) (sym b) ∙ sym e))
DistinctIds-In (w ∷ us) u v h (inr a) (inr b) e = DistinctIds-In us u v h.1 a b e

sample_ids : DistinctIds units
unfolding DistinctIds
sample_ids = ground arith

pub sample_IsTree : IsTree units
unfolding DistinctIds
sample_IsTree = record {
  distinct = λ u v i j e. DistinctIds-In units u v sample_ids i j e;
  plain = λ u i. All-In (λ w. NoSlash w.id) units u (omega arith) i;
  placed = sample-IsPlaced;
  shallow = λ u i. All-In (λ w. w.depth < max_depth) units u (omega arith) i;
}

abbrev rename : UpdateInput
rename = record {
  name = some (codes "North");
  code = none;
  type = none;
  custom = none;
  head = some (some (codes "u"));
}

abbrev all_active : Text → Option Text
all_active u = some (codes "active")

abbrev new_shop : CreateInput
new_shop = record {
  parent_id = codes "s";
  name = codes "Shop";
  code = some (codes "S1");
  type = codes "Store";
  custom = none;
}

q_ids : All (λ w. w.id ≢ codes "q") units
q_ids = ground arith

fresh_q : (u : OrgUnit) → In u units → u.id ≢ codes "q"
fresh_q u i = All-In (λ w. w.id ≢ codes "q") units u q_ids i

abbrev calls : List Request
calls =
    creates service new_shop (codes "q")
    ∷ moves service (codes "n") (codes "s")
    ∷ updates service (codes "n") rename
    ∷ deactivates service (codes "p")
    ∷ []

n_plain : IsPlainId all_valid (codes "n")
unfolding IsPlainId
n_plain = inr refl

p_plain : IsPlainId all_valid (codes "p")
unfolding IsPlainId
p_plain = inr refl

handle_all-IsTree_example : IsTree (handle_all all_valid keep_custom all_active calls before).units
handle_all-IsTree_example =
    handle_all-IsTree all_valid keep_custom all_active calls before
      ((fresh_q, omega arith), (n_plain, (tt, (p_plain, tt)))) sample_IsTree

move_writes_example :
    let s' = (move all_valid service (codes "n") (codes "s") before).1 in
    (s' ≡ before) ⊎ Moved all_valid service (codes "n") (codes "s") before s'
move_writes_example = move_writes all_valid service (codes "n") (codes "s") before

abbrev after : State
after = record {
  units = moved_units (codes "n") north south units;
  outbox = unit_moved (codes "n") (codes "/r/n/") (codes "/r/s/n/") ∷ [];
}
