-- ===== src/Org/History.antt =====
-- Sequences of the calls of org.service.ts that change units.
use erp_global.Common.{◌≢◌, Option, List, [], ◌∷◌, In}
use erp_global.Common.Text.{Text}
use erp_global.Common.Action.{Result}
use erp_global.Org.Units.{OrgUnit, State, Caller, OrgError, CreateInput, UpdateInput}
use erp_global.Org.Handlers.{move, create, deactivate, update, bootstrap, undo_bootstrap}
use erp_global.Org.Paths.{NoSlash}
use erp_global.Org.Tree.{IsTree}
use erp_global.Org.Invariant.{
  IsPlainId, move-IsTree, deactivate-IsTree, update-IsTree, create-IsTree, bootstrap-IsTree,
}

-- A call with its arguments; the text after the input of `creates`, and the second of `bootstraps`, is
-- the id that the driver gives to the new unit.
pub data Request : Type 0 where
  creates : Caller → CreateInput → Text → Request
  updates : Caller → Text → UpdateInput → Request
  moves : Caller → Text → Text → Request
  deactivates : Caller → Text → Request
  bootstraps : Text → Text → Request
  undoes_bootstrap : Request

abbrev IsNew : Text → State → Type 0
IsNew id s = ((u : OrgUnit) → In u s.units → u.id ≢ id) × NoSlash id

-- The id that a call gives to a unit is new, and the id of the unit that it moves or deactivates is
-- written as the driver writes it, where it is an id at all.
abbrev IsSound : (Text → Option Text) → Request → State → Type 0
IsSound object_id (creates caller input id) s = IsNew id s
IsSound object_id (updates caller id patch) s = Unit
IsSound object_id (moves caller id new_parent) s = IsPlainId object_id id
IsSound object_id (deactivates caller id) s = IsPlainId object_id id
IsSound object_id (bootstraps name id) s = IsNew id s
IsSound object_id undoes_bootstrap s = Unit

nothing-IsTree : IsTree []
nothing-IsTree = record {
  distinct = λ u v i j e. elim i [ ];
  plain = λ u i. elim i [ ];
  placed = λ u i. elim i [ ];
  shallow = λ u i. elim i [ ];
}

module _ (object_id : Text → Option Text)
    (validate_custom : Option Text → Option Text → Text → Result OrgError Text)
    (user_status : Text → Option Text) where
  -- The state after a call, which may have failed.
  unfoldable pub handle : Request → State → State
  unfolding create update move deactivate bootstrap undo_bootstrap
  handle (creates caller input id) s = (create object_id validate_custom caller input id s).1
  handle (updates caller id patch) s =
      (update object_id validate_custom user_status caller id patch s).1
  handle (moves caller id new_parent) s = (move object_id caller id new_parent s).1
  handle (deactivates caller id) s = (deactivate object_id caller id s).1
  handle (bootstraps name id) s = (bootstrap name id s).1
  handle undoes_bootstrap s = (undo_bootstrap s).1

  unfoldable pub handle_all : List Request → State → State
  unfolding handle
  handle_all [] s = s
  handle_all (r ∷ rs) s = handle_all rs (handle r s)

  -- Each call is sound in the state in which it is made.
  abbrev pub AreSound : List Request → State → Type 0
  AreSound [] s = Unit
  AreSound (r ∷ rs) s = IsSound object_id r s × AreSound rs (handle r s)

  handle-IsTree :
      (r : Request) (s : State) → IsSound object_id r s → IsTree s.units → IsTree (handle r s).units
  unfolding handle undo_bootstrap
  handle-IsTree (creates caller input id) s (fresh, plain) t =
      create-IsTree object_id validate_custom caller input id s t fresh plain
  handle-IsTree (updates caller id patch) s h t =
      update-IsTree object_id validate_custom user_status caller id patch s t
  handle-IsTree (moves caller id new_parent) s h t =
      move-IsTree object_id caller id new_parent s h t
  handle-IsTree (deactivates caller id) s h t = deactivate-IsTree object_id caller id s h t
  handle-IsTree (bootstraps name id) s (fresh, plain) t = bootstrap-IsTree name id s t fresh plain
  handle-IsTree undoes_bootstrap s h t = nothing-IsTree

  -- After any sequence of the calls that change units, whatever each of them answers, the units form a
  -- tree where they did before: ids are distinct and have no slash, every path is the parent's path and
  -- the id, every depth the parent's and one, no active unit is below an inactive one, and no unit is
  -- too deep. The ids given to new units are new and have no slash; the ids of the units to move and to
  -- deactivate are written in small letters, as the driver writes them, or are none; each call runs
  -- without another in between.
  pub handle_all-IsTree :
      (rs : List Request) (s : State)
      → AreSound rs s
      → IsTree s.units
      → IsTree (handle_all rs s).units
  unfolding handle_all
  handle_all-IsTree [] s h t = t
  handle_all-IsTree (r ∷ rs) s (h, hs) t =
      handle_all-IsTree rs (handle r s) hs (handle-IsTree r s h t)
