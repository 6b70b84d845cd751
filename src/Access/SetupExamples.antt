-- ===== src/Access/SetupExamples.antt =====
-- The set-up of a company, a role of a pack, and the holders of a role, on concrete data.
use erp_global.Common.{
  Bool, false, true, ◌≡◌, ◌≢◌, refl, ◌⊎◌, inl, inr, none, some, List, [], ◌∷◌, map, filter, ◌&&◌,
  In, All-In, arith,
}
use erp_global.Common.Text.{Text, Text-discrete, codes, ◌===◌, starts_with}
use native.Mathlib.Decide.{ℕ_discrete}
use erp_global.Common.Action.{ok}
use erp_global.Contracts.{AclEntry, has_permission}
use erp_global.Org.Units.{OrgUnit}
use erp_global.Org.Examples.{units, shop, sample_IsTree}
use erp_global.Access.Roles.{Role, Assignment, State, role_with_id, unique}
use erp_global.Access.Setup.{
  NewIds, SetupInput, bootstrap, role_with_key, held_by, ensure_pack_role, pack_role,
}
use erp_global.Access.Again.{bootstrap-again}
use erp_global.Access.PackRoles.{with_role, IsNamed, ensure_pack_role-again}
use erp_global.Access.Holders.{
  nobody, by_id, role_holders, at_level, is_asked, take, list_assignments,
}
use erp_global.Access.Nearest.{held_here, role_holders-parent}
use erp_global.Access.Listing.{list_assignments-has_permission}

abbrev same_name : Text → Text → Bool
same_name a b = a === b

abbrev nothing : State
nothing = record { roles = []; assignments = []; outbox = [] }

abbrev ids : NewIds
ids = record { admin_id = codes "1"; viewer_id = codes "2"; assignment_id = codes "3" }

abbrev other_ids : NewIds
other_ids = record { admin_id = codes "4"; viewer_id = codes "5"; assignment_id = codes "6" }

abbrev input : SetupInput
input = record { admin_user_id = codes "u"; root_org_unit_id = codes "r"; root_path = codes "/r/" }

abbrev set_up : State
set_up = (bootstrap (codes "a.b.read" ∷ []) same_name ids input nothing).1

it_is_set_up : bootstrap (codes "a.b.read" ∷ []) same_name ids input nothing ≡ (ok tt, set_up)
unfolding bootstrap Text-discrete ℕ_discrete starts_with
it_is_set_up = refl

bootstrap-again_example :
    (bootstrap (codes "a.b.read" ∷ []) same_name other_ids input set_up ≡ (ok tt, set_up))
    × ((admin : Role) × (a : Assignment) × (role_with_key (codes "tenant_admin") set_up.roles
          ≡ some admin)
        × (held_by input.admin_user_id admin.id set_up.assignments ≡ some a)
        × ((role_with_key (codes "tenant_admin") nothing.roles ≡ some admin)
            ⊎ ((admin.all_permissions ≡ true) × (admin.system ≡ true)))
        × ((held_by input.admin_user_id admin.id nothing.assignments ≡ some a)
            ⊎ ((a.org_unit_id ≡ input.root_org_unit_id) × (a.org_unit_path ≡ input.root_path))))
bootstrap-again_example =
    bootstrap-again (codes "a.b.read" ∷ []) same_name ids other_ids input nothing set_up
      it_is_set_up

abbrev pack_state : State
pack_state =
    (ensure_pack_role (λ p. false) same_name (ok []) (codes "k") (codes "7") (codes "Viewer")
      (codes "a.b.read" ∷ codes "a.b.read" ∷ []) set_up).1

-- The company has a role with the name already.
abbrev teacher : Role
teacher = pack_role (codes "k") (codes "7") (codes "Viewer (k)") (codes "a.b.read" ∷ [])

pack_role_is_made :
    ensure_pack_role
      (λ p. false)
      same_name
      (ok [])
      (codes "k")
      (codes "7")
      (codes "Viewer")
      (codes "a.b.read" ∷ codes "a.b.read" ∷ [])
      set_up
    ≡ (ok teacher, pack_state)
unfolding ensure_pack_role bootstrap Text-discrete ℕ_discrete starts_with
pack_role_is_made = refl

id_is_new : role_with_id (codes "7") set_up.roles ≡ none
unfolding role_with_id bootstrap Text-discrete ℕ_discrete starts_with
id_is_new = refl

ensure_pack_role-again_example :
    (((role_with_key (codes "k") set_up.roles ≡ some teacher) × (pack_state ≡ set_up))
      ⊎ ((n : Text) × IsNamed (codes "k") (codes "Viewer") n
          × (role_with_key (codes "k") set_up.roles ≡ none)
          × (teacher
              ≡ pack_role
                  (codes "k")
                  (codes "7")
                  n
                  (unique (codes "a.b.read" ∷ codes "a.b.read" ∷ [])))
          × (pack_state ≡ with_role teacher set_up)))
    × (ensure_pack_role
          (λ p. false)
          same_name
          (ok [])
          (codes "k")
          (codes "8")
          (codes "Other")
          []
          pack_state
        ≡ (ok teacher, pack_state))
ensure_pack_role-again_example =
    ensure_pack_role-again (λ p. false) same_name (ok []) (ok []) (codes "k") (codes "7")
      (codes "8") (codes "Viewer") (codes "Other") (codes "a.b.read" ∷ codes "a.b.read" ∷ []) []
      teacher set_up pack_state id_is_new pack_role_is_made

-- The manager of the north is asked for at the shop, which stands below.
abbrev manager : Assignment
manager = record {
  id = codes "a";
  user_id = codes "u";
  role_id = codes "m";
  org_unit_id = codes "n";
  org_unit_path = codes "/r/n/";
}

abbrev managed : State
managed = record { roles = []; assignments = manager ∷ []; outbox = [] }

manager_of_shop :
    role_holders (by_id (codes "m")) (some shop.path) managed
    ≡ record { org_unit_id = some (codes "n"); user_ids = codes "u" ∷ [] }
unfolding role_holders Text-discrete ℕ_discrete unique
manager_of_shop = refl

manager_of_company :
    role_holders (by_id (codes "m")) none managed
    ≡ record { org_unit_id = some (codes "n"); user_ids = codes "u" ∷ [] }
unfolding role_holders Text-discrete ℕ_discrete unique
manager_of_company = refl

units_named : (u : OrgUnit) → In u units → u.id ≢ []
units_named u i = All-In (λ (w : OrgUnit). w.id ≢ []) units u (ground arith) i

role_holders-parent_example :
    ((shop.parent_id ≡ none)
      × (role_holders (by_id (codes "m")) (some shop.path) managed
          ≡ at_level (held_here (codes "m") shop managed) nobody))
    ⊎ ((p : OrgUnit) × In p units
        × (shop.parent_id ≡ some p.id)
        × (role_holders (by_id (codes "m")) (some shop.path) managed
            ≡ at_level
                (held_here (codes "m") shop managed)
                (role_holders (by_id (codes "m")) (some p.path) managed)))
role_holders-parent_example =
    role_holders-parent units sample_IsTree units_named (codes "m") shop managed
      (inr (inr (inr (inl refl))))

abbrev reader : List AclEntry
reader = record { ou = codes "r"; path = codes "/r/"; p = codes "access.assignment.read" ∷ [] } ∷ []

list_assignments-has_permission_example :
    list_assignments reader (some (codes "u")) none managed
    ≡ map
        (λ a. (a, role_with_id a.role_id managed.roles))
        (take 1000 (
          filter
            (λ a.
              has_permission
                (record { acl = reader; plat = none })
                (codes "access.assignment.read")
                (some a.org_unit_path)
              && (is_asked (some (codes "u")) a.user_id && is_asked none a.org_unit_id))
            managed.assignments))
list_assignments-has_permission_example =
    list_assignments-has_permission reader (some (codes "u")) none managed
