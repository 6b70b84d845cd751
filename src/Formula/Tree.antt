-- ===== src/Formula/Tree.antt =====
-- formula.ts: the tree of a formula, its operators with their precedence, and its functions with the
-- number of arguments that each takes.
use erp_global.Common.{ℕ, Bool, List, [], ◌∷◌}
use erp_global.Common.Text.{Text, codes}

pub data UnaryOp : Type 0 where
  opposite negation : UnaryOp

pub data BinaryOp : Type 0 where
  either both equal differs less at_most more at_least joined plus minus times divided modulo :
      BinaryOp

pub data Fn : Type 0 where
  if_else and_all or_any not_of coalesce round floor ceil abs min_of max_of sum avg count concat :
      Fn
  upper_of lower_of trim_of len left right today year month day days_between add_days is_empty : Fn
  contains_text changed has_role in_unit status_of : Fn

-- `num` keeps the text of the literal, which `Number` reads.
mutual
  pub data Node : Type 0 where
    num : Text → Node
    str : Text → Node
    bool : Bool → Node
    null : Node
    field : Text → Node
    unary : UnaryOp → Node → Node
    binary : BinaryOp → Node → Node → Node
    call : Fn → Nodes → Node

  pub data Nodes : Type 0 where
    nil : Nodes
    cons : Node → Nodes → Nodes

unfoldable pub precedence : BinaryOp → ℕ
precedence either = 1
precedence both = 2
precedence equal = 3
precedence differs = 3
precedence less = 4
precedence at_most = 4
precedence more = 4
precedence at_least = 4
precedence joined = 5
precedence plus = 6
precedence minus = 6
precedence times = 7
precedence divided = 7
precedence modulo = 7

unfoldable pub op_text : BinaryOp → Text
op_text either = codes "||"
op_text both = codes "&&"
op_text equal = codes "=="
op_text differs = codes "!="
op_text less = codes "<"
op_text at_most = codes "<="
op_text more = codes ">"
op_text at_least = codes ">="
op_text joined = codes "&"
op_text plus = codes "+"
op_text minus = codes "-"
op_text times = codes "*"
op_text divided = codes "/"
op_text modulo = codes "%"

unfoldable pub all_ops : List BinaryOp
all_ops =
    either ∷ both ∷ equal ∷ differs ∷ less ∷ at_most ∷ more ∷ at_least ∷ joined ∷ plus ∷ minus
    ∷ times ∷ divided ∷ modulo ∷ []

unfoldable pub fn_text : Fn → Text
fn_text if_else = codes "IF"
fn_text and_all = codes "AND"
fn_text or_any = codes "OR"
fn_text not_of = codes "NOT"
fn_text coalesce = codes "COALESCE"
fn_text round = codes "ROUND"
fn_text floor = codes "FLOOR"
fn_text ceil = codes "CEIL"
fn_text abs = codes "ABS"
fn_text min_of = codes "MIN"
fn_text max_of = codes "MAX"
fn_text sum = codes "SUM"
fn_text avg = codes "AVG"
fn_text count = codes "COUNT"
fn_text concat = codes "CONCAT"
fn_text upper_of = codes "UPPER"
fn_text lower_of = codes "LOWER"
fn_text trim_of = codes "TRIM"
fn_text len = codes "LEN"
fn_text left = codes "LEFT"
fn_text right = codes "RIGHT"
fn_text today = codes "TODAY"
fn_text year = codes "YEAR"
fn_text month = codes "MONTH"
fn_text day = codes "DAY"
fn_text days_between = codes "DAYS_BETWEEN"
fn_text add_days = codes "ADD_DAYS"
fn_text is_empty = codes "IS_EMPTY"
fn_text contains_text = codes "CONTAINS"
fn_text changed = codes "CHANGED"
fn_text has_role = codes "HAS_ROLE"
fn_text in_unit = codes "IN_UNIT"
fn_text status_of = codes "STATUS"

unfoldable pub all_fns : List Fn
all_fns =
    if_else ∷ and_all ∷ or_any ∷ not_of ∷ coalesce ∷ round ∷ floor ∷ ceil ∷ abs ∷ min_of ∷ max_of
    ∷ sum ∷ avg ∷ count ∷ concat ∷ upper_of ∷ lower_of ∷ trim_of ∷ len ∷ left ∷ right ∷ today ∷ year
    ∷ month ∷ day ∷ days_between ∷ add_days ∷ is_empty ∷ contains_text ∷ changed ∷ has_role
    ∷ in_unit ∷ status_of ∷ []

-- `arity`: the least and the greatest number of arguments.
unfoldable pub arity : Fn → ℕ × ℕ
arity if_else = (2, 3)
arity and_all = (1, 20)
arity or_any = (1, 20)
arity not_of = (1, 1)
arity coalesce = (1, 20)
arity round = (1, 2)
arity floor = (1, 1)
arity ceil = (1, 1)
arity abs = (1, 1)
arity min_of = (1, 20)
arity max_of = (1, 20)
arity sum = (1, 20)
arity avg = (1, 20)
arity count = (1, 20)
arity concat = (1, 20)
arity upper_of = (1, 1)
arity lower_of = (1, 1)
arity trim_of = (1, 1)
arity len = (1, 1)
arity left = (2, 2)
arity right = (2, 2)
arity today = (0, 0)
arity year = (1, 1)
arity month = (1, 1)
arity day = (1, 1)
arity days_between = (2, 2)
arity add_days = (2, 2)
arity is_empty = (1, 1)
arity contains_text = (2, 2)
arity changed = (1, 1)
arity has_role = (1, 1)
arity in_unit = (1, 1)
arity status_of = (0, 0)
