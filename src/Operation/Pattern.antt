-- ===== src/Operation/Pattern.antt =====
-- src/frontends/systemverilog/uhdm_ast.cc, `process_assignment_pattern_op`.
use synlig.Common.{
  ℕ, suc, Bool, true, false, List, [], ◌∷◌, ◌++◌, Option, none, some, ltb, ◌==◌, if◌then◌else◌,
}
use synlig.Common.Checked.{Checked, gives, fails, ◌>>=◌}
use synlig.Common.Text.{Text, text_eq}
use synlig.Ast
use synlig.Ast.{
  AstNode, AstNodeType, Nodes, node, nil, cons, children, type, str, of_list, ast_operator,
  ast_item, ast_assign_eq, ast_parameter, ast_localparam, ast_dot, ast_block, ast_genblock, assign,
  assign_le, always, initial, module_scope, package_scope, cell,
}
use synlig.Loop.{make_ast_node}
use synlig.Operation.Lists.{find_ancestor}
use synlig.Yosys.{Yosys}

pub data Error : Type 0 where
  -- `Couldn't find `key` in assignment pattern.`
  no_key : Error
  -- `Couldn't find parameter type for node`
  no_parameter_type : Error
  -- A child or an ancestor is read that is not there.
  absent_node : Error

abbrev pub Result : Type 0 → Type 0
Result A = Checked Error A

unfoldable pub is_assignment : AstNodeType → Bool
is_assignment ast_assign_eq = true
is_assignment (ast_item assign) = true
is_assignment (ast_item assign_le) = true
is_assignment _ = false

unfoldable pub is_parameter : AstNodeType → Bool
is_parameter ast_parameter = true
is_parameter ast_localparam = true
is_parameter _ = false

unfoldable pub is_process : AstNodeType → Bool
is_process ast_block = true
is_process ast_genblock = true
is_process (ast_item always) = true
is_process (ast_item initial) = true
is_process (ast_item module_scope) = true
is_process (ast_item package_scope) = true
is_process (ast_item cell) = true
is_process _ = false

unfoldable pub is_dot : AstNodeType → Bool
is_dot ast_dot = true
is_dot _ = false

-- The name that an assignment in a pattern is for.
unfoldable pub key_of : Nodes → Result Text
key_of nil = fails no_key
key_of (cons (node t f nil as') ns) = gives f.str
key_of (cons (node t f (cons c cs) as') ns) = if is_dot (type c) then gives (str c) else gives f.str

-- `std::find_if(…) - begin()`: the number of children where none has the name.
unfoldable pub position_of : Text → Nodes → ℕ
position_of key nil = 0
position_of key (cons c cs) =
    let rest = position_of key cs in if text_eq (str c) key then 0 else suc rest

unfoldable pub second : Nodes → Result AstNode
second (cons a (cons b ns)) = gives b
second _ = fails absent_node

-- `std::map::insert`, which keeps the node of a key that is there.
unfoldable pub insert_child : ℕ → AstNode → List (ℕ × AstNode) → List (ℕ × AstNode)
insert_child k n [] = (k, n) ∷ []
insert_child k n ((j, m) ∷ rest) =
    let below = insert_child k n rest in
    if k == j then (j, m) ∷ rest else if ltb k j then (k, n) ∷ (j, m) ∷ rest else (j, m) ∷ below

unfoldable pub values_of : List (ℕ × AstNode) → List AstNode
values_of [] = []
values_of ((k, n) ∷ rest) = n ∷ values_of rest

-- The operands of the pattern of a parameter with the given type: those that are no assignments, and
-- the values of the assignments by the position of their member.
unfoldable pub order_operands :
    Option AstNode
    → List AstNode
    → List AstNode
    → List (ℕ × AstNode)
    → Result (List AstNode × List (ℕ × AstNode))
order_operands param_type [] pushed ordered = gives (pushed, ordered)
order_operands param_type (n ∷ ns) pushed ordered =
    if is_assignment (type n)
    then (key_of (children n) >>= λ key. elim param_type [
      | none ↦ fails no_parameter_type
      | some t ↦
          (second (children n) >>= λ v.
          order_operands param_type ns pushed
            (insert_child (position_of key (children t)) v ordered))
    ])
    else order_operands param_type ns (pushed ++ n ∷ []) ordered

-- The operands elsewhere: the assignments, and the others.
unfoldable pub split_operands : List AstNode → List AstNode × List AstNode
split_operands [] = ([], [])
split_operands (n ∷ ns) =
    let (assignments, others) = split_operands ns in
    if is_assignment (type n) then (n ∷ assignments, others) else (assignments, n ∷ others)

-- The node, the statements that are added to the enclosing process, and the new left side of the
-- enclosing assignment, if it gets one.
pub record Pattern : Type 0 where
  pub current_node : AstNode
  pub statements : List AstNode
  pub target : Option AstNode

module _ (yosys : Yosys) (obj_name : Text) where
  abbrev concat_node : List AstNode → AstNode
  concat_node ns = make_ast_node yosys obj_name (ast_operator Ast.concat) (Ast.reverse (of_list ns))

  -- A pattern that consists of assignments alone: the first becomes the enclosing assignment, and
  -- the rest are statements.
  unfoldable pub spread : List AstNode → Result Pattern
  spread [] = fails absent_node
  spread (node t f (cons target (cons v ns)) as' ∷ rest) =
      gives (record { current_node = v; statements = rest; target = some target })
  spread _ = fails absent_node

  unfoldable pub pattern_of : Option AstNode → List AstNode × List AstNode → Result Pattern
  pattern_of process ([], others) =
      gives (record { current_node = concat_node others; statements = []; target = none })
  pattern_of none (n ∷ ns, others) = fails absent_node
  pattern_of (some process) (n ∷ ns, []) = spread (n ∷ ns)
  pattern_of (some process) (n ∷ ns, other ∷ others) =
      gives
        (record { current_node = concat_node (other ∷ others); statements = n ∷ ns; target = none })

  -- `param_types` has the types of the parameters by name.
  unfoldable pub process_assignment_pattern_op :
      (Text → Option AstNode) → List AstNode → List AstNode → Result Pattern
  process_assignment_pattern_op param_types ancestors operands =
      elim (find_ancestor is_parameter ancestors) [
        | some parameter ↦
            order_operands (param_types (str parameter)) operands [] [] >>= λ (others, ordered).
            gives (record {
              current_node = concat_node (others ++ values_of ordered);
              statements = [];
              target = none;
            })
        | none ↦ pattern_of (find_ancestor is_process ancestors) (split_operands operands)
      ]
