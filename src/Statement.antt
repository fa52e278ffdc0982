-- ===== src/Statement.antt =====
-- src/frontends/systemverilog/uhdm_ast.cc: `process_always`, `process_initial`,
-- `process_event_control` and `process_begin`.
mod Tests
pub mod Blocks
pub mod Loops
pub mod Cases
pub mod Branches
pub mod Supported
use synlig.Common.{
  ℕ, suc, Bool, true, false, not, ◌&&◌, List, [], ◌∷◌, ◌++◌, Option, none, some, ◌==◌,
  if◌then◌else◌,
}
use synlig.Common.Decimal.{to_string}
use synlig.Common.Text.{Text, codes}
use synlig.Ast.{
  AstNode, AstNodeType, Nodes, Attributes, node, nil, cons, empty, new_fields, type, children, str,
  back, before_back, size, of_list, ◌++ₙ◌, ast_item, ast_block, ast_assign_eq, ast_wire,
  ast_function, always, initial, assign_le, task,
}
use synlig.Attributes.{insert}
use synlig.Loop.{make_ast_node}
use synlig.Operation.Lists.{find_ancestor, is_always}
use synlig.Vpi.{Vpi, visit_one_to_one, visit_one_to_many, vpi_stmt, vpi_condition, vpi_variables}
use synlig.Yosys.{Yosys}

unfoldable pub is_block : AstNodeType → Bool
is_block ast_block = true
is_block _ = false

-- Whether the last child is a block.
unfoldable pub ends_in_block : Nodes → Bool
ends_in_block ns = elim (back ns) [ none ↦ false | some n ↦ is_block (type n) ]

-- The value of `vpiAlwaysType`.
pub data AlwaysType : Type 0 where
  always_comb always_ff always_latch plain_always : AlwaysType

unfoldable pub is_function_or_task : AstNodeType → Bool
is_function_or_task ast_function = true
is_function_or_task (ast_item task) = true
is_function_or_task _ = false

unfoldable pub is_assignment : AstNodeType → Bool
is_assignment ast_assign_eq = true
is_assignment (ast_item assign_le) = true
is_assignment _ = false

-- An assignment without a right side, which declares a variable.
unfoldable pub is_declaration : AstNode → Bool
is_declaration n = is_assignment (type n) && size (children n) == 1

unfoldable pub declared_wire : Nodes → AstNode
declared_wire nil = node ast_wire new_fields nil empty
declared_wire (cons c cs) = node ast_wire (record new_fields { str = str c }) nil empty

unfoldable pub kept_statements : List AstNode → List AstNode
kept_statements [] = []
kept_statements (n ∷ ns) =
    let rest = kept_statements ns in if is_declaration n then rest else n ∷ rest

unfoldable pub declared_wires : List AstNode → List AstNode
declared_wires [] = []
declared_wires (n ∷ ns) =
    let rest = declared_wires ns in
    if is_declaration n then declared_wire (children n) ∷ rest else rest

-- The block; the wires for the enclosing function; the next number of an unnamed block; and
-- whether `sv_mode` is switched on.
pub record Begin : Type 0 where
  pub current_node : AstNode
  pub function_wires : List AstNode
  pub unnamed_block_idx : ℕ
  pub sv_mode : Bool

abbrev pub unnamed_name : ℕ → Text
unnamed_name idx = codes "$unnamed_block$" ++ to_string idx

abbrev pub block_named : Text → List AstNode → AstNode
block_named name ns = node ast_block (record new_fields { str = name }) (of_list ns) empty

unfoldable pub begin_block : Text → Bool → List AstNode → List AstNode → ℕ → AstNode × ℕ × Bool
begin_block obj_name true variables statements idx =
    (block_named obj_name (variables ++ statements), idx, false)
begin_block obj_name false [] statements idx = (block_named [] statements, idx, false)
begin_block obj_name false (v ∷ vs) statements idx =
    (block_named [] (block_named (unnamed_name idx) ((v ∷ vs) ++ statements) ∷ []), suc idx, true)

module _ (yosys : Yosys) (obj_name : Text) where
  open yosys use {mkconst_int}

  -- The statement that follows what has been inserted into the process: an explicit block as it is,
  -- else an implicit block, which takes in a block that was inserted last. `none` is a failed
  -- assertion.
  unfoldable pub attach : Nodes → Option AstNode → Option Nodes
  attach nil none = some (cons (make_ast_node yosys obj_name ast_block nil) nil)
  attach (cons n ns) none = none
  attach inserted (some n) =
      if is_block (type n)
      then some (inserted ++ₙ cons n nil)
      else if ends_in_block inserted
      then elim (back inserted) [
        | none ↦ none
        | some b ↦ some (
            before_back inserted
            ++ₙ cons (make_ast_node yosys obj_name ast_block (cons b (cons n nil))) nil)
      ]
      else some (inserted ++ₙ cons (make_ast_node yosys obj_name ast_block (cons n nil)) nil)

  -- A statement that is visited is attached; a failed assertion is kept.
  unfoldable pub attach_all : Option Nodes → List (Option AstNode) → Option Nodes
  attach_all none os = none
  attach_all (some inserted) [] = some inserted
  attach_all (some inserted) (o ∷ os) = attach_all (attach inserted o) os

  unfoldable pub always_attribute : AlwaysType → Attributes
  always_attribute always_comb = insert empty (codes "\\always_comb") (mkconst_int 1 false 32)
  always_attribute always_ff = insert empty (codes "\\always_ff") (mkconst_int 1 false 32)
  always_attribute always_latch = insert empty (codes "\\always_latch") (mkconst_int 1 false 32)
  always_attribute plain_always = empty

  abbrev with_attributes : AstNode → Attributes → AstNode
  with_attributes (node t f cs old) as' = node t f cs as'

  unfoldable pub always_node : AlwaysType → Option Nodes → Option AstNode
  always_node t none = none
  always_node t (some cs) =
      some
        (with_attributes (make_ast_node yosys obj_name (ast_item always) cs) (always_attribute t))

  unfoldable pub initial_node : Option Nodes → Option AstNode
  initial_node none = none
  initial_node (some cs) = some (make_ast_node yosys obj_name (ast_item initial) cs)

  module _ {Handle : Type 0} (vpi : Vpi Handle) where
    -- `inserted` is what the visit of the statement has put into the new node.
    unfoldable pub process_always : (Handle → AlwaysType) → Nodes → Handle → Option AstNode
    process_always always_type inserted h =
        always_node (always_type h)
          (attach_all (some inserted) (visit_one_to_one vpi (vpi_stmt ∷ []) h))

    unfoldable pub process_initial : Nodes → Handle → Option AstNode
    process_initial inserted h =
        initial_node (attach_all (some inserted) (visit_one_to_one vpi (vpi_stmt ∷ []) h))

    -- The nodes among what was visited.
    unfoldable pub present : List (Option AstNode) → List AstNode
    present [] = []
    present (none ∷ os) = present os
    present (some n ∷ os) = n ∷ present os

    -- The block of the statement, and what is pushed to the enclosing `always`.
    unfoldable pub process_event_control : List AstNode → Handle → Option (AstNode × List AstNode)
    process_event_control ancestors h =
        let events = present (visit_one_to_one vpi (vpi_condition ∷ []) h) in
        let statements = present (visit_one_to_one vpi (vpi_stmt ∷ []) h) in
        let done = some (make_ast_node yosys obj_name ast_block (of_list statements), events) in
        elim events [
          | [] ↦ done
          | n ∷ ns ↦ elim (find_ancestor is_always ancestors) [ none ↦ none | some a ↦ done ]
        ]

    unfoldable pub process_begin : Bool → List AstNode → ℕ → Handle → Begin
    process_begin is_named ancestors idx h =
        let variables = visit_one_to_many vpi (vpi_variables ∷ []) h in
        let statements = visit_one_to_many vpi (vpi_stmt ∷ []) h in
        let (block, idx', sv) =
          begin_block obj_name is_named variables (kept_statements statements) idx in
        record {
          current_node = block;
          function_wires = elim (find_ancestor is_function_or_task ancestors) [
            | none ↦ []
            | some f ↦ declared_wires statements
          ];
          unnamed_block_idx = idx';
          sv_mode = sv;
        }
