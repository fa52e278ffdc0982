-- ===== src/Statement/Tests.antt =====
-- Statements of the objects of `Vpi.Model`, object 0.
use synlig.Common.{ℕ, ◌≡◌, ◌≢◌, false, [], ◌∷◌, Option, none, some, refl, arith}
use synlig.Common.Text.{Text, codes}
use synlig.Ast
use synlig.Ast.{
  AstNode, Nodes, node, nil, cons, empty, new_fields, ast_block, ast_other, back, children, of_list,
  type, integer, ◌++ₙ◌,
}
use synlig.Statement.{always_ff, process_always, process_initial, begin_block}
use synlig.Statement.Blocks.{
  IsAttached, children_of, process_always-IsAttached, scope_name, scope_name-begin_block,
}
use synlig.Statement.Branches.{
  branch, selected, process_if_else-selected, process_case_item_lem, IsBodyOf, labels,
}
use synlig.Statement.Cases.{process_if_else, process_case_item, cond_type, case_x, plain}
use synlig.Statement.Loops.{
  process_while, process_repeat, process_for, for_inits, for_init, is_wire, blocking,
}
use synlig.Statement.Supported.{IsMade, process_while-IsMade}
use synlig.Operation.Meaning.{value}
use synlig.Vpi.{
  Vpi, Relation, vpi_else_stmt, vpi_stmt, visit_one_to_one, visit_one_to_many, actual,
  process_objects,
}
use synlig.Vpi.Model.{condition, breaking, initialization}
use synlig.Vpi.Model
use synlig.Yosys.Model.{model, mkconst}

abbrev name : Text
name = codes "\\top"

abbrev event : AstNode
event = node (ast_other 0) new_fields nil empty

process_always-IsAttached_example :
    (before : Nodes) × ((body : AstNode) × ((children_of model name
            (process_always model name Model.model (λ h. always_ff) (cons event nil) 0)
          ≡ some (before ++ₙ cons body nil))
        × (children_of model name (process_initial model name Model.model (cons event nil) 0)
            ≡ some (before ++ₙ cons body nil))
        × IsAttached (cons event nil) breaking before body))
unfolding visit_one_to_one actual
process_always-IsAttached_example =
    process_always-IsAttached model name Model.model (λ h. always_ff) (cons event nil) 0 breaking
      refl

scope_name-begin_block_example :
    scope_name (begin_block name false (condition ∷ []) [] 4).0
    ≢ scope_name (begin_block name false (condition ∷ []) [] 5).0
unfolding begin_block
scope_name-begin_block_example =
    scope_name-begin_block name name condition condition [] [] [] [] 4 5 (omega arith)

process_while-IsMade_example :
    IsMade model name (process_while model name Model.model 7 0)
    × IsMade model name (process_repeat model name Model.model 7 0)
    × IsMade model name (process_for model name Model.model 7 0)
unfolding visit_one_to_one visit_one_to_many actual process_objects for_inits for_init is_wire
    blocking
process_while-IsMade_example =
    process_while-IsMade model name Model.model 7 0 condition breaking (_, _) refl refl refl

-- The condition has the value 3.
abbrev env : AstNode → ℕ
env n = integer n

-- An if without an else, for which the visit of the else gives no node.
abbrev no_else : Relation → ℕ → Option ℕ
no_else vpi_else_stmt h = none
no_else r h = Model.model.vpi_handle r h

abbrev without_else : Vpi ℕ
without_else = record Model.model { vpi_handle = no_else }

no_else_node : visit_one_to_one without_else (vpi_else_stmt ∷ []) 0 ≡ []
unfolding visit_one_to_one actual
no_else_node = refl

process_if_else-selected_example :
    (n : AstNode) × ((process_if_else model name without_else (λ h. false) 0 ≡ some n)
      × (selected 8 env n ≡ some (branch (some breaking))))
unfolding visit_one_to_one actual value mkconst
process_if_else-selected_example =
    process_if_else-selected 8 env model name without_else (λ h. false) 0 condition (some breaking)
      none refl refl refl (λ e. cc)

condx : cond_type case_x ≡ some Ast.ast_condx
unfolding cond_type
condx = refl

one_statement : visit_one_to_one Model.model (vpi_stmt ∷ []) 0 ≡ some breaking ∷ []
unfolding visit_one_to_one actual
one_statement = refl

-- An item of one expression, whose statement is a break.
process_case_item_lem_example :
    (n : AstNode) × (body : AstNode) × (process_case_item model name Model.model
        (λ h. case_x)
        (λ h. plain 1 ∷ [])
        0
      ≡ some n)
    × (type n ≡ Ast.ast_condx)
    × (children n ≡ cons condition nil ++ₙ cons body nil)
    × IsBodyOf breaking body
unfolding process_objects labels
process_case_item_lem_example =
    process_case_item_lem model name Model.model (λ h. case_x) (λ h. plain 1 ∷ []) 0 breaking
      Ast.ast_condx (1 ∷ []) condx refl one_statement
