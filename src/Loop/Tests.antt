-- ===== src/Loop/Tests.antt =====
-- Small loop bodies.
use synlig.Common.{ℕ, ◌+◌, Bool, true, false, [], ◌≡◌, refl}
use synlig.Ast.{
  AstNode, Nodes, node, nil, cons, empty, new_fields, ast_block, ast_case, ast_cond, ast_break,
  ast_identifier, ast_constant, ast_other,
}
use synlig.Yosys.Model.{model}
use synlig.Loop.{Wires, transform_block, transform_back, statement, is_cond}
use synlig.Loop.Semantics.{
  State, normal, stop, exec, mark, flag_of, flag_write, do_plain, arm_taken,
}
use synlig.Loop.Jumps.{jumps, supported, jumps_arms}
use synlig.Loop.Sound.{exec-transform_block}
use synlig.Loop.Residue.{has_no_cond, jumps-transform_block_case}

abbrev plain_statement : AstNode
plain_statement = node (ast_other 1) new_fields nil empty

abbrev selector : AstNode
selector = node ast_identifier new_fields nil empty

-- An arm with one label, and a block of one statement.
abbrev arm_children : AstNode → Nodes
arm_children n =
    cons (node ast_constant new_fields nil empty)
      (cons (node ast_block new_fields (cons n nil) empty) nil)

abbrev arm : AstNode → AstNode
arm n = node ast_cond new_fields (arm_children n) empty

abbrev jump : AstNode
jump = node ast_break new_fields nil empty

-- a(); case (x) 0: break; endcase a();
abbrev body : Nodes
body = cons plain_statement (
    cons (node ast_case new_fields (cons selector (cons (arm jump) nil)) empty)
      (cons plain_statement nil))

abbrev no_wires : Wires
no_wires = record { continue_wire = false; break_wire = false }

-- The store counts the statements that have run.
abbrev act : AstNode → ℕ → ℕ
act n s = s + 1

abbrev taken : AstNode → Nodes → ℕ → Bool
taken n cs s = true

abbrev start : State ℕ
start = record { user = 0; continued = false; broken = false }

supported-body : supported body ≡ true
unfolding supported jumps statement is_cond flag_of flag_write
supported-body = refl

body_stops :
    exec act taken body start ≡ (record { user = 1; continued = false; broken = false }, stop)
unfolding exec statement do_plain arm_taken flag_of flag_write
body_stops = refl

exec-transform_block_example :
    (exec act taken (transform_block model [] body no_wires).0 start
      ≡ (mark (exec act taken body start), normal))
    × ((transform_block model [] body no_wires).2 ≡ jumps body)
exec-transform_block_example =
    exec-transform_block model [] act taken body no_wires start supported-body refl

cond_arm : is_cond ast_cond ≡ true
unfolding is_cond
cond_arm = refl

first_arm_jumps : (transform_back model [] (arm_children jump) no_wires).2 ≡ true
unfolding transform_back statement
first_arm_jumps = refl

second_arm_jumps : jumps_arms (cons (arm jump) nil) ≡ true
unfolding jumps_arms statement
second_arm_jumps = refl

no_cond_before : has_no_cond (cons selector nil) ≡ true
unfolding has_no_cond is_cond
no_cond_before = refl

-- case (x) 0: break; 0: break; endcase a();
jumps-transform_block_case_example :
    jumps
      (transform_block model []
        (cons
          (node ast_case new_fields (cons selector (cons (arm jump) (cons (arm jump) nil))) empty)
          (cons plain_statement nil))
        no_wires).0
    ≡ true
jumps-transform_block_case_example =
    jumps-transform_block_case model [] (cons selector nil) ast_cond new_fields (arm_children jump)
      empty (cons (arm jump) nil) new_fields empty (cons plain_statement nil) no_wires
      no_cond_before cond_arm first_arm_jumps second_arm_jumps
