-- ===== src/Loop.antt =====
-- src/frontends/systemverilog/uhdm_ast.cc, `UhdmAst::transform_breaks_continues`: loops with `break`
-- and `continue` become loops without, over the variables `$continue` and `$break`.
pub mod Semantics
pub mod Jumps
pub mod Blocks
pub mod Wrap
pub mod Untouched
pub mod Simulation
pub mod Arms
pub mod Sound
pub mod Residue
mod Tests
use synlig.Common.{ℕ, Bool, true, false, none, some, if◌then◌else◌}
use synlig.Common.Text.{Text, codes}
use synlig.Ast.{
  AstNode, AstNodeType, Nodes, Attributes, Fields, node, nil, cons, empty, new_fields, type, str,
  children, back, set_back, ◌++ₙ◌,
}
use synlig.Ast.{
  ast_block, ast_case, ast_cond, ast_break, ast_continue, ast_for, ast_while, ast_repeat,
  ast_assign_eq, ast_identifier, ast_logic_and, ast_logic_not, ast_wire, ast_range,
}
use synlig.Yosys.{Yosys}

-- The cases of the switch in `transform_block`.
pub data Statement : Type 0 where
  block case jump_break jump_continue plain : Statement

unfoldable pub statement : AstNodeType → Statement
statement ast_block = block
statement ast_case = case
statement ast_break = jump_break
statement ast_continue = jump_continue
statement _ = plain

unfoldable pub is_cond : AstNodeType → Bool
is_cond ast_cond = true
is_cond _ = false

abbrev pub continue_name : Text
continue_name = codes "$continue"

abbrev pub break_name : Text
break_name = codes "$break"

-- Which of the pointers `continue_wire` and `break_wire` are set.
pub record Wires : Type 0 where
  pub continue_wire : Bool
  pub break_wire : Bool

pub data Result {ℓ} (A : Type ℓ) : Type ℓ where
  ok : A → Result A
  -- `log_error("break unsupported for this loop type")`
  unsupported_loop : Result A
  -- `children.back()` of a loop that has no child
  no_body : Result A

-- `yosys` is the AST library, and `obj_name` the name of the current object, which
-- `make_ast_node` gives to each node.
module _ (yosys : Yosys) (obj_name : Text) where
  open yosys use {mkconst_int}

  unfoldable pub make_ast_node : AstNodeType → Nodes → AstNode
  make_ast_node t cs = node t (record new_fields { str = obj_name }) cs empty

  unfoldable pub make_identifier : Text → AstNode
  make_identifier name = node ast_identifier (record new_fields { str = name }) nil empty

  -- A 1-bit wire with the given name.
  make_cond_var : Text → AstNode
  unfolding make_ast_node
  make_cond_var name =
      let zero_const = mkconst_int 0 false 32 in
      let range = make_ast_node ast_range (cons zero_const (cons zero_const nil)) in
      node ast_wire (record new_fields { str = name; is_reg = true })
        (cons range (cons zero_const nil)) empty

  -- A conditional like `if (!casevar) block`.
  unfoldable pub make_case : AstNode → Text → AstNode
  unfolding make_ast_node make_identifier
  make_case body casevar_name =
      let cond_node = make_ast_node ast_cond (cons (mkconst_int 0 false 1) (cons body nil)) in
      make_ast_node ast_case (cons (make_identifier casevar_name) (cons cond_node nil))

  unfoldable pub assign : Text → ℕ → AstNode
  unfolding make_ast_node make_identifier
  assign name v =
      make_ast_node ast_assign_eq (cons (make_identifier name) (cons (mkconst_int v false 32) nil))

  -- `wrap_and_transform`, given the transformed rest of the block.
  unfoldable pub wrap : Nodes → Nodes
  unfolding make_case make_ast_node
  wrap rest = cons (make_case (make_ast_node ast_block rest) continue_name) nil

  -- One round of the loop of `transform_block`: at a child with the children `cs`, given the
  -- transformations of a block and of a case with these children, and of the rest of the block.
  -- `rebuild` puts other children into the child. The flag tells that a jump was met.
  abbrev pub transform_step :
      Statement
      → (Nodes → AstNode)
      → Nodes
      → (Wires → Nodes × Wires × Bool)
      → (Wires → Nodes × Wires × Bool)
      → (Wires → Nodes × Wires × Bool)
      → Wires
      → Nodes × Wires × Bool
  transform_step block rebuild cs on_block on_case on_rest w =
      let (cs', w₁, has_jump) = on_block w in
      let (rest', w₂, rest_jump) = on_rest w₁ in
      if has_jump
      then (cons (rebuild cs') (wrap rest'), w₂, true)
      else (cons (rebuild cs') rest', w₂, rest_jump)
  transform_step case rebuild cs on_block on_case on_rest w =
      let (cs', w₁, has_jump) = on_case w in
      let (rest', w₂, rest_jump) = on_rest w₁ in
      if has_jump
      then (cons (rebuild cs') (wrap rest'), w₂, true)
      else (cons (rebuild cs') rest', w₂, rest_jump)
  transform_step jump_break rebuild cs on_block on_case on_rest w = (
    cons (assign continue_name 1) (cons (assign break_name 1) nil),
    record { continue_wire = true; break_wire = true },
    true,
  )
  transform_step jump_continue rebuild cs on_block on_case on_rest w =
      (cons (assign continue_name 1) nil, record w { continue_wire = true }, true)
  transform_step plain rebuild cs on_block on_case on_rest w =
      let (rest', w₂, rest_jump) = on_rest w in (cons (rebuild cs) rest', w₂, rest_jump)

  -- One round of the loop over the children of a case:
  -- `if (node->type == AST_COND) has_jump = has_jump || transform_block(…)`.
  abbrev pub cond_step :
      Bool
      → Bool
      → (Nodes → AstNode)
      → Nodes
      → (Wires → Nodes × Wires × Bool)
      → (Wires → Bool → Nodes × Wires × Bool)
      → Wires
      → Nodes × Wires × Bool
  cond_step true false rebuild cs on_back on_rest w =
      let (cs', w₁, has_jump) = on_back w in
      let (rest', w₂, j) = on_rest w₁ has_jump in (cons (rebuild cs') rest', w₂, j)
  cond_step true true rebuild cs on_back on_rest w =
      let (rest', w₂, j) = on_rest w true in (cons (rebuild cs) rest', w₂, j)
  cond_step false has_jump rebuild cs on_back on_rest w =
      let (rest', w₂, j) = on_rest w has_jump in (cons (rebuild cs) rest', w₂, j)

  -- `transform_block`, on the children of the block.
  unfoldable mutual
    pub transform_block : Nodes → Wires → Nodes × Wires × Bool
    transform_block nil w = (nil, w, false)
    transform_block (cons (node t f cs as') rest) w =
        transform_step (statement t) (λ ds. node t f ds as') cs (λ v. transform_block cs v)
          (λ v. transform_conds cs v false) (λ v. transform_block rest v) w

    -- The loop over the children of a case.
    pub transform_conds : Nodes → Wires → Bool → Nodes × Wires × Bool
    transform_conds nil w has_jump = (nil, w, has_jump)
    transform_conds (cons (node t f cs as') rest) w has_jump =
        cond_step (is_cond t) has_jump (λ ds. node t f ds as') cs (λ v. transform_back cs v)
          (λ v j. transform_conds rest v j) w

    -- `transform_block(node->children.back())`.
    pub transform_back : Nodes → Wires → Nodes × Wires × Bool
    transform_back nil w = (nil, w, false)
    transform_back (cons (node t f cs as') nil) w =
        let (cs', w', j) = transform_block cs w in (cons (node t f cs' as') nil, w', j)
    transform_back (cons n (cons m ns)) w =
        let (ns', w', j) = transform_back (cons m ns) w in (cons n ns', w', j)

  -- The test `!$break` as a node.
  unfoldable pub not_break : AstNode
  unfolding make_ast_node make_identifier
  not_break = make_ast_node ast_logic_not (cons (make_identifier break_name) nil)

  unfoldable pub prepend : AstNode → AstNode → AstNode
  prepend n (node t f cs as') = node t f (cons n cs) as'

  unfoldable pub with_children : AstNode → Nodes → AstNode
  with_children (node t f cs as') ds = node t f ds as'

  -- The `$continue` part: the body, and the block of declarations.
  unfoldable pub add_continue : Bool → AstNode → AstNode → AstNode × AstNode
  unfolding assign make_cond_var prepend
  add_continue false body decl_block = (body, decl_block)
  add_continue true body decl_block =
      (prepend (assign continue_name 0) body, prepend (make_cond_var continue_name) decl_block)

  -- The body of a `repeat` or `for` loop under `if (!$break)`.
  unfoldable pub guard_body : AstNode → AstNode
  unfolding make_case
  guard_body body =
      node ast_block (record new_fields { str = str body }) (cons (make_case body break_name) nil)
        empty

  -- The condition of a `while` loop with `!$break` before it.
  unfoldable pub guard_condition : Nodes → Nodes
  unfolding make_ast_node not_break
  guard_condition nil = nil
  guard_condition (cons c cs) = cons (make_ast_node ast_logic_and (cons not_break (cons c nil))) cs

  unfoldable pub add_break : AstNode → AstNode → AstNode → Result (AstNode × AstNode)
  unfolding guard_body guard_condition with_children prepend assign make_cond_var
  add_break loop body decl_block =
      let decl_block' =
        prepend (make_cond_var break_name) (prepend (assign break_name 0) decl_block) in
      let guarded = with_children loop (set_back (children loop) (guard_body body)) in
      elim (type loop) [
        | ast_repeat ↦ ok (guarded, decl_block')
        | ast_for ↦ ok (guarded, decl_block')
        | ast_while ↦
            ok (with_children loop (guard_condition (set_back (children loop) body)), decl_block')
        | _ ↦ unsupported_loop
      ]

  -- The loop and the block of declarations, after the transformation of the loop's body.
  unfoldable pub finish : AstNode → AstNode → AstNode → Wires → Result (AstNode × AstNode)
  unfolding add_continue add_break with_children
  finish loop body decl_block w =
      let (body₁, decl₁) = add_continue w.continue_wire body decl_block in
      if w.break_wire
      then add_break loop body₁ decl₁
      else ok (with_children loop (set_back (children loop) body₁), decl₁)

  unfoldable pub transform_breaks_continues : AstNode → AstNode → Result (AstNode × AstNode)
  unfolding transform_block finish with_children
  transform_breaks_continues loop decl_block = elim (back (children loop)) [
    | none ↦ no_body
    | some body ↦
        let no_wires : Wires = record { continue_wire = false; break_wire = false } in
        let (cs, w, has_jump) = transform_block (children body) no_wires in
        finish loop (with_children body cs) decl_block w
  ]
