-- ===== src/Loop/Residue.antt =====
-- The arms that `transform_block` of src/frontends/systemverilog/uhdm_ast.cc does not enter.
use synlig.Common.{
  Bool, true, false, ◌||◌, ◌&&◌, not, and_true_left, and_true_right, false_of_not, ◌≡◌, refl,
}
use synlig.Common.Text.{Text}
use synlig.Ast.{AstNode, AstNodeType, Attributes, Fields, Nodes, node, nil, cons, ◌++ₙ◌, ast_case}
use synlig.Yosys.{Yosys}
use synlig.Loop.{
  is_cond, case, statement, Wires, cond_step, transform_step, transform_block, transform_conds,
  transform_back,
}
use synlig.Loop.Jumps.{jumps, jumps_arms, jumps_back}

or_true_right : (b : Bool) → (b || true) ≡ true
or_true_right true = refl
or_true_right false = refl

-- No `AST_COND` among them.
unfoldable pub has_no_cond : Nodes → Bool
has_no_cond nil = true
has_no_cond (cons (node t f cs as') ns) = not (is_cond t) && has_no_cond ns

module _ (yosys : Yosys) (obj_name : Text) where
  cond_step-seen :
      (d : Bool) (rebuild : Nodes → AstNode) (cs arms : Nodes)
      (on_back : Wires → Nodes × Wires × Bool) (on_rest : Wires → Bool → Nodes × Wires × Bool)
      (w : Wires)
      → on_rest w true ≡ (arms, w, true)
      → cond_step yosys obj_name d true rebuild cs on_back on_rest w
        ≡ (cons (rebuild cs) arms, w, true)
  cond_step-seen true rebuild cs arms b r w h = rw h
  cond_step-seen false rebuild cs arms b r w h = rw h

  -- `has_jump || transform_block(…)` makes no call once an arm has jumped.
  transform_conds-seen :
      (arms : Nodes) (w : Wires) → transform_conds yosys obj_name arms w true ≡ (arms, w, true)
  unfolding transform_conds
  transform_conds-seen nil w = refl
  transform_conds-seen (cons (node t f cs as') arms) w =
      cond_step-seen (is_cond t) _ cs arms _ _ w (transform_conds-seen arms w)

  -- Two arms that jump: where the first `AST_COND` arm jumps and an arm behind it holds a jump,
  -- the transformed case still holds one.
  jumps_arms-transform_conds :
      (t : AstNodeType) (f : Fields) (cs : Nodes) (as' : Attributes) (arms : Nodes) (w : Wires)
      → is_cond t ≡ true
      → (transform_back yosys obj_name cs w).2 ≡ true
      → jumps_arms arms ≡ true
      → jumps_arms (transform_conds yosys obj_name (cons (node t f cs as') arms) w false).0 ≡ true
  unfolding transform_conds jumps_arms
  jumps_arms-transform_conds t f cs as' arms w d h k = rw d (
      rw h (
        rw (transform_conds-seen arms (transform_back yosys obj_name cs w).1)
          (rw k (or_true_right _))))

  -- The children before them, the selector among them, are no such arms.
  jumps_arms-transform_conds_behind :
      (before : Nodes) (t : AstNodeType) (f : Fields) (cs : Nodes) (as' : Attributes) (arms : Nodes)
      (w : Wires)
      → has_no_cond before ≡ true
      → is_cond t ≡ true
      → (transform_back yosys obj_name cs w).2 ≡ true
      → jumps_arms arms ≡ true
      → jumps_arms
          (transform_conds yosys obj_name (before ++ₙ cons (node t f cs as') arms) w false).0
        ≡ true
  unfolding transform_conds jumps_arms has_no_cond
  jumps_arms-transform_conds_behind nil t f cs as' arms w n d h k =
      jumps_arms-transform_conds t f cs as' arms w d h k
  jumps_arms-transform_conds_behind (cons (node u g ds bs) before) t f cs as' arms w n d h k =
      let no = and_true_left (not (is_cond u)) (has_no_cond before) n in
      let rest = and_true_right (not (is_cond u)) (has_no_cond before) n in
      rw (false_of_not (is_cond u) no) (
        rw (jumps_arms-transform_conds_behind before t f cs as' arms w rest d h k)
          (or_true_right _))

  jumps-transformed_case :
      (f : Fields) (as' : Attributes) (w : Wires) (made : Nodes × Wires × Bool)
      (on_block on_rest : Wires → Nodes × Wires × Bool) (ds : Nodes)
      → jumps_arms made.0 ≡ true
      → jumps
          (transform_step yosys obj_name case
            (λ cs. node ast_case f cs as')
            ds
            on_block
            (λ v. made)
            on_rest
            w).0
        ≡ true
  unfolding jumps statement
  jumps-transformed_case f as' w (cs, w', true) b r ds h = rw h refl
  jumps-transformed_case f as' w (cs, w', false) b r ds h = rw h refl

  -- A case in a block, two arms of which jump: where the first `AST_COND` child of the case jumps, and a
  -- child behind it holds a jump in its statement, the transformed block still holds a jump. What stands
  -- before the two, the selector and arms of a `casex`, is no `AST_COND`.
  pub jumps-transform_block_case :
      (before : Nodes) (t : AstNodeType) (f : Fields) (cs : Nodes) (as' : Attributes) (arms : Nodes)
      (g : Fields) (bs : Attributes) (rest : Nodes) (w : Wires)
      → has_no_cond before ≡ true
      → is_cond t ≡ true
      → (transform_back yosys obj_name cs w).2 ≡ true
      → jumps_arms arms ≡ true
      → jumps
          (transform_block yosys obj_name
            (cons (node ast_case g (before ++ₙ cons (node t f cs as') arms) bs) rest)
            w).0
        ≡ true
  unfolding transform_block statement
  jumps-transform_block_case before t f cs as' arms g bs rest w n d h k =
      let children' = before ++ₙ cons (node t f cs as') arms in
      jumps-transformed_case g bs w (transform_conds yosys obj_name children' w false)
        (λ v. transform_block yosys obj_name children' v)
        (λ v. transform_block yosys obj_name rest v) children'
        (jumps_arms-transform_conds_behind before t f cs as' arms w n d h k)

  -- An arm of a `casex` or `casez`: it is copied whatever stands before it, so a jump in it stays.
  pub jumps_arms-transform_conds_other :
      (t : AstNodeType) (f : Fields) (cs : Nodes) (as' : Attributes) (arms : Nodes) (w : Wires)
      (seen : Bool)
      → is_cond t ≡ false
      → jumps_back cs ≡ true
      → jumps_arms (transform_conds yosys obj_name (cons (node t f cs as') arms) w seen).0 ≡ true
  unfolding transform_conds jumps_arms
  jumps_arms-transform_conds_other t f cs as' arms w seen d h = rw (d, h)
