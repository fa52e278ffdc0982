-- ===== src/Statement/Supported.antt =====
-- The loops that the frontend makes are ones that the transformation of breaks supports.
use mathlib.Core.Path.{subst₂}
use synlig.Common.{
  ℕ, ◌≡◌, Bool, true, false, List, [], ◌∷◌, ◌++◌, Option, none, some, refl, sym, ap, if_elim,
}
use synlig.Common.Text.{Text, codes}
use synlig.Ast.{
  AstNode, AstNodeType, Fields, Nodes, Attributes, node, nil, cons, children, back, of_list,
  ast_for, ast_while, ast_repeat,
}
use synlig.Loop
use synlig.Loop.{Wires, transform_breaks_continues}
use synlig.Statement.Loops
use synlig.Statement.Loops.{
  Outcome, made, outcome, close_loop, conditional_loop, for_loop, process_for, process_while,
  process_repeat, all_present, for_inits,
}
use synlig.Vpi.{
  Vpi, visit_one_to_one, visit_one_to_many, vpi_stmt, vpi_condition, vpi_for_init_stmt,
  vpi_for_inc_stmt,
}
use synlig.Yosys.{Yosys}

unfoldable pub is_loop : AstNodeType → Bool
is_loop ast_for = true
is_loop ast_while = true
is_loop ast_repeat = true
is_loop _ = false

-- The transformation gives a loop and a block.
unfoldable pub Succeeds : {A : Type 0} → Loop.Result A → Type 0
Succeeds {A} r = (a : A) × (r ≡ Loop.ok a)

back-cons : (n : AstNode) (ns : Nodes) → (b : AstNode) × (back (cons n ns) ≡ some b)
back-cons n nil = (n, refl)
back-cons n (cons m ns) = back-cons m ns

module _ (yosys : Yosys) (obj_name : Text) where
  add_break-Succeeds :
      (t : AstNodeType) (f : Fields) (cs : Nodes) (as' : Attributes) (body decl : AstNode)
      → is_loop t ≡ true
      → Succeeds (Loop.add_break yosys obj_name (node t f cs as') body decl)
  unfolding Loop.add_break is_loop Succeeds
  add_break-Succeeds ast_for f cs as' body decl h = (_, refl)
  add_break-Succeeds ast_while f cs as' body decl h = (_, refl)
  add_break-Succeeds ast_repeat f cs as' body decl h = (_, refl)
  add_break-Succeeds _ f cs as' body decl h = cc

  finish-Succeeds :
      (t : AstNodeType) (f : Fields) (cs : Nodes) (as' : Attributes) (body decl : AstNode)
      (w : Wires)
      → is_loop t ≡ true
      → Succeeds (Loop.finish yosys obj_name (node t f cs as') body decl w)
  unfolding Loop.finish Succeeds
  finish-Succeeds t f cs as' body decl w h =
      if_elim Succeeds w.break_wire _ _
        (λ _.
          let (inner, outer) = Loop.add_continue yosys obj_name w.continue_wire body decl in
          add_break-Succeeds t f cs as' inner outer h)
        (λ _. (_, refl))

  with_body :
      (t : AstNodeType) (f : Fields) (cs : Nodes) (as' : Attributes) (decl : AstNode)
      (o : Option AstNode) (b : AstNode)
      → is_loop t ≡ true
      → o ≡ some b
      → Succeeds (elim o [
        | none ↦ Loop.no_body
        | some body ↦
            let no_wires : Wires = record { continue_wire = false; break_wire = false } in
            let (ds, w, has_jump) = Loop.transform_block yosys obj_name (children body) no_wires in
            Loop.finish yosys obj_name
              (node t f cs as')
              (Loop.with_children yosys obj_name body ds)
              decl
              w
      ])
  with_body t f cs as' decl none b h e = cc
  with_body t f cs as' decl (some body) b h e =
      let no_wires : Wires = record { continue_wire = false; break_wire = false } in
      let out = Loop.transform_block yosys obj_name (children body) no_wires in
      finish-Succeeds t f cs as' (Loop.with_children yosys obj_name body out.0) decl out.1 h

  transform-Succeeds :
      (t : AstNodeType) (f : Fields) (n : AstNode) (ns : Nodes) (as' : Attributes) (decl : AstNode)
      → is_loop t ≡ true
      → Succeeds (transform_breaks_continues yosys obj_name (node t f (cons n ns) as') decl)
  unfolding transform_breaks_continues
  transform-Succeeds t f n ns as' decl h =
      let (b, e) = back-cons n ns in with_body t f (cons n ns) as' decl _ b h e

  -- A loop was made.
  unfoldable pub IsMade : Outcome → Type 0
  IsMade o = (m : AstNode) × (o ≡ made m)

  outcome-IsMade : (r : Loop.Result (AstNode × AstNode)) → Succeeds r → IsMade (outcome r)
  unfolding Succeeds IsMade outcome
  outcome-IsMade r ((loop, block), e) = (_, ap outcome e)

  close_loop-IsMade :
      (t : AstNodeType) (name : Text) (loop_id : ℕ) (declarations : List AstNode) (c : AstNode)
      (rest : List AstNode)
      → is_loop t ≡ true
      → IsMade (close_loop yosys obj_name t name loop_id declarations (c ∷ rest))
  unfolding close_loop
  close_loop-IsMade t name loop_id declarations c rest h =
      outcome-IsMade _ (transform-Succeeds t _ c (of_list rest) _ _ h)

  for_parts-IsMade :
      (name : Text) (loop_id : ℕ) (declarations inits : List AstNode) (c : AstNode)
      (rest : List AstNode)
      → IsMade (close_loop yosys obj_name ast_for name loop_id declarations (inits ++ c ∷ rest))
  unfolding is_loop
  for_parts-IsMade name loop_id declarations [] c rest =
      close_loop-IsMade ast_for name loop_id declarations c rest refl
  for_parts-IsMade name loop_id declarations (i ∷ inits) c rest =
      close_loop-IsMade ast_for name loop_id declarations i (inits ++ c ∷ rest) refl

  -- A loop that has a condition and a body is made, whichever breaks and continues the body holds:
  -- the transformation always supports the loop, and finds a last child. Of a `for` loop the
  -- initialization must be of assignments that have a left side, and the body may be missing.
  pub process_while-IsMade :
      {Handle : Type 0} (vpi : Vpi Handle) (loop_id : ℕ) (h : Handle) (c s : AstNode)
      (inits : List AstNode × List AstNode)
      → visit_one_to_one vpi (vpi_condition ∷ []) h ≡ some c ∷ []
      → visit_one_to_one vpi (vpi_stmt ∷ []) h ≡ some s ∷ []
      → for_inits (visit_one_to_many vpi (vpi_for_init_stmt ∷ []) h) ≡ some inits
      → IsMade (process_while yosys obj_name vpi loop_id h)
        × IsMade (process_repeat yosys obj_name vpi loop_id h)
        × IsMade (process_for yosys obj_name vpi loop_id h)
  unfolding process_while process_repeat process_for conditional_loop for_loop all_present is_loop
  process_while-IsMade vpi loop_id h c s (wires, inits) ec es ei = (
    subst₂
        (λ cs ss. IsMade (
          conditional_loop yosys obj_name ast_while (codes "$whiledecl_block") loop_id
            (Loops.while_body yosys obj_name) (all_present cs) (all_present ss)))
        (sym ec) (sym es) (close_loop-IsMade ast_while _ loop_id [] c _ refl),
    subst₂
        (λ cs ss. IsMade (
          conditional_loop yosys obj_name ast_repeat (codes "$repeatdecl_block") loop_id
            (Loops.repeat_body yosys obj_name) (all_present cs) (all_present ss)))
        (sym ec) (sym es) (close_loop-IsMade ast_repeat _ loop_id [] c _ refl),
    subst₂
        (λ is cs. IsMade (
          for_loop yosys obj_name loop_id is (all_present cs)
            (visit_one_to_many vpi (vpi_for_inc_stmt ∷ []) h)
            (Loops.only_present yosys obj_name (visit_one_to_one vpi (vpi_stmt ∷ []) h))))
        (sym ei) (sym ec) (for_parts-IsMade _ loop_id wires inits c _),
  )
