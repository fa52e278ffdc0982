-- ===== src/Hierarchy/Initials.antt =====
-- src/frontends/systemverilog/uhdm_ast.cc, `visit_default_expr`: the initial value of a variable becomes
-- an assignment in the initial of its module.
use synlig.Common.{Bool, true, false, [], ◌∷◌, if◌then◌else◌, ◌≡◌, refl, sym, ap, if_elim}
use mathlib.Core.Path.{subst}
use synlig.Common.Text.{Text}
use synlig.Ast
use synlig.Ast.{
  AstNode, AstNodeType, Nodes, node, nil, cons, empty, new_fields, of_list, type, children,
  ast_item, ast_block, ast_identifier, ast_assign_eq,
}
use synlig.Hierarchy.{before_always, has_initial, is_initial}
use synlig.Hierarchy.Tidy.{IsTidy, AreTidy, key, keys, before_always-IsTidy}

abbrev pub is_assign_eq : AstNodeType → Bool
is_assign_eq ast_assign_eq = true
is_assign_eq _ = false

abbrev pub assign_node : Text → AstNode → AstNode
assign_node name expr_node =
    node ast_assign_eq new_fields
      (of_list (node ast_identifier (record new_fields { str = name }) nil empty ∷ expr_node ∷ []))
      empty

-- In front of the first assignment, or at the end.
unfoldable pub before_assign : AstNode → Nodes → Nodes
before_assign assign nil = cons assign nil
before_assign assign (cons n ns) =
    let rest = before_assign assign ns in
    if is_assign_eq (type n) then cons assign (cons n ns) else cons n rest

abbrev pub into_block : AstNode → AstNode → AstNode
into_block assign (node t f cs as') = node t f (before_assign assign cs) as'

-- The first child of the initial gets the assignment; a block where there is none.
unfoldable pub into_initial : AstNode → AstNode → AstNode
into_initial assign (node t f nil as') =
    node t f (cons (node ast_block new_fields (cons assign nil) empty) nil) as'
into_initial assign (node t f (cons b cs) as') = node t f (cons (into_block assign b) cs) as'

unfoldable pub into_first_initial : AstNode → Nodes → Nodes
into_first_initial assign nil = nil
into_first_initial assign (cons n ns) =
    let rest = into_first_initial assign ns in
    if is_initial (type n) then cons (into_initial assign n) ns else cons n rest

abbrev pub new_initial : AstNode
new_initial = node (ast_item Ast.initial) new_fields nil empty

-- The children of the module, with the assignment of the value to the variable.
unfoldable pub visit_default_expr : Nodes → Text → AstNode → Nodes
visit_default_expr ns name expr_node =
    let assign = assign_node name expr_node in
    let with_initial = before_always new_initial ns in
    if has_initial ns then into_first_initial assign ns else into_first_initial assign with_initial

key-into_initial : (assign n : AstNode) → key (into_initial assign n) ≡ key n
unfolding into_initial
key-into_initial assign (node t f nil as') = refl
key-into_initial assign (node t f (cons b cs) as') = refl

keys-into_first_initial :
    (assign : AstNode) (ns : Nodes) → keys (into_first_initial assign ns) ≡ keys ns
unfolding into_first_initial
keys-into_first_initial assign nil = refl
keys-into_first_initial assign (cons n ns) =
    if_elim (λ ms. keys ms ≡ key n ∷ keys ns) (is_initial (type n)) _ _
      (λ e. ap (λ k. k ∷ keys ns) (key-into_initial assign n))
      (λ e. ap (◌∷◌ (key n)) (keys-into_first_initial assign ns))

-- The names of the children of a module stay different, and there is one initial at most, also when
-- the value of a variable has been put into it.
pub visit_default_expr-IsTidy :
    (ns : Nodes) (name : Text) (expr_node : AstNode)
    → IsTidy ns
    → IsTidy (visit_default_expr ns name expr_node)
unfolding visit_default_expr
visit_default_expr-IsTidy ns name expr_node h =
    let assign = assign_node name expr_node in
    if_elim IsTidy (has_initial ns) _ _
      (λ e. subst AreTidy (sym (keys-into_first_initial assign ns)) h)
      (λ e.
        subst AreTidy (sym (keys-into_first_initial assign (before_always new_initial ns)))
          (before_always-IsTidy new_initial ns refl e h))
