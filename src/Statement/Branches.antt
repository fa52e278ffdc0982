-- ===== src/Statement/Branches.antt =====
-- Which branch a case selects, and the shape of a case item.
use mathlib.Core.Path.{subst, ap₂}
use synlig.Common.{
  ℕ, ◌≡◌, Bool, true, false, not, map, List, [], ◌∷◌, Option, none, some, ◌==◌, if◌then◌else◌, refl,
  sym, ap, ◌∙◌,
}
use synlig.Common.Text.{Text}
use synlig.Ast.{
  AstNode, AstNodeType, Nodes, Attributes, node, nil, cons, empty, new_fields, type, children,
  of_list, ◌++ₙ◌, ast_item, ast_block, default,
}
use synlig.Loop.{make_ast_node}
use synlig.Operation.Meaning.{bit, value, operate_unary}
use synlig.Statement.{is_block}
use synlig.Statement.Blocks.{append-nil}
use synlig.Statement.Cases.{
  plain_node, branch_blocks, reduce_bools, else_arms, if_else_node, if_else_of, process_if_else,
  process_case_item, item_statement, item_statements, or_default, CaseType, ItemExpr, plain,
  case_item_of, item_exprs, cond_type,
}
use synlig.Statement.Loops.{all_present}
use synlig.Vpi.{Vpi, process_objects, visit_one_to_one, vpi_stmt, vpi_else_stmt, vpi_condition}
use synlig.Yosys.{Yosys}

unfoldable pub is_default : AstNodeType → Bool
is_default (ast_item default) = true
is_default _ = false

-- The block of a branch.
abbrev pub branch : Option AstNode → AstNode
branch none = plain_node ast_block nil
branch (some n) = plain_node ast_block (cons n nil)

two_branches :
    (z d : Bool) (k : ℕ) (x y : Option AstNode)
    → d ≡ false
    → k ≡ 1
    → (if d then x else if k == bit (not z) then x else y) ≡ (if z then y else x)
two_branches z true k x y hd hk = cc
two_branches true false k x y hd hk = subst (λ j. (if j == 0 then x else y) ≡ y) (sym hk) refl
two_branches false false k x y hd hk = subst (λ j. (if j == 1 then x else y) ≡ x) (sym hk) refl

if_then :
    (z : Bool) (x y y' : Option AstNode) → y ≡ y' → (if z then y else x) ≡ (if z then y' else x)
if_then true x y y' h = h
if_then false x y y' h = refl

module _ (width : ℕ) (env : AstNode → ℕ) where
  -- The body of the first arm that is the default, or whose value is the given one.
  unfoldable pub select : ℕ → Nodes → Option AstNode
  select v nil = none
  select v (cons (node t f (cons c (cons body nil)) as') arms) =
      let rest = select v arms in
      if is_default (type c) then some body else if value width env c == v then some body else rest
  select v (cons n arms) = select v arms

  unfoldable pub selected : AstNode → Option AstNode
  selected (node t f (cons c arms) as') = select (value width env c) arms
  selected (node t f nil as') = none

  module _ (yosys : Yosys) (obj_name : Text) where
    open yosys use {mkconst_int, mkconst_int_type}

    not_default : is_default (type (mkconst_int 1 false 1)) ≡ false
    unfolding is_default
    not_default = ap is_default (mkconst_int_type 1 false 1)

    select_else :
        (v : ℕ) (has_else : Bool) (o' : Option AstNode)
        → select v (of_list (else_arms has_else (branch o' ∷ [])))
          ≡ (if has_else then some (branch o') else none)
    unfolding select else_arms is_default
    select_else v true o' = refl
    select_else v false o' = refl

    select-if_else_node :
        (c : AstNode) (o o' : Option AstNode) (has_else : Bool)
        → value width env (mkconst_int 1 false 1) ≡ 1
        → selected (if_else_node yosys obj_name (c ∷ []) (branch o ∷ []) has_else (branch o' ∷ []))
          ≡ (if value width env c == 0
              then (if has_else then some (branch o') else none)
              else some (branch o))
    unfolding selected select if_else_node make_ast_node else_arms reduce_bools value operate_unary
        is_default
    select-if_else_node c o o' has_else one =
        two_branches (value width env c == 0) _ _ (some (branch o)) _ not_default one
        ∙ if_then (value width env c == 0) (some (branch o)) _ _ (select_else _ has_else o')

    -- The blocks of one branch.
    branch_blocks-one : (o : Option AstNode) → branch_blocks (o ∷ []) ≡ branch o ∷ []
    unfolding branch_blocks
    branch_blocks-one none = refl
    branch_blocks-one (some n) = refl

    if_else_of-selected :
        {Handle : Type 0} (vpi : Vpi Handle) (c : AstNode) (o : Option AstNode) (has_else : Bool)
        (es : List (Option AstNode)) (o' : Option AstNode)
        → value width env (mkconst_int 1 false 1) ≡ 1
        → (has_else ≡ true → es ≡ o' ∷ [])
        → (n : AstNode) × ((if_else_of yosys obj_name vpi (some (c ∷ [])) (o ∷ []) has_else es
              ≡ some n)
            × (selected n ≡ (
                if value width env c == 0
                then (if has_else then some (branch o') else none)
                else some (branch o))))
    unfolding if_else_of if_else_node else_arms
    if_else_of-selected vpi c o true es o' one ee = (
      if_else_node yosys obj_name (c ∷ []) (branch_blocks (o ∷ [])) true (branch_blocks es),
      (
        refl,
        ap₂ (λ bs bs'. selected (if_else_node yosys obj_name (c ∷ []) bs true bs'))
              (branch_blocks-one o) (ap branch_blocks (ee refl) ∙ branch_blocks-one o')
            ∙ select-if_else_node c o o' true one,
      ),
    )
    if_else_of-selected vpi c o false es o' one ee = (
      if_else_node yosys obj_name (c ∷ []) (branch_blocks (o ∷ [])) false (branch_blocks es),
      (
        refl,
        ap (λ bs. selected (if_else_node yosys obj_name (c ∷ []) bs false (branch o' ∷ [])))
              (branch_blocks-one o)
            ∙ select-if_else_node c o o' false one,
      ),
    )

    -- The case that a conditional statement becomes selects the block of its first statement where
    -- the condition is not zero. Else it selects that of the second one, if it is an `if` with an
    -- `else`, and nothing if it has none, whatever the visit of the `else` gives. The block of a null
    -- pointer is empty. The constant one must have the value 1 in `env`.
    pub process_if_else-selected :
        {Handle : Type 0} (vpi : Vpi Handle) (is_if_else : Handle → Bool) (h : Handle) (c : AstNode)
        (o o' : Option AstNode)
        → value width env (mkconst_int 1 false 1) ≡ 1
        → visit_one_to_one vpi (vpi_condition ∷ []) h ≡ some c ∷ []
        → visit_one_to_one vpi (vpi_stmt ∷ []) h ≡ o ∷ []
        → (is_if_else h ≡ true → visit_one_to_one vpi (vpi_else_stmt ∷ []) h ≡ o' ∷ [])
        → (n : AstNode) × ((process_if_else yosys obj_name vpi is_if_else h ≡ some n)
            × (selected n ≡ (
                if value width env c == 0
                then (if is_if_else h then some (branch o') else none)
                else some (branch o))))
    unfolding process_if_else all_present
    process_if_else-selected vpi is_if_else h c o o' one ec es ee =
        let else_nodes = visit_one_to_one vpi (vpi_else_stmt ∷ []) h in
        let (n, made) = if_else_of-selected vpi c o (is_if_else h) else_nodes o' one ee in
        (
          n,
          (
            ap₂
                  (λ cs ss.
                    if_else_of yosys obj_name vpi (all_present cs) ss (is_if_else h) else_nodes)
                  ec es
                ∙ made.0,
            made.1,
          ),
        )

append_assoc : (a b c : Nodes) → (a ++ₙ b) ++ₙ c ≡ a ++ₙ (b ++ₙ c)
append_assoc nil b c = refl
append_assoc (cons n a) b c = ap (cons n) (append_assoc a b c)

-- The labels of a case item: the default where there is no expression.
unfoldable pub labels : List AstNode → Nodes
labels [] = cons (node (ast_item default) new_fields nil empty) nil
labels (n ∷ ns) = of_list (n ∷ ns)

-- The statement itself if it is a block, else a block of it alone.
unfoldable pub IsBodyOf : AstNode → AstNode → Type 0
IsBodyOf s body =
    (type body ≡ ast_block)
    × (is_block (type s) ≡ true → body ≡ s)
    × (is_block (type s) ≡ false → children body ≡ cons s nil)

module _ (yosys : Yosys) (obj_name : Text) where
  IsBodyOf-item_statement : (s : AstNode) → IsBodyOf s (item_statement yosys obj_name s)
  unfolding item_statement is_block IsBodyOf
  IsBodyOf-item_statement (node ast_block f cs as') = (refl, (λ e. refl), λ e. cc)
  IsBodyOf-item_statement (node _ f cs as') = (refl, (λ e. cc), λ e. refl)

  labels-or_default : (ns : List AstNode) → or_default yosys obj_name (of_list ns) ≡ labels ns
  unfolding or_default labels
  labels-or_default [] = refl
  labels-or_default (n ∷ ns) = refl

  module _ {Handle : Type 0} (vpi : Vpi Handle) where
    item_exprs-plain :
        (hs : List Handle) (cs : Nodes) (as' : Attributes)
        → item_exprs yosys obj_name vpi (cs, as') (map plain hs)
          ≡ some (cs ++ₙ of_list (process_objects vpi hs), as')
    unfolding item_exprs process_objects
    item_exprs-plain [] cs as' = ap (λ ns. some (ns, as')) (sym (append-nil cs))
    item_exprs-plain (h ∷ hs) cs as' =
        elim (vpi.process_object h)
          as (λ o.
            elim o [
              | none ↦ item_exprs yosys obj_name vpi (cs, as') (map plain hs)
              | some n ↦ item_exprs yosys obj_name vpi (cs ++ₙ cons n nil, as') (map plain hs)
            ]
            ≡ some (
              cs
                  ++ₙ of_list (elim o [
                    | none ↦ process_objects vpi hs
                    | some n ↦ n ∷ process_objects vpi hs
                  ]),
              as',
            )) [
              | none ↦ item_exprs-plain hs cs as'
              | some n ↦
                  item_exprs-plain hs (cs ++ₙ cons n nil) as'
                  ∙ ap (λ ns. some (ns, as'))
                      (append_assoc cs (cons n nil) (of_list (process_objects vpi hs)))
            ]

    -- A case item of plain expressions with a statement is made, of the type of its case. Its children are
    -- the nodes of the expressions, or the default if there is none, and then one block: the statement
    -- itself if that is a block, else a block of it alone.
    pub process_case_item_lem :
        (case_type : Handle → CaseType) (exprs : Handle → List (ItemExpr Handle)) (h : Handle)
        (s : AstNode) (t : AstNodeType) (hs : List Handle)
        → cond_type (case_type h) ≡ some t
        → exprs h ≡ map plain hs
        → visit_one_to_one vpi (vpi_stmt ∷ []) h ≡ some s ∷ []
        → (n : AstNode) × (body : AstNode) × (process_case_item yosys obj_name vpi case_type exprs h
            ≡ some n)
          × (type n ≡ t)
          × (children n ≡ labels (process_objects vpi hs) ++ₙ cons body nil)
          × IsBodyOf s body
    unfolding process_case_item case_item_of item_statements
    process_case_item_lem case_type exprs h s t hs et ee es =
        let body = item_statement yosys obj_name s in
        let ns = of_list (process_objects vpi hs) in
        (
          node t (record new_fields { str = obj_name })
              (or_default yosys obj_name ns ++ₙ cons body nil) empty,
          body,
          ap₂
                (λ o items.
                  case_item_of yosys obj_name vpi o items (visit_one_to_one vpi (vpi_stmt ∷ []) h))
                et
                (ap (item_exprs yosys obj_name vpi (nil, empty)) ee ∙ item_exprs-plain hs nil empty)
              ∙ ap (case_item_of yosys obj_name vpi (some t) (some (ns, empty))) es,
          refl,
          ap (λ cs. cs ++ₙ cons body nil) (labels-or_default (process_objects vpi hs)),
          IsBodyOf-item_statement s,
        )
