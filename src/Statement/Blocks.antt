-- ===== src/Statement/Blocks.antt =====
-- The blocks that processes and `begin` leave.
use synlig.Common.{
  ℕ, ◌≤◌, ◌≡◌, ◌≢◌, ◌⊎◌, inl, inr, true, false, List, [], ◌∷◌, Option, none, some, if◌then◌else◌,
  refl, ap, ◌∙◌, if_elim, arith,
}
use synlig.Common.Decimal.{to_string_injective}
use synlig.Common.Text.{Text}
use synlig.Ast.{
  AstNode, Nodes, nil, cons, type, children, str, back, before_back, ◌++ₙ◌, first, ast_block,
}
use synlig.Loop.{make_ast_node}
use synlig.Statement.{
  AlwaysType, is_block, ends_in_block, attach, attach_all, always_node, initial_node,
  process_always, process_initial, begin_block, unnamed_name,
}
use synlig.Vpi.{Vpi, visit_one_to_one, vpi_stmt}
use synlig.Yosys.{Yosys}

-- The statement `n` behind `inserted` became the last child `body` behind `before`: a block as it is,
-- else the last statement of a block that holds a part of what had been inserted before it.
unfoldable pub IsAttached : Nodes → AstNode → Nodes → AstNode → Type 0
IsAttached inserted n before body =
    ((is_block (type n) ≡ true) × (body ≡ n) × (before ≡ inserted))
    ⊎ ((is_block (type n) ≡ false)
        × (type body ≡ ast_block)
        × ((front : Nodes) × ((children body ≡ front ++ₙ cons n nil)
              × (before ++ₙ front ≡ inserted))))

before_back-back :
    (ns : Nodes) (b : AstNode) → back ns ≡ some b → before_back ns ++ₙ cons b nil ≡ ns
before_back-back nil b h = cc
before_back-back (cons n nil) b h = cc
before_back-back (cons n (cons m ns)) b h = ap (cons n) (before_back-back (cons m ns) b h)

pub append-nil : (ns : Nodes) → ns ++ₙ nil ≡ ns
append-nil nil = refl
append-nil (cons n ns) = ap (cons n) (append-nil ns)

module _ (yosys : Yosys) (obj_name : Text) where
  -- The children of the process are these.
  abbrev Attaches : Nodes → AstNode → Option Nodes → Type 0
  Attaches inserted n cs =
      (before : Nodes) × ((body : AstNode) × ((cs ≡ some (before ++ₙ cons body nil))
          × IsAttached inserted n before body))

  alone :
      (inserted : Nodes) (n : AstNode)
      → is_block (type n) ≡ false
      → Attaches inserted n
          (some (inserted ++ₙ cons (make_ast_node yosys obj_name ast_block (cons n nil)) nil))
  unfolding IsAttached make_ast_node
  alone inserted n z = (inserted, (_, (refl, inr (z, refl, (nil, (refl, append-nil inserted))))))

  implicit_block :
      (inserted : Nodes) (n : AstNode) (b : Option AstNode)
      → back inserted ≡ b
      → is_block (type n) ≡ false
      → Attaches inserted n (
          if elim b [ none ↦ false | some m ↦ is_block (type m) ]
          then elim b [
            | none ↦ none
            | some m ↦ some (
                before_back inserted
                ++ₙ cons (make_ast_node yosys obj_name ast_block (cons m (cons n nil))) nil)
          ]
          else some (inserted ++ₙ cons (make_ast_node yosys obj_name ast_block (cons n nil)) nil))
  unfolding IsAttached make_ast_node
  implicit_block inserted n none e z = alone inserted n z
  implicit_block inserted n (some m) e z =
      if_elim (Attaches inserted n) (is_block (type m)) _ _
        (λ _. (
          before_back inserted,
          (_, (refl, inr (z, refl, (cons m nil, (refl, before_back-back inserted m e))))),
        ))
        (λ _. alone inserted n z)

  attach-IsAttached :
      (inserted : Nodes) (n : AstNode)
      → Attaches inserted n (attach yosys obj_name inserted (some n))
  unfolding attach ends_in_block IsAttached
  attach-IsAttached inserted n =
      if_elim (Attaches inserted n) (is_block (type n)) _ _
        (λ z. (inserted, (n, (refl, inl (z, refl, refl)))))
        (λ z. implicit_block inserted n (back inserted) refl z)

  abbrev pub children_of : Option AstNode → Option Nodes
  children_of none = none
  children_of (some n) = some (children n)

  attach_done : (o : Option Nodes) → attach_all yosys obj_name o [] ≡ o
  unfolding attach_all
  attach_done none = refl
  attach_done (some cs) = refl

  attach_one :
      (inserted : Nodes) (n : AstNode)
      → attach_all yosys obj_name (some inserted) (some n ∷ [])
        ≡ attach yosys obj_name inserted (some n)
  unfolding attach_all
  attach_one inserted n = attach_done (attach yosys obj_name inserted (some n))

  children-always_node :
      (t : AlwaysType) (cs : Nodes) → children_of (always_node yosys obj_name t (some cs)) ≡ some cs
  unfolding always_node make_ast_node
  children-always_node t cs = refl

  children-initial_node :
      (cs : Nodes) → children_of (initial_node yosys obj_name (some cs)) ≡ some cs
  unfolding initial_node make_ast_node
  children-initial_node cs = refl

  -- The process of a statement, `always` or `initial`, ends in one child that is a block, the
  -- statement itself or an implicit block that it ends; nothing that had been inserted before is
  -- lost or moved behind other nodes.
  pub process_always-IsAttached :
      {Handle : Type 0} (vpi : Vpi Handle) (always_type : Handle → AlwaysType) (inserted : Nodes)
      (h : Handle) (n : AstNode)
      → visit_one_to_one vpi (vpi_stmt ∷ []) h ≡ some n ∷ []
      → (before : Nodes) × ((body : AstNode) × ((children_of
                (process_always yosys obj_name vpi always_type inserted h)
              ≡ some (before ++ₙ cons body nil))
            × (children_of (process_initial yosys obj_name vpi inserted h)
                ≡ some (before ++ₙ cons body nil))
            × IsAttached inserted n before body))
  unfolding process_always process_initial
  process_always-IsAttached vpi always_type inserted h n e =
      let (before, rest) = attach-IsAttached inserted n in
      let (body, facts) = rest in
      let cs = ap (attach_all yosys obj_name (some inserted)) e ∙ attach_one inserted n ∙ facts.0 in
      (
        before,
        (
          body,
          (
            ap (λ c. children_of (always_node yosys obj_name (always_type h) c)) cs
                ∙ children-always_node (always_type h) (before ++ₙ cons body nil),
            ap (λ c. children_of (initial_node yosys obj_name c)) cs
                ∙ children-initial_node (before ++ₙ cons body nil),
            facts.1,
          ),
        ),
      )

-- The name of the scope of a block.
unfoldable pub scope_name : AstNode → Text
scope_name n = elim (first (children n)) [ none ↦ [] | some scope ↦ str scope ]

unnamed_name_injective : (m n : ℕ) → unnamed_name m ≡ unnamed_name n → m ≡ n
unnamed_name_injective m n h = to_string_injective m n (ap behind h)
  where
    behind : Text → Text
    behind (_ ∷ _ ∷ _ ∷ _ ∷ _ ∷ _ ∷ _ ∷ _ ∷ _ ∷ _ ∷ _ ∷ _ ∷ _ ∷ _ ∷ _ ∷ t) = t
    behind _ = []

-- The scopes of two unnamed blocks, of which the second is made with a number that has come from the
-- first or from a later one, have different names.
pub scope_name-begin_block :
    (name name' : Text) (v v' : AstNode) (vs vs' statements statements' : List AstNode)
    (idx later : ℕ)
    → (begin_block name false (v ∷ vs) statements idx).1 ≤ later
    → scope_name (begin_block name false (v ∷ vs) statements idx).0
      ≢ scope_name (begin_block name' false (v' ∷ vs') statements' later).0
unfolding begin_block scope_name
scope_name-begin_block name name' v v' vs vs' statements statements' idx later h e =
    let same = unnamed_name_injective idx later e in absurd (omega arith)
