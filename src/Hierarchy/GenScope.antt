-- ===== src/Hierarchy/GenScope.antt =====
-- src/frontends/systemverilog/uhdm_ast.cc, `process_gen_scope`: the block of a generate scope.
use synlig.Common.{ℕ, Bool, true, false, List, [], ◌∷◌, Option, none, some, if◌then◌else◌, if_elim}
use synlig.Common.Int.{ℤ}
use synlig.Common.Text.{Text, codes}
use synlig.Ast.{AstNode, Nodes, nil}
use synlig.Attributes.{get_attribute}
use synlig.Hierarchy.{add_or_replace_child}
use synlig.Hierarchy.Tidy.{IsTidy, HoldsOf, result-IsTidy}
use synlig.Hierarchy.Typedefs.{Moved, move_type_to_new_typedef}
use synlig.Yosys.{Yosys}

abbrev pub then_add : Option Nodes → (Nodes → Option Nodes) → Option Nodes
then_add none next = none
then_add (some ns) next = next ns

abbrev pub is_type_parameter : Option AstNode → Bool
is_type_parameter none = false
is_type_parameter (some v) = true

-- The items that are no type parameters, one after the other.
unfoldable pub add_items : Nodes → List (Option AstNode) → Option Nodes
add_items ns [] = some ns
add_items ns (none ∷ items) = add_items ns items
add_items ns (some n ∷ items) =
    let skipped = add_items ns items in
    let added = then_add (add_or_replace_child ns n) (λ ms. add_items ms items) in
    if is_type_parameter (get_attribute n (codes "$synlig$is_type_parameter"))
    then skipped
    else added

module _ (yosys : Yosys) (mkconst_str : Text → AstNode)
    (as_string : AstNode → ℤ → Bool → Text) where
  abbrev pub then_move : Option Moved → (Nodes → ℕ → Option Moved) → Option Moved
  then_move none next = none
  then_move (some (ns, id)) next = next ns id

  unfoldable pub add_types : Nodes → ℕ → List (Option AstNode) → Option Moved
  add_types ns id [] = some (ns, id)
  add_types ns id (none ∷ types) = add_types ns id types
  add_types ns id (some n ∷ types) =
      then_move (move_type_to_new_typedef yosys mkconst_str as_string ns n id)
        (λ ms id'. add_types ms id' types)

  abbrev pub with_items : List (Option AstNode) → Option Moved → Option Moved
  with_items items none = none
  with_items items (some (ns, id)) = elim (add_items ns items) [
    | none ↦ none
    | some ms ↦ some (ms, id)
  ]

  -- The children of the block, and the number of the next enum; none where an assertion fails.
  unfoldable pub process_gen_scope :
      List (Option AstNode) → List (Option AstNode) → ℕ → Option Moved
  process_gen_scope types items id = with_items items (add_types nil id types)

then-HoldsOf :
    (o : Option Nodes) (next : Nodes → Option Nodes)
    → HoldsOf IsTidy o
    → ((ms : Nodes) → IsTidy ms → HoldsOf IsTidy (next ms))
    → HoldsOf IsTidy (then_add o next)
then-HoldsOf none next h k = tt
then-HoldsOf (some ms) next h k = k ms h

-- The items keep the names of the children different, and one initial at most among them.
pub add_items-IsTidy :
    (ns : Nodes) (items : List (Option AstNode)) → IsTidy ns → HoldsOf IsTidy (add_items ns items)
unfolding add_items
add_items-IsTidy ns [] h = h
add_items-IsTidy ns (none ∷ items) h = add_items-IsTidy ns items h
add_items-IsTidy ns (some n ∷ items) h =
    if_elim (HoldsOf IsTidy)
      (is_type_parameter (get_attribute n (codes "$synlig$is_type_parameter"))) (add_items ns items)
      _ (λ e. add_items-IsTidy ns items h)
      (λ e.
        then-HoldsOf (add_or_replace_child ns n) (λ ms. add_items ms items) (result-IsTidy ns n h)
          (λ ms k. add_items-IsTidy ms items k))
