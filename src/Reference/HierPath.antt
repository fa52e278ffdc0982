-- ===== src/Reference/HierPath.antt =====
-- src/frontends/systemverilog/uhdm_ast.cc, `process_hier_path`: a path of names becomes a name with dots
-- one below the other.
use synlig.Common.{Bool, true, false, ◌==◌, List, [], ◌∷◌, Option, none, some, if◌then◌else◌}
use synlig.Common.Text.{Text}
use synlig.Ast.{AstNode, node, nil, cons, ◌++ₙ◌, set_type, ast_dot, ast_identifier}

-- The name up to the first '['.
unfoldable pub without_index : Text → Text
without_index [] = []
without_index (c ∷ s) = let rest = without_index s in if c == 91 then [] else c ∷ rest

abbrev pub cut_index : AstNode → AstNode
cut_index (node t f cs as') = node t (record f { str = without_index f.str }) cs as'

abbrev pub is_named_identifier : AstNode → Bool
is_named_identifier (node ast_identifier f cs as') = elim (f.str) [ [] ↦ false | c ∷ s ↦ true ]
is_named_identifier _ = false

abbrev pub push_back_child : AstNode → AstNode → AstNode
push_back_child (node t f cs as') n = node t f (cs ++ₙ cons n nil) as'

abbrev pub push_below : AstNode → Option AstNode → Option AstNode
push_below top none = none
push_below top (some n) = some (push_back_child top n)

-- The nodes behind the first one. None when the first child of a node without children is read.
unfoldable pub extend_path : AstNode → List (Option AstNode) → Option AstNode
extend_path top [] = some top
extend_path top (none ∷ ns) = extend_path top ns
extend_path top (some (node t f cs as') ∷ ns) =
    let n = cut_index (node t f cs as') in
    let below = push_below top (extend_path (set_type ast_dot n) ns) in
    let beside : Option AstNode = elim cs [
      | nil ↦ none
      | cons c rest ↦ extend_path (push_back_child top c) ns
    ] in
    if is_named_identifier n then below else beside

-- A path without a node leaves a null pointer.
unfoldable pub process_hier_path : List (Option AstNode) → Option (Option AstNode)
process_hier_path [] = some none
process_hier_path (none ∷ ns) = process_hier_path ns
process_hier_path (some n ∷ ns) = elim (extend_path (cut_index n) ns) [
  | none ↦ none
  | some top ↦ some (some top)
]
