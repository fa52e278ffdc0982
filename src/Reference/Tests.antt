-- ===== src/Reference/Tests.antt =====
-- An indexed part select of the objects of `Vpi.Model`: base and width are both 3.
use synlig.Common.{ℕ, ◌≡◌, ◌∷◌, [], true, some, refl, arith}
use synlig.Common.Text.{Text, codes}
use synlig.Ast.{
  AstNode, Nodes, AstNodeType, node, nil, cons, empty, new_fields, integer, ast_identifier, ast_dot,
}
use synlig.Operation.Meaning.{value}
use synlig.Reference.{process_indexed_part_select}
use synlig.Reference.Span.{
  SelectsBits, Fits, high_bit, low_bit, process_indexed_part_select-SelectsBits,
}
use synlig.Reference.HierPath.{process_hier_path, extend_path, without_index}
use synlig.Vpi.{visit_one_to_one, actual}
use synlig.Vpi.Model
use synlig.Vpi.Model.{condition}
use synlig.Yosys.Model.{model, mkconst}

abbrev env : AstNode → ℕ
env n = integer n

-- [3 +: 3] is [5:3].
process_indexed_part_select-SelectsBits_example :
    (n : AstNode) × ((process_indexed_part_select model (codes "\\a") Model.model (λ h. true) 0
        ≡ some n)
      × SelectsBits 8 env 5 3 n)
unfolding visit_one_to_one actual value mkconst Fits high_bit low_bit
process_indexed_part_select-SelectsBits_example =
    process_indexed_part_select-SelectsBits 8 env model (codes "\\a") Model.model (λ h. true) 0
      condition condition refl refl refl refl (omega arith) (omega arith) (omega arith)
      (omega arith)

abbrev path_node : AstNodeType → Text → Nodes → AstNode
path_node t name cs = node t (record new_fields { str = name }) cs empty

-- s.a.b, where the first name has an index.
hier_path :
    process_hier_path (
      some (path_node ast_identifier (codes "s[1]") nil)
      ∷ some (path_node ast_identifier (codes "a") nil)
      ∷ some (path_node ast_identifier (codes "b") nil)
      ∷ [])
    ≡ some (
        some (
          path_node ast_identifier (codes "s") (
            cons
              (path_node ast_dot (codes "a") (cons (path_node ast_dot (codes "b") nil) nil))
              nil)))
unfolding process_hier_path extend_path without_index
hier_path = refl
