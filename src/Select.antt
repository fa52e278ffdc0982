-- ===== src/Select.antt =====
-- src/frontends/systemverilog/uhdm_ast.cc, `traverse_dimensions`: the selects of one struct member
-- become an offset and a width.
pub mod Value
pub mod Position
pub mod Access
pub mod Part
mod Tests
use synlig.Common.{
  ℕ, zero, suc, ◌≤◌, Bool, true, false, not, ◌&&◌, List, [], ◌∷◌, Option, none, some, ◌==◌, ltb,
  length, if◌then◌else◌,
}
use synlig.Common.Int.{pos, ◌-ℤ◌}
use synlig.Common.Word.{add32, sub32, mul32, to_u32, u32_mod}
use synlig.Ast.{
  AstNode, AstNodeType, Dimension, Nodes, node, nil, cons, empty, new_fields, children, integer,
  type,
}
use synlig.Ast.{ast_add, ast_sub, ast_mul, ast_constant}
use synlig.Yosys.{Yosys}

-- `new AstNode(type, a, b)`.
abbrev pub binary : AstNodeType → AstNode → AstNode → AstNode
binary t a b = node t new_fields (cons a (cons b nil)) empty

unfoldable pub is_constant : AstNode → Bool
is_constant (node ast_constant f cs as') = true
is_constant _ = false

-- The suffix products of the widths of the dimensions, and the product of all.
unfoldable pub suffix_sizes : List Dimension → List ℕ × ℕ
suffix_sizes [] = ([], 1)
suffix_sizes (d ∷ ds) =
    let (sizes, size) = suffix_sizes ds in (size ∷ sizes, mul32 size (to_u32 d.range_width))

-- A constant index, counted from the low end of its dimension.
unfoldable pub constant_index : Dimension → ℕ → ℕ
constant_index d v =
    let offset = sub32 v (to_u32 d.range_right) in
    if d.range_swapped then sub32 (sub32 (to_u32 d.range_width) offset) 1 else offset

-- `right_node`, `right_offset` and `is_variable_indexed`.
pub record Walk : Type 0 where
  pub right_node : AstNode
  pub right_offset : ℕ
  pub is_variable_indexed : Bool

-- `select_width`, or the node `select_width_node` where an index is variable.
pub data Width : Type 0 where
  width_value : ℕ → Width
  width_node : AstNode → Width

-- The offset and the width of a select.
abbrev pub Selection : Type 0
Selection = AstNode × AstNode

module _ (yosys : Yosys) where
  open yosys use {mkconst_int}

  abbrev pub constant : ℕ → AstNode
  constant v = mkconst_int v false 32

  -- The same index as a node.
  unfoldable pub index_node : Dimension → AstNode → AstNode
  index_node d n =
      let offset = binary ast_sub n (constant (to_u32 d.range_right)) in
      if d.range_swapped
      then binary ast_sub (constant (to_u32 (d.range_width -ℤ pos 1))) offset
      else offset

  -- The constant part so far goes into the node, if it is not zero.
  unfoldable pub flush : Walk → AstNode
  flush w =
      if w.right_offset == 0
      then w.right_node
      else binary ast_add w.right_node (constant w.right_offset)

  -- A round of the loop over all selects but the last.
  unfoldable pub step : Dimension → ℕ → AstNode → Walk → Walk
  step d size n w =
      if is_constant n
      then record w {
        right_offset = add32 w.right_offset (mul32 (constant_index d (integer n)) size);
      }
      else record {
        right_node = binary ast_add (binary ast_mul (index_node d n) (constant size)) (flush w);
        right_offset = 0;
        is_variable_indexed = true;
      }

  -- The last select, with one index.
  unfoldable pub last_index : Dimension → ℕ → AstNode → Walk → Walk × Width
  last_index d size n w =
      if is_constant n && not w.is_variable_indexed
      then (
        record w {
          right_offset = add32 w.right_offset (mul32 (constant_index d (integer n)) size);
        },
        width_value size,
      )
      else (
        record {
          right_node = binary ast_add (flush w) (binary ast_mul (index_node d n) (constant size));
          right_offset = 0;
          is_variable_indexed = true;
        },
        width_node (constant size),
      )

  -- The last select, with two indices.
  unfoldable pub last_range : Dimension → ℕ → AstNode → AstNode → Walk → Walk × Width
  last_range d size l r w =
      if (is_constant l && is_constant r) && not w.is_variable_indexed
      then (let left = constant_index d (integer l) in
          let right = constant_index d (integer r) in
          let low = if ltb right left then right else left in
          let high = if ltb left right then right else left in
          (
            record w { right_offset = add32 w.right_offset (mul32 low size) },
            width_value (mul32 size (add32 (sub32 high low) 1)),
          ))
      else (let left = if d.range_swapped then index_node d r else index_node d l in
          let right = if d.range_swapped then index_node d l else index_node d r in
          (
            record {
              right_node = binary ast_add w.right_node (binary ast_mul right (constant size));
              right_offset = w.right_offset;
              is_variable_indexed = true;
            },
            width_node (
                binary ast_mul (constant size)
                  (binary ast_add (constant 1) (binary ast_sub left right))),
          ))

  -- The last select: a range node with one child or two, the latter only in the last access.
  unfoldable pub last_select : Dimension → ℕ → Nodes → Bool → Walk → Option (Walk × Width)
  last_select d size (cons n nil) last_access w = some (last_index d size n w)
  last_select d size (cons l (cons r nil)) last_access w =
      if last_access then some (last_range d size l r w) else none
  last_select d size _ last_access w = none

  -- Where all selects are constant, so are the results. `none` is a failed assertion.
  unfoldable pub finish : ℕ → Option (Walk × Width) → Option Selection
  unfolding flush
  finish substructure_size none = none
  finish substructure_size (some (w, width)) =
      if w.is_variable_indexed
      then elim width [
        | width_value v ↦ none
        | width_node n ↦ some (
          binary ast_mul (flush w) (constant substructure_size),
          binary ast_mul n (constant substructure_size),
        )
      ]
      else elim width [
        | width_value v ↦ some (
          constant (mul32 w.right_offset substructure_size),
          constant (mul32 v substructure_size),
        )
        | width_node n ↦ none
      ]

  -- The loop, over the dimensions, their suffix sizes and the selects.
  unfoldable pub walk : List Dimension → List ℕ → List AstNode → Bool → Walk → Option (Walk × Width)
  walk (d ∷ []) (size ∷ []) (r ∷ []) last_access w = last_select d size (children r) last_access w
  walk (d ∷ e ∷ ds) (size ∷ sizes) (r ∷ rs) last_access w = elim (children r) [
    | cons n ns ↦ elim ns [ nil ↦ walk (e ∷ ds) sizes rs last_access (step d size n w) | _ ↦ none ]
    | nil ↦ none
  ]
  walk _ _ _ last_access w = none

  abbrev pub start : Walk
  start = record { right_node = constant 0; right_offset = 0; is_variable_indexed = false }

  unfoldable pub traverse_dimensions : List Dimension → List AstNode → ℕ → Bool → Option Selection
  traverse_dimensions dimensions ranges substructure_size last_access =
      if length dimensions == length ranges
      then elim dimensions [
        | [] ↦ some (constant 0, constant substructure_size)
        | d ∷ ds ↦
            finish substructure_size
              (walk (d ∷ ds) (suffix_sizes (d ∷ ds)).0 ranges last_access start)
      ]
      else none
