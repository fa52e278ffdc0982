-- ===== src/Hierarchy/Typedefs.antt =====
-- src/frontends/systemverilog/uhdm_ast.cc, `move_type_to_new_typedef`: a type becomes a typedef among the
-- children of a node.
use mathlib.Core.Path.{subst}
use synlig.Common.{
  ℕ, suc, ◌+◌, ◌%◌, Bool, true, false, [], ◌∷◌, ◌++◌, Option, none, some, if◌then◌else◌, ◌≡◌,
  if_elim, if_true, arith,
}
use synlig.Common.Decimal.{to_string}
use synlig.Common.Int.{ℤ, pos}
use synlig.Common.Word.{u32_mod}
use synlig.Common.Text.{Text, codes, text_eq, text_eq_refl}
use synlig.Ast
use synlig.Ast.{
  AstNode, AstNodeType, Attributes, Nodes, node, nil, cons, empty, new_fields, type, str, fields,
  integer, children, attributes, ◌++ₙ◌, ast_item, ast_typedef, ast_wire, ast_constant,
}
use synlig.Attributes.{lookup, insert}
use synlig.Hierarchy.{has_str}
use synlig.Names.{strip_package_name}
use synlig.Wire.{make_range, to_int}
use synlig.Wire.Convert.{add_multirange_wire}
use synlig.Yosys.{Yosys}

abbrev pub is_enum_type : AstNodeType → Bool
is_enum_type (ast_item Ast.enum) = true
is_enum_type _ = false

abbrev pub is_constant_type : AstNodeType → Bool
is_constant_type ast_constant = true
is_constant_type _ = false

abbrev pub set_str : Text → AstNode → AstNode
set_str s (node t f cs as') = node t (record f { str = s }) cs as'

abbrev pub typedef_node : Text → AstNode → AstNode
typedef_node name child = node ast_typedef (record new_fields { str = name }) (cons child nil) empty

-- The children of the node, with the number of the next enum.
abbrev pub Moved : Type 0
Moved = Nodes × ℕ

-- `mkconst_str` of Yosys, and `bitsAsConst` of a constant at a width, as a text.
module _ (yosys : Yosys) (mkconst_str : Text → AstNode)
    (as_string : AstNode → ℤ → Bool → Text) where
  -- The width of a value with a range is one more than the left bound of the range, a `uint32_t`, as an
  -- `int`.
  unfoldable pub item_width_of : Nodes → Option ℤ
  item_width_of (cons v (cons (node t f (cons left ns) as') nil)) =
      some (to_int ((integer left + 1) % u32_mod))
  item_width_of (cons v (cons (node t f nil as') nil)) = none
  item_width_of cs = some (pos 1)

  abbrev pub value_name : AstNode → Option ℤ → Option Text
  value_name v none = none
  value_name v (some width) = some (codes "\\enum_value_" ++ as_string v width (fields v).is_signed)

  -- None where an assertion fails or an absent node is read.
  unfoldable pub item_name : Nodes → Option Text
  item_name nil = none
  item_name (cons v cs) =
      let name = value_name v (item_width_of (cons v cs)) in
      if is_constant_type (type v) then name else none

  abbrev pub with_item : AstNode → Option Text → Option Attributes → Option Attributes
  with_item c none as' = none
  with_item c (some name) none = none
  with_item c (some name) (some as') = some (insert as' name (mkconst_str (str c)))

  -- The attributes for the values of an enum, in their order.
  unfoldable pub enum_values : Nodes → Option Attributes → Option Attributes
  enum_values nil as' = as'
  enum_values (cons c cs) as' = enum_values cs (with_item c (item_name (children c)) as')

  abbrev pub enum_wire : Option Attributes → Option AstNode
  enum_wire none = none
  enum_wire (some as') = some (node ast_wire (record new_fields { is_reg = true }) nil as')

  abbrev pub first_range : Nodes → AstNode
  first_range (cons (node t f (cons v (cons range ns)) as') cs) = range
  first_range cs = make_range yosys (pos 31) (pos 0) false

  abbrev pub enum_name : ℕ → Text
  enum_name id = codes "$enum" ++ to_string id

  abbrev pub ranged_enum_wire : ℕ → Nodes → AstNode
  ranged_enum_wire id cs =
      add_multirange_wire yosys
        (node ast_wire (record new_fields { is_reg = true }) nil
          (insert empty (codes "\\enum_type") (mkconst_str (enum_name id))))
        (first_range cs ∷ []) []

  abbrev pub pushed_typedef : Nodes → Text → ℕ → Option AstNode → Option Moved
  pushed_typedef ns name id none = none
  pushed_typedef ns name id (some child) = some (ns ++ₙ cons (typedef_node name child) nil, id)

  unfoldable pub move_enum : Nodes → Text → ℕ → AstNode → Option AstNode → Option Moved
  move_enum ns name id type_node (some base_type) =
      pushed_typedef ns name id (enum_wire (enum_values (children base_type) (some empty)))
  move_enum ns name id type_node none = some (
    ns
        ++ₙ cons (set_str (enum_name id) type_node)
            (cons (typedef_node name (ranged_enum_wire id (children type_node))) nil),
    suc id,
  )

  -- A type whose name is declared is dropped.
  unfoldable pub move_type_to_new_typedef : Nodes → AstNode → ℕ → Option Moved
  move_type_to_new_typedef ns type_node id =
      let name = strip_package_name (str type_node) in
      let enum' =
        move_enum ns name id type_node (lookup (attributes type_node) (codes "\\enum_base_type")) in
      if has_str name ns
      then some (ns, id)
      else if is_enum_type (type type_node)
      then enum'
      else pushed_typedef ns name id (some (set_str [] type_node))

  has_str-push :
      (name : Text) (ns : Nodes) (n : AstNode)
      → text_eq (str n) name ≡ true
      → has_str name (ns ++ₙ cons n nil) ≡ true
  has_str-push name nil n h = ground (arith, h)
  has_str-push name (cons m ns) n h = ground (arith, has_str-push name ns n h)

  has_str-push_two :
      (name : Text) (ns : Nodes) (m n : AstNode)
      → text_eq (str n) name ≡ true
      → has_str name (ns ++ₙ cons m (cons n nil)) ≡ true
  has_str-push_two name nil m n h = ground (arith, h)
  has_str-push_two name (cons k ns) m n h = ground (arith, has_str-push_two name ns m n h)

  -- The result, if there is one, has a child of the name.
  abbrev HasTypedef : Text → Option Moved → Type 0
  HasTypedef name none = Unit
  HasTypedef name (some (ns, id)) = has_str name ns ≡ true

  pushed-HasTypedef :
      (ns : Nodes) (name : Text) (id : ℕ) (child : Option AstNode)
      → HasTypedef name (pushed_typedef ns name id child)
  pushed-HasTypedef ns name id none = tt
  pushed-HasTypedef ns name id (some child) =
      has_str-push name ns (typedef_node name child) (text_eq_refl name)

  enum-HasTypedef :
      (ns : Nodes) (name : Text) (id : ℕ) (type_node : AstNode) (base : Option AstNode)
      → HasTypedef name (move_enum ns name id type_node base)
  unfolding move_enum
  enum-HasTypedef ns name id type_node none =
      has_str-push_two name ns _ (typedef_node name (ranged_enum_wire id (children type_node)))
        (text_eq_refl name)
  enum-HasTypedef ns name id type_node (some base) = pushed-HasTypedef ns name id _

  move-HasTypedef :
      (ns : Nodes) (type_node : AstNode) (id : ℕ)
      → HasTypedef (strip_package_name (str type_node)) (move_type_to_new_typedef ns type_node id)
  unfolding move_type_to_new_typedef
  move-HasTypedef ns type_node id =
      let name = strip_package_name (str type_node) in
      if_elim (HasTypedef name) (has_str name ns) _ _ (λ e. e)
        (λ e.
          if_elim (HasTypedef name) (is_enum_type (type type_node)) _ _
            (λ i. enum-HasTypedef ns name id type_node _)
            (λ i. pushed-HasTypedef ns name id (some (set_str [] type_node))))

  -- Where a type has become a typedef, or was dropped since its name is declared, the same type is
  -- dropped when it comes again, and takes no number.
  pub move_type_to_new_typedef_again :
      (ns : Nodes) (type_node : AstNode) (id again : ℕ) {ns' : Nodes} {id' : ℕ}
      → move_type_to_new_typedef ns type_node id ≡ some (ns', id')
      → move_type_to_new_typedef ns' type_node again ≡ some (ns', again)
  unfolding move_type_to_new_typedef
  move_type_to_new_typedef_again ns type_node id again {ns'} {id'} e =
      if_true (has_str (strip_package_name (str type_node)) ns') _ _ (
        subst (HasTypedef (strip_package_name (str type_node))) e (move-HasTypedef ns type_node id))
