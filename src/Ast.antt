-- ===== src/Ast.antt =====
-- The abstract syntax tree that src/frontends/systemverilog/uhdm_ast.cc builds and rewrites:
-- Yosys' `AstNode` by the members that the code reads or writes.
use synlig.Common.{ℕ, suc, Bool, true, false, List, [], ◌∷◌, Option, none, some}
use synlig.Common.Text.{Text}
use synlig.Common.Int.{ℤ, pos, negsuc}

-- The node types of expressions, with those of casts.
pub data Operator : Type 0 where
  neg plus reduce_and reduce_or reduce_xor reduce_xnor reduce_bool : Operator
  bit_not bit_and bit_or bit_xor bit_xnor : Operator
  shift_left shift_right shift_sleft shift_sright power : Operator
  logic_or eq ne eqx nex lt le gt ge div modulo ternary : Operator
  concat replicate to_unsigned cast_size selfsz : Operator

-- The node types of statements, events and scopes.
pub data Item : Type 0 where
  always initial event_edge posedge negedge default assign assign_le : Item
  module_scope task package_scope cell primitive multirange no_type realvalue : Item
  wiretype celltype argument enum enum_item fcall genfor genvar : Item

-- The node types that the modelled code tests or creates. All others are `ast_other`.
pub data AstNodeType : Type 0 where
  ast_block ast_case ast_cond ast_condx ast_condz ast_break ast_continue : AstNodeType
  ast_for ast_while ast_repeat ast_assign_eq ast_identifier ast_constant : AstNodeType
  ast_logic_and ast_logic_not ast_add ast_sub ast_mul ast_wire ast_range : AstNodeType
  ast_struct ast_union ast_struct_item ast_typedef ast_memory : AstNodeType
  ast_parameter ast_localparam ast_dot ast_genblock ast_function : AstNodeType
  ast_operator : Operator → AstNodeType
  ast_item : Item → AstNodeType
  ast_other : ℕ → AstNodeType

-- `dimension_t`: the lowest index, the number of elements, and whether the range was [low:high].
pub record Dimension : Type 0 where
  pub range_right : ℤ
  pub range_width : ℤ
  pub range_swapped : Bool

-- The members of a node other than its type, its children and its attributes.
pub record Fields : Type 0 where
  pub str : Text
  -- A `uint32_t`.
  pub integer : ℕ
  pub range_left : ℤ
  pub range_right : ℤ
  pub range_valid : Bool
  pub range_swapped : Bool
  pub is_signed : Bool
  pub is_input : Bool
  pub is_output : Bool
  pub is_logic : Bool
  pub is_reg : Bool
  pub is_unsized : Bool
  pub is_custom_type : Bool
  pub port_id : ℕ
  -- The bits of a `double`.
  pub realvalue : ℕ
  pub dimensions : List Dimension

-- A node as its constructor leaves it: `range_left` is -1 and `range_right` is 0.
abbrev pub new_fields : Fields
new_fields = record {
  str = [];
  integer = 0;
  range_left = negsuc 0;
  range_right = pos 0;
  range_valid = false;
  range_swapped = false;
  is_signed = false;
  is_input = false;
  is_output = false;
  is_logic = false;
  is_reg = false;
  is_unsized = false;
  is_custom_type = false;
  port_id = 0;
  realvalue = 0;
  dimensions = [];
}

mutual
  pub data AstNode : Type 0 where
    node : AstNodeType → Fields → Nodes → Attributes → AstNode

  pub data Nodes : Type 0 where
    nil : Nodes
    cons : AstNode → Nodes → Nodes

  -- The map `attributes`, from names to nodes.
  pub data Attributes : Type 0 where
    empty : Attributes
    entry : Text → AstNode → Attributes → Attributes

abbrev pub type : AstNode → AstNodeType
type (node t f cs as') = t

abbrev pub fields : AstNode → Fields
fields (node t f cs as') = f

abbrev pub children : AstNode → Nodes
children (node t f cs as') = cs

abbrev pub attributes : AstNode → Attributes
attributes (node t f cs as') = as'

abbrev pub str : AstNode → Text
str n = (fields n).str

abbrev pub integer : AstNode → ℕ
integer n = (fields n).integer

abbrev pub to_list : Nodes → List AstNode
to_list nil = []
to_list (cons n ns) = n ∷ to_list ns

abbrev pub of_list : List AstNode → Nodes
of_list [] = nil
of_list (n ∷ ns) = cons n (of_list ns)

-- `children.size()`.
abbrev pub size : Nodes → ℕ
size nil = 0
size (cons n ns) = suc (size ns)

infixr 67 ◌++ₙ◌
abbrev pub ◌++ₙ◌ : Nodes → Nodes → Nodes
nil ++ₙ ms = ms
(cons n ns) ++ₙ ms = cons n (ns ++ₙ ms)

-- `children[0]`.
abbrev pub first : Nodes → Option AstNode
first nil = none
first (cons n ns) = some n

-- `children.back()`.
abbrev pub back : Nodes → Option AstNode
back nil = none
back (cons n nil) = some n
back (cons n (cons m ns)) = back (cons m ns)

-- The children before the last.
abbrev pub before_back : Nodes → Nodes
before_back nil = nil
before_back (cons n nil) = nil
before_back (cons n (cons m ns)) = cons n (before_back (cons m ns))

-- `children.back() = m`.
abbrev pub set_back : Nodes → AstNode → Nodes
set_back nil m = nil
set_back (cons n nil) m = cons m nil
set_back (cons n (cons k ns)) m = cons n (set_back (cons k ns) m)

abbrev pub is_range : AstNode → Bool
is_range (node ast_range f cs as') = true
is_range _ = false

-- `std::reverse` of the children.
abbrev pub reverse_onto : Nodes → Nodes → Nodes
reverse_onto nil ms = ms
reverse_onto (cons n ns) ms = reverse_onto ns (cons n ms)

abbrev pub reverse : Nodes → Nodes
reverse ns = reverse_onto ns nil

-- `node->type = t`.
abbrev pub set_type : AstNodeType → AstNode → AstNode
set_type t (node u f cs as') = node t f cs as'
