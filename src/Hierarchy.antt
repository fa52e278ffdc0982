-- ===== src/Hierarchy.antt =====
-- src/frontends/systemverilog/uhdm_ast.cc, `add_or_replace_child`: a node under construction gets a
-- child, which stands in for an earlier one of the same name.
mod Tests
pub mod Functions
pub mod Cells
pub mod TypeParameters
pub mod Designs
pub mod GenScope
pub mod Initials
pub mod Typedefs
pub mod Tidy
use synlig.Common.{
  Bool, true, false, ◌&&◌, ◌||◌, not, List, [], ◌∷◌, Option, none, some, if◌then◌else◌,
}
use synlig.Common.Text.{Text, codes, text_eq}
use synlig.Ast
use synlig.Ast.{
  AstNode, AstNodeType, Fields, Nodes, Attributes, node, nil, cons, empty, type, fields, str,
  children, attributes, new_fields, ◌++ₙ◌, ast_item, ast_block, ast_memory, ast_wire, ast_parameter,
  ast_localparam,
}
use synlig.Attributes.{lookup, insert}

abbrev pub is_empty : Nodes → Bool
is_empty nil = true
is_empty (cons n ns) = false

abbrev pub is_initial : AstNodeType → Bool
is_initial (ast_item Ast.initial) = true
is_initial _ = false

abbrev pub is_ast_always : AstNodeType → Bool
is_ast_always (ast_item Ast.always) = true
is_ast_always _ = false

abbrev pub is_ast_block : AstNodeType → Bool
is_ast_block ast_block = true
is_ast_block _ = false

abbrev pub is_wire : AstNodeType → Bool
is_wire ast_wire = true
is_wire _ = false

abbrev pub is_wiretype : AstNodeType → Bool
is_wiretype (ast_item Ast.wiretype) = true
is_wiretype _ = false

abbrev pub is_parameter : AstNodeType → Bool
is_parameter ast_parameter = true
is_parameter ast_localparam = true
is_parameter _ = false

-- The type of a port is no memory.
unfoldable pub port_type : AstNodeType → AstNodeType
port_type ast_memory = ast_wire
port_type t = t

-- The direction of a port stays.
unfoldable pub keep_direction : Fields → AstNode → AstNode
keep_direction old (node t f cs as') =
    let port =
      node (port_type t)
        (record f { is_input = old.is_input; is_output = old.is_output; port_id = old.port_id }) cs
        as' in
    if old.is_input || old.is_output then port else node t f cs as'

unfoldable pub keep_sign : Fields → AstNode → AstNode
keep_sign old (node t f cs as') =
    node t (record f { is_signed = f.is_signed || old.is_signed }) cs as'

abbrev pub has_wiretype : Nodes → Bool
has_wiretype nil = false
has_wiretype (cons n ns) = is_wiretype (type n) || has_wiretype ns

-- The children of the old node, where the new one has none.
unfoldable pub keep_children : Nodes → AstNode → AstNode
keep_children old (node t f nil as') =
    node t (record f { is_custom_type = f.is_custom_type || (is_wire t && has_wiretype old) }) old
      as'
keep_children old (node t f (cons c cs) as') = node t f (cons c cs) as'

abbrev pub kept_range : Option AstNode → Option AstNode → Option AstNode
kept_range none new = none
kept_range (some o) none = none
kept_range (some o) (some n) =
    if not (is_empty (children o)) && is_empty (children n) then some o else none

abbrev pub with_attribute : Text → Option AstNode → AstNode → AstNode
with_attribute k none n = n
with_attribute k (some v) (node t f cs as') = node t f cs (insert as' k v)

-- The ranges of the old node, where both have the attribute and that of the new one is empty.
unfoldable pub keep_ranges : Text → Attributes → AstNode → AstNode
keep_ranges k old n = with_attribute k (kept_range (lookup old k) (lookup (attributes n) k)) n

abbrev pub set_sign : Bool → AstNode → AstNode
set_sign b (node t f cs as') = node t (record f { is_signed = b }) cs as'

-- The value of a parameter keeps its sign.
unfoldable pub keep_value_sign : AstNodeType → Nodes → AstNode → AstNode
keep_value_sign old (cons o os) (node t f (cons c cs) as') =
    let signed = node t f (cons (set_sign (fields o).is_signed c) cs) as' in
    if is_parameter old then signed else node t f (cons c cs) as'
keep_value_sign old os n = n

-- The child that stands in for the old one.
unfoldable pub merged : AstNode → AstNode → AstNode
merged (node t f cs as') child = keep_value_sign t cs (
    keep_ranges (codes "$synlig$unpacked_ranges") as' (
      keep_ranges (codes "$synlig$packed_ranges") as'
        (keep_children cs (keep_sign f (keep_direction f child)))))

abbrev pub has_str : Text → Nodes → Bool
has_str name nil = false
has_str name (cons n ns) = text_eq (str n) name || has_str name ns

-- The first child of the name is replaced.
unfoldable pub replace_first : AstNode → Nodes → Nodes
replace_first child nil = nil
replace_first child (cons n ns) =
    let rest = replace_first child ns in
    if text_eq (str n) (str child) then cons (merged n child) ns else cons n rest

abbrev pub is_unnamed : Text → Bool
is_unnamed [] = true
is_unnamed (c ∷ s) = false

unfoldable pub has_initial : Nodes → Bool
has_initial nil = false
has_initial (cons n ns) = is_initial (type n) || has_initial ns

-- The block of an initial, after an absent one has been added, and what stands behind it.
unfoldable pub block_of : Nodes → Option (AstNode × Nodes)
block_of nil = some (node ast_block new_fields nil empty, nil)
block_of (cons b cs) = if is_ast_block (type b) then some (b, cs) else none

-- An initial that is added has a block already.
unfoldable pub own_block : Nodes → Option (AstNode × Nodes)
own_block nil = none
own_block (cons b cs) = if is_ast_block (type b) then some (b, cs) else none

abbrev pub joined : Option (AstNode × Nodes) → Option (AstNode × Nodes) → Option Nodes
joined none own = none
joined (some parts) none = none
joined (some (node t f bs as', cs)) (some (b, more)) =
    some (cons (node t f (bs ++ₙ children b) as') (cs ++ₙ more))

abbrev pub with_children : AstNode → Option Nodes → Option AstNode
with_children n none = none
with_children (node t f old as') (some cs) = some (node t f cs as')

-- The statements of the child go into the block of the initial, what is behind them behind it.
unfoldable pub join_initial : AstNode → AstNode → Option AstNode
join_initial n child = with_children n (joined (block_of (children n)) (own_block (children child)))

abbrev pub put_front : Option AstNode → Nodes → Option Nodes
put_front none ns = none
put_front (some n) ns = some (cons n ns)

abbrev pub put_behind : AstNode → Option Nodes → Option Nodes
put_behind n none = none
put_behind n (some ns) = some (cons n ns)

-- The first initial takes the child in; else an assertion fails.
unfoldable pub join_first : AstNode → Nodes → Option Nodes
join_first child nil = none
join_first child (cons n ns) =
    let rest = join_first child ns in
    let here = put_front (join_initial n child) ns in
    if is_initial (type n) then here else put_behind n rest

-- In front of the first process, or at the end.
unfoldable pub before_always : AstNode → Nodes → Nodes
before_always child nil = cons child nil
before_always child (cons n ns) =
    let rest = before_always child ns in
    if is_ast_always (type n) then cons child (cons n ns) else cons n rest

unfoldable pub add_initial : AstNode → Nodes → Option Nodes
add_initial child ns =
    let joined' = join_first child ns in
    if has_initial ns then joined' else some (before_always child ns)

-- The children of the parent; none if an assertion fails.
unfoldable pub add_or_replace_child : Nodes → AstNode → Option Nodes
add_or_replace_child ns child =
    let replaced = replace_first child ns in
    let initial' = add_initial child ns in
    if not (is_unnamed (str child))
    then some (if has_str (str child) ns then replaced else ns ++ₙ cons child nil)
    else if is_initial (type child)
    then initial'
    else some (ns ++ₙ cons child nil)
