-- ===== src/Force.antt =====
-- src/frontends/systemverilog/uhdm_ast.cc, `check_memories` and `add_force_convert_attribute`: which
-- memories are to be converted to registers. A wire is known by its name in the map of its function or
-- of the design, and the integer of its attribute force_convert is kept beside the name.
pub mod Scopes
pub mod Kept
mod Tests
use synlig.Common.{
  ℕ, zero, suc, ◌-◌, Bool, true, false, not, ◌&&◌, ◌||◌, List, [], ◌∷◌, ◌++◌, Option, none, some,
  if◌then◌else◌, ◌==◌, length, take,
}
use synlig.Common.Checked.{Checked, fails, gives, ◌>>=◌}
use synlig.Common.Text.{Text, codes, text_eq}
use synlig.Ast.{
  AstNode, AstNodeType, Nodes, node, nil, cons, type, str, children, integer, size, empty,
  ast_function, ast_genblock, ast_wire, ast_identifier,
}
use synlig.Attributes.{get_attribute}

pub data Error : Type 0 where
  -- `log_error`: "Wrong usage of '\$readmemh'"
  wrong_usage : Error
  -- The assertion that the name of a memory is new in its map.
  declared_twice : Error
  -- The walk has not ended when the steps are used up.
  unfinished : Error

-- `memories`, with the attribute of each wire.
abbrev pub Memories : Type 0
Memories = List (Text × Option ℕ)

-- `memories.find`.
unfoldable pub find_memory : Text → Memories → Option (Option ℕ)
find_memory name [] = none
find_memory name ((other, attr) ∷ memories) =
    let rest = find_memory name memories in if text_eq other name then some attr else rest

-- The attribute of the memory of the name gets the value.
unfoldable pub add_force_convert_attribute : Text → ℕ → Memories → Memories
add_force_convert_attribute name val [] = []
add_force_convert_attribute name val ((other, attr) ∷ memories) =
    let rest = add_force_convert_attribute name val memories in
    if text_eq other name then (other, some val) ∷ memories else (other, attr) ∷ rest

-- `find_last_of('.')`, of the whole text.
unfoldable pub shifted_or : Bool → Option ℕ → Option ℕ
shifted_or here (some i) = some (suc i)
shifted_or true none = some 0
shifted_or false none = none

unfoldable pub last_dot : Text → Option ℕ
last_dot [] = none
last_dot (c ∷ s) = shifted_or (c == 46) (last_dot s)

-- `npos` counts as 0.
unfoldable pub or_start : Option ℕ → ℕ
or_start none = 0
or_start (some i) = i

unfoldable pub found_or :
    Text → Option (Option ℕ) → Checked Error (Option Text) → Checked Error (Option Text)
found_or full_id none next = next
found_or full_id (some attr) next = gives (some full_id)

-- The loop over the scopes, from `full_id` without the name on: the full name of the memory, if any.
unfoldable pub walk : ℕ → Text → Memories → Text → ℕ → Checked Error (Option Text)
walk zero name memories full_id scope_end_pos = fails unfinished
walk (suc steps) name memories full_id zero =
    found_or (full_id ++ (46 ∷ name)) (find_memory (full_id ++ (46 ∷ name)) memories) (gives none)
walk (suc steps) name memories full_id (suc before) =
    -- `find_last_of('.', scope_end_pos - 1)` reads that many bytes of `full_id`.
    let full = full_id ++ (46 ∷ name) in
    let end = or_start (last_dot (take (suc before) full)) in
    let outside = walk steps name memories (take end full) end in
    found_or full (find_memory full memories) outside

-- Each round but the last makes the scope shorter.
unfoldable pub enclosing : Text → Text → Memories → Checked Error (Option Text)
enclosing scope name memories = walk (suc (length scope)) name memories scope (length scope)

abbrev pub is_slice : Nodes → Bool
is_slice (cons n nil) = not (size (children n) == 1)
is_slice _ = false

-- An access to the whole memory or to a slice of it.
abbrev pub is_whole_access : Nodes → Bool
is_whole_access cs = (size cs == 0) || is_slice cs

abbrev pub force_unset : Text → Option (Option ℕ) → Memories → Memories
force_unset full_id (some none) memories = add_force_convert_attribute full_id 1 memories
force_unset full_id (some (some v)) memories = memories
force_unset full_id none memories = memories

-- The access marks a memory that has no mark yet.
unfoldable pub access : Nodes → Option Text → Memories → Memories
access cs none memories = memories
access cs (some full_id) memories =
    let marked = force_unset full_id (find_memory full_id memories) memories in
    if is_whole_access cs then marked else memories

unfoldable pub range_count : AstNode → Text → ℕ
range_count n k = elim (get_attribute n k) [ none ↦ 0 | some ranges ↦ size (children ranges) ]

unfoldable pub forced_value : AstNode → Option ℕ
forced_value n = elim (get_attribute n (codes "$synlig$force_convert")) [
  | none ↦ none
  | some v ↦ some (integer v)
]

abbrev pub is_memory_wire : AstNode → Bool
is_memory_wire n =
    (range_count n (codes "$synlig$packed_ranges") == 1)
    && (range_count n (codes "$synlig$unpacked_ranges") == 1)

abbrev pub insert_new : Text → Option ℕ → Memories → Option (Option ℕ) → Checked Error Memories
insert_new name attr memories none = gives ((name, attr) ∷ memories)
insert_new name attr memories (some old) = fails declared_twice

unfoldable pub declare : Text → AstNode → Memories → Checked Error Memories
declare scope n memories =
    let name = scope ++ (46 ∷ str n) in
    let inserted = insert_new name (forced_value n) memories (find_memory name memories) in
    if is_memory_wire n then inserted else gives memories

abbrev pub is_identifier : AstNode → Bool
is_identifier (node ast_identifier f cs as') = true
is_identifier _ = false

abbrev pub is_wire : AstNode → Bool
is_wire (node ast_wire f cs as') = true
is_wire _ = false

-- The name of the memory that `$readmemh` with these children fills.
unfoldable pub memory_name : Nodes → Option Text
memory_name (cons file (cons memory nil)) = elim (str memory) [
  | [] ↦ none
  | c ∷ s ↦ if is_identifier memory then some (c ∷ s) else none
]
memory_name _ = none

unfoldable pub readmem : Text → Option Text → Memories → Checked Error Memories
readmem scope none memories = fails wrong_usage
readmem scope (some name) memories =
    gives (add_force_convert_attribute (scope ++ (46 ∷ name)) 0 memories)

unfoldable pub visit_identifier : Text → AstNode → Memories → Checked Error Memories
visit_identifier scope n memories =
    enclosing scope (str n) memories >>= (λ found. gives (access (children n) found memories))

unfoldable pub visit_typed : Text → AstNode → Memories → Checked Error Memories
visit_typed scope n memories =
    if is_wire n
    then declare scope n memories
    else if is_identifier n
    then visit_identifier scope n memories
    else gives memories

-- What is done at a node, after its children.
unfoldable pub visit : Text → AstNode → Memories → Checked Error Memories
visit scope n memories =
    let read = readmem scope (memory_name (children n)) memories in
    (if text_eq (str n) (codes "\\$readmemh") then read else gives memories)
    >>= (λ memories'. visit_typed scope n memories')

unfoldable pub inner_scope : Text → AstNode → Text
inner_scope scope (node ast_genblock f cs as') = scope ++ (46 ∷ f.str)
inner_scope scope _ = scope

-- The maps of the functions that have been left are kept behind the current one.
abbrev pub Maps : Type 0
Maps = Memories × List Memories

abbrev pub is_function : AstNode → Bool
is_function (node ast_function f cs as') = true
is_function _ = false

unfoldable mutual
  -- A node, after its children.
  pub check_node : Text → AstNode → Maps → Checked Error Maps
  check_node scope (node t f cs as') maps =
      check_children (inner_scope scope (node t f nil empty)) cs maps >>= (λ (memories, closed).
        visit scope (node t f cs as') memories >>= (λ memories'. gives (memories', closed)))

  pub check_children : Text → Nodes → Maps → Checked Error Maps
  check_children scope nil maps = gives maps
  check_children scope (cons n ns) (memories, closed) =
      let own =
        check_node scope n ([], closed)
        >>= (λ (inner, closed'). check_children scope ns (memories, inner ∷ closed')) in
      let shared =
        check_node scope n (memories, closed) >>= (λ maps'. check_children scope ns maps') in
      if is_function n then own else shared

-- The design: no scope and no memory.
unfoldable pub check_memories : AstNode → Checked Error Maps
check_memories n = check_node [] n ([], [])
