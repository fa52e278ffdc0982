-- ===== src/Stream/Run.antt =====
-- src/frontends/systemverilog/uhdm_ast.cc: the meaning of the loop that `process_stream_op` makes, and of
-- the wires that it declares.
use synlig.Common.{
  ℕ, zero, suc, ◌+◌, ◌-◌, Bool, false, ◌&&◌, List, [], ◌∷◌, Option, none, some, if◌then◌else◌, ltb,
  leb,
}
use synlig.Common.Text.{Text, text_eq}
use synlig.Ast
use synlig.Ast.{
  AstNode, Nodes, Fields, Attributes, node, nil, cons, str, ast_identifier, ast_operator,
  ast_constant, ast_sub, ast_add,
}
use synlig.Select.Value.{eval}
use synlig.Stream.{counter_name, width_name}

-- The bits of a wire, by their positions from the low end.
abbrev pub Bits : Type 0
Bits = ℕ → Bool

-- The counter and the width, and the size that an expression determines itself.
unfoldable pub value_at : ℕ → ℕ → ℕ → AstNode → ℕ
value_at id width c (node ast_identifier f cs as') =
    if text_eq f.str (counter_name id)
    then c
    else if text_eq f.str (width_name id)
    then width
    else 0
value_at id width c (node (ast_operator Ast.selfsz) f (cons n nil) as') = value_at id width c n
value_at id width c n = 0

-- The two bounds of the range of an access.
unfoldable pub bounds_of : AstNode → Option (AstNode × AstNode)
bounds_of (node t f (cons (node u g (cons left (cons right nil)) bs) nil) as') = some (left, right)
bounds_of n = none

-- Where an index of a wire [left:right] stands, from the low end.
unfoldable pub position : ℕ × ℕ → ℕ → ℕ
position (left, right) i = if ltb left right then right - i else i - right

unfoldable pub least : ℕ → ℕ → ℕ
least a b = if ltb b a then b else a

unfoldable pub most : ℕ → ℕ → ℕ
most a b = if ltb b a then a else b

-- `dst[left:right] = src[left':right']`, given the ranges that the two wires are declared with: the bits go
-- over in their order, from the low end on.
unfoldable pub copy : ℕ × ℕ → ℕ × ℕ → ℕ × ℕ → ℕ × ℕ → Bits → Bits → Bits
copy dst_range src_range (left, right) (left', right') src dst p =
    let low = least (position dst_range left) (position dst_range right) in
    let high = most (position dst_range left) (position dst_range right) in
    if leb low p && leb p high
    then src (least (position src_range left') (position src_range right') + (p - low))
    else dst p

-- The bits of all wires, by their names.
abbrev pub Store : Type 0
Store = Text → Bits

abbrev pub write : Text → Bits → Store → Store
write name bits store m = if text_eq m name then bits else store m

module _ (id width : ℕ) where
  abbrev pub value : ℕ → AstNode → ℕ
  value c n = eval (value_at id width c) n

  abbrev pair_at : ℕ → Option (AstNode × AstNode) → Option (ℕ × ℕ)
  pair_at c none = none
  pair_at c (some (l, r)) = some (value c l, value c r)

  -- The range of the declaration of a wire.
  unfoldable pub declared : ℕ → List AstNode → Text → Option (ℕ × ℕ)
  declared c [] name = none
  declared c (w ∷ ws) name =
      let rest = declared c ws name in
      if text_eq (str w) name then pair_at c (bounds_of w) else rest

  abbrev pub copied :
      Store
      → Text
      → Option (ℕ × ℕ)
      → Option (ℕ × ℕ)
      → Text
      → Option (ℕ × ℕ)
      → Option (ℕ × ℕ)
      → Option Store
  copied store dst (some dst_range) (some to) src (some src_range) (some from) =
      some (write dst (copy dst_range src_range to from (store src) (store dst)) store)
  copied store dst _ _ src _ _ = none

  unfoldable pub is_less : ℕ → AstNode → Bool
  is_less c (node (ast_operator Ast.lt) f (cons a (cons b nil)) as') = ltb (value c a) (value c b)
  is_less c n = false

  unfoldable pub assigned : ℕ → AstNode → ℕ
  assigned c (node t f (cons l (cons r nil)) as') = value c r
  assigned c n = c

  abbrev pub then_run : Option Store → (Store → Option Store) → Option Store
  then_run none next = none
  then_run (some store) next = next store

  -- `wires` are the declarations.
  module _ (wires : List AstNode) where
    -- The assignment of the body.
    unfoldable pub run_assign : ℕ → AstNode → Store → Option Store
    run_assign c (node t f (cons l (cons r nil)) as') store =
        copied store (str l) (declared c wires (str l)) (pair_at c (bounds_of l)) (str r)
          (declared c wires (str r)) (pair_at c (bounds_of r))
    run_assign c n store = none

    -- The rounds of the loop.
    unfoldable pub run : ℕ → AstNode → AstNode → AstNode → ℕ → Store → Option Store
    run zero condition step assign c store = none
    run (suc rounds) condition step assign c store =
        let next =
          then_run (run_assign c assign store)
            (run rounds condition step assign (assigned c step)) in
        if is_less c condition then next else some store

    -- A loop with one assignment for a body.
    unfoldable pub run_loop : ℕ → AstNode → Store → Option Store
    run_loop rounds
          (node t f
            (cons init (cons condition (cons step (cons (node u g (cons assign nil) bs) nil))))
            as')
          store =
        run rounds condition step assign (assigned 0 init) store
    run_loop rounds n store = none
