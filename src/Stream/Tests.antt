-- ===== src/Stream/Tests.antt =====
-- {<< 2 {x}} for x of four bits.
use synlig.Common.{ℕ, Bool, false, List, [], none, refl, ◌≡◌, ◌==◌, ◌||◌}
use synlig.Common.Text.{Text, codes}
use synlig.Ast.{AstNode, nil, empty, node, new_fields, ast_constant}
use synlig.Stream.{Stream, stream_of, make_ident}
use synlig.Stream.Run.{Store}
use synlig.Yosys.Model.{model}

-- The bits 1 and 2 of every wire are set.
abbrev store : Store
store m p = (p == 1) || (p == 2)

abbrev two : AstNode
two = node ast_constant (record new_fields { integer = 2 }) nil empty

-- Outside a procedure the operator is the wire itself, in a process it is that of the block.
outside_name :
    Stream.current_node (stream_of model 3 false [] (two, make_ident (codes "x")))
    ≡ make_ident (codes "$synlig$stream_op_3_dst")
unfolding stream_of synlig.Common.Decimal.to_string synlig.Common.Decimal.put_digits
outside_name = refl
