-- ===== src/Operation/Tests.antt =====
-- Operations on 8-bit words.
use synlig.Common.{ℕ, [], ◌∷◌, some, none, refl}
use synlig.Common.Text.{Text, codes}
use synlig.Ast.{AstNode, node, nil, empty, new_fields, integer, ast_constant}
use synlig.Operation.{failed, sub_op}
use synlig.Operation.Dispatch.{process_operation}
use synlig.Operation.Lists.{process_inside_op}
use synlig.Operation.Meaning.{value, means, means_unary}
use synlig.Operation.Refinement.{
  Agrees, NamesAgree, among, process_operation-Agrees, process_inside_op-Agrees,
}
use synlig.Yosys.Model.{model}

-- Each node stands for its integer.
abbrev env : AstNode → ℕ
env n = integer n

abbrev name : Text
name = codes "\\x"

abbrev number : ℕ → AstNode
number v = node ast_constant (record new_fields { integer = v }) nil empty

names : NamesAgree env
unfolding NamesAgree
names f cs as' = refl

-- 3 - 5 is 254 on bytes.
process_operation-Agrees_example :
    Agrees 8 env (process_operation model name failed failed [] sub_op (number 3 ∷ [])) none
    × Agrees 8 env
        (process_operation model name failed failed [] sub_op (number 3 ∷ number 5 ∷ []))
        (some 254)
unfolding means means_unary value
process_operation-Agrees_example =
    process_operation-Agrees model name 8 env failed failed [] names sub_op (number 3) (number 5)

-- 4 inside {9, 4}.
process_inside_op-Agrees_example :
    Agrees 8 env (process_inside_op model name (number 4 ∷ number 9 ∷ number 4 ∷ [])) (some 1)
unfolding among value
process_inside_op-Agrees_example =
    process_inside_op-Agrees model name 8 env (number 4) (number 9) (number 4 ∷ [])
