-- ===== src/Operation/Refinement.antt =====
-- The node of an operation means what the operation means.
use synlig.Common.{
  ℕ, ◌+◌, ◌-◌, ◌%◌, ◌≡◌, Bool, true, false, not, List, [], ◌∷◌, Option, none, some, ltb, leb, ◌==◌,
  if◌then◌else◌, refl, sym, ap, ◌∙◌, ◌||◌, arith,
}
use synlig.Common.Text.{Text}
use synlig.Ast.{
  AstNode, AstNodeType, Fields, Nodes, Attributes, node, nil, cons, ast_localparam, ast_identifier,
}
use synlig.Loop.{make_ast_node}
use synlig.Operation
use synlig.Operation.{Outcome, made, no_node, failed, pushed, process_operands}
use synlig.Operation.Dispatch.{process_operation}
use synlig.Operation.Lists.{inside_rounds, process_inside_op}
use synlig.Operation.Meaning.{bit, modulus, value, means, means_unary, operate, operate_unary}
use synlig.Yosys.{Yosys}

-- A local parameter and the identifier of its name have one value.
unfoldable pub NamesAgree : (AstNode → ℕ) → Type 0
NamesAgree env =
    (f : Fields) (cs : Nodes) (as' : Attributes)
    → env (node ast_localparam f cs as') ≡ env (node ast_identifier f cs as')

module _ (width : ℕ) (env : AstNode → ℕ) where
  -- An outcome is a node with a given value, where there is one to have.
  unfoldable pub Agrees : Outcome → Option ℕ → Type 0
  Agrees o none = Unit
  Agrees (made n) (some v) = value width env n ≡ v
  Agrees _ (some v) = ⊥

complement_twice : (b : Bool) → bit (bit b == 0) ≡ (if b then 0 else 1)
complement_twice true = refl
complement_twice false = refl

complement : (b : Bool) → bit (not b) ≡ (if b then 0 else 1)
complement true = refl
complement false = refl

double_complement : (b : Bool) → bit (bit (not b) == 0) ≡ (if b then 1 else 0)
double_complement true = refl
double_complement false = refl

bit_and : (b c : Bool) → (if b then 0 else bit (not c)) ≡ (if b then 0 else if c then 0 else 1)
bit_and true c = refl
bit_and false true = refl
bit_and false false = refl

bit_or : (b c : Bool) → (if b then bit (not c) else 1) ≡ (if b then if c then 0 else 1 else 1)
bit_or true true = refl
bit_or true false = refl
bit_or false c = refl

at_most : (a b : ℕ) → bit (leb a b) ≡ (if ltb b a then 0 else 1)
at_most a b = ground arith

module _ (yosys : Yosys) (obj_name : Text) (width : ℕ) (env : AstNode → ℕ) where
  unary-Agrees :
      (o : Operation.Operation) (a : AstNode)
      → Agrees width env
          (process_operands yosys obj_name o (cons a nil))
          (means_unary width o (value width env a))
  unfolding Agrees means_unary process_operands value operate_unary make_ast_node Operation.negated
      Operation.last_operand
  unary-Agrees Operation.minus_op a = refl
  unary-Agrees Operation.plus_op a = refl
  unary-Agrees Operation.bit_neg_op a = refl
  unary-Agrees Operation.not_op a = refl
  unary-Agrees Operation.unary_and_op a = refl
  unary-Agrees Operation.unary_or_op a = complement (value width env a == 0)
  unary-Agrees Operation.unary_xor_op a = refl
  unary-Agrees Operation.unary_xnor_op a = refl
  unary-Agrees Operation.unary_nand_op a = complement_twice _
  unary-Agrees Operation.unary_nor_op a = double_complement _
  unary-Agrees Operation.concat_op a = refl
  unary-Agrees Operation.stream_lr_op a = refl
  unary-Agrees _ a = tt

  value-minuend :
      NamesAgree env
      → (a b : AstNode)
      → Agrees width env
          (process_operands yosys obj_name Operation.sub_op (cons a (cons b nil)))
          (means width Operation.sub_op (value width env a) (value width env b))
  unfolding Agrees means process_operands value make_ast_node Operation.minuend NamesAgree
  value-minuend same (node ast_localparam f cs as') b =
      ap (λ x. (x + modulus width - value width env b) % modulus width) (sym (same f cs as'))
  value-minuend same (node _ f cs as') b = refl

  binary-Agrees :
      NamesAgree env
      → (o : Operation.Operation) (a b : AstNode)
      → Agrees width env
          (process_operands yosys obj_name o (cons a (cons b nil)))
          (means width o (value width env a) (value width env b))
  unfolding Agrees means process_operands value operate operate_unary make_ast_node
      Operation.negated Operation.shift Operation.last_operand
  binary-Agrees same Operation.add_op a b = refl
  binary-Agrees same Operation.sub_op a b = value-minuend same a b
  binary-Agrees same Operation.mult_op a b = refl
  binary-Agrees same Operation.div_op a b = refl
  binary-Agrees same Operation.mod_op a b = refl
  binary-Agrees same Operation.power_op a b = refl
  binary-Agrees same Operation.bit_and_op a b = refl
  binary-Agrees same Operation.bit_or_op a b = refl
  binary-Agrees same Operation.bit_xor_op a b = refl
  binary-Agrees same Operation.bit_xnor_op a b = refl
  binary-Agrees same Operation.unary_nand_op a b = refl
  binary-Agrees same Operation.unary_nor_op a b = refl
  binary-Agrees same Operation.l_shift_op a b = refl
  binary-Agrees same Operation.arith_l_shift_op a b = refl
  binary-Agrees same Operation.r_shift_op a b = refl
  binary-Agrees same Operation.arith_r_shift_op a b = refl
  binary-Agrees same Operation.concat_op a b = refl
  binary-Agrees same Operation.multi_concat_op a b = refl
  binary-Agrees same Operation.multi_assignment_pattern_op a b = refl
  binary-Agrees same Operation.stream_lr_op a b = refl
  binary-Agrees same Operation.log_and_op a b = bit_and _ _
  binary-Agrees same Operation.log_or_op a b = bit_or _ _
  binary-Agrees same Operation.eq_op a b = refl
  binary-Agrees same Operation.case_eq_op a b = refl
  binary-Agrees same Operation.neq_op a b = complement _
  binary-Agrees same Operation.case_neq_op a b = complement _
  binary-Agrees same Operation.lt_op a b = refl
  binary-Agrees same Operation.le_op a b = at_most _ _
  binary-Agrees same Operation.gt_op a b = refl
  binary-Agrees same Operation.ge_op a b = at_most _ _
  binary-Agrees same _ a b = tt

  -- The node that `process_operation` makes has the value that the language gives to the operator on the
  -- values of the operands, unsigned words of `width` bits, for these operators. Of one operand: the signs,
  -- the negations, the six reductions, a concatenation and a stream to the right. Of two: the arithmetic,
  -- the bitwise and the logical operators with `~&` and `~|`, the four shifts, the comparisons, where `===`
  -- and `!==` compare bit by bit, concatenation, replication and a stream to the right. The amount of a
  -- shift is cast to an unsigned word. `env` gives a local parameter and the identifier of its name one
  -- value. Nothing is said of other operators.
  pub process_operation-Agrees :
      (stream_op pattern_op : Outcome) (ancestors : List AstNode)
      → NamesAgree env
      → (o : Operation.Operation) (a b : AstNode)
      → Agrees width env
          (process_operation yosys obj_name stream_op pattern_op ancestors o (a ∷ []))
          (means_unary width o (value width env a))
        × Agrees width env
            (process_operation yosys obj_name stream_op pattern_op ancestors o (a ∷ b ∷ []))
            (means width o (value width env a) (value width env b))
  unfolding process_operation Agrees means means_unary
  process_operation-Agrees s p ancestors same Operation.stream_rl_op a b = (tt, tt)
  process_operation-Agrees s p ancestors same Operation.event_or_op a b = (tt, tt)
  process_operation-Agrees s p ancestors same Operation.list_op a b = (tt, tt)
  process_operation-Agrees s p ancestors same Operation.cast_op a b = (tt, tt)
  process_operation-Agrees s p ancestors same Operation.inside_op a b = (tt, tt)
  process_operation-Agrees s p ancestors same Operation.assignment_pattern_op a b = (tt, tt)
  process_operation-Agrees s p ancestors same Operation.wild_eq_op a b = (tt, tt)
  process_operation-Agrees s p ancestors same Operation.wild_neq_op a b = (tt, tt)
  process_operation-Agrees s p ancestors same o a b = (unary-Agrees o a, binary-Agrees same o a b)

  -- Whether a value is among the values of some nodes.
  unfoldable pub among : ℕ → List AstNode → Bool
  among v [] = false
  among v (n ∷ ns) = v == value width env n || among v ns

  alternative : (b c : Bool) → (if bit b == 0 then bit (not (bit c == 0)) else 1) ≡ bit (b || c)
  alternative true c = refl
  alternative false true = refl
  alternative false false = refl

  or_assoc : (a b c : Bool) → ((a || b) || c) ≡ (a || (b || c))
  or_assoc true b c = refl
  or_assoc false b c = refl

  or_false : (a : Bool) → (a || false) ≡ a
  or_false true = refl
  or_false false = refl

  value-inside_rounds :
      (x : AstNode) (ns : List AstNode) (t : AstNodeType) (f : Fields) (a b : AstNode)
      (as' : Attributes) (seen : Bool)
      → value width env (node t f (cons a (cons b nil)) as') ≡ bit seen
      → value width env
          (inside_rounds yosys obj_name (some x) (node t f (cons a (cons b nil)) as') ns)
        ≡ bit (seen || among (value width env x) ns)
  unfolding inside_rounds among value operate
  value-inside_rounds x [] t f a b as' seen h = h ∙ ap bit (sym (or_false seen))
  value-inside_rounds x (n ∷ ns) t f a b as' seen h =
      let now = value width env x == value width env n in
      value-inside_rounds x ns _ _ _ _ _ (seen || now)
        (ap (λ v. if v == 0 then bit (not (bit now == 0)) else 1) h ∙ alternative seen now)
      ∙ ap bit (or_assoc seen now (among (value width env x) ns))

  -- `x inside {n, ns}` has the value 1 if the value of `x` is among those of the others, else 0.
  pub process_inside_op-Agrees :
      (x n : AstNode) (ns : List AstNode)
      → Agrees width env
          (process_inside_op yosys obj_name (x ∷ n ∷ ns))
          (some (bit (among (value width env x) (n ∷ ns))))
  unfolding Agrees process_inside_op inside_rounds make_ast_node among value operate
  process_inside_op-Agrees x n ns = value-inside_rounds x ns _ _ x n _ _ refl
