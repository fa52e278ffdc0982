-- ===== src/Wire/Memory.antt =====
-- Which wires become memories.
use synlig.Common.{
  ◌==◌, length, ℕ, ◌≡◌, Bool, true, false, not, ◌&&◌, ◌||◌, List, [], ◌∷◌, Option, none, some,
  if◌then◌else◌, if_elim, refl, sym, ap, ◌∙◌, arith,
}
use synlig.Common.Text.{codes}
use synlig.Ast.{AstNode, AstNodeType, Dimension, node, fields, type, ast_wire}
use synlig.Wire.Convert
use synlig.Wire.Convert.{
  convert_node, kept_ranges, becomes_memory, is_memory, is_wire, is_struct_item, is_parameter,
  is_port, is_forced, has_attribute, without_ranges, new_dimensions, with_dimensions, with_range,
  one_range, convert_packed_unpacked_range, ranges_at, packed_ranges, unpacked_ranges,
  set_dimensions, simplify_all,
}
use synlig.Yosys.{Yosys}

-- A wire with one packed and one unpacked range, which is no port, has no wiretype and is not forced
-- to be converted.
unfoldable pub is_plain_array : AstNode → Bool
is_plain_array wire =
    is_wire (type wire)
    && (length (ranges_at wire packed_ranges) == 1)
    && (length (ranges_at wire unpacked_ranges) == 1)
    && not (fields wire).is_input
    && not (fields wire).is_output
    && not (has_attribute wire (codes "\\wiretype"))
    && not (is_forced wire)

-- The wire stays of its type.
unfoldable pub Keeps : AstNodeType → Option AstNode → Type 0
Keeps t none = Unit
Keeps t (some n) = type n ≡ t

wire_type : (t : AstNodeType) → is_wire t ≡ true → t ≡ ast_wire
unfolding is_wire
wire_type ast_wire h = refl
wire_type _ h = cc

module _ (yosys : Yosys) where
  with_range-Keeps :
      (wire : AstNode) (packed unpacked : List AstNode) (ds : List Dimension) (o : Option AstNode)
      → Keeps (type wire) (with_range yosys wire packed unpacked ds o)
  unfolding with_range Keeps
  with_range-Keeps wire packed unpacked ds none = tt
  with_range-Keeps (node t f cs as') packed unpacked ds (some range) = refl

  with_dimensions-Keeps :
      (wire : AstNode) (packed unpacked : List AstNode) (o : Option (List Dimension × ℕ × ℕ))
      → Keeps (type wire) (with_dimensions yosys wire packed unpacked o)
  unfolding with_dimensions Keeps
  with_dimensions-Keeps wire packed unpacked none = tt
  with_dimensions-Keeps wire packed unpacked (some (ds, m, n)) =
      with_range-Keeps wire packed unpacked ds (one_range yosys packed unpacked m n)

  new_dimensions-Keeps :
      (simplified : AstNode → AstNode) (wire : AstNode) (packed unpacked : List AstNode)
      (ds : List Dimension)
      → Keeps (type wire) (new_dimensions yosys simplified wire packed unpacked ds)
  unfolding new_dimensions Keeps
  new_dimensions-Keeps simplified wire packed unpacked [] = with_dimensions-Keeps wire _ _ _
  new_dimensions-Keeps simplified wire packed unpacked (d ∷ ds) = refl

-- The end of the test of `convert_node`, for one packed and one unpacked range.
last_tests :
    (w i o k : Bool)
    → (not i && not o) ≡ true
    → (if w then true else if (i || o) && true then true else k) ≡ (w || k)
last_tests true i o k h = refl
last_tests false false false k h = refl
last_tests false true o k h = cc
last_tests false false true k h = cc

-- Of what could become a memory, the test of `convert_node` is the wiretype or the force.
convert_node-becomes_memory :
    (wire : AstNode) (packed unpacked : List AstNode)
    → becomes_memory wire packed unpacked ≡ true
    → convert_node wire packed unpacked
      ≡ (has_attribute wire (codes "\\wiretype") || is_forced wire)
unfolding becomes_memory convert_node is_wire is_memory is_struct_item is_parameter
convert_node-becomes_memory (node ast_wire f cs as') (p ∷ []) (u ∷ []) h =
    last_tests _ f.is_input f.is_output _ h
convert_node-becomes_memory (node ast_wire f cs as') [] us h = cc
convert_node-becomes_memory (node ast_wire f cs as') (p ∷ q ∷ ps) us h = ground arith
convert_node-becomes_memory (node ast_wire f cs as') (p ∷ []) [] h = cc
convert_node-becomes_memory (node ast_wire f cs as') (p ∷ []) (u ∷ v ∷ us) h = ground arith
convert_node-becomes_memory (node _ f cs as') packed unpacked h = cc

and_not : (m w k : Bool) → (m ≡ true → (w || k) ≡ true) → (m && not w && not k) ≡ false
and_not false w k h = refl
and_not true true k h = refl
and_not true false true h = refl
and_not true false false h = sym (h refl)

and_same : (m w k : Bool) → (m ≡ true → (w || k) ≡ false) → (m && not w && not k) ≡ m
and_same false w k h = refl
and_same true true k h = sym (h refl)
and_same true false true h = sym (h refl)
and_same true false false h = refl

-- What is not converted is a memory where it could become one.
kept_ranges-is_memory :
    (wire : AstNode) (packed unpacked : List AstNode)
    → is_memory (type wire) ≡ false
    → is_memory (type (kept_ranges wire packed unpacked)) ≡ becomes_memory wire packed unpacked
unfolding kept_ranges is_memory
kept_ranges-is_memory (node t f cs as') packed unpacked h =
    by_test (becomes_memory (node t f cs as') packed unpacked) _ _ refl h
  where
    by_test :
        (b : Bool) (x y : AstNode)
        → is_memory (type x) ≡ true
        → is_memory (type y) ≡ false
        → is_memory (type (if b then x else y)) ≡ b
    by_test true x y hx hy = hx
    by_test false x y hx hy = hy

becomes_memory-empty :
    (wire : AstNode) (packed unpacked : List AstNode)
    → (Convert.is_empty packed && Convert.is_empty unpacked) ≡ true
    → becomes_memory wire packed unpacked ≡ false
unfolding becomes_memory
becomes_memory-empty wire [] [] h = ground arith
becomes_memory-empty wire [] (u ∷ us) h = cc
becomes_memory-empty wire (p ∷ ps) us h = cc

type-without_ranges : (wire : AstNode) → type (without_ranges wire) ≡ type wire
unfolding without_ranges
type-without_ranges (node t f cs as') = refl

-- Whether a result is a memory, where there is one.
unfoldable pub IsMemory : Bool → Option AstNode → Type 0
IsMemory b none = Unit
IsMemory b (some n) = is_memory (type n) ≡ b

Keeps-IsMemory :
    (t : AstNodeType) (b : Bool) (o : Option AstNode) → is_memory t ≡ b → Keeps t o → IsMemory b o
unfolding Keeps IsMemory
Keeps-IsMemory t b none e h = tt
Keeps-IsMemory t b (some n) e h = ap is_memory h ∙ e

module _ (yosys : Yosys) where
  -- What a node that is no memory is converted to, if no assertion fails, is a memory exactly if the
  -- node is a wire with one packed and one unpacked range, no port, without a wiretype and not forced to
  -- be converted.
  pub convert_packed_unpacked_range-IsMemory :
      (simplified : AstNode → AstNode) (wire : AstNode)
      → is_memory (type wire) ≡ false
      → IsMemory (is_plain_array wire) (convert_packed_unpacked_range yosys simplified wire)
  unfolding convert_packed_unpacked_range is_plain_array IsMemory becomes_memory
  convert_packed_unpacked_range-IsMemory simplified wire other =
      let packed = ranges_at wire packed_ranges in
      let unpacked = ranges_at wire unpacked_ranges in
      let w = has_attribute wire (codes "\\wiretype") in
      let k = is_forced wire in
      let m = becomes_memory wire packed unpacked in
      if_elim (IsMemory (m && not w && not k))
        (Convert.is_empty packed && Convert.is_empty unpacked) _ _
        (λ e.
          ap is_memory (type-without_ranges wire)
          ∙ other
          ∙ sym (ap (λ b. b && not w && not k) (becomes_memory-empty wire packed unpacked e)))
        (λ _.
          if_elim (IsMemory (m && not w && not k)) (convert_node wire packed unpacked) _ _
            (λ c.
              Keeps-IsMemory (type wire) _ _
                (other
                  ∙ sym (
                      and_not m w k
                        (λ h. sym (convert_node-becomes_memory wire packed unpacked h) ∙ c)))
                (new_dimensions-Keeps yosys simplified wire packed unpacked
                  (fields wire).dimensions))
            (λ c.
              kept_ranges-is_memory wire packed unpacked other
              ∙ sym (
                  and_same m w k
                    (λ h. sym (convert_node-becomes_memory wire packed unpacked h) ∙ c))))
