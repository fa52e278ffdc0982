-- ===== src/Attributes.antt =====
-- src/frontends/systemverilog/uhdm_ast.cc: the attributes of a node, a map from names to nodes.
mod Tests
use synlig.Common.{
  Bool, true, false, not, ◌||◌, List, [], ◌∷◌, Option, none, some, ◌≡◌, if◌then◌else◌, refl, sym,
  ap, ◌∙◌, if_elim,
}
use synlig.Common.Text.{Text, codes, text_eq, text_eq_refl, text_eq→eq}
use synlig.Ast.{AstNode, Attributes, node, empty, entry, attributes}

-- The node under a name.
unfoldable pub lookup : Attributes → Text → Option AstNode
lookup empty k = none
lookup (entry name v as') k = if text_eq name k then some v else lookup as' k

-- `node->attributes[attribute] = v`.
unfoldable pub insert : Attributes → Text → AstNode → Attributes
insert empty k v = entry k v empty
insert (entry name u as') k v =
    let rest = insert as' k v in if text_eq name k then entry name v as' else entry name u rest

-- `node->attributes.erase(attribute)`.
unfoldable pub erase : Attributes → Text → Attributes
erase empty k = empty
erase (entry name v as') k =
    let rest = erase as' k in if text_eq name k then rest else entry name v rest

unfoldable pub get_attribute : AstNode → Text → Option AstNode
get_attribute n k = lookup (attributes n) k

unfoldable pub set_attribute : AstNode → Text → AstNode → AstNode
set_attribute (node t f cs as') k v = node t f cs (insert as' k v)

unfoldable pub delete_attribute : AstNode → Text → AstNode
delete_attribute (node t f cs as') k = node t f cs (erase as' k)

-- The names of the attributes that belong to Synlig.
abbrev pub internal_attributes : List Text
internal_attributes =
    codes "$synlig$partial"
    ∷ codes "$synlig$packed_ranges"
    ∷ codes "$synlig$unpacked_ranges"
    ∷ codes "$synlig$force_convert"
    ∷ codes "$synlig$is_imported"
    ∷ codes "$synlig$is_simplified_wire"
    ∷ codes "$synlig$low_high_bound"
    ∷ codes "$synlig$is_type_parameter"
    ∷ codes "$synlig$is_elaborated_module"
    ∷ codes "$synlig$expand_genblock"
    ∷ codes "$synlig$enum_struct_item"
    ∷ []

unfoldable pub delete_attributes : List Text → AstNode → AstNode
delete_attributes [] n = n
delete_attributes (k ∷ ks) n = delete_attributes ks (delete_attribute n k)

unfoldable pub delete_internal_attributes : AstNode → AstNode
delete_internal_attributes n = delete_attributes internal_attributes n

unfoldable pub has_name : List Text → Text → Bool
has_name [] k = false
has_name (name ∷ names) k = text_eq name k || has_name names k

-- How three names compare.
text_eq_trans : (a b c : Text) → text_eq a b ≡ true → text_eq b c ≡ text_eq a c
text_eq_trans a b c h = ap (λ x. text_eq x c) (sym (text_eq→eq a b h))

text_eq_join : (a b c : Text) → text_eq b c ≡ true → text_eq a c ≡ true → text_eq a b ≡ true
text_eq_join a b c h h' =
    let e : a ≡ b = text_eq→eq a c h' ∙ sym (text_eq→eq b c h) in
    ap (λ x. text_eq x b) e ∙ text_eq_refl b

module _ (k k' name : Text) (v : AstNode) (as' rest : Attributes) where
  erase_cases :
      (a b c : Bool)
      → (a ≡ true → b ≡ c)
      → (b ≡ true → c ≡ true → a ≡ true)
      → text_eq name k' ≡ c
      → lookup rest k' ≡ (if b then none else lookup as' k')
      → lookup (if a then rest else entry name v rest) k'
        ≡ (if b then none else if c then some v else lookup as' k')
  unfolding lookup
  erase_cases true true c h h' hc ih = ih
  erase_cases true false true h h' hc ih = (let same = h refl in cc)
  erase_cases true false false h h' hc ih = ih
  erase_cases false true true h h' hc ih = (let joined = h' refl refl in cc)
  erase_cases false true false h h' hc ih = cc
  erase_cases false false true h h' hc ih = cc
  erase_cases false false false h h' hc ih = cc

  insert_cases :
      (u : AstNode) (a b c : Bool)
      → (a ≡ true → b ≡ c)
      → (b ≡ true → c ≡ true → a ≡ true)
      → text_eq name k' ≡ c
      → lookup rest k' ≡ (if b then some v else lookup as' k')
      → lookup (if a then entry name v as' else entry name u rest) k'
        ≡ (if b then some v else if c then some u else lookup as' k')
  unfolding lookup
  insert_cases u true true true h h' hc ih = cc
  insert_cases u true true false h h' hc ih = (let same = h refl in cc)
  insert_cases u true false true h h' hc ih = (let same = h refl in cc)
  insert_cases u true false false h h' hc ih = cc
  insert_cases u false true true h h' hc ih = (let joined = h' refl refl in cc)
  insert_cases u false true false h h' hc ih = cc
  insert_cases u false false true h h' hc ih = cc
  insert_cases u false false false h h' hc ih = cc

lookup-erase :
    (as' : Attributes) (k k' : Text)
    → lookup (erase as' k) k' ≡ (if text_eq k k' then none else lookup as' k')
unfolding lookup erase
lookup-erase empty k k' = if_elim (λ o. none ≡ o) (text_eq k k') none none (λ _. refl) (λ _. refl)
lookup-erase (entry name v as') k k' =
    erase_cases k k' name v as' (erase as' k) (text_eq name k) (text_eq k k') (text_eq name k')
      (text_eq_trans name k k') (text_eq_join name k k') refl (lookup-erase as' k k')

pub lookup-insert :
    (as' : Attributes) (k k' : Text) (v : AstNode)
    → lookup (insert as' k v) k' ≡ (if text_eq k k' then some v else lookup as' k')
unfolding lookup insert
lookup-insert empty k k' v = refl
lookup-insert (entry name u as') k k' v =
    insert_cases k k' name v as' (insert as' k v) u (text_eq name k) (text_eq k k')
      (text_eq name k') (text_eq_trans name k k') (text_eq_join name k k') refl
      (lookup-insert as' k k' v)

-- An attribute that is set is what is read, and all others are as before.
pub get_attribute-set_attribute :
    (n v : AstNode) (k k' : Text)
    → get_attribute (set_attribute n k v) k' ≡ (if text_eq k k' then some v else get_attribute n k')
unfolding get_attribute set_attribute
get_attribute-set_attribute (node t f cs as') v k k' = lookup-insert as' k k' v

get_attribute-delete_attribute :
    (n : AstNode) (k k' : Text)
    → get_attribute (delete_attribute n k) k' ≡ (if text_eq k k' then none else get_attribute n k')
unfolding get_attribute delete_attribute
get_attribute-delete_attribute (node t f cs as') k k' = lookup-erase as' k k'

choose_or :
    (a b : Bool) (o : Option AstNode)
    → (if b then none else if a then none else o) ≡ (if a || b then none else o)
choose_or true true o = refl
choose_or true false o = refl
choose_or false true o = refl
choose_or false false o = refl

get_attribute-delete_attributes :
    (ks : List Text) (n : AstNode) (k : Text)
    → get_attribute (delete_attributes ks n) k ≡ (if has_name ks k then none else get_attribute n k)
unfolding delete_attributes has_name
get_attribute-delete_attributes [] n k = refl
get_attribute-delete_attributes (name ∷ ks) n k =
    get_attribute-delete_attributes ks (delete_attribute n name) k
    ∙ ap (λ o. if has_name ks k then none else o) (get_attribute-delete_attribute n name k)
    ∙ choose_or (text_eq name k) (has_name ks k) (get_attribute n k)

-- No attribute of Synlig is left, and all others, which belong to Yosys, are as before.
pub get_attribute-delete_internal_attributes :
    (n : AstNode) (k : Text)
    → get_attribute (delete_internal_attributes n) k
      ≡ (if has_name internal_attributes k then none else get_attribute n k)
unfolding delete_internal_attributes
get_attribute-delete_internal_attributes n k =
    get_attribute-delete_attributes internal_attributes n k
