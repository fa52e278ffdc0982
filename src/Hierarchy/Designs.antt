-- ===== src/Hierarchy/Designs.antt =====
-- src/frontends/systemverilog/uhdm_ast.cc, `visit_designs` and `visitEachDescendant` with
-- `delete_internal_attributes`: the designs that Surelog gives, without internal attributes.
use synlig.Common.{
  true, false, if_false, List, [], ◌∷◌, ◌++◌, map, Option, none, some, ◌≡◌, refl, ap, sym, ◌∙◌,
  if_true,
}
use synlig.Common.Text.{Text}
use mathlib.Core.Path.{subst}
use synlig.Ast.{AstNode, Nodes, node, nil, cons, children, type, fields}
use synlig.Attributes.{
  get_attribute, delete_internal_attributes, delete_attributes, delete_attribute,
  internal_attributes, has_name, get_attribute-delete_internal_attributes,
}

abbrev pub put_children : AstNode → Nodes → AstNode
put_children (node t f cs as') ms = node t f ms as'

unfoldable mutual
  -- The call for a child and for those below it.
  pub visit_descendant : AstNode → AstNode
  visit_descendant (node t f cs as') =
      put_children (delete_internal_attributes (node t f cs as')) (visit_each_descendant cs)

  pub visit_each_descendant : Nodes → Nodes
  visit_each_descendant nil = nil
  visit_each_descendant (cons n ns) = cons (visit_descendant n) (visit_each_descendant ns)

-- The loop over the designs: each takes the place of the children from before. None when one is a null
-- pointer, whose children are read.
unfoldable pub flatten_designs : Nodes → List (Option AstNode) → Option Nodes
flatten_designs ns [] = some ns
flatten_designs ns (none ∷ designs) = none
flatten_designs ns (some n ∷ designs) = flatten_designs (children n) designs

abbrev pub visit_kept : Option Nodes → Option Nodes
visit_kept none = none
visit_kept (some ns) = some (visit_each_descendant ns)

-- The children of the design.
unfoldable pub visit_designs : List (Option AstNode) → Option Nodes
visit_designs designs = visit_kept (flatten_designs nil designs)

mutual
  -- No node has the attribute, at any depth.
  pub IsWithout : Text → AstNode → Type 0
  IsWithout k (node t f cs as') = (get_attribute (node t f cs as') k ≡ none) × AreWithout k cs

  pub AreWithout : Text → Nodes → Type 0
  AreWithout k nil = Unit
  AreWithout k (cons n ns) = IsWithout k n × AreWithout k ns

get_attribute-put_children :
    (n : AstNode) (ms : Nodes) (k : Text) → get_attribute (put_children n ms) k ≡ get_attribute n k
unfolding get_attribute
get_attribute-put_children (node t f cs as') ms k = refl

IsWithout-put_children :
    (n : AstNode) (ms : Nodes) (k : Text)
    → get_attribute n k ≡ none
    → AreWithout k ms
    → IsWithout k (put_children n ms)
unfolding get_attribute IsWithout
IsWithout-put_children (node t f cs as') ms k h hs = (h, hs)

mutual
  unfolding visit_descendant IsWithout

  visit_descendant-IsWithout :
      (k : Text) (n : AstNode)
      → has_name internal_attributes k ≡ true
      → IsWithout k (visit_descendant n)
  visit_descendant-IsWithout k (node t f cs as') h =
      IsWithout-put_children (delete_internal_attributes (node t f cs as'))
        (visit_each_descendant cs) k
        (get_attribute-delete_internal_attributes (node t f cs as') k
          ∙ if_true (has_name internal_attributes k) none (get_attribute (node t f cs as') k) h)
        (visit_each-AreWithout k cs h)

  visit_each-AreWithout :
      (k : Text) (ns : Nodes)
      → has_name internal_attributes k ≡ true
      → AreWithout k (visit_each_descendant ns)
  visit_each-AreWithout k nil h = tt
  visit_each-AreWithout k (cons n ns) h =
      (visit_descendant-IsWithout k n h, visit_each-AreWithout k ns h)

flatten_designs-append :
    (ns : Nodes) (designs : List AstNode) (last : AstNode)
    → flatten_designs ns (map some designs ++ (some last ∷ [])) ≡ some (children last)
unfolding flatten_designs
flatten_designs-append ns [] last = refl
flatten_designs-append ns (n ∷ designs) last = flatten_designs-append (children n) designs last

-- A tree of the same nodes, with the same attributes that are not internal, at any depth.
mutual
  pub IsKept : AstNode → AstNode → Type 0
  IsKept n (node t f cs as') =
      (type n ≡ t)
      × (fields n ≡ f)
      × AreKept (children n) cs
      × ((k : Text)
          → has_name internal_attributes k ≡ false
          → get_attribute n k ≡ get_attribute (node t f cs as') k)

  pub AreKept : Nodes → Nodes → Type 0
  AreKept nil nil = Unit
  AreKept (cons m ms) (cons n ns) = IsKept m n × AreKept ms ns
  AreKept _ _ = ⊥

type-put_children : (n : AstNode) (ms : Nodes) → type (put_children n ms) ≡ type n
type-put_children (node t f cs as') ms = refl

fields-put_children : (n : AstNode) (ms : Nodes) → fields (put_children n ms) ≡ fields n
fields-put_children (node t f cs as') ms = refl

children-put_children : (n : AstNode) (ms : Nodes) → children (put_children n ms) ≡ ms
children-put_children (node t f cs as') ms = refl

type-delete_attributes : (ks : List Text) (n : AstNode) → type (delete_attributes ks n) ≡ type n
unfolding delete_attributes delete_attribute
type-delete_attributes [] n = refl
type-delete_attributes (k ∷ ks) (node t f cs as') = type-delete_attributes ks _

fields-delete_attributes :
    (ks : List Text) (n : AstNode) → fields (delete_attributes ks n) ≡ fields n
unfolding delete_attributes delete_attribute
fields-delete_attributes [] n = refl
fields-delete_attributes (k ∷ ks) (node t f cs as') = fields-delete_attributes ks _

mutual
  unfolding visit_descendant IsKept delete_internal_attributes

  visit_descendant-IsKept : (n : AstNode) → IsKept (visit_descendant n) n
  visit_descendant-IsKept (node t f cs as') = (
    type-put_children (delete_attributes internal_attributes (node t f cs as')) _
        ∙ type-delete_attributes internal_attributes (node t f cs as'),
    fields-put_children (delete_attributes internal_attributes (node t f cs as')) _
        ∙ fields-delete_attributes internal_attributes (node t f cs as'),
    subst (λ ms. AreKept ms cs)
        (sym (children-put_children (delete_attributes internal_attributes (node t f cs as')) _))
        (visit_each-AreKept cs),
    λ k h.
        get_attribute-put_children (delete_internal_attributes (node t f cs as'))
          (visit_each_descendant cs) k
        ∙ get_attribute-delete_internal_attributes (node t f cs as') k
        ∙ if_false (has_name internal_attributes k) none (get_attribute (node t f cs as') k) h,
  )

  visit_each-AreKept : (ns : Nodes) → AreKept (visit_each_descendant ns) ns
  visit_each-AreKept nil = tt
  visit_each-AreKept (cons n ns) = (visit_descendant-IsKept n, visit_each-AreKept ns)

-- Where no design is a null pointer, the children of the last one are kept, with their types, fields,
-- children and all attributes but the internal ones of Synlig, at any depth; those of the designs before
-- it are not, and no node of the tree has an internal attribute.
pub visit_designs-AreKept :
    (designs : List AstNode) (last : AstNode)
    → (kept : Nodes) × (visit_designs (map some designs ++ (some last ∷ [])) ≡ some kept)
      × AreKept kept (children last)
      × ((k : Text) → has_name internal_attributes k ≡ true → AreWithout k kept)
unfolding visit_designs
visit_designs-AreKept designs last = (
  visit_each_descendant (children last),
  ap visit_kept (flatten_designs-append nil designs last),
  visit_each-AreKept (children last),
  λ k h. visit_each-AreWithout k (children last) h,
)
