-- ===== src/Children.antt =====
-- src/frontends/systemverilog/uhdm_ast.cc, `resolve_children_reparent`: the children of expanded
-- generate blocks move up.
mod Tests
use synlig.Common.{
  Bool, true, false, ◌||◌, Option, none, some, ◌≡◌, if◌then◌else◌, refl, sym, ap, ◌∙◌, if_elim,
  or_false_left, or_false_right,
}
use synlig.Common.Text.{codes}
use synlig.Ast.{AstNode, Nodes, node, nil, cons, children, ◌++ₙ◌}
use synlig.Attributes.{get_attribute}

abbrev has : Option AstNode → Bool
has none = false
has (some v) = true

-- `child->attributes.count(attr_id::expand_genblock)`.
unfoldable pub is_expanded : AstNode → Bool
is_expanded n = has (get_attribute n (codes "$synlig$expand_genblock"))

-- `have_children_to_reparent`.
unfoldable pub have_children_to_reparent : Nodes → Bool
have_children_to_reparent nil = false
have_children_to_reparent (cons n ns) = is_expanded n || have_children_to_reparent ns

-- `push_back` of one node, and of each node of a vector.
unfoldable pub push_back : Nodes → AstNode → Nodes
push_back nil m = cons m nil
push_back (cons n ns) m = cons n (push_back ns m)

unfoldable pub push_all : Nodes → Nodes → Nodes
push_all ns nil = ns
push_all ns (cons m ms) = push_all (push_back ns m) ms

-- The loop that fills the vector `reparented`.
unfoldable pub reparent : Nodes → Nodes → Nodes
reparent reparented nil = reparented
reparent reparented (cons n ns) =
    reparent (if is_expanded n then push_all reparented (children n) else push_back reparented n) ns

unfoldable pub resolve_children_reparent : AstNode → AstNode
resolve_children_reparent (node t f cs as') =
    if have_children_to_reparent cs then node t f (reparent nil cs) as' else node t f cs as'

-- The children with each expanded block replaced by its own children.
unfoldable pub expand : Nodes → Nodes
expand nil = nil
expand (cons n ns) = (if is_expanded n then children n else cons n nil) ++ₙ expand ns

append_assoc : (as' bs cs : Nodes) → (as' ++ₙ bs) ++ₙ cs ≡ as' ++ₙ (bs ++ₙ cs)
append_assoc nil bs cs = refl
append_assoc (cons a as') bs cs = ap (cons a) (append_assoc as' bs cs)

append-nil : (as' : Nodes) → as' ++ₙ nil ≡ as'
append-nil nil = refl
append-nil (cons a as') = ap (cons a) (append-nil as')

push_back_lem : (ns : Nodes) (m : AstNode) → push_back ns m ≡ ns ++ₙ cons m nil
unfolding push_back
push_back_lem nil m = refl
push_back_lem (cons n ns) m = ap (cons n) (push_back_lem ns m)

push_all_lem : (ms ns : Nodes) → push_all ns ms ≡ ns ++ₙ ms
unfolding push_all
push_all_lem nil ns = sym (append-nil ns)
push_all_lem (cons m ms) ns =
    push_all_lem ms (push_back ns m)
    ∙ ap (λ x. x ++ₙ ms) (push_back_lem ns m)
    ∙ append_assoc ns (cons m nil) ms

push_either :
    (b : Bool) (ns : Nodes) (n : AstNode)
    → (if b then push_all ns (children n) else push_back ns n)
      ≡ ns ++ₙ (if b then children n else cons n nil)
push_either true ns n = push_all_lem (children n) ns
push_either false ns n = push_back_lem ns n

reparent_lem : (ns acc : Nodes) → reparent acc ns ≡ acc ++ₙ expand ns
unfolding reparent expand
reparent_lem nil acc = sym (append-nil acc)
reparent_lem (cons n ns) acc =
    reparent_lem ns _
    ∙ ap (λ x. x ++ₙ expand ns) (push_either (is_expanded n) acc n)
    ∙ append_assoc acc _ (expand ns)

expand_kept : (ns : Nodes) → have_children_to_reparent ns ≡ false → expand ns ≡ ns
unfolding have_children_to_reparent expand
expand_kept nil h = refl
expand_kept (cons n ns) h =
    if_elim (λ x. x ++ₙ expand ns ≡ cons n ns) (is_expanded n) (children n) (cons n nil)
      (λ z. (let no = or_false_left (is_expanded n) (have_children_to_reparent ns) h in cc))
      (λ _. ap (cons n) (expand_kept ns (or_false_right (is_expanded n) _ h)))

-- The children become the children with each expanded block replaced by its own children, in
-- order; where no block is expanded that changes nothing, so that the early return is right.
pub children-resolve_children_reparent :
    (n : AstNode) → children (resolve_children_reparent n) ≡ expand (children n)
unfolding resolve_children_reparent
children-resolve_children_reparent (node t f cs as') =
    if_elim (λ m. children m ≡ expand cs) (have_children_to_reparent cs) _ (node t f cs as')
      (λ _. reparent_lem cs nil) (λ h. sym (expand_kept cs h))
