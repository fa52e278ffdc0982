-- ===== src/Stream/Rounds.antt =====
-- src/frontends/systemverilog/uhdm_ast.cc: one round of the loop that `process_stream_op` makes.
use synlig.Common.{
  ℕ, ◌+◌, ◌-◌, ◌<◌, ◌≤◌, ◌≡◌, refl, ◌∙◌, Bool, true, false, List, [], ◌∷◌, ◌++◌, some, ltb, arith,
}
use synlig.Common.Decimal.{to_string}
use synlig.Common.Text.{Text, codes, text_eq, text_eq_refl}
use synlig.Common.Word.{add32, sub32, u32_mod}
use synlig.Ast.{AstNode, Nodes, Fields, Attributes, node, ast_constant, ast_sub, ast_add}
use synlig.Select.Value.{eval}
use synlig.Stream.{
  make_ident, make_node, loop_init, loop_condition, loop_step, loop_assign, slice_range,
  counter_name, width_name, counter, make_const, src_name, dst_name, src_wire, dst_wire, high_index,
}
use synlig.Stream.Run.{
  value_at, bounds_of, position, least, most, copy, Store, write, value, declared, is_less,
  assigned, run_assign,
}

text_eq-prefix : (p s t : Text) → text_eq (p ++ s) (p ++ t) ≡ text_eq s t
text_eq-prefix [] s t = refl
text_eq-prefix (c ∷ p) s t = ground (arith, text_eq-prefix p s t)

names_differ : (id : ℕ) → text_eq (width_name id) (counter_name id) ≡ false
names_differ id =
    text_eq-prefix (codes "$synlig$stream_op_") (to_string id ++ (95 ∷ codes "width"))
      (to_string id ++ (95 ∷ codes "counter"))
    ∙ text_eq-prefix (to_string id) (95 ∷ codes "width") (95 ∷ codes "counter")

pub src_differs : (id : ℕ) → text_eq (src_name id) (dst_name id) ≡ false
src_differs id =
    text_eq-prefix (codes "$synlig$stream_op_") (to_string id ++ (95 ∷ codes "src"))
      (to_string id ++ (95 ∷ codes "dst"))
    ∙ text_eq-prefix (to_string id) (95 ∷ codes "src") (95 ∷ codes "dst")

pub position-down : (n i : ℕ) → position (n, 0) i ≡ i
unfolding position
position-down n i = ground arith

pub position-up : (n i : ℕ) → i ≤ n → position (0, n) i ≡ n - i
unfolding position
position-up n i h = ground (arith, h)

pub least-second : (a b : ℕ) → b ≤ a → least a b ≡ b
unfolding least
least-second a b h = ground (arith, h)

pub least-first : (a b : ℕ) → a ≤ b → least a b ≡ a
unfolding least
least-first a b h = ground (arith, h)

pub most-first : (a b : ℕ) → b ≤ a → most a b ≡ a
unfolding most
most-first a b h = ground (arith, h)

-- The size of a slice is a constant, and the counter has no overflow.
module _ (id width : ℕ) (f : Fields) (cs : Nodes) (as' : Attributes) where
  abbrev pub slice_size : AstNode
  slice_size = node ast_constant f cs as'

  value_counter : (c : ℕ) → c < u32_mod → value id width c (make_ident (counter_name id)) ≡ c
  unfolding eval value_at
  value_counter c h = rw (text_eq_refl (counter_name id)) (omega (arith, h))

  value_width : (c : ℕ) → width < u32_mod → value id width c (make_ident (width_name id)) ≡ width
  unfolding eval value_at
  value_width c h = rw (names_differ id, text_eq_refl (width_name id)) (omega (arith, h))

  value_size : (c : ℕ) → f.integer < u32_mod → value id width c slice_size ≡ f.integer
  unfolding eval
  value_size c h = omega (arith, h)

  value_selfsz : (c : ℕ) → c < u32_mod → value id width c (counter id) ≡ c
  unfolding eval value_at
  value_selfsz c h = rw (text_eq_refl (counter_name id)) (omega (arith, h))

  pub loop_continues :
      (c : ℕ) → c < u32_mod → width < u32_mod → is_less id width c (loop_condition id) ≡ ltb c width
  unfolding is_less loop_condition
  loop_continues c h w = rw (value_counter c h, value_width c w) refl

  value_add :
      (c : ℕ) (a b : AstNode)
      → value id width c (make_node ast_add [] (a ∷ b ∷ []))
        ≡ add32 (value id width c a) (value id width c b)
  unfolding eval
  value_add c a b = refl

  value_sub :
      (c : ℕ) (a b : AstNode)
      → value id width c (make_node ast_sub [] (a ∷ b ∷ []))
        ≡ sub32 (value id width c a) (value id width c b)
  unfolding eval
  value_sub c a b = refl

  value_const : (c v : ℕ) (s : Bool) → v < u32_mod → value id width c (make_const v s) ≡ v
  unfolding eval
  value_const c v s h = omega (arith, h)

  plain_add : (a b : ℕ) → a + b < u32_mod → add32 a b ≡ a + b
  unfolding add32
  plain_add a b h = omega (arith, h)

  plain_sub : (a b : ℕ) → b ≤ a → a < u32_mod → sub32 a b ≡ a - b
  unfolding sub32
  plain_sub a b h k = omega (arith, h, k)

  pub next_counter :
      (c : ℕ)
      → c + f.integer < u32_mod
      → assigned id width c (loop_step id slice_size) ≡ c + f.integer
  unfolding assigned loop_step
  next_counter c h =
      value_add c (make_ident (counter_name id)) slice_size
      ∙ rw (value_counter c (omega (arith, h)), value_size c (omega (arith, h)))
          (plain_add c f.integer h)

  slice_right :
      (c : ℕ)
      → c < u32_mod
      → value id width c (make_node ast_add [] (counter id ∷ make_const 0 true ∷ [])) ≡ c
  slice_right c h =
      value_add c (counter id) (make_const 0 true)
      ∙ rw (value_selfsz c h, value_const c 0 true (omega arith))
          (plain_add c 0 (omega (arith, h)) ∙ omega arith)

  slice_left :
      (c : ℕ)
      → 0 < f.integer
      → c + f.integer < u32_mod
      → value id width c (
          make_node ast_sub []
            (make_node ast_add [] (counter id ∷ slice_size ∷ []) ∷ make_const 1 true ∷ []))
        ≡ (c + f.integer) - 1
  slice_left c p h =
      value_sub c (make_node ast_add [] (counter id ∷ slice_size ∷ [])) (make_const 1 true)
      ∙ rw
          (
            value_add c (counter id) slice_size,
            value_selfsz c (omega (arith, h)),
            value_size c (omega (arith, h)),
            value_const c 1 true (omega arith),
            plain_add c f.integer h,
          )
          (plain_sub (c + f.integer) 1 (omega (arith, p)) h)

  pub starts_at : assigned id width 0 (loop_init id) ≡ 0
  unfolding assigned loop_init
  starts_at = value_const 0 0 true (omega arith)

  value_high : (c : ℕ) → 0 < width → width < u32_mod → value id width c (high_index id) ≡ width - 1
  unfolding high_index
  value_high c p h =
      value_sub c (make_ident (width_name id)) (make_const 1 true)
      ∙ rw (value_width c h, value_const c 1 true (omega arith))
          (plain_sub width 1 (omega (arith, p)) h)

  abbrev pub wires_of : Bool → List AstNode
  wires_of is_proc_ctx = src_wire id is_proc_ctx ∷ dst_wire id is_proc_ctx ∷ []

  declared-src :
      (is_proc_ctx : Bool) (c : ℕ)
      → 0 < width
      → width < u32_mod
      → declared id width c (wires_of is_proc_ctx) (src_name id) ≡ some (0, width - 1)
  unfolding declared src_wire bounds_of
  declared-src is_proc_ctx c p h =
      rw (text_eq_refl (src_name id), value_const c 0 true (omega arith), value_high c p h) refl

  declared-dst :
      (is_proc_ctx : Bool) (c : ℕ)
      → 0 < width
      → width < u32_mod
      → declared id width c (wires_of is_proc_ctx) (dst_name id) ≡ some (width - 1, 0)
  unfolding declared src_wire dst_wire bounds_of
  declared-dst is_proc_ctx c p h =
      rw
        (
          src_differs id,
          text_eq_refl (dst_name id),
          value_const c 0 true (omega arith),
          value_high c p h,
        )
        refl

  -- The store after a round.
  abbrev pub slice_copied : ℕ → Store → Store
  slice_copied c store =
      let slice : ℕ × ℕ = ((c + f.integer) - 1, c) in
      write (dst_name id)
        (copy (width - 1, 0) (0, width - 1) slice slice (store (src_name id)) (store (dst_name id)))
        store

  pub copy_round :
      (is_proc_ctx : Bool) (c : ℕ) (store : Store)
      → 0 < f.integer
      → c + f.integer ≤ width
      → width < u32_mod
      → run_assign id width (wires_of is_proc_ctx) c (loop_assign id is_proc_ctx slice_size) store
        ≡ some (slice_copied c store)
  unfolding run_assign loop_assign bounds_of slice_range
  copy_round is_proc_ctx c store p w h =
      rw
        (
          declared-src is_proc_ctx c (omega (arith, p, w)) h,
          declared-dst is_proc_ctx c (omega (arith, p, w)) h,
          slice_left c p (omega (arith, w, h)),
          slice_right c (omega (arith, w, h)),
        )
        refl
