-- ===== src/Loop/Untouched.antt =====
-- `transform_block` of src/frontends/systemverilog/uhdm_ast.cc leaves code without jumps alone.
use synlig.Common.{Bool, true, false, ◌≡◌, refl, or_false_left, or_false_right}
use synlig.Common.Text.{Text}
use synlig.Ast.{AstNode, Nodes, node, nil, cons}
use synlig.Yosys.{Yosys}
use synlig.Loop.{
  Statement, block, case, jump_break, jump_continue, plain, statement, is_cond, Wires,
  transform_step, cond_step, transform_block, transform_conds, transform_back,
}
use synlig.Loop.Jumps.{jumps, jumps_arms, jumps_back, jumps_step}

module _ (yosys : Yosys) (obj_name : Text) where
  transform_step_untouched :
      (k : Statement) (rebuild : Nodes → AstNode) (cs rest : Nodes)
      (on_block on_case on_rest : Wires → Nodes × Wires × Bool) (jb jc jr : Bool) (w : Wires)
      → (jb ≡ false → on_block w ≡ (cs, w, false))
      → (jc ≡ false → on_case w ≡ (cs, w, false))
      → (jr ≡ false → on_rest w ≡ (rest, w, false))
      → jumps_step k jb jc jr ≡ false
      → transform_step yosys obj_name k rebuild cs on_block on_case on_rest w
        ≡ (cons (rebuild cs) rest, w, false)
  transform_step_untouched block rebuild cs rest b c r jb jc jr w hb hc hr h =
      rw (hb (or_false_left jb jr h)) (rw (hr (or_false_right jb jr h)))
  transform_step_untouched case rebuild cs rest b c r jb jc jr w hb hc hr h =
      rw (hc (or_false_left jc jr h)) (rw (hr (or_false_right jc jr h)))
  transform_step_untouched jump_break rebuild cs rest b c r jb jc jr w hb hc hr h = cc
  transform_step_untouched jump_continue rebuild cs rest b c r jb jc jr w hb hc hr h = cc
  transform_step_untouched plain rebuild cs rest b c r jb jc jr w hb hc hr h = rw (hr h)

  cond_step_untouched :
      (d seen : Bool) (rebuild : Nodes → AstNode) (cs rest : Nodes)
      (on_back : Wires → Nodes × Wires × Bool) (on_rest : Wires → Bool → Nodes × Wires × Bool)
      (w : Wires)
      → on_back w ≡ (cs, w, false)
      → ((seen : Bool) → on_rest w seen ≡ (rest, w, seen))
      → cond_step yosys obj_name d seen rebuild cs on_back on_rest w
        ≡ (cons (rebuild cs) rest, w, seen)
  cond_step_untouched true false rebuild cs rest b r w hb hr = rw hb (rw (hr false))
  cond_step_untouched true true rebuild cs rest b r w hb hr = rw (hr true)
  cond_step_untouched false seen rebuild cs rest b r w hb hr = rw (hr seen)

  mutual
    unfolding transform_block jumps

    pub transform_block_untouched :
        (ns : Nodes) (w : Wires)
        → jumps ns ≡ false
        → transform_block yosys obj_name ns w ≡ (ns, w, false)
    transform_block_untouched nil w h = refl
    transform_block_untouched (cons (node t f cs as') rest) w h =
        transform_step_untouched (statement t) _ cs rest _ _ _ (jumps cs) (jumps_arms cs)
          (jumps rest) w (transform_block_untouched cs w)
          (λ e. transform_conds_untouched cs w false e) (transform_block_untouched rest w) h

    pub transform_conds_untouched :
        (ns : Nodes) (w : Wires) (seen : Bool)
        → jumps_arms ns ≡ false
        → transform_conds yosys obj_name ns w seen ≡ (ns, w, seen)
    transform_conds_untouched nil w seen h = refl
    transform_conds_untouched (cons (node t f cs as') arms) w seen h =
        cond_step_untouched (is_cond t) seen _ cs arms _ _ w
          (transform_back_untouched cs w (or_false_left (jumps_back cs) (jumps_arms arms) h))
          (λ j.
            transform_conds_untouched arms w j (or_false_right (jumps_back cs) (jumps_arms arms) h))

    pub transform_back_untouched :
        (ns : Nodes) (w : Wires)
        → jumps_back ns ≡ false
        → transform_back yosys obj_name ns w ≡ (ns, w, false)
    transform_back_untouched nil w h = refl
    transform_back_untouched (cons (node t f cs as') nil) w h =
        rw (transform_block_untouched cs w h)
    transform_back_untouched (cons n (cons m ns)) w h =
        rw (transform_back_untouched (cons m ns) w h)

  -- A block without jumps is left as it is, no variable is asked for, and no jump is reported.
  pub transform_block_unchanged :
      (ns : Nodes) (w : Wires)
      → jumps ns ≡ false
      → transform_block yosys obj_name ns w ≡ (ns, w, false)
  transform_block_unchanged ns w h = transform_block_untouched ns w h
