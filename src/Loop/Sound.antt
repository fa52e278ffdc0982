-- ===== src/Loop/Sound.antt =====
-- `transform_block` of src/frontends/systemverilog/uhdm_ast.cc, by induction on the block.
use synlig.Common.{Bool, true, false, ◌||◌, ◌≡◌, refl, ◌∙◌, and_true_left, and_true_right}
use synlig.Common.Text.{Text}
use synlig.Ast.{AstNode, AstNodeType, Attributes, Fields, Nodes, node, nil, cons}
use synlig.Yosys.{Yosys}
use synlig.Loop.{
  Statement, block, case, jump_break, jump_continue, plain, statement, is_cond, Wires,
  transform_step, transform_block, transform_conds, transform_back,
}
use synlig.Loop.Semantics.{
  State, Outcome, normal, exec, exec_case, exec_back, seq, mark, flag_write, flag_of, exec_step,
  do_plain,
}
use synlig.Loop.Jumps.{
  jumps, jumps_arms, jumps_back, jumps_step, is_none, supported, supported_case, supported_arms,
  supported_back, supported_step,
}
use synlig.Loop.Blocks.{
  exec-normal, exec_case-normal, exec-KeepsFlags, exec_case-KeepsFlags, do_plain-KeepsFlags,
  supported_selector_part, supported_arms_part,
}
use synlig.Loop.Arms.{
  ArmsSimulate, or_false_unit, arm_supported_rest, cond_step-Simulates, selector-Simulates,
  back_step-Simulates, skip-Simulates,
}
use synlig.Loop.Wrap.{exec-cons, exec-assign_continue, exec-assign_break}
use synlig.Loop.Simulation.{Simulates, jump_step-Simulates, jump_step_flag}

module _ (yosys : Yosys) (obj_name : Text) {S : Type 0} (act : AstNode → S → S)
    (taken : AstNode → Nodes → S → Bool) where
  -- The statements with children: `sub` is `exec` or `exec_case`.
  with_children-Simulates :
      (t : AstNodeType) (f : Fields) (cs : Nodes) (as' : Attributes) (rest : Nodes)
      (sub : Nodes → State S → State S × Outcome) (transform : Wires → Nodes × Wires × Bool)
      (j : Bool)
      → ((ms ds : Nodes) (s : State S)
          → exec act taken (cons (node t f ms as') ds) s ≡ seq (sub ms s) (exec act taken ds))
      → ((s : State S) → (sub cs s).0.continued ≡ s.continued)
      → ((s : State S) → j ≡ false → (sub cs s).1 ≡ normal)
      → Simulates j (sub cs) transform sub
      → Simulates
          (jumps rest)
          (exec act taken rest)
          (transform_block yosys obj_name rest)
          (exec act taken)
      → Simulates
          (j || jumps rest)
          (λ s. seq (sub cs s) (exec act taken rest))
          (λ w.
            transform_step yosys obj_name block
              (λ ds. node t f ds as')
              cs
              transform
              transform
              (transform_block yosys obj_name rest)
              w)
          (exec act taken)
  with_children-Simulates t f cs as' rest sub transform j run keep norm hs hr w =
      let w₁ = (transform w).1 in
      let out = transform_block yosys obj_name rest w₁ in
      (
        jump_step_flag (transform w).2 j out.2 (jumps rest) _ _ _ (hs w).0 (hr w₁).0,
        λ s c.
            jump_step-Simulates yosys obj_name act taken (sub cs) (sub (transform w).0)
              (node t f (transform w).0 as') rest out.0 out.1 j out.2 (transform w).2 s (hs w).0
              (keep s ∙ c) (norm s) ((hs w).1 s c) ((hr w₁).1) (λ ds. run (transform w).0 ds s),
      )

  transform_step-Simulates :
      (k : Statement) (t : AstNodeType) (f : Fields) (cs : Nodes) (as' : Attributes) (rest : Nodes)
      → statement t ≡ k
      → supported_step k
          (supported cs)
          (supported_case cs)
          (is_none (flag_write t cs))
          (supported rest)
        ≡ true
      → (supported cs ≡ true
          → Simulates
              (jumps cs)
              (exec act taken cs)
              (transform_block yosys obj_name cs)
              (exec act taken))
      → (supported_case cs ≡ true
          → Simulates
              (jumps_arms cs)
              (exec_case act taken cs)
              (λ w. transform_conds yosys obj_name cs w false)
              (exec_case act taken))
      → (supported rest ≡ true
          → Simulates
              (jumps rest)
              (exec act taken rest)
              (transform_block yosys obj_name rest)
              (exec act taken))
      → Simulates
          (jumps_step k (jumps cs) (jumps_arms cs) (jumps rest))
          (exec_step k
            (exec act taken cs)
            (exec_case act taken cs)
            (do_plain act taken (node t f cs as'))
            (exec act taken rest))
          (transform_step yosys obj_name k
            (λ ds. node t f ds as')
            cs
            (transform_block yosys obj_name cs)
            (λ w. transform_conds yosys obj_name cs w false)
            (transform_block yosys obj_name rest))
          (exec act taken)
  unfolding exec
  transform_step-Simulates block t f cs as' rest e good hb hc hr =
      let fine = and_true_left _ _ good in
      with_children-Simulates t f cs as' rest (exec act taken) (transform_block yosys obj_name cs)
        (jumps cs) (λ ms ds s. exec-cons yosys obj_name act taken block t f ms as' ds s e)
        (λ s. (exec-KeepsFlags act taken cs s fine).0) (exec-normal act taken cs) (hb fine)
        (hr (and_true_right _ _ good))
  transform_step-Simulates case t f cs as' rest e good hb hc hr =
      let fine = and_true_left _ _ good in
      with_children-Simulates t f cs as' rest (exec_case act taken)
        (λ w. transform_conds yosys obj_name cs w false) (jumps_arms cs)
        (λ ms ds s. exec-cons yosys obj_name act taken case t f ms as' ds s e)
        (λ s. (exec_case-KeepsFlags act taken cs s fine).0) (exec_case-normal act taken cs)
        (hc fine) (hr (and_true_right _ _ good))
  transform_step-Simulates jump_break t f cs as' rest e good hb hc hr = λ w. (
    refl,
    λ s c.
        exec-assign_continue yosys obj_name act taken _ s
        ∙ exec-assign_break yosys obj_name act taken _ _,
  )
  transform_step-Simulates jump_continue t f cs as' rest e good hb hc hr =
      λ w. (refl, λ s c. exec-assign_continue yosys obj_name act taken _ s)
  transform_step-Simulates plain t f cs as' rest e good hb hc hr = λ w.
      let after = hr (and_true_right _ _ good) w in
      (
        after.0,
        λ s c.
            exec-cons yosys obj_name act taken plain t f cs as' _ s e
            ∙ after.1 (do_plain act taken (node t f cs as') s) (
                (do_plain-KeepsFlags act taken (node t f cs as') s (and_true_left _ _ good)).0 ∙ c),
      )

  mutual
    unfolding transform_block jumps supported exec

    transform_block-Simulates :
        (ns : Nodes)
        → supported ns ≡ true
        → Simulates
            (jumps ns)
            (exec act taken ns)
            (transform_block yosys obj_name ns)
            (exec act taken)
    transform_block-Simulates nil h = λ w. (refl, λ s c. refl)
    transform_block-Simulates (cons (node t f cs as') rest) h =
        transform_step-Simulates (statement t) t f cs as' rest refl h (transform_block-Simulates cs)
          (transform_case-Simulates cs) (transform_block-Simulates rest)

    transform_case-Simulates :
        (ns : Nodes)
        → supported_case ns ≡ true
        → Simulates
            (jumps_arms ns)
            (exec_case act taken ns)
            (λ w. transform_conds yosys obj_name ns w false)
            (exec_case act taken)
    transform_case-Simulates nil h = λ w. (refl, λ s c. refl)
    transform_case-Simulates (cons (node t f cs as') arms) h = λ w.
        selector-Simulates yosys obj_name act taken t f cs as' arms h
          (transform_arms-ArmsSimulate arms (node t f cs as') false
            (supported_selector_part t f cs as' arms h).1 (supported_arms_part t f cs as' arms h))
          w

    transform_arms-ArmsSimulate :
        (ns : Nodes) (selector : AstNode) (seen : Bool)
        → is_none (flag_of selector) ≡ true
        → supported_arms ns seen ≡ true
        → ArmsSimulate yosys obj_name act taken ns selector seen
    transform_arms-ArmsSimulate nil selector seen free h = λ w. (or_false_unit seen, λ s c. refl)
    transform_arms-ArmsSimulate (cons (node t f cs as') arms) selector seen free h =
        cond_step-Simulates yosys obj_name act taken (is_cond t) seen t f cs as' arms selector free
          h (transform_back-Simulates cs)
          (transform_arms-ArmsSimulate arms selector (seen || jumps_back cs) free
            (arm_supported_rest (is_cond t) seen (jumps_back cs) _ _ h))

    transform_back-Simulates :
        (ns : Nodes)
        → supported_back ns ≡ true
        → Simulates
            (jumps_back ns)
            (exec_back act taken ns)
            (transform_back yosys obj_name ns)
            (exec_back act taken)
    transform_back-Simulates nil h = λ w. (refl, λ s c. refl)
    transform_back-Simulates (cons (node t f cs as') nil) h =
        back_step-Simulates yosys obj_name act taken (statement t) t f cs as' refl h
          (transform_block-Simulates cs)
    transform_back-Simulates (cons n (cons m ns)) h =
        skip-Simulates yosys obj_name act taken n m ns (transform_back-Simulates (cons m ns) h)

  -- Running the transformed block is running the block: where no statement uses the flags and in
  -- each case at most one arm jumps, an `AST_COND`, it ends normally, in the state of the source
  -- with `$continue` set behind any jump and `$break` behind a `break`, from each state in which
  -- `$continue` is clear. The transformation reports a jump exactly where the block holds one.
  pub exec-transform_block :
      (ns : Nodes) (w : Wires) (s : State S)
      → supported ns ≡ true
      → s.continued ≡ false
      → (exec act taken (transform_block yosys obj_name ns w).0 s
          ≡ (mark (exec act taken ns s), normal))
        × ((transform_block yosys obj_name ns w).2 ≡ jumps ns)
  exec-transform_block ns w s h c =
      let (flag, run) = transform_block-Simulates ns h w in (run s c, flag)
