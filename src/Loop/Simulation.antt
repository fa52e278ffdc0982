-- ===== src/Loop/Simulation.antt =====
-- `transform_block` of src/frontends/systemverilog/uhdm_ast.cc simulates the jumps of a block.
use synlig.Common.{Bool, true, false, ◌||◌, ◌≡◌, sym, if◌then◌else◌, ◌∙◌, if_false}
use synlig.Common.Text.{Text}
use synlig.Ast.{AstNode, Nodes, cons}
use synlig.Yosys.{Yosys}
use synlig.Loop.{Wires, wrap}
use synlig.Loop.Semantics.{State, Outcome, normal, stop, next, exec, seq, mark}
use synlig.Loop.Wrap.{exec-wrap}

-- The transformation tells whether the code jumps. Its result ends normally, in the state that
-- `mark` makes from the outcome of the code.
abbrev pub Simulates :
    {S : Type 0}
    → Bool
    → (State S → State S × Outcome)
    → (Wires → Nodes × Wires × Bool)
    → (Nodes → State S → State S × Outcome)
    → Type 0
Simulates {S} j run transform run' =
    (w : Wires)
    → ((transform w).2 ≡ j)
      × ((s : State S) → s.continued ≡ false → run' (transform w).0 s ≡ (mark (run s), normal))

pub jump_step_flag :
    (has_jump j rest_jump jr : Bool) (ns ms : Nodes) (w : Wires)
    → has_jump ≡ j
    → rest_jump ≡ jr
    → (if◌then◌else◌ {A = Nodes × Wires × Bool} has_jump (ns, w, true) (ms, w, rest_jump)).2
      ≡ (j || jr)
jump_step_flag true j rest_jump jr ns ms w e e' = rw (← e)
jump_step_flag false j rest_jump jr ns ms w e e' = rw (← e) e'

module _ (yosys : Yosys) (obj_name : Text) {S : Type 0} (act : AstNode → S → S)
    (taken : AstNode → Nodes → S → Bool) where
  -- The rest of a block behind a statement with the outcome `r`, which may have jumped.
  wrapped :
      (r : State S × Outcome) (rest rest' : Nodes)
      → r.0.continued ≡ false
      → ((u : State S)
          → u.continued ≡ false
          → exec act taken rest' u ≡ (mark (exec act taken rest u), normal))
      → exec act taken (wrap yosys obj_name rest') (mark r)
        ≡ (mark (seq r (exec act taken rest)), normal)
  wrapped (u, normal) rest rest' h ih =
      exec-wrap yosys obj_name act taken rest' u ∙ (if_false u.continued _ _ h ∙ ih u h)
  wrapped (u, stop) rest rest' h ih = exec-wrap yosys obj_name act taken rest' _
  wrapped (u, next) rest rest' h ih = exec-wrap yosys obj_name act taken rest' _

  -- The rest of a block behind a statement that has not jumped.
  unwrapped :
      (r : State S × Outcome) (rest rest' : Nodes)
      → r.0.continued ≡ false
      → r.1 ≡ normal
      → ((u : State S)
          → u.continued ≡ false
          → exec act taken rest' u ≡ (mark (exec act taken rest u), normal))
      → exec act taken rest' (mark r) ≡ (mark (seq r (exec act taken rest)), normal)
  unwrapped (u, normal) rest rest' h n ih = ih u h
  unwrapped (u, stop) rest rest' h n ih = cc
  unwrapped (u, next) rest rest' h n ih = cc

  -- A statement of which `sub` runs the children, and the rest of the block.
  pub jump_step-Simulates :
      (sub sub' : State S → State S × Outcome) (n' : AstNode) (rest rest' : Nodes) (w : Wires)
      (j rest_jump has_jump : Bool) (s : State S)
      → has_jump ≡ j
      → ((sub s).0.continued ≡ false)
      → (j ≡ false → (sub s).1 ≡ normal)
      → sub' s ≡ (mark (sub s), normal)
      → ((u : State S)
          → u.continued ≡ false
          → exec act taken rest' u ≡ (mark (exec act taken rest u), normal))
      → ((ms : Nodes) → exec act taken (cons n' ms) s ≡ seq (sub' s) (exec act taken ms))
      → exec act taken
          (if◌then◌else◌ {A = Nodes × Wires × Bool} has_jump
            (cons n' (wrap yosys obj_name rest'), w, true)
            (cons n' rest', w, rest_jump)).0
          s
        ≡ (mark (seq (sub s) (exec act taken rest)), normal)
  jump_step-Simulates sub sub' n' rest rest' w j rest_jump true s e h n sim ih run =
      run (wrap yosys obj_name rest') ∙ rw sim (wrapped (sub s) rest rest' h ih)
  jump_step-Simulates sub sub' n' rest rest' w j rest_jump false s e h n sim ih run =
      run rest' ∙ rw sim (unwrapped (sub s) rest rest' h (n (sym e)) ih)
