-- ===== src/Loop/Jumps.antt =====
-- Where a block holds jumps, and the shape of the blocks that
-- src/frontends/systemverilog/uhdm_ast.cc transforms rightly.
use synlig.Common.{Bool, true, false, not, ◌&&◌, ◌||◌, Option, none, some}
use synlig.Ast.{Nodes, node, nil, cons}
use synlig.Loop.{Statement, block, case, jump_break, jump_continue, plain, statement, is_cond}
use synlig.Loop.Semantics.{flag_of, flag_write}

abbrev pub jumps_step : Statement → Bool → Bool → Bool → Bool
jumps_step block in_block in_case in_rest = in_block || in_rest
jumps_step case in_block in_case in_rest = in_case || in_rest
jumps_step jump_break in_block in_case in_rest = true
jumps_step jump_continue in_block in_case in_rest = true
jumps_step plain in_block in_case in_rest = in_rest

unfoldable mutual
  pub jumps : Nodes → Bool
  jumps nil = false
  jumps (cons (node t f cs as') rest) =
      jumps_step (statement t) (jumps cs) (jumps_arms cs) (jumps rest)

  -- The children of a case.
  pub jumps_arms : Nodes → Bool
  jumps_arms nil = false
  jumps_arms (cons (node t f cs as') arms) = jumps_back cs || jumps_arms arms

  pub jumps_back : Nodes → Bool
  jumps_back nil = false
  jumps_back (cons (node t f cs as') nil) = jumps cs
  jumps_back (cons n (cons m ns)) = jumps_back (cons m ns)

abbrev pub is_none {ℓ} : {A : Type ℓ} → Option A → Bool
is_none none = true
is_none (some a) = false

abbrev pub supported_step : Statement → Bool → Bool → Bool → Bool → Bool
supported_step block in_block in_case in_plain in_rest = in_block && in_rest
supported_step case in_block in_case in_plain in_rest = in_case && in_rest
supported_step jump_break in_block in_case in_plain in_rest = true
supported_step jump_continue in_block in_case in_plain in_rest = true
supported_step plain in_block in_case in_plain in_rest = in_plain && in_rest

-- An arm that jumps is an `AST_COND`, and none before it jumps.
abbrev pub arm_supported : Bool → Bool → Bool → Bool → Bool → Bool
arm_supported cond seen arm_jumps in_back in_rest =
    ((cond && not seen) || not arm_jumps) && (in_back && in_rest)

-- The statement of an arm is a block, or nothing that jumps.
abbrev pub back_supported : Statement → Bool → Bool → Bool
back_supported block in_block arm_jumps = in_block
back_supported _ in_block arm_jumps = not arm_jumps

-- No statement uses the flags, and in each case at most one arm jumps, an `AST_COND`.
unfoldable mutual
  pub supported : Nodes → Bool
  supported nil = true
  supported (cons (node t f cs as') rest) =
      supported_step (statement t) (supported cs) (supported_case cs) (is_none (flag_write t cs))
        (supported rest)

  pub supported_case : Nodes → Bool
  supported_case nil = true
  supported_case (cons (node t f cs as') arms) =
      (not (is_cond t) && not (jumps_back cs))
      && (is_none (flag_of (node t f cs as')) && supported_arms arms false)

  -- The flag tells that an arm before these jumps.
  pub supported_arms : Nodes → Bool → Bool
  supported_arms nil seen = true
  supported_arms (cons (node t f cs as') arms) seen =
      arm_supported (is_cond t) seen (jumps_back cs) (supported_back cs)
        (supported_arms arms (seen || jumps_back cs))

  pub supported_back : Nodes → Bool
  supported_back nil = true
  supported_back (cons (node t f cs as') nil) =
      back_supported (statement t) (supported cs) (jumps cs)
  supported_back (cons n (cons m ns)) = supported_back (cons m ns)
