-- ===== src/Stream/Copies.antt =====
-- src/frontends/systemverilog/uhdm_ast.cc: what the loop that `process_stream_op` makes copies.
use synlig.Common.{ℕ, ◌+◌, ◌-◌, ◌<◌, ◌≡◌, Bool, false, List, Option, some}
use synlig.Common.Text.{Text, text_eq}
use synlig.Ast.{AstNode, Nodes, Fields, Attributes, node, ast_constant}
use synlig.Stream.{loop_condition, loop_step, loop_assign, src_name, dst_name}
use synlig.Stream.Run.{Bits, copy, Store, run}
use synlig.Stream.Rounds.{wires_of, slice_copied}

-- The number is the size, taken several times.
pub data IsMultiple (size : ℕ) : ℕ → Type 0 where
  none_taken : {m : ℕ} → m ≡ 0 → IsMultiple size m
  one_more : {m m' : ℕ} → m' ≡ size + m → IsMultiple size m → IsMultiple size m'

-- The bits of the wire dst from `start` to the end: the slices of x from its high end on, each of which
-- keeps the order of its bits.
abbrev pub AreSlices : ℕ → ℕ → Bits → ℕ → ℕ → Bits → Type 0
AreSlices size width x start rest dst =
    (d j : ℕ)
    → IsMultiple size d
    → d < rest
    → j < size
    → dst ((start + d) + j) ≡ x ((width - ((start + d) + size)) + j)

module _ (id width : ℕ) (is_proc_ctx : Bool) (f : Fields) (cs : Nodes) (as' : Attributes) where
  abbrev size_node : AstNode
  size_node = node ast_constant f cs as'

  abbrev wires : List AstNode
  wires = wires_of id width f cs as' is_proc_ctx

  abbrev rounds_of : ℕ → ℕ → Store → Option Store
  rounds_of rounds c store =
      run id width wires rounds (loop_condition id) (loop_step id size_node)
        (loop_assign id is_proc_ctx size_node) c store

  abbrev copied_at : ℕ → Bits → Bits → Bits
  copied_at c x dst =
      copy (width - 1, 0) (0, width - 1) ((c + f.integer) - 1, c) ((c + f.integer) - 1, c) x dst

  -- What the rounds leave: the slices in dst, and all other wires as before.
  Ends : ℕ → ℕ → ℕ → Store → Type 0
  Ends rounds c rest store =
      (store' : Store) × (rounds_of rounds c store ≡ some store')
      × ((p : ℕ) → p < c → store' (dst_name id) p ≡ store (dst_name id) p)
      × ((m : Text) → text_eq m (dst_name id) ≡ false → store' m ≡ store m)
      × AreSlices f.integer width (store (src_name id)) c rest (store' (dst_name id))

  abbrev next_store : ℕ → Store → Store
  next_store c store = slice_copied id width f cs as' c store
