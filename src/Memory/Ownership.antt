-- ===== src/Memory/Ownership.antt =====
-- What becomes of the resources of two holders.
use synlig.Common.{ℕ, ◌+◌, ◌≡◌, List, [], ◌∷◌, ◌==◌, if◌then◌else◌, refl, arith}
use synlig.Memory.{UniqueResource, empty_resource, move_assign, destroy, release, reset, reset_with}

-- What a program does with a holder: `assign` moves the other holder into it.
pub data Operation : Type 0 where
  op_reset op_assign op_release : Operation
  op_reset_with : ℕ → Operation

pub data Command : Type 0 where
  on_first on_second : Operation → Command

-- The holders, the log of the deleter, and the resources that were released to the caller.
pub record Machine : Type 0 where
  pub one : UniqueResource
  pub other : UniqueResource
  pub deleted : List ℕ
  pub released : List ℕ

-- A released value counts only if the holder had a resource.
unfoldable pub apply : Operation → Machine → Machine
unfolding reset reset_with move_assign release
apply op_reset m =
    let (u, deleted) = reset m.one m.deleted in record m { one = u; deleted = deleted }
apply (op_reset_with r) m =
    let (u, deleted) = reset_with m.one r m.deleted in record m { one = u; deleted = deleted }
apply op_assign m = let (u, v) = move_assign m.one m.other in record m { one = u; other = v }
apply op_release m =
    let (r, u) = release m.one in
    record m { one = u; released = if m.one.initialized then r ∷ m.released else m.released }

abbrev pub swap : Machine → Machine
swap m = record m { one = m.other; other = m.one }

unfoldable pub run : List Command → Machine → Machine
run [] m = m
run (on_first op ∷ cs) m = run cs (apply op m)
run (on_second op ∷ cs) m = run cs (swap (apply op (swap m)))

-- The end of the scope, where both destructors run.
unfoldable pub leave : Machine → Machine
unfolding destroy
leave m = record m { deleted = destroy m.other (destroy m.one m.deleted) }

abbrev pub start : Machine
start = record { one = empty_resource; other = empty_resource; deleted = []; released = [] }

-- How often a handle stands in a list, or in a holder.
abbrev pub hit : ℕ → ℕ → ℕ
hit x r = if x == r then 1 else 0

unfoldable pub count : ℕ → List ℕ → ℕ
count x [] = 0
count x (r ∷ rs) = hit x r + count x rs

unfoldable pub held : ℕ → UniqueResource → ℕ
held x u = if u.initialized then hit x u.resource else 0

-- How often a program hands in a handle.
unfoldable pub supplied : ℕ → List Command → ℕ
supplied x [] = 0
supplied x (on_first (op_reset_with r) ∷ cs) = hit x r + supplied x cs
supplied x (on_second (op_reset_with r) ∷ cs) = hit x r + supplied x cs
supplied x (_ ∷ cs) = supplied x cs

unfoldable pub lost_by : ℕ → Operation → Machine → ℕ
lost_by x op_assign m = held x m.one
lost_by x _ m = 0

-- How often a handle is in a holder that a move assignment overwrites.
unfoldable pub lost : ℕ → List Command → Machine → ℕ
lost x [] m = 0
lost x (on_first op ∷ cs) m = lost_by x op m + lost x cs (apply op m)
lost x (on_second op ∷ cs) m = lost_by x op (swap m) + lost x cs (swap (apply op (swap m)))

unfoldable total : ℕ → Machine → ℕ
total x m = held x m.one + held x m.other + count x m.deleted + count x m.released

given : ℕ → Operation → ℕ
given x op = supplied x (on_first op ∷ [])

total-apply :
    (x : ℕ) (op : Operation) (m : Machine)
    → total x (apply op m) + lost_by x op m ≡ total x m + given x op
unfolding total apply lost_by given supplied held count reset reset_with move_assign release
total-apply x op_reset m = ground arith
total-apply x (op_reset_with r) m = ground arith
total-apply x op_assign m = ground arith
total-apply x op_release m = ground arith

total-swap : (x : ℕ) (m : Machine) → total x (swap m) ≡ total x m
unfolding total
total-swap x m = omega arith

total-start : (x : ℕ) → total x start ≡ 0
unfolding total held count
total-start x = refl

supplied-cons :
    (x : ℕ) (op : Operation) (cs : List Command)
    → supplied x (on_first op ∷ cs) ≡ given x op + supplied x cs
unfolding supplied given
supplied-cons x op_reset cs = omega arith
supplied-cons x (op_reset_with r) cs = omega arith
supplied-cons x op_assign cs = omega arith
supplied-cons x op_release cs = omega arith

supplied-second :
    (x : ℕ) (op : Operation) (cs : List Command)
    → supplied x (on_second op ∷ cs) ≡ given x op + supplied x cs
unfolding supplied given
supplied-second x op_reset cs = omega arith
supplied-second x (op_reset_with r) cs = omega arith
supplied-second x op_assign cs = omega arith
supplied-second x op_release cs = omega arith

total-run :
    (x : ℕ) (cs : List Command) (m : Machine)
    → total x (run cs m) + lost x cs m ≡ total x m + supplied x cs
unfolding run lost supplied
total-run x [] m = omega arith
total-run x (on_first op ∷ cs) m =
    let rest = total-run x cs (apply op m) in
    let now = total-apply x op m in let more = supplied-cons x op cs in omega arith
total-run x (on_second op ∷ cs) m =
    let rest = total-run x cs (swap (apply op (swap m))) in
    let now = total-apply x op (swap m) in
    let there = total-swap x m in
    let back = total-swap x (apply op (swap m)) in let more = supplied-second x op cs in omega arith

total-leave :
    (x : ℕ) (m : Machine) → count x (leave m).deleted + count x (leave m).released ≡ total x m
unfolding total leave destroy held count
total-leave x m = ground arith

-- Whatever a program does with two holders that are empty at first, and whose destructors run at
-- the end, each resource that it hands in is deleted, or released to the caller, or overwritten by
-- a move assignment, and is so as often as it was handed in: none is deleted twice, and none is lost
-- except by a move assignment to a holder that has a resource.
pub count-leave :
    (x : ℕ) (cs : List Command)
    → count x (leave (run cs start)).deleted
        + count x (leave (run cs start)).released
        + lost x cs start
      ≡ supplied x cs
count-leave x cs =
    let rest = total-run x cs start in
    let end = total-leave x (run cs start) in let zero = total-start x in omega arith
