-- ===== src/Memory/Tests.antt =====
-- Two holders and three resources.
use synlig.Common.{List, [], ◌∷◌, ◌+◌, ◌≡◌, refl}
use synlig.Memory.{destroy, reset_with, move_assign, release}
use synlig.Memory.Ownership.{
  Command, op_assign, op_release, op_reset_with, on_first, on_second, run, leave, apply, start,
  count, lost, supplied, held, lost_by, count-leave,
}

-- The first holder has resource 7 when it is assigned the other one's resource 8.
abbrev overwriting : List Command
overwriting =
    on_first (op_reset_with 7)
    ∷ on_second (op_reset_with 8)
    ∷ on_first op_assign
    ∷ on_second (op_reset_with 9)
    ∷ on_second op_release
    ∷ []

leave-overwriting : (leave (run overwriting start)).deleted ≡ 8 ∷ []
unfolding leave run apply destroy reset_with move_assign release
leave-overwriting = refl

lost-overwriting : lost 7 overwriting start ≡ 1
unfolding lost lost_by held apply reset_with move_assign release
lost-overwriting = refl

count-leave_example :
    count 8 (leave (run overwriting start)).deleted
      + count 8 (leave (run overwriting start)).released
      + lost 8 overwriting start
    ≡ 1
unfolding supplied
count-leave_example = count-leave 8 overwriting
