-- ===== src/Room/Tests.antt =====
-- The theorems on internal/room at concrete inputs.
use agent_room.Prelude.{refl, arith}
use agent_room.Room.Projection.{Projection, new_projection, item_delta, apply}
use agent_room.Room.Budget.{IsWithinBudget, apply-IsWithinBudget}

new_projection-IsWithinBudget : IsWithinBudget new_projection
new_projection-IsWithinBudget = record { used_for = refl; within = omega arith }

abbrev streaming : Projection
streaming = (apply (item_delta "thread" "turn" "item" "he") new_projection).1

streaming-IsWithinBudget : IsWithinBudget streaming
streaming-IsWithinBudget =
    apply-IsWithinBudget (item_delta "thread" "turn" "item" "he") new_projection
      new_projection-IsWithinBudget

apply-IsWithinBudget_example :
    IsWithinBudget (apply (item_delta "thread" "turn" "item" "llo") streaming).1
apply-IsWithinBudget_example =
    apply-IsWithinBudget (item_delta "thread" "turn" "item" "llo") streaming
      streaming-IsWithinBudget
