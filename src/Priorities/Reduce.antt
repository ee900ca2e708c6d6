-- ===== src/Priorities/Reduce.antt =====
-- reduce.go of algorithm/priorities: scores scaled to the range of priorities.
pub mod Range
use ai_scheduler.Prelude.{ℕ, Bool, List, [], ◌∷◌, if◌then◌else◌, ◌==◌}
use ai_scheduler.Prelude.Int64
use ai_scheduler.Priorities.Allocation.{HostPriority}

-- The loop that finds the largest score, from 0 on.
unfoldable pub max_count : ℕ → List HostPriority → ℕ
max_count m [] = m
max_count m (r ∷ rs) = max_count (if Int64.lt m r.score then r.score else m) rs

unfoldable pub set_all : ℕ → List HostPriority → List HostPriority
set_all score [] = []
set_all score (r ∷ rs) = record r { score = score } ∷ set_all score rs

unfoldable pub scaled : ℕ → Bool → ℕ → ℕ → ℕ
scaled max_priority reverse m score =
    let s = Int64.quot (Int64.mul max_priority score) m in
    if reverse then Int64.sub max_priority s else s

unfoldable pub scale_all : ℕ → Bool → ℕ → List HostPriority → List HostPriority
unfolding scaled
scale_all max_priority reverse m [] = []
scale_all max_priority reverse m (r ∷ rs) =
    record r { score = scaled max_priority reverse m r.score } ∷ scale_all max_priority reverse m rs

unfoldable pub normalize_reduce : ℕ → Bool → List HostPriority → List HostPriority
unfolding max_count set_all scale_all
normalize_reduce max_priority reverse result =
    let m = max_count 0 result in
    if m == 0
    then if reverse then set_all max_priority result else result
    else scale_all max_priority reverse m result
