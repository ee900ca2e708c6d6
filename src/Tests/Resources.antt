-- ===== src/Tests/Resources.antt =====
-- The theorems on resources at concrete amounts.
use ai_scheduler.Prelude.{◌≡◌, refl, true, String, ◌↔◌}
use ai_scheduler.Prelude.Int64
use ai_scheduler.Prelude.Dict
use ai_scheduler.Info.Resource.{Resource, empty_resource, less_or_equal, value_of, new_resource}
use ai_scheduler.Info.Resource.Amount.{Dimension, amount, IsResource}
use ai_scheduler.Info.Resource.Order.{less_or_equal_iff}
use ai_scheduler.Info.Resource.Requests.{new_resource-IsResource}
use ai_scheduler.Tests.{kube, two_cpus}

abbrev two : Resource
two = new_resource kube two_cpus

two-IsResource : IsResource two
two-IsResource = new_resource-IsResource kube two_cpus

abbrev four : Resource
four = record empty_resource { milli_cpu = 4000; memory = 4096 }

no_scalar : (k : String) → Int64.le 0 (value_of k four.scalar_resources) ≡ true
unfolding value_of Dict.lookup Int64.le
no_scalar k = refl

less_or_equal_iff_example :
    (less_or_equal two four ≡ true)
    ↔ ((d : Dimension) → Int64.le (amount d two) (amount d four) ≡ true)
less_or_equal_iff_example = less_or_equal_iff two four two-IsResource no_scalar
