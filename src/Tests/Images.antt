-- ===== src/Tests/Images.antt =====
-- The theorems on image states at a concrete node.
use ai_scheduler.Prelude.{◌≡◌, not, ◌&&◌, [], ◌∷◌, str_eq, arith}
use ai_scheduler.Prelude.Dict
use ai_scheduler.Prelude.Dict.{Dict}
use ai_scheduler.Kube.{Node}
use ai_scheduler.Cache.Images.{ImageState, remove_node_image_states}
use ai_scheduler.Cache.Images.Inhabited.{IsInhabited, remove_node_image_states-IsInhabited}
use ai_scheduler.Cache.Images.Removal.{has_image, is_listed, remove_node_image_states_lem}
use ai_scheduler.Tests.{north}

abbrev serving : Node
serving = record north { images = record { names = "web:1" ∷ []; size_bytes = 40 } ∷ [] }

abbrev states : Dict ImageState
states = ("web:1", record { size = 40; nodes = "n1" ∷ "n2" ∷ [] }) ∷ []

states-IsInhabited : IsInhabited states
unfolding Dict.lookup
states-IsInhabited name st e = ground arith

remove_node_image_states-IsInhabited_example : IsInhabited (remove_node_image_states states serving)
remove_node_image_states-IsInhabited_example =
    remove_node_image_states-IsInhabited states serving states-IsInhabited

remove_node_image_states_lem_example :
    has_image "n2" "web:1" (remove_node_image_states states serving)
    ≡ (not (str_eq "n1" "n2" && is_listed "web:1" serving.images) && has_image "n2" "web:1" states)
remove_node_image_states_lem_example = remove_node_image_states_lem states serving "n2" "web:1"
