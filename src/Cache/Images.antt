-- ===== src/Cache/Images.antt =====
-- The image states of pkg/scheduler/internal/cache/cache.go: which nodes have which image. A set of
-- node names is a list without order.
pub mod Inhabited
pub mod Removal
use ai_scheduler.Prelude.{
  ℕ, Bool, true, false, List, [], ◌∷◌, none, some, Option, String, str_eq, length, ◌==◌,
  if◌then◌else◌,
}
use ai_scheduler.Prelude.Dict
use ai_scheduler.Prelude.Dict.{Dict}
use ai_scheduler.Kube.{Node, ContainerImage}
use ai_scheduler.Info.NodeInfo.{ImageStateSummary, NodeInfo}
use ai_scheduler.Info.NodeTree.{contains}

pub record ImageState : Type 0 where
  pub size : ℕ
  pub nodes : List String

unfoldable pub create_image_state_summary : ImageState → ImageStateSummary
create_image_state_summary st = record { size = st.size; num_nodes = length st.nodes }

-- Insert and Delete of sets.String.
unfoldable pub set_insert : String → List String → List String
set_insert x xs = if contains x xs then xs else x ∷ xs

unfoldable pub set_delete : String → List String → List String
set_delete x [] = []
set_delete x (y ∷ ys) = let rest = set_delete x ys in if str_eq y x then rest else y ∷ rest

-- The state of an image once the node has it.
unfoldable pub image_state : Dict ImageState → String → ℕ → String → ImageState
unfolding set_insert
image_state states node_name size name = elim (Dict.lookup name states) [
  | none ↦ record { size = size; nodes = node_name ∷ [] }
  | some st ↦ record st { nodes = set_insert node_name st.nodes }
]

-- The two maps that addNodeImageStates writes: the cache's states and the node's summaries.
unfoldable pub add_name :
    String
    → ℕ
    → String
    → Dict ImageState × Dict ImageStateSummary
    → Dict ImageState × Dict ImageStateSummary
unfolding create_image_state_summary
add_name node_name size name (states, sums) =
    let st = image_state states node_name size name in
    (
      Dict.insert name st states,
      if Dict.has name sums then sums else Dict.insert name (create_image_state_summary st) sums,
    )

unfoldable pub add_names :
    String
    → ℕ
    → List String
    → Dict ImageState × Dict ImageStateSummary
    → Dict ImageState × Dict ImageStateSummary
unfolding add_name
add_names node_name size [] m = m
add_names node_name size (name ∷ names) m =
    add_names node_name size names (add_name node_name size name m)

unfoldable pub add_images :
    String
    → List ContainerImage
    → Dict ImageState × Dict ImageStateSummary
    → Dict ImageState × Dict ImageStateSummary
unfolding add_names
add_images node_name [] m = m
add_images node_name (image ∷ images) m =
    add_images node_name images (add_names node_name image.size_bytes image.names m)

unfoldable pub add_node_image_states :
    Dict ImageState → Node → NodeInfo → Dict ImageState × NodeInfo
unfolding add_images
add_node_image_states states node n =
    let (states', sums) = add_images node.name node.images (states, []) in
    (states', record n { image_states = sums })

unfoldable pub remove_name : String → String → Dict ImageState → Dict ImageState
unfolding set_delete
remove_name node_name name states = elim (Dict.lookup name states) [
  | none ↦ states
  | some st ↦
      let left = set_delete node_name st.nodes in
      if length left == 0
      then Dict.remove name states
      else Dict.insert name (record st { nodes = left }) states
]

unfoldable pub remove_names : String → List String → Dict ImageState → Dict ImageState
unfolding remove_name
remove_names node_name [] states = states
remove_names node_name (name ∷ names) states =
    remove_names node_name names (remove_name node_name name states)

unfoldable pub remove_images : String → List ContainerImage → Dict ImageState → Dict ImageState
unfolding remove_names
remove_images node_name [] states = states
remove_images node_name (image ∷ images) states =
    remove_images node_name images (remove_names node_name image.names states)

-- removeNodeImageStates, for a node that is not nil.
unfoldable pub remove_node_image_states : Dict ImageState → Node → Dict ImageState
unfolding remove_images
remove_node_image_states states node = remove_images node.name node.images states
