-- ===== src/Cache/Images/Inhabited.antt =====
-- An image of the cache's image states is on some node: its state goes with its last node.
use ai_scheduler.Prelude.{
  ℕ, ◌<◌, ◌≡◌, List, [], ◌∷◌, some, String, str_eq, length, ◌==◌, arith, Option-cases, Bool-cases,
  inl, inr,
}
use ai_scheduler.Prelude.Dict
use ai_scheduler.Prelude.Dict.{Dict}
use ai_scheduler.Kube.{Node, ContainerImage}
use ai_scheduler.Info.NodeInfo.{ImageStateSummary, NodeInfo}
use ai_scheduler.Info.NodeTree.{contains}
use ai_scheduler.Cache.Images.{
  ImageState, set_insert, image_state, add_name, add_names, add_images, add_node_image_states,
  remove_name, remove_names, remove_images, remove_node_image_states, set_delete,
}

-- No image without a node.
abbrev pub IsInhabited : Dict ImageState → Type 0
IsInhabited states =
    (name : String) (st : ImageState) → Dict.lookup name states ≡ some st → 0 < length st.nodes

set_insert-inhabited : (x : String) (xs : List String) → 0 < length (set_insert x xs)
unfolding set_insert contains
set_insert-inhabited x [] = ground arith
set_insert-inhabited x (y ∷ ys) = ground arith

image_state-inhabited :
    (states : Dict ImageState) (node_name : String) (size : ℕ) (name : String)
    → 0 < length (image_state states node_name size name).nodes
unfolding image_state
image_state-inhabited states node_name size name = elim (Option-cases (Dict.lookup name states)) [
  | inl e ↦ ground arith
  | inr (st, e) ↦ ground (arith, set_insert-inhabited node_name st.nodes)
]

insert-IsInhabited :
    (states : Dict ImageState) (name : String) (st : ImageState)
    → 0 < length st.nodes
    → IsInhabited states
    → IsInhabited (Dict.insert name st states)
insert-IsInhabited states name st p h j s e = elim (Bool-cases (str_eq name j)) [
  | inl same ↦ ground (arith, Dict.lookup-insert name j st states)
  | inr other ↦ h j s (ground (arith, Dict.lookup-insert name j st states))
]

remove-IsInhabited :
    (states : Dict ImageState) (name : String)
    → IsInhabited states
    → IsInhabited (Dict.remove name states)
remove-IsInhabited states name h j s e = h j s (ground (arith, Dict.lookup-remove name j states))

add_name-IsInhabited :
    (node_name : String) (size : ℕ) (name : String) (m : Dict ImageState × Dict ImageStateSummary)
    → IsInhabited m.0
    → IsInhabited (add_name node_name size name m).0
unfolding add_name
add_name-IsInhabited node_name size name m h =
    insert-IsInhabited m.0 name (image_state m.0 node_name size name)
      (image_state-inhabited m.0 node_name size name) h

add_names-IsInhabited :
    (node_name : String) (size : ℕ) (names : List String)
    (m : Dict ImageState × Dict ImageStateSummary)
    → IsInhabited m.0
    → IsInhabited (add_names node_name size names m).0
unfolding add_names
add_names-IsInhabited node_name size [] m h = h
add_names-IsInhabited node_name size (name ∷ names) m h =
    add_names-IsInhabited node_name size names (add_name node_name size name m)
      (add_name-IsInhabited node_name size name m h)

add_images-IsInhabited :
    (node_name : String) (images : List ContainerImage)
    (m : Dict ImageState × Dict ImageStateSummary)
    → IsInhabited m.0
    → IsInhabited (add_images node_name images m).0
unfolding add_images
add_images-IsInhabited node_name [] m h = h
add_images-IsInhabited node_name (image ∷ images) m h =
    add_images-IsInhabited node_name images (add_names node_name image.size_bytes image.names m)
      (add_names-IsInhabited node_name image.size_bytes image.names m h)

-- addNodeImageStates leaves no image without a node, where there was none.
pub add_node_image_states-IsInhabited :
    (states : Dict ImageState) (node : Node) (n : NodeInfo)
    → IsInhabited states
    → IsInhabited (add_node_image_states states node n).0
unfolding add_node_image_states
add_node_image_states-IsInhabited states node n h =
    add_images-IsInhabited node.name node.images (states, []) h

remove_name-IsInhabited :
    (node_name name : String) (states : Dict ImageState)
    → IsInhabited states
    → IsInhabited (remove_name node_name name states)
unfolding remove_name
remove_name-IsInhabited node_name name states h = elim (Option-cases (Dict.lookup name states)) [
  | inl e ↦ rw (remove_name, e, IsInhabited) h
  | inr (st, e) ↦ elim (Bool-cases (length (set_delete node_name st.nodes) == 0)) [
    | inl z ↦ rw (remove_name, e, z, IsInhabited) (remove-IsInhabited states name h)
    | inr z ↦
        rw (remove_name, e, z, IsInhabited)
          (insert-IsInhabited states name (record st { nodes = set_delete node_name st.nodes })
            (ground arith) h)
  ]
]

remove_names-IsInhabited :
    (node_name : String) (names : List String) (states : Dict ImageState)
    → IsInhabited states
    → IsInhabited (remove_names node_name names states)
unfolding remove_names
remove_names-IsInhabited node_name [] states h = h
remove_names-IsInhabited node_name (name ∷ names) states h =
    remove_names-IsInhabited node_name names (remove_name node_name name states)
      (remove_name-IsInhabited node_name name states h)

remove_images-IsInhabited :
    (node_name : String) (images : List ContainerImage) (states : Dict ImageState)
    → IsInhabited states
    → IsInhabited (remove_images node_name images states)
unfolding remove_images
remove_images-IsInhabited node_name [] states h = h
remove_images-IsInhabited node_name (image ∷ images) states h =
    remove_images-IsInhabited node_name images (remove_names node_name image.names states)
      (remove_names-IsInhabited node_name image.names states h)

-- removeNodeImageStates leaves no image without a node, where there was none: an image goes with
-- its last node.
pub remove_node_image_states-IsInhabited :
    (states : Dict ImageState) (node : Node)
    → IsInhabited states
    → IsInhabited (remove_node_image_states states node)
unfolding remove_node_image_states
remove_node_image_states-IsInhabited states node h =
    remove_images-IsInhabited node.name node.images states h
