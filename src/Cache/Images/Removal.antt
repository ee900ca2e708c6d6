-- ===== src/Cache/Images/Removal.antt =====
-- What removeNodeImageStates takes away.
use ai_scheduler.Prelude.{
  ◌≡◌, refl, Bool, true, false, not, ◌&&◌, ◌||◌, List, [], ◌∷◌, none, some, String, str_eq, length,
  ◌==◌, arith, Option-cases, Bool-cases, inl, inr, str_eq_iff,
}
use ai_scheduler.Prelude.Dict
use ai_scheduler.Prelude.Dict.{Dict}
use ai_scheduler.Kube.{Node, ContainerImage}
use ai_scheduler.Info.NodeTree.{contains}
use ai_scheduler.Cache.Images.{
  ImageState, remove_name, remove_names, remove_images, remove_node_image_states, set_delete,
}

-- Whether the states have the image on the node.
unfoldable pub has_image : String → String → Dict ImageState → Bool
has_image node_name name states = elim (Dict.lookup name states) [
  | none ↦ false
  | some st ↦ contains node_name st.nodes
]

-- Whether one of the images has the name.
unfoldable pub is_listed : String → List ContainerImage → Bool
is_listed name [] = false
is_listed name (image ∷ images) = contains name image.names || is_listed name images

contains-set_delete :
    (x y : String) (xs : List String)
    → contains y (set_delete x xs) ≡ (not (str_eq x y) && contains y xs)
unfolding contains set_delete
contains-set_delete x y [] = ground arith
contains-set_delete x y (z ∷ zs) =
    ground (arith, str_eq_iff x y, str_eq_iff z x, str_eq_iff z y, contains-set_delete x y zs)

empty-contains : (y : String) (xs : List String) → (length xs == 0) ≡ true → contains y xs ≡ false
unfolding contains
empty-contains y [] e = refl
empty-contains y (x ∷ xs) e = absurd (ground arith)

has_image-remove_name :
    (node_name name : String) (states : Dict ImageState) (other j : String)
    → has_image other j (remove_name node_name name states)
      ≡ (not (str_eq node_name other && str_eq name j) && has_image other j states)
unfolding has_image remove_name
has_image-remove_name node_name name states other j =
    elim (Option-cases (Dict.lookup name states)) [
      | inl e ↦ ground (arith, str_eq_iff name j)
      | inr (st, e) ↦ elim (Bool-cases (length (set_delete node_name st.nodes) == 0)) [
        | inl z ↦ ground (
          arith,
          str_eq_iff name j,
          Dict.lookup-remove name j states,
          contains-set_delete node_name other st.nodes,
          empty-contains other (set_delete node_name st.nodes) z,
        )
        | inr z ↦ ground (
          arith,
          str_eq_iff name j,
          Dict.lookup-insert name j (record st { nodes = set_delete node_name st.nodes }) states,
          contains-set_delete node_name other st.nodes,
        )
      ]
    ]

has_image-remove_names :
    (node_name : String) (names : List String) (states : Dict ImageState) (other j : String)
    → has_image other j (remove_names node_name names states)
      ≡ (not (str_eq node_name other && contains j names) && has_image other j states)
unfolding remove_names contains
has_image-remove_names node_name [] states other j = ground arith
has_image-remove_names node_name (name ∷ names) states other j = ground (
  arith,
  has_image-remove_names node_name names (remove_name node_name name states) other j,
  has_image-remove_name node_name name states other j,
)

has_image-remove_images :
    (node_name : String) (images : List ContainerImage) (states : Dict ImageState)
    (other j : String)
    → has_image other j (remove_images node_name images states)
      ≡ (not (str_eq node_name other && is_listed j images) && has_image other j states)
unfolding remove_images is_listed
has_image-remove_images node_name [] states other j = ground arith
has_image-remove_images node_name (image ∷ images) states other j = ground (
  arith,
  has_image-remove_images node_name images (remove_names node_name image.names states) other j,
  has_image-remove_names node_name image.names states other j,
)

-- removeNodeImageStates takes the node from every image that the node lists, and changes nothing
-- about other images and other nodes.
pub remove_node_image_states_lem :
    (states : Dict ImageState) (node : Node) (other j : String)
    → has_image other j (remove_node_image_states states node)
      ≡ (not (str_eq node.name other && is_listed j node.images) && has_image other j states)
unfolding remove_node_image_states
remove_node_image_states_lem states node other j =
    has_image-remove_images node.name node.images states other j
