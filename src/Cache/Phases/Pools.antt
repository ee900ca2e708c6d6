-- ===== src/Cache/Phases/Pools.antt =====
-- matchPoolForPod finds a pool, and addPod and removePod change nothing but the pools.
use ai_scheduler.Prelude.{
  ◌≡◌, refl, Bool, true, false, none, some, Option, String, arith, [], ◌∷◌, Option-cases, inl, inr,
  str_eq_iff, ◌≢◌, ◌∙◌,
}
use ai_scheduler.Prelude.Dict
use ai_scheduler.Prelude.Dict.{Dict}
use ai_scheduler.Kube.{Pod, External}
use ai_scheduler.Info.PoolInfo.{PoolInfo, default_pool_name}
use ai_scheduler.Info.Store.{Store}
use ai_scheduler.Cache.{
  Cache, Outcome, done, crashed, get_pool_contains_node, default_pool, match_pool_for_pod, pool_of,
  put_pool, add_to_pool, remove_from_pool, update_in_pool, unless_failed,
}
use ai_scheduler.Cache.Phases.{SamePods, Keeps}

get_pool_contains_node-has :
    (pools : Dict PoolInfo) (node_name key : String)
    → get_pool_contains_node pools node_name ≡ some key
    → Dict.has key pools ≡ true
unfolding get_pool_contains_node Dict.has Dict.lookup
get_pool_contains_node-has [] node_name key h = absurd (ground arith)
get_pool_contains_node-has ((k, p) ∷ pools) node_name key h =
    ground (arith, str_eq_iff k key, get_pool_contains_node-has pools node_name key)

default_pool_lem :
    (c : Cache)
    → Dict.has default_pool_name c.pools ≡ true
    → default_pool c ≡ some default_pool_name
unfolding default_pool
default_pool_lem c d = rw d

is_pool_key : Cache → Option String → Bool
is_pool_key c none = false
is_pool_key c (some key) = Dict.has key c.pools

match_pool_for_pod-is_pool_key :
    (c : Cache) (pod : Pod)
    → Dict.has default_pool_name c.pools ≡ true
    → is_pool_key c (match_pool_for_pod c pod) ≡ true
unfolding match_pool_for_pod is_pool_key
match_pool_for_pod-is_pool_key c pod d =
    elim (Option-cases (get_pool_contains_node c.pools pod.node_name)) [
      | inl none_has ↦ ground (arith, default_pool_lem c d)
      | inr (key, e) ↦
          let there = get_pool_contains_node-has c.pools pod.node_name key e in
          ground (arith, default_pool_lem c d)
    ]

-- While the default pool is there, every pod has a pool.
pool_of-exists :
    (c : Cache) (pod : Pod) → Dict.has default_pool_name c.pools ≡ true → pool_of c pod ≢ none
unfolding pool_of is_pool_key
pool_of-exists c pod d h = elim (Option-cases (match_pool_for_pod c pod)) [
  | inl e ↦ absurd (ground (arith, match_pool_for_pod-is_pool_key c pod d))
  | inr (key, e) ↦
      let (p, found) =
        Dict.has-true key c.pools (ground (arith, match_pool_for_pod-is_pool_key c pod d)) in
      absurd (ground arith)
]

put_pool-SamePods :
    (c : Cache) (key : String) (s : Store) (p : PoolInfo) → SamePods c (put_pool c key s p)
unfolding put_pool
put_pool-SamePods c key s p = record {
  states = refl;
  assumed = refl;
  default = λ d. ground (arith, Dict.has-insert key default_pool_name p c.pools);
}

module _ (ext : External) where
  pub add_to_pool-Keeps :
      (c : Cache) (pod : Pod)
      → Dict.has default_pool_name c.pools ≡ true
      → Keeps c (add_to_pool ext c pod)
  unfolding add_to_pool
  add_to_pool-Keeps c pod d = elim (Option-cases (pool_of c pod)) [
    | inl e ↦ absurd (pool_of-exists c pod d e)
    | inr ((key, p), e) ↦ rw (e, Keeps) (put_pool-SamePods c key _ _)
  ]

  pub remove_from_pool-Keeps :
      (c : Cache) (pod : Pod)
      → Dict.has default_pool_name c.pools ≡ true
      → Keeps c (remove_from_pool ext c pod)
  unfolding remove_from_pool
  remove_from_pool-Keeps c pod d = elim (Option-cases (pool_of c pod)) [
    | inl e ↦ absurd (pool_of-exists c pod d e)
    | inr ((key, p), e) ↦ rw (e, Keeps) (put_pool-SamePods c key _ _)
  ]

SamePods-trans : (a b c : Cache) → SamePods a b → SamePods b c → SamePods a c
SamePods-trans a b c s t = record {
  states = t.states ∙ s.states;
  assumed = t.assumed ∙ s.assumed;
  default = λ d. t.default (s.default d);
}

Keeps-trans : (a b : Cache) (o : Outcome) → SamePods a b → Keeps b o → Keeps a o
Keeps-trans a b (done c failed) s t = SamePods-trans a b c s t
Keeps-trans a b crashed s t = t

unless_failed-Keeps :
    (c : Cache) (o : Outcome) (f : Cache → Outcome)
    → Keeps c o
    → ((c' : Cache) → SamePods c c' → Keeps c' (f c'))
    → Keeps c (unless_failed o f)
unfolding unless_failed
unless_failed-Keeps c (done c' none) f s h = Keeps-trans c c' (f c') s (h c' s)
unless_failed-Keeps c (done c' (some e)) f s h = s
unless_failed-Keeps c crashed f s h = s

pub update_in_pool-Keeps :
    (ext : External) (c : Cache) (old new : Pod)
    → Dict.has default_pool_name c.pools ≡ true
    → Keeps c (update_in_pool ext c old new)
unfolding update_in_pool
update_in_pool-Keeps ext c old new d =
    unless_failed-Keeps c _ _ (remove_from_pool-Keeps ext c old d)
      (λ c' s. add_to_pool-Keeps ext c' new (s.default d))
