-- ===== src/Info/HostPorts/Clean.antt =====
-- The shape of a HostPortInfo: distinct IPs, each with at least one pair.
use ai_scheduler.Prelude.{
  ℕ, [], ◌∷◌, String, arith, ◌==◌, length, ◌<◌, Option-cases, Bool-cases, All, inl, inr,
}
use ai_scheduler.Prelude.Dict
use ai_scheduler.Prelude.Int64
use ai_scheduler.Info.HostPorts.{
  ProtocolPort, PortSet, insert_port, delete_port, HostPortInfo, sanitize_ip, port_key, add,
  drop_port, remove,
}

pub record IsClean (h : HostPortInfo) : Type 0 where
  pub distinct : Dict.Distinct h
  pub inhabited : All (λ e. 0 < length e.1) h

abbrev Inhabited : HostPortInfo → Type 0
Inhabited h = All (λ e. 0 < length e.1) h

insert-Inhabited :
    (k : String) (m : PortSet) (h : HostPortInfo)
    → 0 < length m
    → Inhabited h
    → Inhabited (Dict.insert k m h)
unfolding Dict.insert
insert-Inhabited k m [] pos i = (pos, tt)
insert-Inhabited k m ((j, s) ∷ h) pos i = ground (arith, insert-Inhabited k m h pos i.1)

remove-Inhabited : (k : String) (h : HostPortInfo) → Inhabited h → Inhabited (Dict.remove k h)
unfolding Dict.remove
remove-Inhabited k [] i = tt
remove-Inhabited k ((j, s) ∷ h) i = ground (arith, remove-Inhabited k h i.1)

insert_port-pos : (pp : ProtocolPort) (s : PortSet) → 0 < length (insert_port pp s)
unfolding insert_port
insert_port-pos pp [] = omega arith
insert_port-pos pp (q ∷ s) = ground arith

-- Add keeps the IPs distinct and every set of ports inhabited, in a map where they are.
pub add-IsClean :
    (h : HostPortInfo) (ip protocol : String) (port : ℕ)
    → IsClean h
    → IsClean (add h ip protocol port)
unfolding add
add-IsClean h ip protocol port c =
    let k = sanitize_ip ip in
    let pp = port_key protocol port in
    elim (Bool-cases (Int64.le port 0)) [
      | inl skip ↦ rw (skip, add) c
      | inr pos ↦ elim (Option-cases (Dict.lookup k h)) [
        | inl e ↦
            rw (pos, add, e)
              (record {
                distinct = Dict.insert-Distinct k (pp ∷ []) h c.distinct;
                inhabited = insert-Inhabited k (pp ∷ []) h (omega arith) c.inhabited;
              })
        | inr (m, e) ↦
            rw (pos, add, e)
              (record {
                distinct = Dict.insert-Distinct k (insert_port pp m) h c.distinct;
                inhabited =
                    insert-Inhabited k (insert_port pp m) h (insert_port-pos pp m) c.inhabited;
              })
      ]
    ]

drop_port-IsClean :
    (k : String) (pp : ProtocolPort) (m : PortSet) (h : HostPortInfo)
    → IsClean h
    → IsClean (drop_port k pp m h)
unfolding drop_port
drop_port-IsClean k pp m h c = elim (Bool-cases (length (delete_port pp m) == 0)) [
  | inl none_left ↦
      rw (none_left, drop_port)
        (record {
          distinct = Dict.remove-Distinct k h c.distinct;
          inhabited = remove-Inhabited k h c.inhabited;
        })
  | inr some_left ↦
      rw (some_left, drop_port)
        (record {
          distinct = Dict.insert-Distinct k _ h c.distinct;
          inhabited = insert-Inhabited k _ h (ground arith) c.inhabited;
        })
]

-- Remove keeps the IPs distinct and every set of ports inhabited, in a map where they are: an IP
-- goes with its last pair.
pub remove-IsClean :
    (h : HostPortInfo) (ip protocol : String) (port : ℕ)
    → IsClean h
    → IsClean (remove h ip protocol port)
unfolding remove
remove-IsClean h ip protocol port c = elim (Bool-cases (Int64.le port 0)) [
  | inl skip ↦ rw (skip, remove) c
  | inr pos ↦ elim (Option-cases (Dict.lookup (sanitize_ip ip) h)) [
    | inl e ↦ rw (pos, remove, e) c
    | inr (m, e) ↦
        rw (pos, remove, e) (drop_port-IsClean (sanitize_ip ip) (port_key protocol port) m h c)
  ]
]
