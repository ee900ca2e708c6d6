-- ===== src/Info/HostPorts/Laws.antt =====
-- What Add and Remove of host_ports.go do to the set of triples (ip, protocol, port) in use.
use ai_scheduler.Prelude.{
  ℕ, ◌≡◌, refl, ◌↔◌, inl, inr, Bool, true, false, not, ◌&&◌, ◌||◌, [], ◌∷◌, none, some, String,
  arith, str_eq, str_eq_iff, if◌then◌else◌, length, Option-cases,
}
use ai_scheduler.Prelude.Dict
use ai_scheduler.Prelude.Int64
use ai_scheduler.Info.HostPorts.{
  ProtocolPort, same_port, PortSet, has_port, insert_port, delete_port, HostPortInfo, sanitize_ip,
  port_key, add, drop_port, remove, ip_has,
}

pub same_port_iff : (p q : ProtocolPort) → (same_port p q ≡ true) ↔ (p ≡ q)
unfolding same_port
same_port_iff p q = ground (arith, str_eq_iff p.protocol q.protocol)

pub has_port-insert_port :
    (p q : ProtocolPort) (s : PortSet)
    → has_port q (insert_port p s) ≡ (same_port p q || has_port q s)
unfolding has_port insert_port
has_port-insert_port p q [] = refl
has_port-insert_port p q (r ∷ s) = ground (arith, same_port_iff r p, has_port-insert_port p q s)

pub has_port-delete_port :
    (p q : ProtocolPort) (s : PortSet)
    → has_port q (delete_port p s) ≡ (not (same_port p q) && has_port q s)
unfolding has_port delete_port
has_port-delete_port p q [] = ground arith
has_port-delete_port p q (r ∷ s) =
    ground
      (arith, same_port_iff r p, same_port_iff r q, same_port_iff p q, has_port-delete_port p q s)

-- Whether a triple is the one that an operation with these parameters is about.
unfoldable pub is_triple : String → String → ℕ → String → ProtocolPort → Bool
is_triple ip protocol port key q =
    not (Int64.le port 0) && (str_eq (sanitize_ip ip) key && same_port (port_key protocol port) q)

pub ip_has-insert :
    (k key : String) (m : PortSet) (h : HostPortInfo) (q : ProtocolPort)
    → ip_has key q (Dict.insert k m h) ≡ (if str_eq k key then has_port q m else ip_has key q h)
unfolding ip_has
ip_has-insert k key m h q = ground (arith, Dict.lookup-insert k key m h)

pub ip_has-remove :
    (k key : String) (h : HostPortInfo) (q : ProtocolPort)
    → ip_has key q (Dict.remove k h) ≡ (if str_eq k key then false else ip_has key q h)
unfolding ip_has
ip_has-remove k key h q = ground (arith, Dict.lookup-remove k key h)

pub ip_has-lookup :
    (key : String) (m : PortSet) (h : HostPortInfo) (q : ProtocolPort)
    → Dict.lookup key h ≡ some m
    → ip_has key q h ≡ has_port q m
unfolding ip_has
ip_has-lookup key m h q e = ground arith

ip_has-none :
    (key : String) (h : HostPortInfo) (q : ProtocolPort)
    → Dict.lookup key h ≡ none
    → ip_has key q h ≡ false
unfolding ip_has
ip_has-none key h q e = ground arith

-- Add puts the sanitized triple of a positive port in use, and changes the use of no other triple.
pub ip_has-add :
    (h : HostPortInfo) (ip protocol : String) (port : ℕ) (key : String) (q : ProtocolPort)
    → ip_has key q (add h ip protocol port) ≡ (is_triple ip protocol port key q || ip_has key q h)
unfolding add is_triple has_port
ip_has-add h ip protocol port key q =
    let k = sanitize_ip ip in
    let pp = port_key protocol port in
    elim (Option-cases (Dict.lookup k h)) [
      | inl e ↦
          ground (arith, str_eq_iff k key, ip_has-insert k key (pp ∷ []) h q, ip_has-none k h q e)
      | inr (m, e) ↦ ground (
        arith,
        str_eq_iff k key,
        ip_has-insert k key (insert_port pp m) h q,
        ip_has-lookup k m h q e,
        has_port-insert_port pp q m,
      )
    ]

-- Without its last pair a set has none.
has_port_empty : (s : PortSet) (q : ProtocolPort) → length s ≡ 0 → has_port q s ≡ false
unfolding has_port
has_port_empty [] q e = refl
has_port_empty (r ∷ s) q e = absurd (omega arith)

-- Remove takes the sanitized triple of a positive port out of use, and changes the use of no other
-- triple.
pub ip_has-remove_port :
    (h : HostPortInfo) (ip protocol : String) (port : ℕ) (key : String) (q : ProtocolPort)
    → ip_has key q (remove h ip protocol port)
      ≡ (not (is_triple ip protocol port key q) && ip_has key q h)
unfolding remove drop_port is_triple
ip_has-remove_port h ip protocol port key q =
    let k = sanitize_ip ip in
    let pp = port_key protocol port in
    elim (Option-cases (Dict.lookup k h)) [
      | inl e ↦ ground (arith, str_eq_iff k key, ip_has-none k h q e)
      | inr (m, e) ↦ ground (
        arith,
        str_eq_iff k key,
        ip_has-insert k key (delete_port pp m) h q,
        ip_has-remove k key h q,
        ip_has-lookup k m h q e,
        has_port-delete_port pp q m,
        has_port_empty (delete_port pp m) q,
      )
    ]

-- Taking a triple away again leaves in use what was in use before it was added, less the triple.
pub remove-add :
    (h : HostPortInfo) (ip protocol : String) (port : ℕ) (key : String) (q : ProtocolPort)
    → ip_has key q (remove (add h ip protocol port) ip protocol port)
      ≡ (not (is_triple ip protocol port key q) && ip_has key q h)
remove-add h ip protocol port key q = ground (
  arith,
  ip_has-remove_port (add h ip protocol port) ip protocol port key q,
  ip_has-add h ip protocol port key q,
)
