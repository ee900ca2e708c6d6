-- ===== src/Info/HostPorts.antt =====
-- pkg/scheduler/info/host_ports.go: the host ports in use on a node, a map from an IP to a set of
-- (protocol, port) pairs.
pub mod Laws
pub mod Conflict
pub mod Clean
use ai_scheduler.Prelude.{
  ℕ, ◌+◌, Bool, true, false, ◌&&◌, ◌||◌, List, [], ◌∷◌, Option, none, some, String, ◌==◌, str_eq,
  length, if◌then◌else◌,
}
use ai_scheduler.Prelude.Dict
use ai_scheduler.Prelude.Dict.{Dict}
use ai_scheduler.Prelude.Int64

abbrev pub default_bind_all_host_ip : String
default_bind_all_host_ip = "0.0.0.0"

abbrev pub protocol_tcp : String
protocol_tcp = "TCP"

pub record ProtocolPort : Type 0 where
  pub protocol : String
  pub port : ℕ

unfoldable pub new_protocol_port : String → ℕ → ProtocolPort
new_protocol_port protocol port = record {
  protocol = if str_eq protocol "" then protocol_tcp else protocol;
  port = port;
}

-- The Go map's equality of keys.
unfoldable pub same_port : ProtocolPort → ProtocolPort → Bool
same_port a b = str_eq a.protocol b.protocol && a.port == b.port

-- A map[ProtocolPort]struct{}.
abbrev pub PortSet : Type 0
PortSet = List ProtocolPort

unfoldable pub has_port : ProtocolPort → PortSet → Bool
has_port pp [] = false
has_port pp (q ∷ s) = same_port q pp || has_port pp s

unfoldable pub insert_port : ProtocolPort → PortSet → PortSet
insert_port pp [] = pp ∷ []
insert_port pp (q ∷ s) = if same_port q pp then q ∷ s else q ∷ insert_port pp s

unfoldable pub delete_port : ProtocolPort → PortSet → PortSet
delete_port pp [] = []
delete_port pp (q ∷ s) = let rest = delete_port pp s in if same_port q pp then rest else q ∷ rest

abbrev pub HostPortInfo : Type 0
HostPortInfo = Dict PortSet

-- The empty IP stands for all, and the empty protocol for TCP.
unfoldable pub sanitize_ip : String → String
sanitize_ip ip = if str_eq ip "" then default_bind_all_host_ip else ip

unfoldable pub sanitize_protocol : String → String
sanitize_protocol protocol = if str_eq protocol "" then protocol_tcp else protocol

-- The key that an operation looks for once its parameters are sanitized.
unfoldable pub port_key : String → ℕ → ProtocolPort
port_key protocol port = new_protocol_port (sanitize_protocol protocol) port

unfoldable pub add : HostPortInfo → String → String → ℕ → HostPortInfo
add h ip protocol port =
    if Int64.le port 0
    then h
    else let key = sanitize_ip ip in
      let pp = port_key protocol port in
      elim (Dict.lookup key h) [
        | none ↦ Dict.insert key (pp ∷ []) h
        | some m ↦ Dict.insert key (insert_port pp m) h
      ]

-- `delete(m, *pp)` and, if that left nothing, `delete(h, ip)`.
unfoldable pub drop_port : String → ProtocolPort → PortSet → HostPortInfo → HostPortInfo
drop_port key pp m h =
    let left = delete_port pp m in
    if length left == 0 then Dict.remove key h else Dict.insert key left h

unfoldable pub remove : HostPortInfo → String → String → ℕ → HostPortInfo
remove h ip protocol port =
    if Int64.le port 0
    then h
    else let key = sanitize_ip ip in
      let pp = port_key protocol port in
      elim (Dict.lookup key h) [ none ↦ h | some m ↦ drop_port key pp m h ]

unfoldable pub len : HostPortInfo → ℕ
len [] = 0
len ((ip, m) ∷ h) = length m + len h

-- Whether some IP has the pair, and whether one IP has it.
unfoldable pub any_ip_has : ProtocolPort → HostPortInfo → Bool
any_ip_has pp [] = false
any_ip_has pp ((ip, m) ∷ h) = has_port pp m || any_ip_has pp h

unfoldable pub ip_has : String → ProtocolPort → HostPortInfo → Bool
ip_has ip pp h = elim (Dict.lookup ip h) [ none ↦ false | some m ↦ has_port pp m ]

unfoldable pub check_conflict : HostPortInfo → String → String → ℕ → Bool
check_conflict h ip protocol port =
    if Int64.le port 0
    then false
    else let key = sanitize_ip ip in
      let pp = port_key protocol port in
      if str_eq key default_bind_all_host_ip
      then any_ip_has pp h
      else ip_has default_bind_all_host_ip pp h || ip_has key pp h
