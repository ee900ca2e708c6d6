-- ===== src/Info/HostPorts/Conflict.antt =====
-- CheckConflict of host_ports.go against the set of triples in use.
use ai_scheduler.Prelude.{
  ℕ, ◌≡◌, refl, ◌↔◌, ◌⊎◌, inl, inr, true, false, [], ◌∷◌, String, arith, str_eq, str_eq_iff,
  str_eq_refl, Bool-cases,
}
use ai_scheduler.Prelude.Dict
use ai_scheduler.Prelude.Dict.{Dict}
use ai_scheduler.Prelude.Int64
use ai_scheduler.Info.HostPorts.{
  ProtocolPort, has_port, HostPortInfo, sanitize_ip, port_key, add, ip_has, any_ip_has,
  check_conflict, default_bind_all_host_ip,
}
use ai_scheduler.Info.HostPorts.Laws.{is_triple, same_port_iff, ip_has-add}

-- A triple in use that a new one with this IP and pair collides with: the same pair, and the same
-- IP unless one of the two is the address of all hosts.
pub record Collision (h : HostPortInfo) (key : String) (pp : ProtocolPort) : Type 0 where
  pub ip : String
  pub in_use : ip_has ip pp h ≡ true
  pub overlap : (key ≡ default_bind_all_host_ip) ⊎ ((ip ≡ default_bind_all_host_ip) ⊎ (ip ≡ key))

any_ip_has_of :
    (h : HostPortInfo) (ip : String) (pp : ProtocolPort)
    → ip_has ip pp h ≡ true
    → any_ip_has pp h ≡ true
unfolding ip_has any_ip_has Dict.lookup
any_ip_has_of [] ip pp e = cc
any_ip_has_of ((j, m) ∷ h) ip pp e = ground (arith, any_ip_has_of h ip pp)

any_ip_has-find :
    (h : HostPortInfo) (pp : ProtocolPort)
    → Dict.Distinct h
    → any_ip_has pp h ≡ true
    → (ip : String) × (ip_has ip pp h ≡ true)
unfolding ip_has any_ip_has Dict.lookup
any_ip_has-find [] pp d e = cc
any_ip_has-find ((j, m) ∷ h) pp d e = elim (Bool-cases (has_port pp m)) [
  | inl here ↦ (j, ground (arith, str_eq_refl j))
  | inr there ↦
      let (ip, found) = any_ip_has-find h pp d.1 (ground arith) in
      (ip, ground (arith, str_eq_iff j ip, d.0))
]

Collision-conflict :
    (h : HostPortInfo) (ip protocol : String) (port : ℕ)
    → Int64.le port 0 ≡ false
    → Collision h (sanitize_ip ip) (port_key protocol port)
    → check_conflict h ip protocol port ≡ true
unfolding check_conflict
Collision-conflict h ip protocol port pos c = ground (
  arith,
  c.in_use,
  c.overlap,
  any_ip_has_of h c.ip (port_key protocol port),
  str_eq_iff (sanitize_ip ip) default_bind_all_host_ip,
)

conflict-Collision :
    (h : HostPortInfo) (ip protocol : String) (port : ℕ)
    → Dict.Distinct h
    → check_conflict h ip protocol port ≡ true
    → Collision h (sanitize_ip ip) (port_key protocol port)
unfolding check_conflict
conflict-Collision h ip protocol port d e =
    let key = sanitize_ip ip in
    let pp = port_key protocol port in
    elim (Bool-cases (str_eq key default_bind_all_host_ip)) [
      | inl all ↦
          let (j, found) = any_ip_has-find h pp d (ground arith) in
          record { ip = j; in_use = found; overlap = inl ((str_eq_iff _ _).0 all) }
      | inr one ↦ elim (Bool-cases (ip_has default_bind_all_host_ip pp h)) [
        | inl found ↦ record {
          ip = default_bind_all_host_ip;
          in_use = found;
          overlap = inr (inl refl);
        }
        | inr other ↦ record { ip = key; in_use = ground arith; overlap = inr (inr refl) }
      ]
    ]

-- For a positive port CheckConflict answers true exactly when a triple in use collides, in a map
-- whose keys are distinct.
pub check_conflict_iff :
    (h : HostPortInfo) (ip protocol : String) (port : ℕ)
    → Dict.Distinct h
    → Int64.le port 0 ≡ false
    → (check_conflict h ip protocol port ≡ true)
      ↔ Collision h (sanitize_ip ip) (port_key protocol port)
check_conflict_iff h ip protocol port d pos =
    (conflict-Collision h ip protocol port d, Collision-conflict h ip protocol port pos)

-- A positive port that was just added is in conflict, whatever else is in use.
pub check_conflict-add :
    (h : HostPortInfo) (ip protocol : String) (port : ℕ)
    → Int64.le port 0 ≡ false
    → check_conflict (add h ip protocol port) ip protocol port ≡ true
unfolding is_triple
check_conflict-add h ip protocol port pos = Collision-conflict _ ip protocol port pos (record {
  ip = sanitize_ip ip;
  in_use = ground (
    arith,
    ip_has-add h ip protocol port (sanitize_ip ip) (port_key protocol port),
    str_eq_refl (sanitize_ip ip),
    same_port_iff (port_key protocol port) (port_key protocol port),
  );
  overlap = inr (inr refl);
})
