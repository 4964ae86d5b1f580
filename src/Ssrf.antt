-- ===== src/Ssrf.antt =====
-- app/core/security/ssrf.py: which hosts the probes and the webhooks may reach.
use ghostmon.Base.{
  Bool, true, false, ◌&&◌, ◌||◌, not, String, Option, none, some, List, [], ◌∷◌, str_eq,
  if◌then◌else◌,
}

-- what is read of an address of Python's `ipaddress`
pub record Address : Type 0 where
  pub is_private : Bool
  pub is_loopback : Bool
  pub is_link_local : Bool
  pub is_reserved : Bool
  pub is_multicast : Bool
  pub is_unspecified : Bool

-- The setting SSRF_BLOCK_PRIVATE, `ipaddress.ip_address` (none: ValueError), and the addresses that
-- `getaddrinfo` gives (none: OSError or UnicodeError).
pub record Egress : Type 0 where
  pub block_private : Bool
  pub ip_address : String → Option Address
  pub getaddrinfo : String → Option (List String)

unfoldable pub is_internal_ip : Address → Bool
is_internal_ip ip =
    ip.is_private || ip.is_loopback || ip.is_link_local || ip.is_reserved || ip.is_multicast
    || ip.is_unspecified

-- `_is_internal_ip(ip_address(a))`, false on ValueError
unfoldable pub internal_text : Egress → String → Bool
unfolding is_internal_ip
internal_text e a = elim (e.ip_address a) [ none ↦ false | some ip ↦ is_internal_ip ip ]

-- the loop over what the name resolves to
unfoldable pub any_internal : Egress → List String → Bool
unfolding internal_text
any_internal e [] = false
any_internal e (a ∷ rest) = internal_text e a || any_internal e rest

unfoldable pub host_is_blocked : Egress → String → Bool
unfolding any_internal
host_is_blocked e host = elim (e.ip_address host) [
  | some ip ↦ is_internal_ip ip
  | none ↦ elim (e.getaddrinfo host) [ none ↦ false | some infos ↦ any_internal e infos ]
]

-- `assert_target_allowed`: false where it raises
unfoldable pub target_allowed : Egress → String → Bool
unfolding host_is_blocked
target_allowed e host =
    if str_eq host "" then true else not (e.block_private && host_is_blocked e host)
