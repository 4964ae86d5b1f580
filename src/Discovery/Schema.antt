-- ===== src/Discovery/Schema.antt =====
-- app/core/schemas/discovery.py, and `_validate_template` of app/api/routes/discovery.py.
use ghostmon.Base.{
  ℕ, zero, suc, ◌-◌, ◌≤◌, ◌≡◌, refl, ap, Bool, true, false, ◌&&◌, not, String, Option, none, some,
  List, [], ◌∷◌, arith, leb, length, take, length_in, is_some, Option-cases, inl, inr,
  if◌then◌else◌,
}
use ghostmon.Model.Template.{DiscoveryMethod}
use ghostmon.Discovery.{DiscoveryRuleCreate, max_scan_hosts}
use ghostmon.Templates.{Catalog, get_template}

-- what is read of an address range of Python's `ipaddress`
pub record AddressRange : Type 0 where
  pub num_addresses : ℕ
  pub prefixlen : ℕ
  pub max_prefixlen : ℕ
  pub hosts : List String

abbrev is_tcp : DiscoveryMethod → Bool
is_tcp DiscoveryMethod.tcp = true
is_tcp DiscoveryMethod.ping = false

abbrev port_in_range : Option ℕ → Bool
port_in_range none = true
port_in_range (some port) = leb 1 port && leb port 65535

-- how many hosts `_validate` counts; a range of two or of one is not listed
unfoldable pub counted_hosts : AddressRange → ℕ
counted_hosts network =
    if leb (network.max_prefixlen - 1) network.prefixlen
    then network.num_addresses
    else length network.hosts

counted :
    (network : AddressRange)
    → length network.hosts ≤ network.num_addresses
    → leb (counted_hosts network) max_scan_hosts ≡ true
    → length network.hosts ≤ max_scan_hosts
unfolding counted_hosts
counted network bound h = ground (arith, bound, h)

-- `ip_network(cidr, strict=False)` is a parameter, none for ValueError
module _ (ip_network : String → Option AddressRange) where
  -- `_validate`
  unfoldable pub valid_range : DiscoveryRuleCreate → Bool
  unfolding counted_hosts
  valid_range payload = elim (ip_network payload.cidr) [
    | none ↦ false
    | some network ↦
        leb (counted_hosts network) max_scan_hosts
        && not (is_tcp payload.method && not (is_some payload.port))
  ]

  -- the fields' bounds and `_validate`
  unfoldable pub valid_rule : DiscoveryRuleCreate → Bool
  unfolding valid_range
  valid_rule payload =
      length_in 1 255 payload.name
      && length_in 1 64 payload.cidr
      && port_in_range payload.port
      && leb 60 payload.interval_seconds
      && leb payload.interval_seconds 604800
      && valid_range payload

  -- the addresses that a scan lists
  unfoldable pub hosts_of : String → List String
  hosts_of cidr = elim (ip_network cidr) [ none ↦ [] | some network ↦ network.hosts ]

  take_all : {A : Type 0} (n : ℕ) (xs : List A) → length xs ≤ n → take n xs ≡ xs
  take_all zero [] h = refl
  take_all zero (x ∷ xs) h = ground arith
  take_all (suc n) [] h = refl
  take_all (suc n) (x ∷ xs) h = ap (λ ys. x ∷ ys) (take_all n xs (omega (arith, h)))

  ranged :
      (payload : DiscoveryRuleCreate) (network : AddressRange)
      → ip_network payload.cidr ≡ some network
      → valid_rule payload ≡ true
      → leb (counted_hosts network) max_scan_hosts ≡ true
  unfolding valid_rule valid_range
  ranged payload network e valid =
      let bounded : valid_range payload ≡ true = ground (arith, valid) in
      ground (arith, rw (e, valid_range) at bounded)

  -- A scan of a rule that the schema accepts leaves no address of its range out, given that a range has no
  -- more hosts than addresses.
  pub valid_rule-whole :
      (payload : DiscoveryRuleCreate)
      → ((cidr : String) (network : AddressRange)
          → ip_network cidr ≡ some network
          → length network.hosts ≤ network.num_addresses)
      → valid_rule payload ≡ true
      → take max_scan_hosts (hosts_of payload.cidr) ≡ hosts_of payload.cidr
  unfolding valid_rule valid_range counted_hosts hosts_of
  valid_rule-whole payload law valid = elim (Option-cases (ip_network payload.cidr)) [
    | inl e ↦ rw (e, hosts_of) refl
    | inr (network, e) ↦
        let bound = law payload.cidr network e in
        rw (e, hosts_of)
          (take_all max_scan_hosts network.hosts
            (counted network bound (ranged payload network e valid)))
  ]

-- `_validate_template`: false for the answer 422
unfoldable pub template_owned : ℕ → Option ℕ → Catalog → Bool
unfolding get_template
template_owned owner_id none db = true
template_owned owner_id (some template_id) db = is_some (get_template template_id owner_id db)
