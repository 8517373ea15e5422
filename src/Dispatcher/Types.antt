-- ===== src/Dispatcher/Types.antt =====
-- Destinations, and what a sniffer finds: sniffer.go and fakednssniffer.go.
use center_agent.Prelude.{
  ℕ, Bool, true, false, ◌&&◌, ◌||◌, not, Option, none, some, List, [], ◌∷◌, ◌==◌, nat_eq, list_eq,
}
use center_agent.Prelude.Text.{Text, codes, has_prefix, to_lower}

-- net.Network
pub data Network : Type 0 where
  unknown tcp udp unix : Network

abbrev pub same_network : Network → Network → Bool
same_network unknown unknown = true
same_network tcp tcp = true
same_network udp udp = true
same_network unix unix = true
same_network m n = false

-- net.Address
pub data Address : Type 0 where
  by_name by_ip : Text → Address

abbrev pub same_address : Address → Address → Bool
same_address (by_name s) (by_name t) = s == t
same_address (by_ip s) (by_ip t) = s == t
same_address a b = false

abbrev pub is_ip : Address → Bool
is_ip (by_ip s) = true
is_ip (by_name s) = false

-- net.Destination
pub record Destination : Type 0 where
  pub network : Network
  pub address : Address
  pub port : ℕ

abbrev pub same_destination : Destination → Destination → Bool
same_destination d e =
    same_network d.network e.network && same_address d.address e.address && d.port == e.port

abbrev pub is_valid : Destination → Bool
is_valid d = not (same_network d.network unknown)

-- SniffResult: what a library found, fakeDNSSniffResult, DNSThenOthersSniffResult, compositeResult.
pub data SniffResult : Type 0 where
  plain : (protocol domain : Text) → SniffResult
  fake_dns : (domain : Text) → SniffResult
  then_others : (domain original : Text) → SniffResult
  composite : (of_domain of_protocol : SniffResult) → SniffResult

abbrev pub domain_of : SniffResult → Text
domain_of (plain p d) = d
domain_of (fake_dns d) = d
domain_of (then_others d o) = d
domain_of (composite a b) = domain_of a

abbrev pub protocol_of : SniffResult → Text
protocol_of (plain p d) = p
protocol_of (fake_dns d) = codes "fakedns"
protocol_of (then_others d o) = codes "fakedns+others"
protocol_of (composite a b) = protocol_of b

-- ProtocolForDomainResult, where there is one.
abbrev pub protocol_for_domain : SniffResult → Text
protocol_for_domain (composite a b) = protocol_of a
protocol_for_domain r = protocol_of r

-- IsProtoSubsetOf, where there is one.
abbrev pub is_proto_subset_of : SniffResult → Text → Bool
is_proto_subset_of (then_others d o) p = has_prefix p o
is_proto_subset_of r p = false

-- session.SniffingRequest
pub record SniffingRequest : Type 0 where
  pub enabled : Bool
  pub metadata_only : Bool
  pub route_only : Bool
  pub exclude_for_domain : List Text
  pub override_destination_for_protocol : List Text

-- dns.FakeDNSEngine: the domain that an address stands for, if any, and the test for its pools, which
-- only some engines have.
pub record FakeDns : Type 0 where
  pub domain_from : Address → Text
  pub in_pool : Option (Address → Bool)

-- `strings.ToLower(domain) == d` for some `d`; domains are ASCII.
abbrev pub is_excluded : Text → List Text → Bool
is_excluded domain [] = false
is_excluded domain (d ∷ ds) = to_lower domain == d || is_excluded domain ds

abbrev pub missed_by_fake_dns : Option FakeDns → Text → Text → Address → Bool
missed_by_fake_dns none protocol p a = false
missed_by_fake_dns (some f) protocol p a = elim f.in_pool [
  | none ↦ false
  | some has ↦ not (protocol == codes "bittorrent") && p == codes "fakedns" && is_ip a && has a
]

-- The loop of shouldOverride.
unfoldable pub overrides : Option FakeDns → SniffResult → Address → List Text → Bool
overrides f r a [] = false
overrides f r a (p ∷ ps) =
    has_prefix (protocol_for_domain r) p
    || has_prefix p (protocol_for_domain r)
    || missed_by_fake_dns f (protocol_for_domain r) p a
    || is_proto_subset_of r p
    || overrides f r a ps

unfoldable pub should_override : Option FakeDns → SniffResult → SniffingRequest → Destination → Bool
unfolding overrides
should_override f r request d =
    not (is_excluded (domain_of r) request.exclude_for_domain)
    && overrides f r d.address request.override_destination_for_protocol
