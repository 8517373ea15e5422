-- ===== src/Panel/Sspanel/Readers.antt =====
-- How the parsers of sspanel.go read the server's text: its options, and the patterns for ports and host.
use center_agent.Prelude.{
  ℕ, Bool, true, false, ◌&&◌, ◌||◌, not, List, [], ◌∷◌, ◌++◌, ◌==◌, nat_eq, list_eq, leb,
  if◌then◌else◌,
}
use center_agent.Prelude.Text.{Text, codes, split, has_prefix, is_digit}
use center_agent.Panel.Common.{Parsed, ok, panic, ◌>>=◌, index}

-- What the options behind the last semicolon set.
pub record Extras : Type 0 where
  pub path : Text
  pub host : Text
  pub service_name : Text
  pub header_type : Text
  pub grpc : Bool

abbrev pub no_extras : Extras
no_extras = record { path = []; host = []; service_name = []; header_type = []; grpc = false }

-- `strings.Join(l, "=")`
abbrev pub join_equals : List Text → Text
join_equals [] = []
join_equals (s ∷ []) = s
join_equals (s ∷ t ∷ l) = s ++ (b'=' ∷ join_equals (t ∷ l))

-- The switches on a key, given its value and all that stands behind the first `=`.
unfoldable pub set_v2ray : Text → Text → Text → Extras → Extras
set_v2ray key value whole e =
    if key == codes "path"
    then record e { path = whole }
    else if key == codes "host"
    then record e { host = value }
    else if key == codes "servicename"
    then record e { service_name = value }
    else if key == codes "headerType"
    then record e { header_type = value }
    else e

unfoldable pub set_plugin : Text → Text → Text → Extras → Extras
set_plugin key value whole e =
    if key == codes "path"
    then record e { path = whole }
    else if key == codes "host"
    then record e { host = value }
    else e

unfoldable pub set_trojan : Text → Text → Text → Extras → Extras
set_trojan key value whole e =
    if key == codes "grpc"
    then record e { grpc = true }
    else if key == codes "servicename"
    then record e { service_name = value }
    else e

-- One option: `key=value`. A key without a value is an index out of range.
unfoldable pub read_item : (Text → Text → Text → Extras → Extras) → Text → Extras → Parsed Extras
read_item set item e = elim (split b'=' item) [
  | [] ↦ panic
  | key ∷ [] ↦ if key == [] then ok e else panic
  | key ∷ value ∷ more ↦
      if key == [] then ok e else ok (set key value (join_equals (value ∷ more)) e)
]

unfoldable pub read_items :
    (Text → Text → Text → Extras → Extras) → List Text → Extras → Parsed Extras
unfolding read_item
read_items set [] e = ok e
read_items set (item ∷ items) e = read_item set item e >>= λ e'. read_items set items e'

-- `strings.Split(conf[i], "|")` and its options.
unfoldable pub read_extras : (Text → Text → Text → Extras → Extras) → Text → Parsed Extras
unfolding read_items
read_extras set s = read_items set (split b'|' s) no_extras

-- serverConf[3:5]
unfoldable pub transports : List Text → Parsed (Text × Text)
unfolding index
transports conf = index conf 4 >>= λ fifth. index conf 3 >>= λ fourth. ok (fourth, fifth)

abbrev pub pick_transport : Text → Bool × Text → Bool × Text
pick_transport value (tls, transport) =
    if value == codes "tls"
    then (true, transport)
    else if value == []
    then (tls, transport)
    else (tls, value)

abbrev pub pick_plugin_transport : Text → Bool × Text → Bool × Text
pick_plugin_transport value (tls, transport) =
    if value == codes "tls"
    then (true, transport)
    else if value == codes "ws"
    then (tls, codes "ws")
    else if value == codes "obfs"
    then (tls, codes "tcp")
    else (tls, transport)

-- `json.Marshal(map[string]string{"type": t})`, where `t` needs no escape.
unfoldable pub header_of : Text → Text
header_of t = if t == [] then [] else codes "{\"type\":\"" ++ (t ++ codes "\"}")

abbrev pub digits : Text → Text
digits [] = []
digits (c ∷ s) = let rest = digits s in if is_digit c then c ∷ rest else []

abbrev pub drop_digits : Text → Text
drop_digits [] = []
drop_digits (c ∷ s) = let rest = drop_digits s in if is_digit c then rest else c ∷ s

abbrev pub is_host_code : ℕ → Bool
is_host_code c =
    leb b'a' c && leb c b'z' || leb b'A' c && leb c b'Z' || is_digit c || c == b'_' || c == b'.'

abbrev pub host_codes : Text → Text
host_codes [] = []
host_codes (c ∷ s) = let rest = host_codes s in if is_host_code c then c ∷ rest else []

abbrev pub after_prefix : Text → Text → Text
after_prefix [] s = s
after_prefix (c ∷ p) [] = []
after_prefix (c ∷ p) (d ∷ s) = after_prefix p s

-- firstPortRe: the digits behind the first `port=` that has some.
unfoldable pub first_port : Text → Text
first_port [] = []
first_port (c ∷ s) =
    let rest = first_port s in
    let found = digits (after_prefix (codes "port=") (c ∷ s)) in
    if has_prefix (c ∷ s) (codes "port=") && not (found == []) then found else rest

-- `#(\d+)`
abbrev pub hash_digits : Text → Text
hash_digits [] = []
hash_digits (c ∷ s) = if c == b'#' then digits s else []

-- secondPortRe: the digits behind the first `port=\d+#` that has some.
unfoldable pub second_port : Text → Text
second_port [] = []
second_port (c ∷ s) =
    let rest = second_port s in
    let behind = after_prefix (codes "port=") (c ∷ s) in
    let found = hash_digits (drop_digits behind) in
    if has_prefix (c ∷ s) (codes "port=") && not (digits behind == []) && not (found == [])
    then found
    else rest

-- hostRe: the name behind the first `host=` that has one.
unfoldable pub first_host : Text → Text
first_host [] = []
first_host (c ∷ s) =
    let rest = first_host s in
    let found = host_codes (after_prefix (codes "host=") (c ∷ s)) in
    if has_prefix (c ∷ s) (codes "host=") && not (found == []) then found else rest
