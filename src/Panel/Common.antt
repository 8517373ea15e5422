-- ===== src/Panel/Common.antt =====
-- What the clients of the panels share: their configuration, the node that they answer with, results
-- that may be an error or a panic, and the exchange with entity tags.
use center_agent.Prelude.{
  ℕ, ◌-◌, ◌%◌, ◌^◌, zero, suc, Bool, false, ◌&&◌, not, Option, none, some, List, [], ◌∷◌, ◌==◌,
  nat_eq, list_eq, ltb, if◌then◌else◌,
}
use center_agent.Prelude.Ints.{ℤ, pos, negsuc, ltb_ℤ}
use center_agent.Prelude.Maps.{Map, load, store}
use center_agent.Prelude.Text.{Text, atoi}

-- float64, as far as a speed in megabits goes: `x > 0`, and `uint64((x * 1000000) / 8)`.
pub record FloatLib : Type 1 where
  pub Float : Type 0
  pub is_positive : Float → Bool
  pub bytes_per_second : Float → ℕ

-- A compiled pattern with its ID.
pub record DetectRule : Type 0 where
  pub id : ℤ
  pub pattern : Text

-- What a client keeps of api.Config, with its local rules.
pub record ApiConfig (F : FloatLib) : Type 0 where
  pub node_id : ℤ
  pub node_type : Text
  pub enable_vless : Bool
  pub vless_flow : Text
  pub speed_limit : F.Float
  pub device_limit : ℤ
  pub disable_custom_config : Bool
  pub local_rules : List DetectRule

pub record RealityConfig : Type 0 where
  pub dest : Text
  pub proxy_protocol_ver : ℕ
  pub server_names : List Text
  pub private_key : Text
  pub min_client_ver : Text
  pub max_client_ver : Text
  pub max_time_diff : ℕ
  pub short_ids : List Text

-- api.NodeInfo: the fields that a client fills.
pub record PanelNode : Type 0 where
  pub node_type : Text
  pub node_id : ℤ
  pub port : ℕ
  pub speed_limit : ℕ
  pub alter_id : ℕ
  pub transport_protocol : Text
  pub host : Text
  pub path : Text
  pub enable_tls : Bool
  pub enable_vless : Bool
  pub vless_flow : Text
  pub cypher_method : Text
  pub server_key : Text
  pub service_name : Text
  pub header : Text
  pub enable_reality : Bool
  pub reality : Option RealityConfig

abbrev pub zero_reality : RealityConfig
zero_reality = record {
  dest = [];
  proxy_protocol_ver = 0;
  server_names = [];
  private_key = [];
  min_client_ver = [];
  max_client_ver = [];
  max_time_diff = 0;
  short_ids = [];
}

-- The errors of a client.
pub data Fault : Type 0 where
  not_modified request_failed bad_ret bad_json unsupported_type no_server no_number : Fault
  bad_port no_custom_config no_users bad_node_type : Fault

-- A result, an error, or a panic: an index out of range.
pub data Parsed {ℓ} (A : Type ℓ) : Type ℓ where
  ok : A → Parsed A
  err : Fault → Parsed A
  panic : Parsed A

infixl 5 ◌>>=◌ ◌>>◌
abbrev pub ◌>>=◌ {ℓ κ} : {A : Type ℓ} {B : Type κ} → Parsed A → (A → Parsed B) → Parsed B
(ok a) >>= f = f a
(err e) >>= f = err e
panic >>= f = panic

abbrev pub ◌>>◌ {ℓ} : {B : Type ℓ} → Parsed (Unit {0}) → Parsed B → Parsed B
m >> k = m >>= λ _. k

-- `l[i]`
unfoldable pub index {ℓ} : {A : Type ℓ} → List A → ℕ → Parsed A
index [] n = panic
index (x ∷ xs) zero = ok x
index (x ∷ xs) (suc n) = index xs n

abbrev pub of_option {ℓ} : {A : Type ℓ} → Fault → Option A → Parsed A
of_option e none = err e
of_option e (some a) = ok a

-- `strconv.ParseInt(s, 10, bits)`
abbrev pub fits : ℕ → ℤ → Bool
fits bits (pos n) = ltb n (2 ^ (bits - 1))
fits bits (negsuc n) = ltb n (2 ^ (bits - 1))

unfoldable pub parse_int : Text → ℕ → Parsed ℤ
unfolding atoi
parse_int s bits = elim (atoi s) [
  | none ↦ err no_number
  | some z ↦ if fits bits z then ok z else err no_number
]

-- `uint32(z)` and `uint16(z)`
abbrev pub to_word : ℕ → ℤ → ℕ
to_word bits (pos n) = n % 2 ^ bits
to_word bits (negsuc n) = 2 ^ bits - 1 - n % 2 ^ bits

-- An answer of the panel. No request came through if it failed; the data is what decoding makes of
-- the body.
pub record Reply (D : Type 0) : Type 0 where
  pub failed : Bool
  pub status : ℕ
  pub etag : Text
  pub ret : ℕ
  pub data_of : Option D

-- parseResponse: the status above which an answer is an error, and the code of a good one.
unfoldable pub parse_response : {D : Type 0} → (limit good : ℕ) → Reply D → Parsed (Option D)
parse_response limit good r =
    if r.failed
    then err request_failed
    else if ltb limit r.status
    then err request_failed
    else if r.ret == good
    then ok r.data_of
    else err bad_ret

-- `c.eTags[key] = ETag`, where the header is there and new.
unfoldable pub note_etag : Text → Text → Map Text Text → Map Text Text
unfolding load store
note_etag key etag tags =
    let old : Text = elim (load key tags) [ none ↦ [] | some t ↦ t ] in
    if not (etag == []) && not (etag == old) then store key etag tags else tags

module _ (F : FloatLib) where
  -- The node's speed limit is the configuration's, if there is one, and else the panel's.
  unfoldable pub choose_speed : F.Float → F.Float → ℕ
  choose_speed configured given =
      if F.is_positive configured then F.bytes_per_second configured else F.bytes_per_second given

  abbrev pub choose_devices : (configured given : ℤ) → ℤ
  choose_devices configured given = if ltb_ℤ (pos 0) configured then configured else given

  abbrev pub node_of : ApiConfig F → (port speed : ℕ) → (transport : Text) → PanelNode
  node_of c port speed transport = record {
    node_type = c.node_type;
    node_id = c.node_id;
    port = port;
    speed_limit = speed;
    alter_id = 0;
    transport_protocol = transport;
    host = [];
    path = [];
    enable_tls = false;
    enable_vless = false;
    vless_flow = [];
    cypher_method = [];
    server_key = [];
    service_name = [];
    header = [];
    enable_reality = false;
    reality = none;
  }
