-- ===== src/Panel/Sspanel/Nodes.antt =====
-- The parsers of SSPanel's nodes: ParseV2rayNodeResponse and its siblings.
use center_agent.Prelude.{
  ℕ, ◌+◌, ◌-◌, ◌%◌, ◌^◌, Bool, true, false, ◌||◌, Option, none, some, List, [], ◌∷◌, ◌==◌, nat_eq,
  list_eq, if◌then◌else◌,
}
use center_agent.Prelude.Ints.{ℤ}
use center_agent.Prelude.Text.{Text, codes, split}
use center_agent.Panel.Common.{
  FloatLib, ApiConfig, PanelNode, RealityConfig, zero_reality, bad_json, no_server, bad_port,
  no_custom_config, Parsed, ok, err, ◌>>=◌, ◌>>◌, index, of_option, parse_int, to_word, Reply,
  parse_response, choose_speed, node_of,
}
use center_agent.Panel.Sspanel.Users.{UserResponse}
use center_agent.Panel.Sspanel.Readers.{
  Extras, first_host, first_port, header_of, pick_plugin_transport, pick_transport, read_extras,
  second_port, set_plugin, set_trojan, set_v2ray, transports,
}

-- CustomConfig: the fields that are read.
pub record CustomConfig : Type 0 where
  pub offset_port_node : Text
  pub host : Text
  pub method : Text
  pub enable_vless : Text
  pub network : Text
  pub security : Text
  pub path : Text
  pub header : Text
  pub servicename : Text
  pub flow : Text
  pub enable_reality : Bool
  pub reality_opts : Option RealityConfig

-- NodeInfoResponse. The custom configuration is what decoding makes of it, if there is one.
pub record NodeInfoResponse (F : FloatLib) : Type 0 where
  pub speed_limit : F.Float
  pub raw_server : Text
  pub version : Text
  pub custom_config : Option (Option CustomConfig)

module _ (F : FloatLib) where
  abbrev pub speed_of : ApiConfig F → NodeInfoResponse F → ℕ
  speed_of c r = choose_speed F c.speed_limit r.speed_limit

  -- The node that ParseV2rayNodeResponse answers with, from what it has read.
  abbrev pub v2ray_node :
      ApiConfig F
      → NodeInfoResponse F
      → (port alter_id : ℤ) → (picked : Bool × Text) → Extras
      → PanelNode
  v2ray_node c r port alter_id picked extras =
      record (node_of F c (to_word 32 port) (speed_of c r) picked.1) {
        alter_id = to_word 16 alter_id;
        enable_tls = picked.0;
        path = extras.path;
        host = extras.host;
        enable_vless = c.enable_vless;
        vless_flow = c.vless_flow;
        service_name = extras.service_name;
        header = header_of extras.header_type;
      }

  unfoldable pub parse_v2ray_node : ApiConfig F → NodeInfoResponse F → Parsed PanelNode
  parse_v2ray_node c r = do
    let conf = split b';' r.raw_server
    if r.raw_server == [] then err no_server else ok tt
    port ← parse_int (← index conf 1) 32
    alter_id ← parse_int (← index conf 2) 16
    named ← transports conf
    extras ← read_extras set_v2ray (← index conf 5)
    ok (
        v2ray_node c r port alter_id (pick_transport named.1 (pick_transport named.0 (false, [])))
          extras)

  -- The port is that of the first user.
  unfoldable pub parse_ss_node :
      ApiConfig F → NodeInfoResponse F → Reply (List (UserResponse F)) → Parsed PanelNode
  unfolding parse_response choose_speed
  parse_ss_node c r users = do
    given ← parse_response 400 1 users
    list ← of_option bad_json given
    let port : ℕ = elim list [ [] ↦ 0 | u ∷ us ↦ u.port ]
    ok (node_of F c port (speed_of c r) (codes "tcp"))

  -- `port - 1` on a uint32 wraps around.
  unfoldable pub parse_ss_plugin_node : ApiConfig F → NodeInfoResponse F → Parsed PanelNode
  unfolding split index parse_int transports read_extras set_plugin choose_speed
  parse_ss_plugin_node c r = do
    let conf = split b';' r.raw_server
    given ← parse_int (← index conf 1) 32
    let port = (to_word 32 given + 2 ^ 32 - 1) % 2 ^ 32
    if port == 0 then err bad_port else ok tt
    named ← transports conf
    let (tls, transport) = pick_plugin_transport named.1 (pick_plugin_transport named.0 (false, []))
    extras ← read_extras set_plugin (← index conf 5)
    ok (record (node_of F c port (speed_of c r) transport) {
      enable_tls = tls;
      path = extras.path;
      host = extras.host;
    })

  unfoldable pub parse_trojan_node : ApiConfig F → NodeInfoResponse F → Parsed PanelNode
  unfolding split index parse_int read_extras set_trojan first_port second_port first_host
      choose_speed
  parse_trojan_node c r = do
    if r.raw_server == [] then err no_server else ok tt
    let inside = second_port r.raw_server
    port ← parse_int (if inside == [] then first_port r.raw_server else inside) 32
    extras ← read_extras set_trojan (← index (split b';' r.raw_server) 1)
    ok
        (record (node_of F c (to_word 32 port) (speed_of c r)
          (if extras.grpc then codes "grpc" else codes "tcp")) {
            enable_tls = true;
            host = first_host r.raw_server;
            service_name = extras.service_name;
          })

  -- What the type of the node makes of the custom configuration: transport, TLS and VLESS.
  abbrev pub custom_transport : Text → CustomConfig → Text × (Bool × Bool)
  custom_transport node_type k =
      if node_type == codes "Shadowsocks"
      then (codes "tcp", (false, false))
      else if node_type == codes "V2ray"
      then (
        k.network,
        (k.security == codes "tls" || k.security == codes "xtls", k.enable_vless == codes "1"),
      )
      else if node_type == codes "Trojan"
      then (if k.network == [] then codes "tcp" else k.network, (true, false))
      else ([], (false, false))

  unfoldable pub parse_sspanel_node : ApiConfig F → NodeInfoResponse F → Parsed PanelNode
  unfolding parse_int choose_speed
  parse_sspanel_node c r = do
    given ← of_option no_custom_config r.custom_config
    k ← of_option bad_json given
    port ← parse_int k.offset_port_node 32
    let (transport, (tls, vless)) = custom_transport c.node_type k
    ok (record (node_of F c (to_word 32 port) (speed_of c r) transport) {
      host = k.host;
      path = k.path;
      enable_tls = tls;
      enable_vless = vless;
      vless_flow = k.flow;
      cypher_method = k.method;
      service_name = k.servicename;
      header = k.header;
      enable_reality = k.enable_reality;
      reality = some (elim k.reality_opts [ none ↦ zero_reality | some o ↦ o ]);
    })
