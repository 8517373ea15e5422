-- ===== src/Controller/Node.antt =====
-- service/controller/control.go and the tag operations of controller.go: a node's handlers and users
-- in Xray-core.
use center_agent.Prelude.{
  ◌+◌, ◌%◌, ◌^◌, false, ◌&&◌, ◌||◌, not, Option, none, some, List, [], ◌∷◌, ◌++◌, ◌==◌, nat_eq,
  list_eq, if◌then◌else◌,
}
use center_agent.Prelude.Text.{Text, codes, decimal}
use center_agent.Api.{UserInfo}
use center_agent.Controller.Types.{NodeInfo, Config, XrayUser, Ran, ok, failed, ◌>>=◌, CoreLib}
use center_agent.Controller.Users.{
  build_vmess_user, build_vless_user, build_trojan_user, build_ss_user, build_ss_plugin_user,
}

-- buildNodeTag
unfoldable pub build_node_tag : Config → NodeInfo → Text
build_node_tag cfg n = n.node_type ++ (b'_' ∷ (cfg.listen_ip ++ (b'_' ∷ decimal n.port)))

-- The tag of the second inbound of a Shadowsocks-Plugin node.
unfoldable pub dokodemo_tag : Text → Text
dokodemo_tag tag = codes "dokodemo-door_" ++ (tag ++ codes "+1")

module _ (C : CoreLib) where
  -- The builder's error, or the handler's way into Xray.
  install_inbound : NodeInfo → Text → C.Core → Ran C.Core
  install_inbound n tag c = elim (C.inbound_builder n tag) [
    | none ↦ failed c
    | some cfg ↦ C.add_inbound cfg c
  ]

  install_outbound : NodeInfo → Text → C.Core → Ran C.Core
  install_outbound n tag c = elim (C.outbound_builder n tag) [
    | none ↦ failed c
    | some cfg ↦ C.add_outbound cfg c
  ]

  -- removeOldTag
  unfoldable pub remove_old_tag : Text → C.Core → Ran C.Core
  remove_old_tag tag c = C.remove_inbound tag c >>= C.remove_outbound tag

  -- addInboundForSSPlugin
  add_inbound_for_ss_plugin : NodeInfo → Text → C.Core → Ran C.Core
  unfolding install_inbound install_outbound
  add_inbound_for_ss_plugin n tag c =
      let plain = record n { transport_protocol = codes "tcp"; enable_tls = false } in
      let stream = record n { port = (n.port + 1) % 2 ^ 32; node_type = codes "dokodemo-door" } in
      install_inbound plain tag c
      >>= install_outbound plain tag
      >>= install_inbound stream (dokodemo_tag tag)
      >>= install_outbound stream (dokodemo_tag tag)

  -- addNewTag
  unfoldable pub add_new_tag : NodeInfo → Text → C.Core → Ran C.Core
  unfolding add_inbound_for_ss_plugin
  add_new_tag n tag c =
      if n.node_type == codes "Shadowsocks-Plugin"
      then add_inbound_for_ss_plugin n tag c
      else install_inbound n tag c >>= install_outbound n tag

  add_each : List (Option XrayUser) → Text → C.Core → Ran C.Core
  add_each [] tag c = ok c
  add_each (u ∷ us) tag c = elim (C.add_user tag u c) [
    | ok c' ↦ add_each us tag c'
    | failed c' ↦ failed c'
  ]

  -- addUsers
  unfoldable pub add_users : List (Option XrayUser) → Text → C.Core → Ran C.Core
  unfolding add_each
  add_users us tag c = if C.has_user_manager c tag then add_each us tag c else failed c

  remove_each : List Text → Text → C.Core → Ran C.Core
  remove_each [] tag c = ok c
  remove_each (e ∷ es) tag c = elim (C.remove_user tag e c) [
    | ok c' ↦ remove_each es tag c'
    | failed c' ↦ failed c'
  ]

  -- removeUsers
  unfoldable pub remove_users : List Text → Text → C.Core → Ran C.Core
  unfolding remove_each
  remove_users es tag c = if C.has_user_manager c tag then remove_each es tag c else failed c

-- The switch of addNewUser; `none` is its default, an unsupported node type. `current` is the node
-- that the controller holds, which the VLESS flow is taken from.
unfoldable pub build_users :
    (methods_2022 : List Text)
    → Config
    → (node current : NodeInfo) → Text
    → List UserInfo
    → Option (List (Option XrayUser))
build_users methods_2022 cfg n current tag us =
    let t = n.node_type in
    if t == codes "V2ray" || t == codes "Vmess" || t == codes "Vless"
    then (if n.enable_vless || t == codes "Vless" && not (t == codes "Vmess")
        then some (build_vless_user current.vless_flow tag us)
        else some (build_vmess_user tag us))
    else if t == codes "Trojan"
    then some (build_trojan_user tag us)
    else if t == codes "Shadowsocks"
    then some (build_ss_user methods_2022 cfg.panel_type n.cypher_method tag us)
    else if t == codes "Shadowsocks-Plugin"
    then some (build_ss_plugin_user methods_2022 cfg.panel_type tag us)
    else none

-- addNewUser
unfoldable pub add_new_user :
    (C : CoreLib) (methods_2022 : List Text)
    → Config
    → (node current : NodeInfo) → Text
    → List UserInfo
    → C.Core
    → Ran C.Core
unfolding build_users
add_new_user C methods_2022 cfg n current tag us c =
    elim (build_users methods_2022 cfg n current tag us) [
      | none ↦ failed c
      | some users ↦ add_users C users tag c
    ]
