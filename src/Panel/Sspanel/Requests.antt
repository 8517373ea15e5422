-- ===== src/Panel/Sspanel/Requests.antt =====
-- What the client of SSPanel does with the answers: GetNodeInfo, GetUserList, GetNodeRule and the
-- reports.
use center_agent.Prelude.{
  Bool, true, false, ◌||◌, Option, none, some, List, [], ◌∷◌, ◌++◌, ◌==◌, nat_eq, list_eq,
  if◌then◌else◌,
}
use center_agent.Prelude.Ints.{ℤ, negsuc}
use center_agent.Prelude.Maps.{Map}
use center_agent.Prelude.Text.{Text, codes}
use center_agent.Api.{UserInfo, OnlineUser}
use center_agent.Panel.Common.{
  FloatLib, ApiConfig, DetectRule, PanelNode, not_modified, bad_json, unsupported_type, Parsed, ok,
  err, panic, ◌>>=◌, of_option, Reply, parse_response, note_etag,
}
use center_agent.Panel.Sspanel.Versions.{compare_version}
use center_agent.Panel.Sspanel.Users.{UserResponse, parse_user_list, count_online}
use center_agent.Panel.Sspanel.Nodes.{
  NodeInfoResponse, parse_v2ray_node, parse_ss_node, parse_ss_plugin_node, parse_trojan_node,
  parse_sspanel_node,
}

abbrev is_before : Text → Text → Bool
is_before v w = elim (compare_version v w) [ some (negsuc n) ↦ true | _ ↦ false ]

module _ (F : FloatLib) where
  -- The state of a client: its tags, the version of the panel, and the devices last reported.
  pub record Client : Type 0 where
    pub config : ApiConfig F
    pub etags : Map Text Text
    pub version : Text
    pub last_online : Map ℤ ℤ

  -- The parser of the node's type, for panels before 2021.11 and without a custom configuration.
  unfoldable pub parse_old_node :
      ApiConfig F → NodeInfoResponse F → Reply (List (UserResponse F)) → Parsed PanelNode
  unfolding parse_v2ray_node parse_trojan_node parse_ss_node parse_ss_plugin_node
  parse_old_node c r users =
      if c.node_type == codes "V2ray"
      then parse_v2ray_node F c r
      else if c.node_type == codes "Trojan"
      then parse_trojan_node F c r
      else if c.node_type == codes "Shadowsocks"
      then parse_ss_node F c r users
      else if c.node_type == codes "Shadowsocks-Plugin"
      then parse_ss_plugin_node F c r
      else err unsupported_type

  unfoldable pub parse_node :
      ApiConfig F → NodeInfoResponse F → Reply (List (UserResponse F)) → Parsed PanelNode
  unfolding parse_old_node parse_sspanel_node compare_version
  parse_node c r users =
      if c.disable_custom_config || is_before r.version (codes "2021.11")
      then parse_old_node c r users
      else parse_sspanel_node F c r

  -- The version of the panel is noted where the answer has data.
  unfoldable pub take_node :
      Client
      → Parsed (Option (NodeInfoResponse F))
      → Reply (List (UserResponse F))
      → Client × Parsed PanelNode
  unfolding parse_node
  take_node c (err e) users = (c, err e)
  take_node c panic users = (c, panic)
  take_node c (ok none) users = (c, err bad_json)
  take_node c (ok (some d)) users = (record c { version = d.version }, parse_node c.config d users)

  unfoldable pub read_node :
      Client
      → Reply (NodeInfoResponse F)
      → Reply (List (UserResponse F))
      → Client × Parsed PanelNode
  unfolding parse_response take_node
  read_node c r users = take_node c (parse_response 400 1 r) users

  unfoldable pub get_node_info :
      Client
      → Reply (NodeInfoResponse F)
      → Reply (List (UserResponse F))
      → Client × Parsed PanelNode
  unfolding read_node note_etag
  get_node_info c r users =
      if r.status == 304
      then (c, err not_modified)
      else read_node (record c { etags = note_etag (codes "node") r.etag c.etags }) r users

  unfoldable pub read_users :
      Client → Reply (List (UserResponse F)) → Client × Parsed (List UserInfo)
  unfolding parse_response parse_user_list
  read_users c r = elim (parse_response 400 1 r) [
    | err e ↦ (c, err e)
    | panic ↦ (c, panic)
    | ok none ↦ (c, err bad_json)
    | ok (some us) ↦
        let (list, last) = parse_user_list F c.config c.last_online us in
        (record c { last_online = last }, ok list)
  ]

  unfoldable pub get_user_list :
      Client → Reply (List (UserResponse F)) → Client × Parsed (List UserInfo)
  unfolding read_users note_etag
  get_user_list c r =
      if r.status == 304
      then (c, err not_modified)
      else read_users (record c { etags = note_etag (codes "users") r.etag c.etags }) r

  -- `regexp.MustCompile` on every pattern, which panics where one does not compile.
  abbrev pub compile_all : (Text → Bool) → List DetectRule → Parsed (Unit {0})
  compile_all compiles [] = ok tt
  compile_all compiles (r ∷ rs) = if compiles r.pattern then compile_all compiles rs else panic

  -- The local rules, and behind them the panel's.
  unfoldable pub get_node_rule :
      (compiles : Text → Bool)
      → Client
      → Reply (List DetectRule)
      → Client × Parsed (List DetectRule)
  unfolding parse_response note_etag
  get_node_rule compiles c r =
      let c' = record c { etags = note_etag (codes "rules") r.etag c.etags } in
      let rules : Parsed (List DetectRule) = parse_response 400 1 r >>= λ given.
      of_option bad_json given >>= λ rs.
      compile_all compiles rs >>= λ _. ok (c.config.local_rules ++ rs) in
      if r.status == 304 then (c, err not_modified) else (c', rules)

  -- ReportNodeOnlineUsers: what is sent, and the table of the report, whatever the panel answers.
  unfoldable pub report_node_online_users :
      Client → List OnlineUser → Reply Text → Client × Parsed (Unit {0})
  unfolding count_online parse_response
  report_node_online_users c us r =
      (record c { last_online = count_online [] us }, parse_response 400 1 r >>= λ _. ok tt)

  -- ReportNodeStatus: only a panel before 2023.2 is told; there is nothing to answer otherwise.
  unfoldable pub report_node_status : Client → Reply Text → Parsed (Unit {0})
  unfolding compare_version parse_response
  report_node_status c r =
      if is_before c.version (codes "2023.2")
      then (parse_response 400 1 r >>= λ _. ok tt)
      else ok tt
