-- ===== src/Panel/Sspanel/Tests.antt =====
-- The SSPanel client on concrete answers, and the theorems at concrete data.
use center_agent.Prelude.{
  ℕ, ◌*◌, ◌≡◌, refl, true, false, not, none, some, List, [], ◌∷◌, arith, ◌==◌, nat_eq, list_eq, ltb,
  All,
}
use center_agent.Prelude.Ints.{ℤ, pos, negsuc, int_eq}
use center_agent.Prelude.Maps.{load}
use center_agent.Prelude.Text.{Text, codes, split}
use center_agent.Panel.Common.{
  FloatLib, ApiConfig, ok, err, panic, Reply, index, parse_int, choose_speed, node_of, not_modified,
  bad_port,
}
use center_agent.Panel.Sspanel.Versions.{
  read_number, compare_version, compare_numbers, numbers, compare_version-numbers,
}
use center_agent.Panel.Sspanel.Users.{
  UserResponse, last_online, room, user_of, parse_user_list, IsSane, Listed, parse_user_list-Listed,
}
use center_agent.Panel.Sspanel.Readers.{transports}
use center_agent.Panel.Sspanel.Nodes.{
  NodeInfoResponse, parse_v2ray_node, parse_ss_plugin_node, parse_trojan_node,
}
use center_agent.Panel.Sspanel.Requests.{Client, get_node_info, get_node_rule}
use center_agent.Panel.Sspanel.Tags.{get_node_info-unread}
use center_agent.Panel.Sspanel.RoundTrip.{
  Server, server_text, IsPrintable, parse_v2ray_node-server_text,
}

-- Speeds that are whole numbers of megabits.
abbrev whole : FloatLib
whole = record { Float = ℕ; is_positive = λ x. ltb 0 x; bytes_per_second = λ x. x * 125000 }

abbrev config : ApiConfig whole
config = record {
  node_id = pos 41;
  node_type = codes "V2ray";
  enable_vless = false;
  vless_flow = [];
  speed_limit = 0;
  device_limit = pos 3;
  disable_custom_config = true;
  local_rules = record { id = negsuc 0; pattern = codes "local" } ∷ [];
}

abbrev answer : Text → NodeInfoResponse whole
answer s = record {
  speed_limit = 8;
  raw_server = s;
  version = codes "2021.11";
  custom_config = none;
}

abbrev given : {D : Type 0} → (status : ℕ) → Text → D → Reply D
given status etag d = record {
  failed = false;
  status = status;
  etag = etag;
  ret = 1;
  data_of = some d;
}

abbrev user : ℤ → ℤ → UserResponse whole
user id alive = record {
  id = id;
  passwd = codes "pw";
  port = 443;
  method = codes "aes-128-gcm";
  speed_limit = 1;
  device_limit = pos 9;
  uuid = codes "u";
  alive_ip = alive;
}

abbrev client : Client whole
client = record { config = config; etags = []; version = []; last_online = (pos 7, pos 2) ∷ [] }

older_version : compare_version (codes "2021.9") (codes "2021.11") ≡ some (negsuc 0)
unfolding compare_version read_number
older_version = refl

padded_version : compare_version (codes "1.0") (codes "1") ≡ some (pos 0)
unfolding compare_version read_number
padded_version = refl

compare_version-numbers_example :
    compare_version (codes "2021.9") (codes "2021.11.1")
    ≡ some (compare_numbers (numbers (codes "2021.9")) (numbers (codes "2021.11.1")))
compare_version-numbers_example = compare_version-numbers (codes "2021.9") (codes "2021.11.1")

-- Of three devices, four are in use, two of them here: one is free.
room_left : room (pos 3) (pos 4) (pos 2) ≡ some (pos 1)
unfolding room
room_left = refl

room_here : room (pos 3) (pos 6) (pos 2) ≡ some (pos 2)
unfolding room
room_here = refl

no_room : room (pos 3) (pos 3) (pos 0) ≡ none
unfolding room
no_room = refl

abbrev some_users : List (UserResponse whole)
some_users = user (pos 7) (pos 4) ∷ user (pos 8) (pos 3) ∷ []

users_listed :
    (parse_user_list whole config client.last_online some_users).0
    ≡ user_of whole config (user (pos 7) (pos 4)) (pos 1) ∷ []
unfolding parse_user_list load
users_listed = refl

some_users-IsSane : All (IsSane config client.last_online) some_users
unfolding last_online load
some_users-IsSane =
    let here : IsSane config client.last_online (user (pos 7) (pos 4)) = record {
      held = (omega arith, omega arith);
      alive = (omega arith, omega arith);
      limit = omega arith;
    } in
    let away : IsSane config client.last_online (user (pos 8) (pos 3)) = record {
      held = (omega arith, omega arith);
      alive = (omega arith, omega arith);
      limit = omega arith;
    } in
    (here, (away, tt))

parse_user_list-Listed_example :
    Listed config client.last_online some_users
      (parse_user_list whole config client.last_online some_users).0
    × ((parse_user_list whole config client.last_online some_users).1 ≡ [])
parse_user_list-Listed_example =
    parse_user_list-Listed config client.last_online some_users some_users-IsSane

-- A trojan node; the port is the one behind the number sign.
trojan_read :
    parse_trojan_node whole config (answer (codes "gz.aaa.com;port=443#12345|host=hk.aaa.com"))
    ≡ ok (record (node_of whole config 12345 1000000 (codes "tcp")) {
      enable_tls = true;
      host = codes "hk.aaa.com";
    })
unfolding parse_trojan_node
trojan_read = refl

-- The port 0 is no error for a plugin node: the port becomes the largest one.
plugin_zero :
    parse_ss_plugin_node whole config (answer (codes "a;0;2;ws;tls;path=/p=1|host=h"))
    ≡ ok (record (node_of whole config 4294967295 1000000 (codes "ws")) {
      enable_tls = true;
      path = codes "/p=1";
      host = codes "h";
    })
unfolding parse_ss_plugin_node
plugin_zero = refl

plugin_one : parse_ss_plugin_node whole config (answer (codes "a;1;2;ws;tls;")) ≡ err bad_port
unfolding parse_ss_plugin_node
plugin_one = refl

short_server : parse_v2ray_node whole config (answer (codes "a;443;2;ws")) ≡ panic
unfolding parse_v2ray_node split index parse_int transports
short_server = refl

-- An answer with a tag that cannot be read, and the panel's next answer.
abbrev broken : Reply (NodeInfoResponse whole)
broken = given 200 (codes "tag") (answer (codes "a"))

abbrev unchanged : Reply (NodeInfoResponse whole)
unchanged = record { failed = false; status = 304; etag = []; ret = 0; data_of = none }

abbrev no_users_given : Reply (List (UserResponse whole))
no_users_given = given 200 [] []

get_node_info-unread_example :
    let after = (get_node_info whole client broken no_users_given).0 in
    (load (codes "node") after.etags ≡ some (codes "tag"))
    × (get_node_info whole after unchanged no_users_given ≡ (after, err not_modified))
get_node_info-unread_example =
    get_node_info-unread client broken unchanged no_users_given refl (λ e. ground arith) refl

bad_rule :
    (get_node_rule whole
      (λ p. not (p == codes "("))
      client
      (given 200 [] (record { id = pos 1; pattern = codes "(" } ∷ []))).1
    ≡ panic
unfolding get_node_rule
bad_rule = refl

abbrev server : Server
server = record {
  address = codes "hk.aaa.com";
  port = 443;
  alter_id = 2;
  transport = codes "ws";
  path = codes "/ray?ed=2048";
  host = codes "hk.aaa.com";
}

server-IsPrintable : IsPrintable server
server-IsPrintable = record {
  address = refl;
  port = omega arith;
  alter_id = omega arith;
  transport = refl;
  named = λ e. ground arith;
  not_tls = λ e. ground arith;
  path = refl;
  path_bar = refl;
  host = refl;
  host_bar = refl;
  host_equals = refl;
}

parse_v2ray_node-server_text_example :
    parse_v2ray_node whole config (answer (server_text server))
    ≡ ok (record (node_of whole config 443 (choose_speed whole 0 8) (codes "ws")) {
      alter_id = 2;
      enable_tls = true;
      path = codes "/ray?ed=2048";
      host = codes "hk.aaa.com";
      enable_vless = false;
      vless_flow = [];
    })
parse_v2ray_node-server_text_example =
    parse_v2ray_node-server_text config (answer (server_text server)) server server-IsPrintable refl
