-- ===== src/Controller/Monitor/Tests.antt =====
-- The rounds of the monitor at concrete data, over an Xray-core that counts its calls and may refuse
-- new inbounds.
use center_agent.Prelude.{
  ◌⊎◌, ℕ, suc, ◌≡◌, ◌≢◌, refl, inr, Bool, true, false, not, ◌&&◌, none, some, List, [], ◌∷◌, arith,
  ◌==◌, nat_eq, nat_beq, list_eq, if◌then◌else◌, contains, count,
}
use center_agent.Prelude.Ints.{pos}
use center_agent.Prelude.Maps.{load, store, delete}
use center_agent.Prelude.Text.{Text, codes}
use center_agent.Api.{UserInfo, user_eq}
use center_agent.Limiter.{InboundInfo}
use center_agent.Limiter.Libraries.{RateLib}
use center_agent.Rule.{DetectRule}
use center_agent.Rule.Libraries.{RuleLib}
use center_agent.Controller.Compare.{compare_user_list, contains-compare_user_list}
use center_agent.Controller.Types.{NodeInfo, Config, ok, failed, state_of, CoreLib, Controller}
use center_agent.Controller.Node.{
  build_node_tag, add_new_tag, add_users, add_new_user, remove_old_tag,
}
use center_agent.Controller.Users.{build_trojan_user}
use center_agent.Controller.Monitor.{got, unmodified, refused, Replies, remove_old}
use center_agent.Controller.Monitor.Rounds.{
  round, SameNode, round-unmodified, round-swap, round-swap_failed, round-same_users,
}

abbrev unit_rate : RateLib
unit_rate = record {
  Limit = ℕ;
  Bucket = ℕ;
  to_limit = λ n. n;
  new_limiter = λ l b. l;
  set_limit = λ k l. l;
  set_burst = λ k b. k;
  limit_of = λ k. k;
  burst_of = λ k. pos k;
}

abbrev no_rules : RuleLib
no_rules = record {
  Pattern = Text;
  matches = λ p s. p == s;
  ResultSet = ℕ;
  singleton = λ a. 0;
  add = λ s a. s;
  elements = λ s. [];
}

abbrev counting : Bool → CoreLib
counting works = record {
  Core = ℕ;
  InboundConfig = Text;
  OutboundConfig = Text;
  inbound_builder = λ n tag. some tag;
  outbound_builder = λ n tag. some tag;
  add_inbound = λ cfg c. if works then ok (suc c) else failed c;
  add_outbound = λ cfg c. ok (suc c);
  remove_inbound = λ tag c. ok (suc c);
  remove_outbound = λ tag c. ok (suc c);
  has_user_manager = λ c tag. true;
  add_user = λ tag u c. ok (suc c);
  remove_user = λ tag e c. ok (suc c);
}

abbrev config : Config
config = record {
  listen_ip = codes "0.0.0.0";
  update_periodic = pos 60;
  disable_get_rule = false;
  disable_upload_traffic = false;
  auto_speed_limit = record {
    limit = pos 0;
    warn_times = pos 0;
    limit_speed = pos 0;
    limit_duration = pos 0;
  };
  global_device_limit = none;
  panel_type = codes "V2board";
}

abbrev node : NodeInfo
node = record {
  node_type = codes "Trojan";
  port = 443;
  speed_limit = 0;
  enable_vless = false;
  vless_flow = [];
  cypher_method = [];
  enable_tls = true;
  transport_protocol = codes "tcp";
  others = [];
}

abbrev other_node : NodeInfo
other_node = record node { port = 8443 }

abbrev user : UserInfo
user = record {
  uid = pos 1;
  email = codes "e";
  uuid = codes "u";
  passwd = [];
  port = 0;
  alter_id = 0;
  method = [];
  speed_limit = 0;
  device_limit = pos 0;
}

abbrev start : (works : Bool) → Controller unit_rate no_rules (counting works)
start works = record {
  tag = codes "t";
  node_info = node;
  user_list = [];
  limited_users = [];
  warned_users = [];
  limiter = [];
  rules = record { rules = []; results = [] };
  core = 0;
}

abbrev told : Replies no_rules
told = record { node = got other_node; users = got (user ∷ []); rules = unmodified }

abbrev told_users : Replies no_rules
told_users = record { node = unmodified; users = got (user ∷ []); rules = unmodified }

abbrev told_nothing : Replies no_rules
told_nothing = record { node = unmodified; users = unmodified; rules = unmodified }

abbrev told_errors : Replies no_rules
told_errors = record { node = unmodified; users = refused; rules = unmodified }

abbrev olds : List ℕ
olds = 1 ∷ 2 ∷ []

abbrev news : List ℕ
news = 2 ∷ 3 ∷ []

contains-compare_user_list_example :
    (contains (compare_user_list olds news).0 1 ≡ (contains olds 1 && not (contains news 1)))
    × (contains (compare_user_list olds news).1 1
        ≡ (not (contains olds 1) && nat_beq (count 1 news) 1))
contains-compare_user_list_example = contains-compare_user_list olds news 1

-- A new user that the list names twice is not added.
named_twice : compare_user_list {A = ℕ} [] (5 ∷ 5 ∷ []) ≡ ([], [])
unfolding compare_user_list load store delete
named_twice = refl

round-unmodified_example :
    SameNode config []
      (λ _ _. false)
      (start true)
      (state_of (round config [] (λ _ _. false) false told_nothing (start true)))
round-unmodified_example =
    round-unmodified config [] (λ _ _. false) false told_nothing (start true) (inr refl) refl

other_port : other_node ≢ node
other_port e = omega (arith, ap_port e)
  where
    ap_port : other_node ≡ node → other_node.port ≡ node.port
    ap_port e = ground arith

abbrev deep : List (DetectRule no_rules) → List (DetectRule no_rules) → Bool
deep _ _ = false

removed_from :
    (works : Bool)
    → remove_old unit_rate no_rules (counting works) config [] deep (start works) ≡ ok 2
unfolding remove_old remove_old_tag
removed_from works = refl

tag_added : add_new_tag (counting true) other_node (build_node_tag config other_node) 2 ≡ ok 4
unfolding add_new_tag
tag_added = refl

tag_refused :
    add_new_tag (counting false) other_node (build_node_tag config other_node) 2 ≡ failed 2
unfolding add_new_tag
tag_refused = refl

users_added :
    add_new_user
      (counting true)
      []
      config
      other_node
      other_node
      (build_node_tag config other_node)
      (user ∷ [])
      4
    ≡ ok 5
unfolding add_new_user add_users build_trojan_user
users_added = refl

round-swap_example :
    let t = state_of (round config [] deep false told (start true)) in
    (t.tag ≡ build_node_tag config other_node)
    × (t.node_info ≡ other_node)
    × (t.user_list ≡ user ∷ [])
    × (t.core ≡ 5)
    × ((info : InboundInfo unit_rate) × (load t.tag t.limiter ≡ some info)
        × (info.online ≡ [])
        × (info.node_speed_limit ≡ 0))
    × ((codes "t" ≡ t.tag) ⊎ (load (codes "t") t.limiter ≡ none))
round-swap_example =
    round-swap config [] deep other_node (user ∷ []) told (start true) 2 4 5 refl refl other_port
      (omega arith) (removed_from true) tag_added users_added

round-swap_failed_example :
    let t = state_of (round config [] deep false told (start false)) in
    (t.node_info ≡ other_node)
    × (t.core ≡ 2)
    × ((state_of (round config [] deep false told_nothing t)).core ≡ 2)
round-swap_failed_example =
    round-swap_failed config [] deep other_node (user ∷ []) told told_nothing (start false) 2 2
      false refl refl other_port (omega arith) (removed_from false) tag_refused (inr refl) refl

round-same_users_example :
    let t = state_of (round config [] deep false told_users (start true)) in
    (t.user_list ≡ user ∷ [])
    × SameNode config [] deep t (state_of (round config [] deep false told_users t))
round-same_users_example =
    round-same_users config [] deep (user ∷ []) told_users told_users (start true) false (inr refl)
      refl (omega arith) (inr refl) refl
