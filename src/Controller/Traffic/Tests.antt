-- ===== src/Controller/Traffic/Tests.antt =====
-- The theorems of the traffic round at concrete data.
use center_agent.Prelude.{
  ℕ, ◌≡◌, true, false, ◌&&◌, none, some, [], ◌∷◌, arith, nat_eq, list_eq, if◌then◌else◌, contains,
}
use center_agent.Prelude.Ints.{ℤ, pos}
use center_agent.Prelude.Maps.{Map, load, load-nil}
use center_agent.Prelude.Text.{Text, codes}
use center_agent.Api.{UserInfo, user_eq}
use center_agent.Limiter.Libraries.{RateLib}
use center_agent.Rule.Libraries.{RuleLib}
use center_agent.Controller.Types.{NodeInfo, Config, ok, CoreLib, Controller}
use center_agent.Controller.Traffic.{user_info_monitor, uplink}
use center_agent.Controller.Traffic.Warnings.{IsBounded, user_info_monitor-IsBounded}
use center_agent.Controller.Traffic.Reports.{due_traffic, due_counters, user_info_monitor-traffic}

abbrev rates : RateLib
rates = record {
  Limit = ℕ;
  Bucket = ℕ;
  to_limit = λ n. n;
  new_limiter = λ l b. l;
  set_limit = λ k l. l;
  set_burst = λ k b. k;
  limit_of = λ k. k;
  burst_of = λ k. pos k;
}

abbrev rules : RuleLib
rules = record {
  Pattern = ℕ;
  matches = λ p s. true;
  ResultSet = ℕ;
  singleton = λ a. 0;
  add = λ s a. s;
  elements = λ s. [];
}

abbrev idle : CoreLib
idle = record {
  Core = ℕ;
  InboundConfig = ℕ;
  OutboundConfig = ℕ;
  inbound_builder = λ n tag. none;
  outbound_builder = λ n tag. none;
  add_inbound = λ cfg c. ok c;
  add_outbound = λ cfg c. ok c;
  remove_inbound = λ tag c. ok c;
  remove_outbound = λ tag c. ok c;
  has_user_manager = λ c tag. true;
  add_user = λ tag u c. ok c;
  remove_user = λ tag e c. ok c;
}

-- One megabit over a period of 8 seconds: more than a megabyte is too fast.
abbrev config : Config
config = record {
  listen_ip = [];
  update_periodic = pos 8;
  disable_get_rule = false;
  disable_upload_traffic = false;
  auto_speed_limit = record {
    limit = pos 1;
    warn_times = pos 1;
    limit_speed = pos 1;
    limit_duration = pos 5;
  };
  global_device_limit = none;
  panel_type = [];
}

abbrev user : UserInfo
user = record {
  uid = pos 3;
  email = codes "e";
  uuid = [];
  passwd = [];
  port = 0;
  alter_id = 0;
  method = [];
  speed_limit = 0;
  device_limit = pos 0;
}

abbrev node : NodeInfo
node = record {
  node_type = codes "Trojan";
  port = 443;
  speed_limit = 0;
  enable_vless = false;
  vless_flow = [];
  cypher_method = [];
  enable_tls = true;
  transport_protocol = [];
  others = [];
}

abbrev start : Controller rates rules idle
start = record {
  tag = codes "t";
  node_info = node;
  user_list = user ∷ [];
  limited_users = [];
  warned_users = [];
  limiter = [];
  rules = record { rules = []; results = [] };
  core = 0;
}

abbrev counters : Map Text ℤ
counters = (uplink (codes "t|e|3"), pos 2_000_000) ∷ []

user_info_monitor-IsBounded_example :
    IsBounded
      (pos 1)
      (user_info_monitor rates rules idle config (pos 1000) true start counters).0.warned_users
user_info_monitor-IsBounded_example =
    user_info_monitor-IsBounded config (pos 1000) true start counters
      (λ u w e. ground (arith, load-nil {V = ℤ} u))

user_info_monitor-traffic_example :
    let (_, counters', sent) =
      user_info_monitor rates rules idle config (pos 1000) true start counters in
    (sent.traffic ≡ due_traffic counters (codes "t") (user ∷ []))
    × ((name : Text)
        → load name counters' ≡ (
            if true && contains (due_counters counters (codes "t") (user ∷ [])) name
            then some (pos 0)
            else load name counters))
user_info_monitor-traffic_example = user_info_monitor-traffic config (pos 1000) true start counters
