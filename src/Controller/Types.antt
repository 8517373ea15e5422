-- ===== src/Controller/Types.antt =====
-- The controller's state, its configuration, and the parts of Xray-core that it calls.
use center_agent.Prelude.{
  ℕ, ◌≡◌, ◌↔◌, Bool, true, ◌&&◌, Option, List, arith, Eq, ◌==◌, ==_iff, nat_eq, bool_eq, list_eq,
}
use center_agent.Prelude.Ints.{ℤ}
use center_agent.Prelude.Maps.{Map}
use center_agent.Prelude.Text.{Text}
use center_agent.Api.{UserInfo}
use center_agent.Limiter.{InboundInfo, GlobalDeviceLimitConfig}
use center_agent.Limiter.Libraries.{RateLib}
use center_agent.Rule.{Manager}
use center_agent.Rule.Libraries.{RuleLib}

-- api.NodeInfo: the fields that the controller reads; `others` stands for all that it only hands on
-- and compares.
pub record NodeInfo : Type 0 where
  pub node_type : Text
  pub port : ℕ
  pub speed_limit : ℕ
  pub enable_vless : Bool
  pub vless_flow : Text
  pub cypher_method : Text
  pub enable_tls : Bool
  pub transport_protocol : Text
  pub others : Text

abbrev pub node_beq : NodeInfo → NodeInfo → Bool
node_beq a b =
    a.node_type == b.node_type
    && a.port == b.port
    && a.speed_limit == b.speed_limit
    && a.enable_vless == b.enable_vless
    && a.vless_flow == b.vless_flow
    && a.cypher_method == b.cypher_method
    && a.enable_tls == b.enable_tls
    && a.transport_protocol == b.transport_protocol
    && a.others == b.others

pub node_beq_iff : (a b : NodeInfo) → (node_beq a b ≡ true) ↔ (a ≡ b)
node_beq_iff a b = ground (
  arith,
  ==_iff a.node_type b.node_type,
  ==_iff a.enable_vless b.enable_vless,
  ==_iff a.vless_flow b.vless_flow,
  ==_iff a.cypher_method b.cypher_method,
  ==_iff a.enable_tls b.enable_tls,
  ==_iff a.transport_protocol b.transport_protocol,
  ==_iff a.others b.others,
)

instance abbrev pub node_eq : Eq NodeInfo
node_eq = record { equals = node_beq; equals_iff = node_beq_iff }

-- A call that ends well or with an error; a failing call may have changed the state too.
pub data Ran {ℓ} (S : Type ℓ) : Type ℓ where
  ok failed : S → Ran S

infixl 5 ◌>>=◌
abbrev pub ◌>>=◌ {ℓ} : {S : Type ℓ} → Ran S → (S → Ran S) → Ran S
(ok s) >>= f = f s
(failed s) >>= f = failed s

abbrev pub state_of {ℓ} : {S : Type ℓ} → Ran S → S
state_of (ok s) = s
state_of (failed s) = s

pub data CipherType : Type 0 where
  aes_128_gcm aes_256_gcm chacha20_poly1305 xchacha20_poly1305 none_cipher unknown_cipher :
      CipherType

-- The account of a user, as the builders hand it to Xray.
pub data Account : Type 0 where
  vmess : Text → Account
  vless : (id flow : Text) → Account
  trojan : Text → Account
  shadowsocks : (password : Text) → CipherType → Account
  shadowsocks_2022 : (key email : Text) → Account

pub record XrayUser : Type 0 where
  pub email : Text
  pub account : Account

-- Xray-core's managers, and the builders of handler configurations, over a state of their own.
pub record CoreLib : Type 1 where
  pub Core : Type 0
  pub InboundConfig : Type 0
  pub OutboundConfig : Type 0
  pub inbound_builder : NodeInfo → Text → Option InboundConfig
  pub outbound_builder : NodeInfo → Text → Option OutboundConfig
  pub add_inbound : InboundConfig → Core → Ran Core
  pub add_outbound : OutboundConfig → Core → Ran Core
  pub remove_inbound : Text → Core → Ran Core
  pub remove_outbound : Text → Core → Ran Core
  pub has_user_manager : Core → Text → Bool
  pub add_user : Text → Option XrayUser → Core → Ran Core
  pub remove_user : Text → Text → Core → Ran Core

-- AutoSpeedLimitConfig
pub record AutoSpeedLimit : Type 0 where
  pub limit : ℤ
  pub warn_times : ℤ
  pub limit_speed : ℤ
  pub limit_duration : ℤ

-- controller.Config: what the monitors read
pub record Config : Type 0 where
  pub listen_ip : Text
  pub update_periodic : ℤ
  pub disable_get_rule : Bool
  pub disable_upload_traffic : Bool
  pub auto_speed_limit : AutoSpeedLimit
  pub global_device_limit : Option GlobalDeviceLimitConfig
  pub panel_type : Text

pub record LimitInfo : Type 0 where
  pub end : ℤ
  pub current_speed_limit : ℤ
  pub origin_speed_limit : ℕ

module _ (R : RateLib) (L : RuleLib) (C : CoreLib) where
  pub record Controller : Type 0 where
    pub tag : Text
    pub node_info : NodeInfo
    pub user_list : List UserInfo
    pub limited_users : Map UserInfo LimitInfo
    pub warned_users : Map UserInfo ℤ
    pub limiter : Map Text (InboundInfo R)
    pub rules : Manager L
    pub core : C.Core
