-- ===== src/Api.antt =====
-- The types that the panels' clients and the node's services exchange: api/apimodel.go.
use center_agent.Prelude.{ℕ, Bool, ◌&&◌, true, ◌≡◌, ◌↔◌, arith, Eq, ◌==◌, ==_iff, nat_eq, list_eq}
use center_agent.Prelude.Ints.{ℤ, int_eq}
use center_agent.Prelude.Text.{Text}

pub record UserInfo : Type 0 where
  pub uid : ℤ
  pub email : Text
  pub uuid : Text
  pub passwd : Text
  pub port : ℕ
  pub alter_id : ℕ
  pub method : Text
  pub speed_limit : ℕ
  pub device_limit : ℤ

pub record OnlineUser : Type 0 where
  pub uid : ℤ
  pub ip : Text

pub record UserTraffic : Type 0 where
  pub uid : ℤ
  pub email : Text
  pub upload : ℤ
  pub download : ℤ

pub record DetectResult : Type 0 where
  pub uid : ℤ
  pub rule_id : ℤ

-- Go's `==` on structs, which map keys and sets go by.
abbrev pub user_beq : UserInfo → UserInfo → Bool
user_beq u v =
    u.uid == v.uid
    && u.email == v.email
    && u.uuid == v.uuid
    && u.passwd == v.passwd
    && u.port == v.port
    && u.alter_id == v.alter_id
    && u.method == v.method
    && u.speed_limit == v.speed_limit
    && u.device_limit == v.device_limit

pub user_beq_iff : (u v : UserInfo) → (user_beq u v ≡ true) ↔ (u ≡ v)
user_beq_iff u v = ground (
  arith,
  ==_iff u.uid v.uid,
  ==_iff u.email v.email,
  ==_iff u.uuid v.uuid,
  ==_iff u.passwd v.passwd,
  ==_iff u.method v.method,
  ==_iff u.device_limit v.device_limit,
)

instance abbrev pub user_eq : Eq UserInfo
user_eq = record { equals = user_beq; equals_iff = user_beq_iff }

abbrev pub result_beq : DetectResult → DetectResult → Bool
result_beq a b = a.uid == b.uid && a.rule_id == b.rule_id

pub result_beq_iff : (a b : DetectResult) → (result_beq a b ≡ true) ↔ (a ≡ b)
result_beq_iff a b = ground (arith, ==_iff a.uid b.uid, ==_iff a.rule_id b.rule_id)

instance abbrev pub result_eq : Eq DetectResult
result_eq = record { equals = result_beq; equals_iff = result_beq_iff }

abbrev pub online_beq : OnlineUser → OnlineUser → Bool
online_beq a b = a.uid == b.uid && a.ip == b.ip

pub online_beq_iff : (a b : OnlineUser) → (online_beq a b ≡ true) ↔ (a ≡ b)
online_beq_iff a b = ground (arith, ==_iff a.uid b.uid, ==_iff a.ip b.ip)

instance abbrev pub online_eq : Eq OnlineUser
online_eq = record { equals = online_beq; equals_iff = online_beq_iff }
