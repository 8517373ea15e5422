-- ===== src/Limiter.antt =====
-- common/limiter/limiter.go: users, online devices and speed buckets of every inbound. A `sync.Map`
-- is an association list, and a pointer that a map holds is its value, written back where the code
-- writes through it. A connection's reference to a shared bucket is not followed.
pub mod Rate
pub mod Libraries
pub mod Inbounds
pub mod Keys
pub mod Devices
pub mod Online
pub mod Refusal
pub mod Runs
pub mod Buckets
pub mod Tests
use center_agent.Prelude.{
  ℕ, ◌+◌, Bool, true, false, ◌&&◌, Option, none, some, List, [], ◌∷◌, ◌++◌, ltb, ◌==◌, nat_eq,
  list_eq, if◌then◌else◌, length, drop,
}
use center_agent.Prelude.Ints.{ℤ, pos, ltb_ℤ, word_to_int64}
use center_agent.Prelude.Maps.{Map, keys, load, store, delete, restrict}
use center_agent.Prelude.Text.{Text, codes, format_int, has_prefix}
use center_agent.Api.{UserInfo, OnlineUser}
use Rate.{determine_rate}
use Libraries.{RateLib, CacheReply, found, not_found, failed}

-- common/limiter/model.go
pub record GlobalDeviceLimitConfig : Type 0 where
  pub enable : Bool
  pub redis_network : Text
  pub redis_addr : Text
  pub redis_username : Text
  pub redis_password : Text
  pub redis_db : ℤ
  pub timeout : ℤ
  pub expiry : ℤ

-- limiter.UserInfo: what the limiter keeps of a user.
pub record UserLimits : Type 0 where
  pub uid : ℤ
  pub speed_limit : ℕ
  pub device_limit : ℤ

abbrev pub Devices : Type 0
Devices = Map Text ℤ

-- The key of a user, `tag|email|uid`, which Xray knows as the user's email.
unfoldable pub user_key : Text → Text → ℤ → Text
unfolding format_int
user_key tag email uid = tag ++ (b'|' ∷ (email ++ (b'|' ∷ format_int uid)))

-- `strings.Replace(s, old, new, 1)`
replace_first : Text → Text → Text → Text
replace_first [] old new = if has_prefix [] old then new else []
replace_first (c ∷ s) old new =
    let rest = replace_first s old new in
    if has_prefix (c ∷ s) old then new ++ drop (length old) (c ∷ s) else c ∷ rest

abbrev pub limits_of : UserInfo → UserLimits
limits_of u = record { uid = u.uid; speed_limit = u.speed_limit; device_limit = u.device_limit }

-- Whether a new device is let in, with the online devices that are left behind.
pub data LocalCheck : Type 0 where
  accepted rejected : Map Text Devices → LocalCheck

-- GetUserBucket's local device limit
pub local_check : Map Text Devices → Text → Text → ℤ → ℤ → LocalCheck
local_check online email ip uid limit = elim (load email online) [
  | none ↦ accepted (store email ((ip, uid) ∷ []) online)
  | some ips ↦ elim (load ip ips) [
    | some _ ↦ accepted online
    | none ↦
        let more = store ip uid ips in
        if ltb_ℤ limit (pos (length more)) && ltb_ℤ (pos 0) limit
        then rejected (store email (delete ip more) online)
        else accepted (store email more online)
  ]
]

-- A write to the shared cache that `go pushIP` starts.
abbrev pub Push : Type 0
Push = Text × Devices

store_users : Text → List UserInfo → Map Text UserLimits → Map Text UserLimits
store_users tag [] m = m
store_users tag (u ∷ us) m = store_users tag us (store (user_key tag u.email u.uid) (limits_of u) m)

device_report : Devices → List OnlineUser
device_report [] = []
device_report ((ip, uid) ∷ ips) = record { uid = uid; ip = ip } ∷ device_report ips

online_report : Map Text Devices → List OnlineUser
unfolding device_report
online_report [] = []
online_report ((email, ips) ∷ m) = device_report ips ++ online_report m

-- The `Delete`s of the loop, one for each key that is walked.
pub delete_all : List Text → Map Text Devices → Map Text Devices
delete_all [] m = m
delete_all (k ∷ ks) m = delete_all ks (delete k m)

pub is_online : Map Text Devices → Text → Bool
is_online m email = elim (load email m) [ none ↦ false | some _ ↦ true ]

abbrev pub unknown_user : UserLimits
unknown_user = record { uid = pos 0; speed_limit = 0; device_limit = pos 0 }

module _ (R : RateLib) where
  pub record InboundInfo : Type 0 where
    pub tag : Text
    pub node_speed_limit : ℕ
    pub users : Map Text UserLimits
    pub bucket_hub : Map Text R.Bucket
    pub online : Map Text Devices
    pub global : Option GlobalDeviceLimitConfig

  pub record Admission : Type 0 where
    pub bucket : Option R.Bucket
    pub speed_limited : Bool
    pub reject : Bool
    pub pushes : List Push

  -- AddInboundLimiter
  unfoldable pub add_inbound_limiter :
      Text
      → ℕ
      → List UserInfo
      → Option GlobalDeviceLimitConfig
      → Map Text InboundInfo
      → Map Text InboundInfo
  unfolding store_users
  add_inbound_limiter tag node_limit us global l =
      store tag
        (record {
          tag = tag;
          node_speed_limit = node_limit;
          users = store_users tag us [];
          bucket_hub = [];
          online = [];
          global = elim global [ none ↦ none | some c ↦ if c.enable then some c else none ];
        })
        l

  -- The bucket of one user after a change of its speed limit.
  refresh_bucket : Text → ℕ → Map Text R.Bucket → Map Text R.Bucket
  refresh_bucket key limit hub =
      if ltb 0 limit
      then elim (load key hub) [
        | none ↦ hub
        | some b ↦
            store key (R.set_burst (R.set_limit b (R.to_limit limit)) (word_to_int64 limit)) hub
      ]
      else delete key hub

  -- One round of UpdateInboundLimiter's loop
  pub update_user : Text → InboundInfo → UserInfo → InboundInfo
  unfolding refresh_bucket
  update_user tag info u =
      let key = user_key tag u.email u.uid in
      record info {
        users = store key (limits_of u) info.users;
        bucket_hub =
            refresh_bucket key (determine_rate info.node_speed_limit u.speed_limit) info.bucket_hub;
      }

  pub update_users : Text → InboundInfo → List UserInfo → InboundInfo
  unfolding update_user
  update_users tag info [] = info
  update_users tag info (u ∷ us) = update_users tag (update_user tag info u) us

  -- UpdateInboundLimiter; `none` is its error, which changes nothing.
  unfoldable pub update_inbound_limiter :
      Text → List UserInfo → Map Text InboundInfo → Option (Map Text InboundInfo)
  unfolding update_users
  update_inbound_limiter tag us l = elim (load tag l) [
    | none ↦ none
    | some info ↦ some (store tag (update_users tag info us) l)
  ]

  -- DeleteInboundLimiter
  unfoldable pub delete_inbound_limiter : Text → Map Text InboundInfo → Map Text InboundInfo
  delete_inbound_limiter tag l = delete tag l

  pub report_inbound : InboundInfo → InboundInfo
  unfolding delete_all is_online
  report_inbound info = record info {
    bucket_hub = restrict (is_online info.online) info.bucket_hub;
    online = delete_all (keys info.online) info.online;
  }

  -- GetOnlineDevice; `none` is its error, which changes nothing.
  unfoldable pub get_online_device :
      Text → Map Text InboundInfo → Option (List OnlineUser × Map Text InboundInfo)
  unfolding report_inbound online_report
  get_online_device tag l = elim (load tag l) [
    | none ↦ none
    | some info ↦ some (online_report info.online, store tag (report_inbound info) l)
  ]

  -- globalLimit, given what the shared cache answers: whether it rejects, and what it pushes.
  global_limit : InboundInfo → Text → ℤ → Text → ℤ → (Text → CacheReply) → Bool × List Push
  unfolding replace_first
  global_limit info email uid ip limit cache =
      let key = replace_first email info.tag (format_int limit) in
      elim (cache key) [
        | not_found ↦ (false, (key, (ip, uid) ∷ []) ∷ [])
        | failed ↦ (false, [])
        | found ips ↦
            if ltb_ℤ (pos 0) limit && ltb_ℤ limit (pos (length ips))
            then (true, [])
            else elim (load ip ips) [
              | some _ ↦ (false, [])
              | none ↦ (false, (key, store ip uid ips) ∷ [])
            ]
      ]

  global_check : InboundInfo → Text → ℤ → Text → ℤ → (Text → CacheReply) → Bool × List Push
  unfolding global_limit
  global_check info email uid ip limit cache = elim info.global [
    | none ↦ (false, [])
    | some c ↦ if c.enable then global_limit info email uid ip limit cache else (false, [])
  ]

  -- The speed limit stage: the user's shared bucket, made on first use.
  take_bucket : InboundInfo → Text → ℕ → List Push → InboundInfo × Admission
  take_bucket info email limit pushes =
      let fresh = R.new_limiter (R.to_limit limit) (word_to_int64 limit) in
      if ltb 0 limit
      then elim (load email info.bucket_hub) [
        | some b ↦ (
          info,
          record { bucket = some b; speed_limited = true; reject = false; pushes = pushes },
        )
        | none ↦ (
          record info { bucket_hub = store email fresh info.bucket_hub },
          record { bucket = some fresh; speed_limited = true; reject = false; pushes = pushes },
        )
      ]
      else (info, record { bucket = none; speed_limited = false; reject = false; pushes = pushes })

  abbrev refusal : List Push → Admission
  refusal pushes = record { bucket = none; speed_limited = false; reject = true; pushes = pushes }

  abbrev pub limits_for : InboundInfo → Text → UserLimits
  limits_for info email = elim (load email info.users) [ none ↦ unknown_user | some u ↦ u ]

  -- The stages behind the local device limit
  pass_on : InboundInfo → Text → Text → UserLimits → (Text → CacheReply) → InboundInfo × Admission
  unfolding global_check take_bucket
  pass_on info email ip u cache =
      let (stop, pushes) = global_check info email u.uid ip u.device_limit cache in
      if stop
      then (info, refusal pushes)
      else take_bucket info email (determine_rate info.node_speed_limit u.speed_limit) pushes

  pub admit : InboundInfo → Text → Text → (Text → CacheReply) → InboundInfo × Admission
  unfolding local_check pass_on
  admit info email ip cache =
      let u = limits_for info email in
      elim (local_check info.online email ip u.uid u.device_limit) [
        | rejected online ↦ (record info { online = online }, refusal [])
        | accepted online ↦ pass_on (record info { online = online }) email ip u cache
      ]

  -- GetUserBucket
  unfoldable pub get_user_bucket :
      Text
      → Text
      → Text
      → (Text → CacheReply)
      → Map Text InboundInfo
      → Map Text InboundInfo × Admission
  unfolding admit
  get_user_bucket tag email ip cache l = elim (load tag l) [
    | none ↦ (l, record { bucket = none; speed_limited = false; reject = false; pushes = [] })
    | some info ↦ let (info', a) = admit info email ip cache in (store tag info' l, a)
  ]
