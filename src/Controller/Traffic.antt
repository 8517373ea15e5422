-- ===== src/Controller/Traffic.antt =====
-- controller.go, userInfoMonitor: traffic reports, warnings and automatic speed limits. The stats
-- counters of Xray are a dictionary; what they count while a round runs is not modelled.
pub mod Warnings
pub mod Reports
mod Tests
use center_agent.Prelude.{
  ℕ, Bool, true, false, ◌&&◌, ◌||◌, not, Option, none, some, List, [], ◌∷◌, ◌++◌, ltb, ◌==◌, nat_eq,
  list_eq, if◌then◌else◌, length,
}
use center_agent.Prelude.Ints.{ℤ, pos, int_eq, ltb_ℤ, ◌+ℤ◌, ◌*ℤ◌, quot_ℕ, to_int64, to_uint64}
use center_agent.Prelude.Maps.{Map, load, store, delete, has}
use center_agent.Prelude.Text.{Text, codes}
use center_agent.Api.{UserInfo, user_eq, UserTraffic, OnlineUser, DetectResult}
use center_agent.Limiter.{InboundInfo, user_key, update_inbound_limiter, get_online_device}
use center_agent.Limiter.Libraries.{RateLib}
use center_agent.Rule.{get_detect_result}
use center_agent.Rule.Libraries.{RuleLib}
use center_agent.Controller.Types.{AutoSpeedLimit, Config, LimitInfo, CoreLib, Controller}

unfoldable pub uplink : Text → Text
uplink email = codes "user>>>" ++ (email ++ codes ">>>traffic>>>uplink")

unfoldable pub downlink : Text → Text
downlink email = codes "user>>>" ++ (email ++ codes ">>>traffic>>>downlink")

-- A counter's value and name, where it is there and not 0.
abbrev reading : Map Text ℤ → Text → ℤ × List Text
reading counters name = elim (load name counters) [
  | none ↦ (pos 0, [])
  | some v ↦ if v == pos 0 then (pos 0, []) else (v, name ∷ [])
]

pub record Traffic : Type 0 where
  pub up : ℤ
  pub down : ℤ
  pub up_counters : List Text
  pub down_counters : List Text

-- getTraffic
unfoldable pub get_traffic : Map Text ℤ → Text → Traffic
get_traffic counters email =
    let (up, ups) = reading counters (uplink email) in
    let (down, downs) = reading counters (downlink email) in
    record { up = up; down = down; up_counters = ups; down_counters = downs }

-- resetTraffic, one list of counters at a time
unfoldable pub reset_counters : List Text → Map Text ℤ → Map Text ℤ
reset_counters [] counters = counters
reset_counters (name ∷ names) counters = reset_counters names (store name (pos 0) counters)

-- The users whose limit has run out, at their old speed, and the limits that stay.
unfoldable pub release_expired : ℤ → Map UserInfo LimitInfo → Map UserInfo LimitInfo × List UserInfo
release_expired now [] = ([], [])
release_expired now ((u, i) ∷ m) =
    let (kept, released) = release_expired now m in
    if ltb_ℤ i.end now
    then (kept, record u { speed_limit = i.origin_speed_limit } ∷ released)
    else ((u, i) ∷ kept, released)

-- What the loop over the users collects.
pub record Tally : Type 0 where
  pub limited : Map UserInfo LimitInfo
  pub warned : Map UserInfo ℤ
  pub slowed : List UserInfo
  pub traffic : List UserTraffic
  pub up_counters : List Text
  pub down_counters : List Text

module _ (cfg : Config) (now : ℤ) where
  abbrev auto : AutoSpeedLimit
  auto = cfg.auto_speed_limit

  -- limitUser
  limit_user : UserInfo → Tally → Tally
  limit_user u t = record t {
    limited =
        store u
          (record {
            end = to_int64 (now +ℤ to_int64 (auto.limit_duration *ℤ pos 60));
            current_speed_limit = auto.limit_speed;
            origin_speed_limit = u.speed_limit;
          })
          t.limited;
    slowed =
        t.slowed
        ++ (record u {
          speed_limit = to_uint64 (quot_ℕ (to_int64 (auto.limit_speed *ℤ pos 1_000_000)) 8);
        }
            ∷ []);
  }

  -- Bytes in one period at the configured rate
  allowance : ℤ
  allowance = quot_ℕ (to_int64 (to_int64 (auto.limit *ℤ pos 1_000_000) *ℤ cfg.update_periodic)) 8

  warnings : UserInfo → Map UserInfo ℤ → ℤ
  warnings u m = elim (load u m) [ none ↦ pos 0 | some w ↦ w ]

  -- One more warning, or the limit that follows the last one.
  warn_user : UserInfo → Tally → Tally
  unfolding limit_user warnings
  warn_user u t =
      let w = to_int64 (warnings u t.warned +ℤ pos 1) in
      if ltb_ℤ auto.warn_times w
      then record (limit_user u t) { warned = delete u t.warned }
      else record t { warned = store u w t.warned }

  -- The branch for a user that has used more than the allowance.
  over_speed : UserInfo → Tally → Tally
  unfolding warn_user
  over_speed u t =
      if has u t.limited
      then t
      else if auto.warn_times == pos 0
      then limit_user u t
      else warn_user u t

  check_speed : UserInfo → Traffic → Tally → Tally
  unfolding over_speed allowance
  check_speed u v t =
      if ltb_ℤ (pos 0) auto.limit
      then (if ltb_ℤ allowance v.down || ltb_ℤ allowance v.up
          then over_speed u t
          else record t { warned = delete u t.warned })
      else t

  -- One user of the loop
  tally_user : UserInfo → Traffic → Tally → Tally
  unfolding check_speed
  tally_user u v t =
      if ltb_ℤ (pos 0) v.up || ltb_ℤ (pos 0) v.down
      then (let t' = check_speed u v t in
          record t' {
            traffic =
                t'.traffic
                ++ (record { uid = u.uid; email = u.email; upload = v.up; download = v.down } ∷ []);
            up_counters = t'.up_counters ++ v.up_counters;
            down_counters = t'.down_counters ++ v.down_counters;
          })
      else record t { warned = delete u t.warned }

  tally_users : Text → Map Text ℤ → List UserInfo → Tally → Tally
  unfolding tally_user
  tally_users tag counters [] t = t
  tally_users tag counters (u ∷ us) t =
      tally_users tag counters us
        (tally_user u (get_traffic counters (user_key tag u.email u.uid)) t)

-- What a round sends to the panel; an empty list is not sent.
pub record Sent : Type 0 where
  pub traffic : List UserTraffic
  pub online : List OnlineUser
  pub illegal : List DetectResult

-- The counters are set back unless the panel refused the report. `accepted` is its answer.
settle : Config → Bool → Tally → Map Text ℤ → Map Text ℤ
settle cfg accepted t counters =
    if ltb 0 (length t.traffic) && (cfg.disable_upload_traffic || accepted)
    then reset_counters t.down_counters (reset_counters t.up_counters counters)
    else counters

module _ (R : RateLib) (L : RuleLib) (C : CoreLib) where
  update_limits : Text → List UserInfo → Map Text (InboundInfo R) → Map Text (InboundInfo R)
  update_limits tag us l =
      if ltb 0 (length us)
      then elim (update_inbound_limiter R tag us l) [ none ↦ l | some l' ↦ l' ]
      else l

  -- The stage that takes limits back
  unlock_users : Config → ℤ → Controller R L C → Controller R L C
  unfolding update_limits
  unlock_users cfg now s =
      if ltb_ℤ (pos 0) cfg.auto_speed_limit.limit && ltb 0 (length s.limited_users)
      then (let (kept, released) = release_expired now s.limited_users in
          record s { limited_users = kept; limiter = update_limits s.tag released s.limiter })
      else s

  start_tally : Controller R L C → Tally
  start_tally s = record {
    limited = s.limited_users;
    warned = s.warned_users;
    slowed = [];
    traffic = [];
    up_counters = [];
    down_counters = [];
  }

  report_devices : Controller R L C → List OnlineUser × Controller R L C
  report_devices s = elim (get_online_device R s.tag s.limiter) [
    | none ↦ ([], s)
    | some (report, l) ↦ (report, record s { limiter = l })
  ]

  report_illegal : Controller R L C → List DetectResult × Controller R L C
  report_illegal s =
      let (report, m) = get_detect_result L s.tag s.rules in (report, record s { rules = m })

  -- userInfoMonitor behind its delay: the controller, the counters, and what was sent.
  unfoldable pub user_info_monitor :
      Config
      → (now : ℤ) (accepted : Bool) → Controller R L C
      → Map Text ℤ
      → Controller R L C × Map Text ℤ × Sent
  unfolding unlock_users tally_users start_tally settle report_devices report_illegal
  user_info_monitor cfg now accepted s₀ counters =
      let s₁ = unlock_users cfg now s₀ in
      let t = tally_users cfg now s₁.tag counters s₁.user_list (start_tally s₁) in
      let s₂ = record s₁ {
        limited_users = t.limited;
        warned_users = t.warned;
        limiter = update_limits s₁.tag t.slowed s₁.limiter;
      } in
      let (online, s₃) = report_devices s₂ in
      let (illegal, s₄) = report_illegal s₃ in
      (
        s₄,
        settle cfg accepted t counters,
        record {
          traffic = if cfg.disable_upload_traffic then [] else t.traffic;
          online = online;
          illegal = illegal;
        },
      )
