-- ===== src/Controller/Traffic/Reports.antt =====
-- What a round reports of the users' traffic, and what it does to the counters.
use center_agent.Prelude.{
  ◌≡◌, refl, ◌∙◌, inl, inr, Bool, false, ◌&&◌, ◌||◌, some, List, [], ◌∷◌, ◌++◌, arith, ltb, nat_eq,
  list_eq, if◌then◌else◌, length, contains, contains-append, Bool-cases,
}
use mathlib.Core.List.{append_assoc, append-nil}
use center_agent.Prelude.Ints.{ℤ, pos, ltb_ℤ}
use center_agent.Prelude.Maps.{Map, load, store, load-store}
use center_agent.Prelude.Text.{Text}
use center_agent.Api.{UserInfo, user_eq, UserTraffic}
use center_agent.Limiter.{user_key}
use center_agent.Limiter.Libraries.{RateLib}
use center_agent.Rule.Libraries.{RuleLib}
use center_agent.Controller.Types.{Config, CoreLib, Controller}
use center_agent.Controller.Traffic.{
  Traffic, Tally, get_traffic, reset_counters, limit_user, warn_user, over_speed, check_speed,
  tally_user, tally_users, settle, start_tally, unlock_users, user_info_monitor,
}

abbrev reading_of : Map Text ℤ → Text → UserInfo → Traffic
reading_of counters tag u = get_traffic counters (user_key tag u.email u.uid)

abbrev is_active : Traffic → Bool
is_active v = ltb_ℤ (pos 0) v.up || ltb_ℤ (pos 0) v.down

-- The report that the counters call for: a line for each user with traffic, in the users' order.
abbrev pub due_traffic : Map Text ℤ → Text → List UserInfo → List UserTraffic
due_traffic counters tag [] = []
due_traffic counters tag (u ∷ us) =
    let rest = due_traffic counters tag us in
    let v = reading_of counters tag u in
    if is_active v
    then record { uid = u.uid; email = u.email; upload = v.up; download = v.down } ∷ rest
    else rest

-- The counters behind that report.
abbrev pub due_counters : Map Text ℤ → Text → List UserInfo → List Text
due_counters counters tag [] = []
due_counters counters tag (u ∷ us) =
    let rest = due_counters counters tag us in
    let v = reading_of counters tag u in
    if is_active v then v.up_counters ++ (v.down_counters ++ rest) else rest

load-reset_counters :
    (names : List Text) (c : Map Text ℤ) (name : Text)
    → load name (reset_counters names c)
      ≡ (if contains names name then some (pos 0) else load name c)
unfolding reset_counters
load-reset_counters [] c name = refl
load-reset_counters (n ∷ names) c name =
    ground (arith, load-reset_counters names (store n (pos 0) c) name, load-store n name (pos 0) c)

module _ (cfg : Config) (now : ℤ) where
  check_speed-keeps :
      (u : UserInfo) (v : Traffic) (t : Tally)
      → ((check_speed cfg now u v t).traffic ≡ t.traffic)
        × ((check_speed cfg now u v t).up_counters ≡ t.up_counters)
        × ((check_speed cfg now u v t).down_counters ≡ t.down_counters)
  unfolding check_speed over_speed warn_user limit_user
  check_speed-keeps u v t = (ground arith, ground arith, ground arith)

  tally_user-collects :
      (u : UserInfo) (v : Traffic) (t : Tally)
      → let t' = tally_user cfg now u v t in
        (t'.traffic ≡ (
          if is_active v
          then t.traffic
            ++ (record { uid = u.uid; email = u.email; upload = v.up; download = v.down } ∷ [])
          else t.traffic))
        × (t'.up_counters ≡ (if is_active v then t.up_counters ++ v.up_counters else t.up_counters))
        × (t'.down_counters
            ≡ (if is_active v then t.down_counters ++ v.down_counters else t.down_counters))
  unfolding tally_user
  tally_user-collects u v t =
      let (a, b, c) = check_speed-keeps u v t in (ground arith, ground arith, ground arith)

  tally_users-traffic :
      (tag : Text) (counters : Map Text ℤ) (us : List UserInfo) (t : Tally)
      → (tally_users cfg now tag counters us t).traffic ≡ t.traffic ++ due_traffic counters tag us
  unfolding tally_users
  tally_users-traffic tag counters [] t = ground (arith, append-nil t.traffic)
  tally_users-traffic tag counters (u ∷ us) t =
      let v = reading_of counters tag u in
      let line : UserTraffic = record {
        uid = u.uid;
        email = u.email;
        upload = v.up;
        download = v.down;
      } in
      let (a, _, _) = tally_user-collects u v t in
      tally_users-traffic tag counters us (tally_user cfg now u v t)
      ∙ elim (Bool-cases (is_active v)) [
        | inl busy ↦ rw (a, busy) (append_assoc t.traffic (line ∷ []) (due_traffic counters tag us))
        | inr idle ↦ rw (a, idle)
      ]

  tally_users-counters :
      (tag : Text) (counters : Map Text ℤ) (us : List UserInfo) (t : Tally) (name : Text)
      → let t' = tally_users cfg now tag counters us t in
        (contains t'.up_counters name || contains t'.down_counters name) ≡ (
          contains t.up_counters name
          || contains t.down_counters name
          || contains (due_counters counters tag us) name)
  unfolding tally_users
  tally_users-counters tag counters [] t name = ground arith
  tally_users-counters tag counters (u ∷ us) t name =
      let v = reading_of counters tag u in
      let (_, b, c) = tally_user-collects u v t in
      tally_users-counters tag counters us (tally_user cfg now u v t) name
      ∙ elim (Bool-cases (is_active v)) [
        | inl busy ↦
            rw (b, c, busy)
              (ground (
                arith,
                contains-append t.up_counters v.up_counters name,
                contains-append t.down_counters v.down_counters name,
                contains-append v.up_counters (v.down_counters ++ due_counters counters tag us)
                    name,
                contains-append v.down_counters (due_counters counters tag us) name,
              ))
        | inr idle ↦ rw (b, c, idle)
      ]

-- Without a line in the report no counter stands behind it.
no_due_counters :
    (counters : Map Text ℤ) (tag : Text) (us : List UserInfo) (name : Text)
    → length (due_traffic counters tag us) ≡ 0
    → contains (due_counters counters tag us) name ≡ false
no_due_counters counters tag [] name h = refl
no_due_counters counters tag (u ∷ us) name h =
    elim (Bool-cases (is_active (reading_of counters tag u))) [
      | inl busy ↦ absurd (omega (arith, rw busy at h))
      | inr idle ↦ rw idle (no_due_counters counters tag us name (rw idle at h))
    ]

settled :
    (cfg : Config) (accepted : Bool) (t : Tally) (counters : Map Text ℤ) (tag : Text)
    (us : List UserInfo) (name : Text)
    → t.traffic ≡ due_traffic counters tag us
    → (contains t.up_counters name || contains t.down_counters name)
      ≡ contains (due_counters counters tag us) name
    → load name (settle cfg accepted t counters) ≡ (
        if (cfg.disable_upload_traffic || accepted) && contains (due_counters counters tag us) name
        then some (pos 0)
        else load name counters)
unfolding settle
settled cfg accepted t counters tag us name report names =
    elim (Bool-cases (ltb 0 (length (due_traffic counters tag us)))) [
      | inl any ↦ ground (
        arith,
        load-reset_counters t.down_counters (reset_counters t.up_counters counters) name,
        load-reset_counters t.up_counters counters name,
      )
      | inr nothing ↦
          let z = no_due_counters counters tag us name (ground (arith, nothing)) in
          ground (arith, z)
    ]

module _ {R : RateLib} {L : RuleLib} {C : CoreLib} where
  unlocked-keeps :
      (cfg : Config) (now : ℤ) (s : Controller R L C)
      → ((unlock_users R L C cfg now s).tag ≡ s.tag)
        × ((unlock_users R L C cfg now s).user_list ≡ s.user_list)
  unfolding unlock_users
  unlocked-keeps cfg now s = (ground arith, ground arith)

  -- A round sends exactly the traffic that is due (nothing if uploads are off). A refused report
  -- leaves every counter as it was; else exactly the counters behind the due traffic go to 0.
  pub user_info_monitor-traffic :
      (cfg : Config) (now : ℤ) (accepted : Bool) (s : Controller R L C) (counters : Map Text ℤ)
      → let (_, counters', sent) = user_info_monitor R L C cfg now accepted s counters in
        (sent.traffic
          ≡ (if cfg.disable_upload_traffic then [] else due_traffic counters s.tag s.user_list))
        × ((name : Text)
            → load name counters' ≡ (
                if (cfg.disable_upload_traffic || accepted)
                  && contains (due_counters counters s.tag s.user_list) name
                then some (pos 0)
                else load name counters))
  unfolding user_info_monitor start_tally
  user_info_monitor-traffic cfg now accepted s counters =
      let s' = unlock_users R L C cfg now s in
      let t = start_tally R L C s' in
      let done = tally_users cfg now s'.tag counters s'.user_list t in
      let (tag, users) = unlocked-keeps cfg now s in
      let report : done.traffic ≡ due_traffic counters s.tag s.user_list =
        tally_users-traffic cfg now s'.tag counters s'.user_list t ∙ rw (tag, users) in
      (
        rw report,
        λ name.
            settled cfg accepted done counters s.tag s.user_list name report
              (tally_users-counters cfg now s'.tag counters s'.user_list t name ∙ rw (tag, users)),
      )
