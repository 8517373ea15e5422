-- ===== src/Controller/Traffic/Warnings.antt =====
-- The warnings that come before a speed limit never exceed their configured number.
use center_agent.Prelude.{
  ◌≡◌, inl, inr, Bool, ◌||◌, some, List, [], ◌∷◌, arith, ◌==◌, nat_eq, list_eq, Bool-cases,
}
use center_agent.Prelude.Ints.{ℤ, pos, int_eq, ◌≤ℤ◌, ltb_ℤ, ◌+ℤ◌, to_int64}
use center_agent.Prelude.Maps.{Map, load, store, delete, has, load-store, load-delete}
use center_agent.Prelude.Text.{Text}
use center_agent.Api.{UserInfo, user_eq}
use center_agent.Limiter.{user_key}
use center_agent.Limiter.Libraries.{RateLib}
use center_agent.Rule.Libraries.{RuleLib}
use center_agent.Controller.Types.{Config, CoreLib, Controller}
use center_agent.Controller.Traffic.{
  allowance, Traffic, Tally, get_traffic, limit_user, warnings, warn_user, over_speed, check_speed,
  tally_user, tally_users, unlock_users, report_devices, report_illegal, start_tally,
  user_info_monitor,
}

-- Nobody has been warned more often than that.
abbrev pub IsBounded : ℤ → Map UserInfo ℤ → Type 0
IsBounded n m = (u : UserInfo) (w : ℤ) → load u m ≡ some w → w ≤ℤ n

delete-IsBounded :
    (n : ℤ) (u : UserInfo) (m : Map UserInfo ℤ) → IsBounded n m → IsBounded n (delete u m)
delete-IsBounded n u m h v w e = elim (Bool-cases (v == u)) [
  | inl p ↦ absurd (ground (arith, load-delete u v m))
  | inr p ↦ h v w (ground (arith, load-delete u v m))
]

store-IsBounded :
    (n : ℤ) (u : UserInfo) (w : ℤ) (m : Map UserInfo ℤ)
    → w ≤ℤ n
    → IsBounded n m
    → IsBounded n (store u w m)
store-IsBounded n u w m b h v x e = elim (Bool-cases (v == u)) [
  | inl p ↦ ground (arith, load-store u v w m)
  | inr p ↦ h v x (ground (arith, load-store u v w m))
]

module _ (cfg : Config) (now : ℤ) where
  abbrev bound : ℤ
  bound = cfg.auto_speed_limit.warn_times

  warn_user-IsBounded :
      (u : UserInfo) (t : Tally)
      → IsBounded bound t.warned
      → IsBounded bound (warn_user cfg now u t).warned
  unfolding warn_user
  warn_user-IsBounded u t h =
      let w = to_int64 (warnings cfg now u t.warned +ℤ pos 1) in
      elim (Bool-cases (ltb_ℤ bound w)) [
        | inl p ↦ rw p (delete-IsBounded bound u t.warned h)
        | inr p ↦ rw p (store-IsBounded bound u w t.warned (ground (arith, p)) h)
      ]

  over_speed-IsBounded :
      (u : UserInfo) (t : Tally)
      → IsBounded bound t.warned
      → IsBounded bound (over_speed cfg now u t).warned
  unfolding over_speed limit_user
  over_speed-IsBounded u t h = elim (Bool-cases (has u t.limited)) [
    | inl p ↦ rw p h
    | inr p ↦ elim (Bool-cases (bound == pos 0)) [
      | inl q ↦ rw (p, q) h
      | inr q ↦ rw (p, q) (warn_user-IsBounded u t h)
    ]
  ]

  check_speed-IsBounded :
      (u : UserInfo) (v : Traffic) (t : Tally)
      → IsBounded bound t.warned
      → IsBounded bound (check_speed cfg now u v t).warned
  unfolding check_speed
  check_speed-IsBounded u v t h = elim (Bool-cases (ltb_ℤ (pos 0) cfg.auto_speed_limit.limit)) [
    | inr off ↦ rw off h
    | inl on ↦
        elim (Bool-cases (ltb_ℤ (allowance cfg now) v.down || ltb_ℤ (allowance cfg now) v.up)) [
          | inl over ↦ rw (on, over) (over_speed-IsBounded u t h)
          | inr within ↦ rw (on, within) (delete-IsBounded bound u t.warned h)
        ]
  ]

  tally_user-IsBounded :
      (u : UserInfo) (v : Traffic) (t : Tally)
      → IsBounded bound t.warned
      → IsBounded bound (tally_user cfg now u v t).warned
  unfolding tally_user check_speed
  tally_user-IsBounded u v t h = elim (Bool-cases (ltb_ℤ (pos 0) v.up || ltb_ℤ (pos 0) v.down)) [
    | inr idle ↦ rw idle (delete-IsBounded bound u t.warned h)
    | inl busy ↦ rw busy (check_speed-IsBounded u v t h)
  ]

  tally_users-IsBounded :
      (tag : Text) (counters : Map Text ℤ) (us : List UserInfo) (t : Tally)
      → IsBounded bound t.warned
      → IsBounded bound (tally_users cfg now tag counters us t).warned
  unfolding tally_users
  tally_users-IsBounded tag counters [] t h = h
  tally_users-IsBounded tag counters (u ∷ us) t h =
      tally_users-IsBounded tag counters us _
        (tally_user-IsBounded u (get_traffic counters (user_key tag u.email u.uid)) t h)

module _ {R : RateLib} {L : RuleLib} {C : CoreLib} where
  unlocked-warned :
      (cfg : Config) (now : ℤ) (s : Controller R L C)
      → (unlock_users R L C cfg now s).warned_users ≡ s.warned_users
  unfolding unlock_users
  unlocked-warned cfg now s = ground arith

  reported-warned :
      (s : Controller R L C)
      → (report_illegal R L C (report_devices R L C s).1).1.warned_users ≡ s.warned_users
  unfolding report_illegal report_devices
  reported-warned s = ground arith

  -- A round leaves no user warned more often than `warn_times`, if none was before.
  pub user_info_monitor-IsBounded :
      (cfg : Config) (now : ℤ) (accepted : Bool) (s : Controller R L C) (counters : Map Text ℤ)
      → IsBounded cfg.auto_speed_limit.warn_times s.warned_users
      → IsBounded cfg.auto_speed_limit.warn_times
          (user_info_monitor R L C cfg now accepted s counters).0.warned_users
  unfolding user_info_monitor start_tally
  user_info_monitor-IsBounded cfg now accepted s counters h =
      let s' = unlock_users R L C cfg now s in
      rw reported-warned (
        tally_users-IsBounded cfg now s'.tag counters s'.user_list (start_tally R L C s')
          (rw (unlocked-warned cfg now s) h))
