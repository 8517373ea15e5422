-- ===== src/Limiter/Refusal.antt =====
-- When GetUserBucket turns a connection away for its user's device limit.
use center_agent.Prelude.{
  ◌≡◌, ◌⊎◌, ◌↔◌, inl, inr, true, false, none, some, arith, nat_eq, list_eq, length,
}
use center_agent.Prelude.Ints.{pos, ◌≤ℤ◌}
use center_agent.Prelude.Maps.{Map, load, store_same}
use center_agent.Prelude.Text.{Text}
use center_agent.Limiter.{
  InboundInfo, UserLimits, Devices, admit, pass_on, take_bucket, global_check, limits_for,
  get_user_bucket,
}
use center_agent.Limiter.Libraries.{RateLib, CacheReply}
use center_agent.Limiter.Devices.{
  first_device, known_device, no_room, new_device, local_check-Outcome,
}

module _ {R : RateLib} where
  -- The user has a device limit, it is reached, and the connection comes from a new device.
  pub record IsFull (info : InboundInfo R) (email ip : Text) : Type 0 where
    pub ips : Devices
    pub present : load email info.online ≡ some ips
    pub new : load ip ips ≡ none
    pub limited : pos 1 ≤ℤ (limits_for R info email).device_limit
    pub reached : (limits_for R info email).device_limit ≤ℤ pos (length ips)

  pass_on-accepts :
      (info : InboundInfo R) (email ip : Text) (u : UserLimits) (cache : Text → CacheReply)
      → info.global ≡ none
      → (pass_on R info email ip u cache).1.reject ≡ false
  unfolding pass_on take_bucket global_check
  pass_on-accepts info email ip u cache h = ground arith

  admit-reject :
      (info : InboundInfo R) (email ip : Text) (cache : Text → CacheReply)
      → info.global ≡ none
      → (((admit R info email ip cache).1.reject ≡ false) × ¬ IsFull info email ip)
        ⊎ (((admit R info email ip cache).1.reject ≡ true)
            × IsFull info email ip
            × ((admit R info email ip cache).0 ≡ info))
  unfolding admit
  admit-reject info email ip cache h =
      let u = limits_for R info email in
      elim (local_check-Outcome info.online email ip u.uid u.device_limit) [
        | first_device absent e ↦
            inl (rw (e, admit) (pass_on-accepts _ email ip u cache h), λ f. cc (absent, f.present))
        | known_device ips v present old e ↦ inl (
          rw (e, admit) (pass_on-accepts _ email ip u cache h),
          λ f. ground (arith, f.present, f.new),
        )
        | no_room ips present new p q e ↦ inr (
          rw (e, admit),
          record { ips = ips; present = present; new = new; limited = p; reached = q },
          rw (e, admit),
        )
        | new_device ips present new fits e ↦ inl (
          rw (e, admit) (pass_on-accepts _ email ip u cache h),
          λ f. ground (arith, f.present, f.limited, f.reached, fits f.limited),
        )
      ]

  -- Where no device limit is shared between nodes, a connection to a known inbound is refused
  -- exactly when its user has a device limit, that many devices are online, and the address is new
  -- to them. A refused connection leaves the limiter as it was.
  pub get_user_bucket-reject :
      (tag email ip : Text) (cache : Text → CacheReply) (l : Map Text (InboundInfo R))
      (info : InboundInfo R)
      → load tag l ≡ some info
      → info.global ≡ none
      → let (l', a) = get_user_bucket R tag email ip cache l in
        ((a.reject ≡ true) ↔ IsFull info email ip) × ((a.reject ≡ false) ⊎ (l' ≡ l))
  unfolding get_user_bucket
  get_user_bucket-reject tag email ip cache l info h g =
      rw (h, get_user_bucket)
        (elim (admit-reject info email ip cache g) [
          | inl (passed, free) ↦ ((λ r. cc (r, passed), λ f. absurd (free f)), inl passed)
          | inr (refused, full, kept) ↦
              ((λ _. full, λ _. refused), inr (ground (arith, kept, store_same tag info l)))
        ])
