-- ===== src/Limiter/Devices.antt =====
-- The local device limit of GetUserBucket, over any sequence of connections.
use center_agent.Prelude.{
  suc, ◌≡◌, refl, ◌⊎◌, inl, inr, ◌&&◌, none, some, [], ◌∷◌, arith, ◌==◌, ==_iff, nat_eq, list_eq,
  length, Bool-cases, Option-cases,
}
use center_agent.Prelude.Ints.{ℤ, pos, ◌≤ℤ◌, ltb_ℤ}
use center_agent.Prelude.Maps.{
  Map, load, store, load-store, store_same, delete-store, length-store_new,
}
use center_agent.Prelude.Text.{Text}
use center_agent.Limiter.{
  InboundInfo, UserLimits, Devices, LocalCheck, accepted, rejected, local_check, admit, pass_on,
  take_bucket, limits_for,
}
use center_agent.Limiter.Libraries.{RateLib, CacheReply}

abbrev left : LocalCheck → Map Text Devices
left (accepted m) = m
left (rejected m) = m

module _ (online : Map Text Devices) (email ip : Text) (uid limit : ℤ) where
  -- The four ends of the local check, each with what it found.
  pub data Outcome (r : LocalCheck) : Type 0 where
    first_device :
        load email online ≡ none → r ≡ accepted (store email ((ip, uid) ∷ []) online) → Outcome r
    known_device :
        (ips : Devices) (v : ℤ)
        → load email online ≡ some ips
        → load ip ips ≡ some v
        → r ≡ accepted online
        → Outcome r
    no_room :
        (ips : Devices)
        → load email online ≡ some ips
        → load ip ips ≡ none
        → pos 1 ≤ℤ limit
        → limit ≤ℤ pos (length ips)
        → r ≡ rejected online
        → Outcome r
    new_device :
        (ips : Devices)
        → load email online ≡ some ips
        → load ip ips ≡ none
        → (pos 1 ≤ℤ limit → pos (suc (length ips)) ≤ℤ limit)
        → r ≡ accepted (store email (store ip uid ips) online)
        → Outcome r

  new_ip-Outcome :
      (ips : Devices)
      → load email online ≡ some ips
      → load ip ips ≡ none
      → Outcome (local_check online email ip uid limit)
  unfolding local_check
  new_ip-Outcome ips present new =
      elim (Bool-cases (ltb_ℤ limit (pos (suc (length ips))) && ltb_ℤ (pos 0) limit)) [
        | inl over ↦ no_room ips present new (ground arith) (ground arith) (
            ground (
              arith,
              length-store_new ip uid ips new,
              delete-store ip uid ips new,
              store_same email ips online present,
            ))
        | inr fits ↦
            new_device ips present new (λ p. ground arith)
              (ground (arith, length-store_new ip uid ips new))
      ]

  pub local_check-Outcome : Outcome (local_check online email ip uid limit)
  unfolding local_check
  local_check-Outcome = elim (Option-cases (load email online)) [
    | inl absent ↦ first_device absent (ground arith)
    | inr (ips, present) ↦ elim (Option-cases (load ip ips)) [
      | inl new ↦ new_ip-Outcome ips present new
      | inr (v, old) ↦ known_device ips v present old (ground arith)
    ]
  ]

-- No user with a device limit has more devices online than it allows.
abbrev pub IsWithin : Map Text UserLimits → Map Text Devices → Type 0
IsWithin users online =
    (email : Text) (u : UserLimits) (ips : Devices)
    → load email users ≡ some u
    → load email online ≡ some ips
    → pos 1 ≤ℤ u.device_limit
    → pos (length ips) ≤ℤ u.device_limit

store-IsWithin :
    (users : Map Text UserLimits) (online : Map Text Devices) (email : Text) (new : Devices)
    → ((u : UserLimits)
        → load email users ≡ some u
        → pos 1 ≤ℤ u.device_limit
        → pos (length new) ≤ℤ u.device_limit)
    → IsWithin users online
    → IsWithin users (store email new online)
store-IsWithin users online email new fits h e u ips known found set =
    elim (Bool-cases (e == email)) [
      | inl same ↦
          let p : e ≡ email = (==_iff e email).0 same in
          ground (arith, load-store email e new online, fits u (rw p at known))
      | inr other ↦ ground (arith, load-store email e new online, h e u ips)
    ]

module _ {R : RateLib} where
  pass_on-keeps :
      (info : InboundInfo R) (email ip : Text) (u : UserLimits) (cache : Text → CacheReply)
      → ((pass_on R info email ip u cache).0.online ≡ info.online)
        × ((pass_on R info email ip u cache).0.users ≡ info.users)
        × ((pass_on R info email ip u cache).0.global ≡ info.global)
        × ((pass_on R info email ip u cache).0.node_speed_limit ≡ info.node_speed_limit)
  unfolding pass_on take_bucket
  pass_on-keeps info email ip u cache = (ground arith, ground arith, ground arith, ground arith)

  admit-keeps :
      (info : InboundInfo R) (email ip : Text) (cache : Text → CacheReply)
      → let u = limits_for R info email in
        ((admit R info email ip cache).0.online
          ≡ left (local_check info.online email ip u.uid u.device_limit))
        × ((admit R info email ip cache).0.users ≡ info.users)
  unfolding admit
  admit-keeps info email ip cache =
      let u = limits_for R info email in
      let check = local_check info.online email ip u.uid u.device_limit in
      elim (check-cases check) [
        | inl (m, e) ↦ rw (e, admit) (refl, refl)
        | inr (m, e) ↦
            let (o, us, _, _) = pass_on-keeps (record info { online = m }) email ip u cache in
            rw (e, admit) (o, us)
      ]
    where
      check-cases :
          (c : LocalCheck)
          → ((m : Map Text Devices) × (c ≡ rejected m))
            ⊎ ((m : Map Text Devices) × (c ≡ accepted m))
      check-cases (accepted m) = inr (m, refl)
      check-cases (rejected m) = inl (m, refl)

  -- A connection keeps the online devices within the limits.
  pub admit-IsWithin :
      (info : InboundInfo R) (email ip : Text) (cache : Text → CacheReply)
      → IsWithin info.users info.online
      → IsWithin (admit R info email ip cache).0.users (admit R info email ip cache).0.online
  admit-IsWithin info email ip cache h =
      let u = limits_for R info email in
      let (o, us) = admit-keeps info email ip cache in
      rw (o, us)
        (elim (local_check-Outcome info.online email ip u.uid u.device_limit) [
          | first_device absent e ↦
              rw e (store-IsWithin info.users info.online email _ (λ v known p. omega arith) h)
          | known_device ips v present old e ↦ rw e h
          | no_room ips present new p q e ↦ rw e h
          | new_device ips present new fits e ↦ rw e (
              store-IsWithin info.users info.online email _
                (λ v known p. ground (arith, length-store_new ip u.uid ips new, fits)) h)
        ])
