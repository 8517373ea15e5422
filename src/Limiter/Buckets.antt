-- ===== src/Limiter/Buckets.antt =====
-- The speed buckets: shared by a user's connections, and adjusted by UpdateInboundLimiter.
use center_agent.Prelude.{
  ℕ, ◌<◌, ◌≡◌, refl, ◌∙◌, inl, inr, false, Option, none, some, List, [], ◌∷◌, ◌++◌, arith, ltb,
  ◌==◌, ==_iff, nat_eq, list_eq, if◌then◌else◌, All, Bool-cases, Option-cases,
}
use center_agent.Prelude.Ints.{word_to_int64}
use center_agent.Prelude.Maps.{Map, load, store, load-store, load-store_self, load-delete}
use center_agent.Prelude.Text.{Text}
use center_agent.Api.{UserInfo}
use center_agent.Limiter.{
  InboundInfo, limits_of, user_key, update_user, update_users, update_inbound_limiter,
  refresh_bucket,
}
use center_agent.Limiter.Rate.{determine_rate}
use center_agent.Limiter.Libraries.{RateLib, IsRateLib}

-- The list names no user with that key.
abbrev pub IsUnnamed : Text → Text → List UserInfo → Type 0
IsUnnamed tag key = All (λ u. (key == user_key tag u.email u.uid) ≡ false)

-- What a rate makes of a bucket: nothing of none, nothing without a rate, and else a bucket with the
-- rate for its limit and its burst.
pub data Turned (R : RateLib) (rate : ℕ) : Option R.Bucket → Option R.Bucket → Type 0 where
  no_bucket : Turned R rate none none
  unlimited : (b : R.Bucket) → rate ≡ 0 → Turned R rate (some b) none
  limited :
      (b b' : R.Bucket)
      → 0 < rate
      → R.limit_of b' ≡ R.to_limit rate
      → R.burst_of b' ≡ word_to_int64 rate
      → Turned R rate (some b) (some b')

module _ (R : RateLib) where
  -- What a bucket becomes under a new rate: gone without a rate, else the same bucket with the rate
  -- for its limit and its burst.
  abbrev pub refreshed : ℕ → Option R.Bucket → Option R.Bucket
  refreshed rate none = none
  refreshed rate (some b) =
      if ltb 0 rate
      then some (R.set_burst (R.set_limit b (R.to_limit rate)) (word_to_int64 rate))
      else none

  load-refresh_bucket :
      (key : Text) (rate : ℕ) (hub : Map Text R.Bucket) (e : Text)
      → load e (refresh_bucket R key rate hub)
        ≡ (if e == key then refreshed rate (load key hub) else load e hub)
  unfolding refresh_bucket
  load-refresh_bucket key rate hub e = elim (Option-cases (load key hub)) [
    | inl absent ↦ ground (arith, load-delete key e hub, ==_iff e key)
    | inr (b, present) ↦ ground (
      arith,
      load-delete key e hub,
      load-store key e (R.set_burst (R.set_limit b (R.to_limit rate)) (word_to_int64 rate)) hub,
    )
  ]

module _ {R : RateLib} where
  update_users-unnamed :
      (tag : Text) (us : List UserInfo) (info : InboundInfo R) (key : Text)
      → IsUnnamed tag key us
      → (load key (update_users R tag info us).users ≡ load key info.users)
        × (load key (update_users R tag info us).bucket_hub ≡ load key info.bucket_hub)
        × ((update_users R tag info us).node_speed_limit ≡ info.node_speed_limit)
        × ((update_users R tag info us).online ≡ info.online)
  unfolding update_users update_user
  update_users-unnamed tag [] info key h = (refl, refl, refl, refl)
  update_users-unnamed tag (u ∷ us) info key h =
      let other = user_key tag u.email u.uid in
      let (a, b, c, d) = update_users-unnamed tag us (update_user R tag info u) key h.1 in
      (
        a ∙ ground (arith, load-store other key (limits_of u) info.users, h.0),
        b
            ∙ ground (
              arith,
              load-refresh_bucket R other (determine_rate info.node_speed_limit u.speed_limit)
                  info.bucket_hub key,
              h.0,
            ),
        c,
        d,
      )

  update_users-append :
      (tag : Text) (us vs : List UserInfo) (info : InboundInfo R)
      → update_users R tag info (us ++ vs) ≡ update_users R tag (update_users R tag info us) vs
  unfolding update_users
  update_users-append tag [] vs info = refl
  update_users-append tag (u ∷ us) vs info =
      update_users-append tag us vs (update_user R tag info u)

  update_users-named :
      (tag : Text) (us vs : List UserInfo) (u : UserInfo) (info : InboundInfo R)
      → IsUnnamed tag (user_key tag u.email u.uid) us
      → IsUnnamed tag (user_key tag u.email u.uid) vs
      → let key = user_key tag u.email u.uid in
        let after = update_users R tag info (us ++ (u ∷ vs)) in
        (load key after.users ≡ some (limits_of u))
        × (load key after.bucket_hub
            ≡ refreshed R
                (determine_rate info.node_speed_limit u.speed_limit)
                (load key info.bucket_hub))
  unfolding update_users update_user
  update_users-named tag us vs u info h k =
      let key = user_key tag u.email u.uid in
      let mid = update_users R tag info us in
      let (_, b, c, _) = update_users-unnamed tag us info key h in
      let (p, q, _, _) = update_users-unnamed tag vs (update_user R tag mid u) key k in
      rw (update_users-append tag us (u ∷ vs) info) (
        p ∙ load-store_self key (limits_of u) mid.users,
        q
            ∙ ground (
              arith,
              load-refresh_bucket R key (determine_rate mid.node_speed_limit u.speed_limit)
                  mid.bucket_hub key,
              ==_iff key key,
              b,
              c,
            ),
      )

  refreshed-Turned :
      IsRateLib R → (rate : ℕ) (o : Option R.Bucket) → Turned R rate o (refreshed R rate o)
  refreshed-Turned lib rate none = no_bucket
  refreshed-Turned lib rate (some b) = elim (Bool-cases (ltb 0 rate)) [
    | inr off ↦ rw off (unlimited b (ground (arith, off)))
    | inl on ↦ rw on (
        limited b _ (ground (arith, on)) (lib.limit-set_burst _ _ ∙ lib.limit-set_limit _ _)
          (lib.burst-set_burst _ _))
  ]

  module _ (lib : IsRateLib R) where
    -- An update of a known inbound gives every user that it names once the new limits, and turns a
    -- bucket that the user has to the new rate: its limit and burst become the rate, or it is gone
    -- when the rate is 0. It makes no bucket, and users that it does not name keep limits and bucket.
    pub update_inbound_limiter_lem :
        (tag : Text) (us vs : List UserInfo) (u : UserInfo) (l : Map Text (InboundInfo R))
        (info : InboundInfo R)
        → load tag l ≡ some info
        → IsUnnamed tag (user_key tag u.email u.uid) us
        → IsUnnamed tag (user_key tag u.email u.uid) vs
        → let key = user_key tag u.email u.uid in
          let rate = determine_rate info.node_speed_limit u.speed_limit in
          (l' : Map Text (InboundInfo R)) × (after : InboundInfo R) × (update_inbound_limiter R tag
              (us ++ (u ∷ vs))
              l
            ≡ some l')
          × (load tag l' ≡ some after)
          × (load key after.users ≡ some (limits_of u))
          × Turned R rate (load key info.bucket_hub) (load key after.bucket_hub)
          × ((e : Text)
              → IsUnnamed tag e (us ++ (u ∷ vs))
              → (load e after.users ≡ load e info.users)
                × (load e after.bucket_hub ≡ load e info.bucket_hub))
    unfolding update_inbound_limiter
    update_inbound_limiter_lem tag us vs u l info found h k =
        let key = user_key tag u.email u.uid in
        let rate = determine_rate info.node_speed_limit u.speed_limit in
        let after = update_users R tag info (us ++ (u ∷ vs)) in
        let (p, q) = update_users-named tag us vs u info h k in
        (
          store tag after l,
          after,
          ground arith,
          load-store_self tag after l,
          p,
          rw q (refreshed-Turned lib rate (load key info.bucket_hub)),
          λ e un. let (x, y, _, _) = update_users-unnamed tag (us ++ (u ∷ vs)) info e un in (x, y),
        )
