-- ===== src/Panel/Sspanel/Users.antt =====
-- ParseUserListResponse and ReportNodeOnlineUsers: the users of a node, each with the devices that
-- are still free for it.
use center_agent.Prelude.{
  ℕ, zero, suc, ◌+◌, ◌^◌, ◌<◌, ◌≤◌, ◌≡◌, inl, inr, refl, true, false, ◌&&◌, Option, none, some,
  List, [], ◌∷◌, arith, nat_eq, if◌then◌else◌, All, Bool-cases, Option-cases,
}
use center_agent.Prelude.Ints.{ℤ, pos, negsuc, ltb_ℤ, ◌+ℤ◌, ◌-ℤ◌, ◌≤ℤ◌, to_int64, int_eq}
use center_agent.Prelude.Maps.{Map, load, store}
use center_agent.Prelude.Text.{Text}
use center_agent.Api.{UserInfo, OnlineUser}
use center_agent.Panel.Common.{FloatLib, ApiConfig, choose_speed, choose_devices}

-- UserResponse
pub record UserResponse (F : FloatLib) : Type 0 where
  pub id : ℤ
  pub passwd : Text
  pub port : ℕ
  pub method : Text
  pub speed_limit : F.Float
  pub device_limit : ℤ
  pub uuid : Text
  pub alive_ip : ℤ

-- The devices that the last report of this node had for a user.
unfoldable pub last_online : Map ℤ ℤ → ℤ → ℤ
last_online last uid = elim (load uid last) [ none ↦ pos 0 | some n ↦ n ]

-- The limit that a user gets; nothing if there is no room for another device.
unfoldable pub room : (limit alive last : ℤ) → Option ℤ
room limit alive last =
    let free = to_int64 (to_int64 (limit -ℤ alive) +ℤ last) in
    if ltb_ℤ (pos 0) limit && ltb_ℤ (pos 0) alive
    then (if ltb_ℤ (pos 0) free then some free else if ltb_ℤ (pos 0) last then some last else none)
    else some limit

module _ (F : FloatLib) where
  unfoldable pub user_of : ApiConfig F → UserResponse F → (limit : ℤ) → UserInfo
  unfolding choose_speed
  user_of c u limit = record {
    uid = u.id;
    email = [];
    uuid = u.uuid;
    passwd = u.passwd;
    port = u.port;
    alter_id = 0;
    method = u.method;
    speed_limit = choose_speed F c.speed_limit u.speed_limit;
    device_limit = limit;
  }

  unfoldable pub room_of : ApiConfig F → Map ℤ ℤ → UserResponse F → Option ℤ
  unfolding room last_online
  room_of c last u =
      room (choose_devices F c.device_limit u.device_limit) u.alive_ip (last_online last u.id)

  unfoldable pub list_users : ApiConfig F → Map ℤ ℤ → List (UserResponse F) → List UserInfo
  unfolding room_of user_of
  list_users c last [] = []
  list_users c last (u ∷ us) =
      let rest = list_users c last us in
      elim (room_of c last u) [ none ↦ rest | some limit ↦ user_of c u limit ∷ rest ]

  -- The users, and the table of the last report, which is cleared.
  unfoldable pub parse_user_list :
      ApiConfig F → Map ℤ ℤ → List (UserResponse F) → List UserInfo × Map ℤ ℤ
  unfolding list_users
  parse_user_list c last us = (list_users c last us, [])

-- The loop of ReportNodeOnlineUsers: how many devices each user has.
unfoldable pub count_online : Map ℤ ℤ → List OnlineUser → Map ℤ ℤ
unfolding last_online
count_online m [] = m
count_online m (u ∷ us) = count_online (store u.uid (to_int64 (last_online m u.uid +ℤ pos 1)) m) us

-- A number of devices that an `int` holds, with room for sums.
abbrev pub IsCount : ℤ → Type 0
IsCount n = (pos 0 ≤ℤ n) × (n ≤ℤ pos (2 ^ 61))

-- What a user with a limit gets, where the panel knows of `alive` devices and `last` of them are this
-- node's.
pub data Room (limit alive last : ℤ) : Option ℤ → Type 0 where
  unlimited : limit ≤ℤ pos 0 → Room limit alive last (some limit)
  unused : alive ≤ℤ pos 0 → Room limit alive last (some limit)
  free :
      (d : ℤ)
      → pos 1 ≤ℤ limit
      → pos 1 ≤ℤ alive
      → pos 1 ≤ℤ d
      → d +ℤ alive ≡ limit +ℤ last
      → Room limit alive last (some d)
  held :
      pos 1 ≤ℤ limit
      → pos 1 ≤ℤ alive
      → pos 1 ≤ℤ last
      → limit +ℤ last ≤ℤ alive
      → Room limit alive last (some last)
  full :
      last ≡ pos 0 → pos 1 ≤ℤ limit → pos 1 ≤ℤ alive → limit ≤ℤ alive → Room limit alive last none

free_lem :
    (l a k : ℕ)
    → l < 2 ^ 61
    → a < 2 ^ 61
    → k ≤ 2 ^ 61
    → to_int64 (to_int64 (pos (suc l) -ℤ pos (suc a)) +ℤ pos k) ≡ pos (suc l + k) -ℤ pos (suc a)
free_lem l a k hl ha hk = ground arith

negative_limit : (n : ℕ) → ltb_ℤ (pos 0) (negsuc n) ≡ false
negative_limit n = ground arith

positive_suc : (n : ℕ) → ltb_ℤ (pos 0) (pos (suc n)) ≡ true
positive_suc n = ground arith

room_pos :
    (l a k : ℕ)
    → l < 2 ^ 61
    → a < 2 ^ 61
    → k ≤ 2 ^ 61
    → Room (pos (suc l)) (pos (suc a)) (pos k) (room (pos (suc l)) (pos (suc a)) (pos k))
unfolding room
room_pos l a k hl ha hk = elim (Bool-cases (ltb_ℤ (pos 0) (pos (suc l + k) -ℤ pos (suc a)))) [
  | inl some_free ↦
      rw (positive_suc l, positive_suc a, free_lem l a k hl ha hk, some_free)
        (free (pos (suc l + k) -ℤ pos (suc a)) (omega arith) (omega arith) (ground arith)
          (ground arith))
  | inr none_free ↦ elim (Bool-cases (ltb_ℤ (pos 0) (pos k))) [
    | inl some_held ↦
        rw (positive_suc l, positive_suc a, free_lem l a k hl ha hk, none_free, some_held)
          (held (omega arith) (omega arith) (ground arith) (ground arith))
    | inr none_held ↦
        rw (positive_suc l, positive_suc a, free_lem l a k hl ha hk, none_free, none_held)
          (full (ground arith) (omega arith) (omega arith) (ground arith))
  ]
]

room-Room :
    (limit alive last : ℤ)
    → IsCount last
    → IsCount alive
    → limit ≤ℤ pos (2 ^ 61)
    → Room limit alive last (room limit alive last)
unfolding room
room-Room (negsuc l) alive last h k b = rw (negative_limit l) (unlimited (omega arith))
room-Room (pos zero) alive last h k b = unlimited (omega arith)
room-Room (pos (suc l)) (negsuc a) last h k b = absurd (ground (arith, k.0))
room-Room (pos (suc l)) (pos zero) last h k b = rw (positive_suc l) (unused (omega arith))
room-Room (pos (suc l)) (pos (suc a)) (negsuc n) h k b = absurd (ground (arith, h.0))
room-Room (pos (suc l)) (pos (suc a)) (pos n) h k b =
    room_pos l a n (omega (arith, b)) (omega (arith, k.1)) (omega (arith, h.1))

module _ {F : FloatLib} (c : ApiConfig F) (last : Map ℤ ℤ) where
  -- The users that a list of answers becomes: in their order, each with its room, without those that
  -- have none.
  pub data Listed : List (UserResponse F) → List UserInfo → Type 0 where
    nobody : Listed [] []
    listed :
        {u : UserResponse F} {us : List (UserResponse F)} {vs : List UserInfo} (d : ℤ)
        → Room
            (choose_devices F c.device_limit u.device_limit)
            u.alive_ip
            (last_online last u.id)
            (some d)
        → Listed us vs
        → Listed (u ∷ us) (user_of F c u d ∷ vs)
    left_out :
        {u : UserResponse F} {us : List (UserResponse F)} {vs : List UserInfo}
        → Room
            (choose_devices F c.device_limit u.device_limit)
            u.alive_ip
            (last_online last u.id)
            none
        → Listed us vs
        → Listed (u ∷ us) vs

  -- The counts of an answer, and those of the last report for its users.
  pub record IsSane (u : UserResponse F) : Type 0 where
    pub held : IsCount (last_online last u.id)
    pub alive : IsCount u.alive_ip
    pub limit : choose_devices F c.device_limit u.device_limit ≤ℤ pos (2 ^ 61)

  list_users-Listed :
      (us : List (UserResponse F)) → All IsSane us → Listed us (list_users F c last us)
  unfolding list_users
  list_users-Listed [] h = nobody
  list_users-Listed (u ∷ us) h =
      let rest = list_users-Listed us h.1 in
      let limit = choose_devices F c.device_limit u.device_limit in
      let r = room-Room limit u.alive_ip (last_online last u.id) h.0.held h.0.alive h.0.limit in
      elim (Option-cases (room limit u.alive_ip (last_online last u.id))) [
        | inl e ↦ rw (list_users, e) (left_out (rw (room, e) at r) rest)
        | inr (d, e) ↦ rw (list_users, e) (listed d (rw (room, e) at r) rest)
      ]

  -- Where the panel's counts and those of the last report are sane, parsing the user list gives the
  -- panel's users in their order. A user without a limit, or of whom the panel knows no device, gets
  -- the limit as it is; any other what the limit leaves free, with its devices on this node added; if
  -- that is none, the devices it has on this node; and it is left out if it has none there. The table
  -- of the last report is empty then.
  pub parse_user_list-Listed :
      (us : List (UserResponse F))
      → All IsSane us
      → Listed us (parse_user_list F c last us).0 × ((parse_user_list F c last us).1 ≡ [])
  unfolding parse_user_list
  parse_user_list-Listed us h = (list_users-Listed us h, refl)
