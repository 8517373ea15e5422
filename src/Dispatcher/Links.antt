-- ===== src/Dispatcher/Links.antt =====
-- getLink of default.go with the writers of stats.go and common/limiter/rate.go.
use center_agent.Prelude.{
  ℕ, ◌≡◌, ◌≢◌, ◌↔◌, inl, inr, refl, sym, ap, ◌∙◌, Bool, ◌&&◌, Option, none, some, List, [], ◌∷◌,
  ◌++◌, arith, ◌==◌, ==_iff, nat_eq, list_eq, if◌then◌else◌, Bool-cases,
}
use center_agent.Prelude.Maps.{Map, load}
use center_agent.Prelude.Text.{Text, codes}
use center_agent.Limiter.{InboundInfo, Admission, get_user_bucket}
use center_agent.Limiter.Libraries.{RateLib, CacheReply}
use center_agent.Limiter.Refusal.{IsFull, get_user_bucket-reject}

-- protocol.MemoryUser
pub record User : Type 0 where
  pub email : Text
  pub level : ℕ

-- session.Inbound: its tag, the text of the source's IP, and the user, if there is one.
pub record Inbound : Type 0 where
  pub tag : Text
  pub source : Text
  pub user : Option User

-- What is counted for the users of a level.
pub record Policy : Type 0 where
  pub user_uplink : Bool
  pub user_downlink : Bool

pub data Side : Type 0 where
  uplink downlink : Side

-- The name of a user's counter.
abbrev pub counter_name : Text → Side → Text
counter_name email uplink = codes "user>>>" ++ (email ++ codes ">>>traffic>>>uplink")
counter_name email downlink = codes "user>>>" ++ (email ++ codes ">>>traffic>>>downlink")

module _ (R : RateLib) where
  -- The writer of a pipe, a Writer of the limiter, or a SizeStatWriter.
  pub data Writer : Type 0 where
    pipe_of : Side → Writer
    limited : Option R.Bucket → Writer → Writer
    counted : Text → Writer → Writer

  -- What a writing does: a counter's Add, a bucket's WaitN, and the bytes in the pipe.
  pub data WriteStep : Type 0 where
    added : Text → ℕ → WriteStep
    waited : Option R.Bucket → ℕ → WriteStep
    delivered : Side → ℕ → WriteStep

  -- WriteMultiBuffer
  unfoldable pub write : Writer → ℕ → List WriteStep
  write (pipe_of side) n = delivered side n ∷ []
  write (limited b w) n = waited b n ∷ write w n
  write (counted name w) n = added name n ∷ write w n

  -- The writers of the inbound and of the outbound link.
  pub record Links : Type 0 where
    pub up : Writer
    pub down : Writer

  abbrev pub limited_by : Admission R → Writer → Writer
  limited_by a w = if a.speed_limited then limited a.bucket w else w

  -- A counter is used where the policy wants it and the manager has or makes it.
  abbrev pub counted_by : (Text → Bool) → Bool → Text → Writer → Writer
  counted_by has_counter wanted name w = if wanted && has_counter name then counted name w else w

  -- Both directions of a connection of a user.
  abbrev pub links_of : (Text → Bool) → Policy → Text → Admission R → Links
  links_of has_counter p email a = record {
    up =
        counted_by has_counter p.user_uplink (counter_name email uplink)
          (limited_by a (pipe_of uplink));
    down =
        counted_by has_counter p.user_downlink (counter_name email downlink)
          (limited_by a (pipe_of downlink));
  }

  -- A refused connection has no links: both are closed and interrupted.
  abbrev pub admitted : (Text → Bool) → Policy → Text → Admission R → Option Links
  admitted has_counter p email a = if a.reject then none else some (links_of has_counter p email a)

  -- getLink
  unfoldable pub get_link :
      (policy : ℕ → Policy)
      → (has_counter : Text → Bool) → (cache : Text → CacheReply) → Option Inbound
      → Map Text (InboundInfo R)
      → Map Text (InboundInfo R) × Option Links
  get_link policy has_counter cache none l =
      (l, some (record { up = pipe_of uplink; down = pipe_of downlink }))
  get_link policy has_counter cache (some i) l = elim i.user [
    | none ↦ (l, some (record { up = pipe_of uplink; down = pipe_of downlink }))
    | some u ↦
        let (l', a) = get_user_bucket R i.tag u.email i.source cache l in
        if u.email == []
        then (l, some (record { up = pipe_of uplink; down = pipe_of downlink }))
        else (l', admitted has_counter (policy u.level) u.email a)
  ]

module _ {R : RateLib} where
  -- The steps in front of the pipe, by the policy and the admission.
  abbrev pub count_steps : (Text → Bool) → Bool → Text → ℕ → List (WriteStep R)
  count_steps has_counter wanted name n =
      if wanted && has_counter name then added name n ∷ [] else []

  abbrev pub wait_steps : Admission R → ℕ → List (WriteStep R)
  wait_steps a n = if a.speed_limited then waited a.bucket n ∷ [] else []

  write-counted_by :
      (has_counter : Text → Bool) (wanted : Bool) (name : Text) (a : Admission R) (side : Side)
      (n : ℕ)
      → write R (counted_by R has_counter wanted name (limited_by R a (pipe_of side))) n
        ≡ count_steps has_counter wanted name n ++ (wait_steps a n ++ (delivered side n ∷ []))
  unfolding write
  write-counted_by has_counter wanted name a side n =
      elim (Bool-cases (wanted && has_counter name)) [
        | inl e ↦ elim (Bool-cases a.speed_limited) [
          | inl f ↦ rw (e, f) refl
          | inr f ↦ rw (e, f) refl
        ]
        | inr e ↦ elim (Bool-cases a.speed_limited) [
          | inl f ↦ rw (e, f) refl
          | inr f ↦ rw (e, f) refl
        ]
      ]

  module _ (policy : ℕ → Policy) (has_counter : Text → Bool) (cache : Text → CacheReply)
      (i : Inbound) (u : User) (l : Map Text (InboundInfo R)) (named : u.email ≢ [])
      (holds : i.user ≡ some u) where
    get_link-named : get_link R policy has_counter cache (some i) l ≡ (
      (get_user_bucket R i.tag u.email i.source cache l).0,
      admitted R has_counter
          (policy u.level)
          u.email
          (get_user_bucket R i.tag u.email i.source cache l).1,
    )
    unfolding get_link
    get_link-named = elim (Bool-cases (u.email == [])) [
      | inl e ↦ absurd (named ((==_iff u.email []).0 e))
      | inr e ↦ rw (get_link, holds, e) refl
    ]

    -- Where no device limit is shared between nodes, a connection of a named user to a known inbound
    -- gets no links exactly when the user has a device limit that is reached and the address is new.
    pub get_link-refused :
        (info : InboundInfo R)
        → load i.tag l ≡ some info
        → info.global ≡ none
        → ((get_link R policy has_counter cache (some i) l).1 ≡ none) ↔ IsFull info u.email i.source
    get_link-refused info present local =
        let a = (get_user_bucket R i.tag u.email i.source cache l).1 in
        let (rejects, unchanged) =
          get_user_bucket-reject i.tag u.email i.source cache l info present local in
        elim (Bool-cases a.reject) [
          | inl e ↦ (λ h. rejects.0 e, λ f. rw (get_link-named, e) refl)
          | inr e ↦ (
            λ h. ground (arith, rw (get_link-named, e) at h),
            λ f. ground (arith, e, rejects.1 f),
          )
        ]

    -- Where a named user's connection gets links, every writing to one of them first adds its length
    -- to the user's counter of that direction, if the policy wants it and there is one, then waits
    -- for the bucket that the limiter gave, if it gave one, the same for both directions, and then
    -- is delivered.
    pub write-get_link :
        (links : Links R) (n : ℕ)
        → (get_link R policy has_counter cache (some i) l).1 ≡ some links
        → let a = (get_user_bucket R i.tag u.email i.source cache l).1 in
          let p = policy u.level in
          (write R links.up n
            ≡ count_steps has_counter p.user_uplink (counter_name u.email uplink) n
              ++ (wait_steps a n ++ (delivered uplink n ∷ [])))
          × (write R links.down n
              ≡ count_steps has_counter p.user_downlink (counter_name u.email downlink) n
                ++ (wait_steps a n ++ (delivered downlink n ∷ [])))
    write-get_link links n e =
        let a = (get_user_bucket R i.tag u.email i.source cache l).1 in
        let p = policy u.level in
        let given : admitted R has_counter p u.email a ≡ some links =
          sym (ap (λ x. x.1) get_link-named) ∙ e in
        elim (Bool-cases a.reject) [
          | inl r ↦ ground (arith, rw r at given)
          | inr r ↦
              let same : links_of R has_counter p u.email a ≡ links =
                ground (arith, rw r at given) in
              rw (← same) (
                write-counted_by has_counter p.user_uplink (counter_name u.email uplink) a uplink n,
                write-counted_by has_counter p.user_downlink (counter_name u.email downlink) a
                    downlink n,
              )
        ]
