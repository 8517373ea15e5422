-- ===== src/Limiter/Runs.antt =====
-- The life of a limiter between two user updates, as a sequence of events.
use center_agent.Prelude.{
  ℕ, ◌≡◌, sym, ◌∙◌, inl, inr, Option, none, some, List, [], ◌∷◌, arith, ◌==◌, ==_iff, nat_eq,
  list_eq, Bool-cases, Option-cases,
}
use mathlib.Core.Path.{subst}
use mathlib.Core.Option.{some-injective}
use center_agent.Prelude.Maps.{Map, load, store, load-nil, load-store, load-store_self, load-delete}
use center_agent.Prelude.Text.{Text}
use center_agent.Api.{UserInfo}
use center_agent.Limiter.{
  InboundInfo, GlobalDeviceLimitConfig, Devices, add_inbound_limiter, delete_inbound_limiter,
  get_online_device, get_user_bucket, report_inbound,
}
use center_agent.Limiter.Libraries.{RateLib, CacheReply}
use center_agent.Limiter.Devices.{IsWithin, admit-IsWithin}
use center_agent.Limiter.Online.{load-cleared}

pub data Event : Type 0 where
  added : Text → ℕ → List UserInfo → Option GlobalDeviceLimitConfig → Event
  deleted : Text → Event
  connected : (tag email ip : Text) → (Text → CacheReply) → Event
  reported : Text → Event

module _ (R : RateLib) where
  abbrev step : Event → Map Text (InboundInfo R) → Map Text (InboundInfo R)
  step (added tag n us g) l = add_inbound_limiter R tag n us g l
  step (deleted tag) l = delete_inbound_limiter R tag l
  step (connected tag email ip cache) l = (get_user_bucket R tag email ip cache l).0
  step (reported tag) l = elim (get_online_device R tag l) [ none ↦ l | some (_, l') ↦ l' ]

  abbrev pub run : List Event → Map Text (InboundInfo R) → Map Text (InboundInfo R)
  run [] l = l
  run (e ∷ es) l = run es (step e l)

  -- Every inbound keeps within its users' device limits.
  abbrev pub AllWithin : Map Text (InboundInfo R) → Type 0
  AllWithin l =
      (tag : Text) (info : InboundInfo R) → load tag l ≡ some info → IsWithin info.users info.online

  abbrev IsKept : InboundInfo R → Type 0
  IsKept info = IsWithin info.users info.online

  store-AllWithin :
      (tag : Text) (info : InboundInfo R) (l : Map Text (InboundInfo R))
      → IsWithin info.users info.online
      → AllWithin l
      → AllWithin (store tag info l)
  store-AllWithin tag info l w h t i found = elim (Bool-cases (t == tag)) [
    | inl same ↦
        let p : t ≡ tag = (==_iff t tag).0 same in
        subst IsKept (some-injective info i (sym (load-store_self tag info l) ∙ (rw p at found))) w
    | inr other ↦ h t i (ground (arith, load-store tag t info l))
  ]

  step-AllWithin : (e : Event) (l : Map Text (InboundInfo R)) → AllWithin l → AllWithin (step e l)
  unfolding add_inbound_limiter delete_inbound_limiter get_user_bucket get_online_device
      report_inbound
  step-AllWithin (added tag n us g) l h =
      store-AllWithin tag _ l
        (λ email u ips known found set. ground (arith, load-nil {V = Devices} email)) h
  step-AllWithin (deleted tag) l h = λ t i found. h t i (ground (arith, load-delete tag t l))
  step-AllWithin (connected tag email ip cache) l h = elim (Option-cases (load tag l)) [
    | inl absent ↦ rw (absent, step) h
    | inr (info, found) ↦
        rw (found, step)
          (store-AllWithin tag _ l (admit-IsWithin info email ip cache (h tag info found)) h)
  ]
  step-AllWithin (reported tag) l h = elim (Option-cases (load tag l)) [
    | inl absent ↦ rw (absent, step) h
    | inr (info, found) ↦
        rw (found, step)
          (store-AllWithin tag (report_inbound R info) l
            (λ email u ips known online set. ground (arith, load-cleared info.online email)) h)
  ]

  -- From an empty limiter, through any sequence of inbounds that are added and deleted, connections
  -- and reports, no user has more devices online at an inbound than the user's device limit there.
  pub run-AllWithin : (es : List Event) → AllWithin (run es [])
  run-AllWithin es =
      run_from es []
        (λ tag info found. λ _ _ _ _ _ _. ground (arith, load-nil {V = InboundInfo R} tag))
    where
      run_from :
          (es : List Event) (l : Map Text (InboundInfo R)) → AllWithin l → AllWithin (run es l)
      run_from [] l h = h
      run_from (e ∷ es) l h = run_from es (step e l) (step-AllWithin e l h)
