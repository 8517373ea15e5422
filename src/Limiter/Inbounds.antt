-- ===== src/Limiter/Inbounds.antt =====
-- AddInboundLimiter and DeleteInboundLimiter, by what is found under each tag afterwards.
use center_agent.Prelude.{
  ℕ, ◌≡◌, refl, Option, none, some, List, [], ◌==◌, nat_eq, list_eq, if◌then◌else◌,
}
use center_agent.Prelude.Maps.{Map, load, load-store, load-delete}
use center_agent.Prelude.Text.{Text}
use center_agent.Api.{UserInfo}
use center_agent.Limiter.{
  InboundInfo, GlobalDeviceLimitConfig, add_inbound_limiter, delete_inbound_limiter,
}
use center_agent.Limiter.Libraries.{RateLib}

module _ {R : RateLib} where
  pub load-add_inbound_limiter :
      (tag : Text) (n : ℕ) (us : List UserInfo) (g : Option GlobalDeviceLimitConfig)
      (l : Map Text (InboundInfo R))
      → (info : InboundInfo R) × ((e : Text)
          → load e (add_inbound_limiter R tag n us g l)
            ≡ (if e == tag then some info else load e l))
        × (info.online ≡ [])
        × (info.node_speed_limit ≡ n)
  unfolding add_inbound_limiter
  load-add_inbound_limiter tag n us g l = (_, λ e. load-store tag e _ l, refl, refl)

  pub load-delete_inbound_limiter :
      (tag e : Text) (l : Map Text (InboundInfo R))
      → load e (delete_inbound_limiter R tag l) ≡ (if e == tag then none else load e l)
  unfolding delete_inbound_limiter
  load-delete_inbound_limiter tag e l = load-delete tag e l
