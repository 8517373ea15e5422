-- ===== src/Dispatcher/Dispatches.antt =====
-- Dispatch and DispatchLink of default.go.
use center_agent.Prelude.{
  ℕ, ◌≡◌, inl, inr, refl, Bool, true, false, ◌&&◌, not, Option, none, some, ◌==◌, nat_eq, list_eq,
  if◌then◌else◌, Bool-cases, Option-cases,
}
use center_agent.Prelude.Maps.{Map}
use center_agent.Prelude.Text.{Text, codes}
use center_agent.Limiter.{InboundInfo}
use center_agent.Limiter.Libraries.{RateLib, CacheReply}
use center_agent.Rule.{Manager}
use center_agent.Rule.Libraries.{RuleLib}
use center_agent.Dispatcher.Types.{
  Address, Destination, is_valid, SniffResult, SniffingRequest, FakeDns, domain_of, protocol_of,
  should_override, is_ip,
}
use center_agent.Dispatcher.Reader.{PipeLib, CachedReader}
use center_agent.Dispatcher.Sniffer.{Sniffed, found, failed, SniffLib, run_sniffer}
use center_agent.Dispatcher.Links.{Inbound, Policy, get_link}
use center_agent.Dispatcher.Routes.{
  Outbound, Features, Ending, Choice, dispatched, closed, crashed, proxy, resolve, ask_rules,
  hand_over, choose_handler, is_routed_to, routed_dispatch,
}
pub mod Endings

-- What the sniffing of a connection needs: the sniffers, the fake DNS, net.ParseAddress, and the
-- attempts at which the context is done.
pub record Sniffing : Type 0 where
  pub sniffers : SniffLib
  pub fake_dns : Option FakeDns
  pub parse_address : Text → Address
  pub is_done : ℕ → Bool

-- The targets that a destination starts with.
abbrev pub begin : Outbound → Destination → Outbound
begin ob d = record ob { original_target = d; target = d }

-- The sniffed domain becomes the destination, and the target, or only that of the routing.
unfoldable pub redirect :
    Sniffing → SniffingRequest → SniffResult → Outbound → Destination → Outbound × Destination
redirect S q r ob d =
    let d' = record d { address = S.parse_address (domain_of r) } in
    if should_override S.fake_dns r q d
    then (if q.route_only && not (protocol_of r == codes "fakedns")
        then (record ob { route_target = some d' }, d')
        else (record ob { target = d' }, d'))
    else (ob, d)

module _ {H : Type 0} (F : Features H) (L : RuleLib) where
  -- What follows the sniffing; the protocol is noted for the router.
  unfoldable pub follow :
      Sniffing
      → SniffingRequest
      → Option Inbound
      → Sniffed
      → Outbound
      → Destination
      → Text
      → Manager L
      → Manager L × Ending H
  unfolding redirect routed_dispatch
  follow S q i (failed e) ob d protocol m = routed_dispatch F L i ob d protocol m
  follow S q i (found r) ob d protocol m =
      let (ob', d') = redirect S q r ob d in routed_dispatch F L i ob' d' (protocol_of r) m

  module _ (P : PipeLib) where
    -- Both goroutines: the reader is left as the sniffer leaves it.
    unfoldable pub serve :
        Sniffing
        → SniffingRequest
        → Option Inbound
        → Outbound
        → Destination
        → (protocol : Text) → CachedReader P
        → Manager L
        → CachedReader P × (Manager L × Ending H)
    unfolding run_sniffer follow
    serve S q i ob d protocol r m =
        let (r', s) =
          run_sniffer P S.sniffers S.fake_dns ob.target q.metadata_only d.network S.is_done r in
        if q.enabled
        then (r', follow S q i s ob d protocol m)
        else (r, routed_dispatch F L i ob d protocol m)

    -- DispatchLink; `none` is its error.
    unfoldable pub dispatch_link :
        Sniffing
        → SniffingRequest
        → Option Inbound
        → Outbound
        → Destination
        → (protocol : Text) → CachedReader P
        → Manager L
        → Option (CachedReader P × (Manager L × Ending H))
    unfolding serve
    dispatch_link S q i ob d protocol r m =
        if is_valid d then some (serve S q i (begin ob d) d protocol r m) else none

    -- Dispatch: it panics on an invalid destination, has the limiter's answer, and serves what is
    -- admitted; without links, nothing is served and the link is closed.
    unfoldable pub dispatch :
        (R : RateLib)
        → (policy : ℕ → Policy) → (has_counter : Text → Bool) → (cache : Text → CacheReply)
        → Sniffing
        → SniffingRequest
        → Option Inbound
        → Outbound
        → Destination
        → (protocol : Text) → CachedReader P
        → Map Text (InboundInfo R)
        → Manager L
        → Map Text (InboundInfo R) × (CachedReader P × (Manager L × Ending H))
    unfolding get_link serve
    dispatch R policy has_counter cache S q i ob d protocol r l m =
        let (l', links) = get_link R policy has_counter cache i l in
        let served : CachedReader P × (Manager L × Ending H) = elim links [
          | none ↦ (r, (m, closed))
          | some w ↦ serve S q i (begin ob d) d protocol r m
        ] in
        if is_valid d then (l', served) else (l, (r, (m, crashed)))
