-- ===== src/Dispatcher/Dispatches/Endings.antt =====
-- How a call of Dispatch ends, and why.
use center_agent.Prelude.{
  ℕ, ◌≡◌, ◌≢◌, ◌⊎◌, ==_iff, inl, inr, refl, Bool, true, false, ◌&&◌, not, Option, none, some, ◌==◌,
  nat_eq, list_eq, Bool-cases, Option-cases, arith,
}
use center_agent.Prelude.Maps.{Map}
use center_agent.Prelude.Text.{Text, codes}
use center_agent.Limiter.{InboundInfo}
use center_agent.Limiter.Libraries.{RateLib, CacheReply}
use center_agent.Rule.{Manager}
use center_agent.Rule.Libraries.{RuleLib}
use center_agent.Dispatcher.Types.{
  Address, Destination, is_valid, SniffResult, SniffingRequest, protocol_of, domain_of,
  should_override, is_ip,
}
use center_agent.Dispatcher.Reader.{PipeLib, CachedReader}
use center_agent.Dispatcher.Sniffer.{SniffError, Sniffed, found, failed, run_sniffer}
use center_agent.Dispatcher.Links.{Inbound, Policy, get_link}
use center_agent.Dispatcher.Routes.{
  Outbound, Features, Ending, Choice, dispatched, closed, crashed, resolve, ask_rules, hand_over,
  choose_handler, is_routed_to, routed_dispatch, detour,
}
use center_agent.Dispatcher.Dispatches.{Sniffing, begin, redirect, follow, serve, dispatch}

-- The outbound has the destination as its target, or as the one of its route.
pub data Aims (ob : Outbound) (d : Destination) : Type 0 where
  at_target : ob.target ≡ d → Aims ob d
  at_route : ob.route_target ≡ some d → Aims ob d

-- Where a connection is headed, once it has been sniffed or not: its outbound, destination and
-- protocol. There is one way for each connection.
pub data Sought (S : Sniffing) (q : SniffingRequest) (s : Sniffed) (ob : Outbound) (d : Destination)
    (protocol : Text) : Outbound → Destination → Text → Type 0 where
  unsniffed : q.enabled ≡ false → Sought S q s ob d protocol ob d protocol
  unclear :
      (e : SniffError) → q.enabled ≡ true → s ≡ failed e → Sought S q s ob d protocol ob d protocol
  seen :
      (r : SniffResult)
      → q.enabled ≡ true
      → s ≡ found r
      → should_override S.fake_dns r q d ≡ false
      → Sought S q s ob d protocol ob d (protocol_of r)
  rerouted :
      (r : SniffResult)
      → q.enabled ≡ true
      → s ≡ found r
      → should_override S.fake_dns r q d ≡ true
      → q.route_only ≡ true
      → protocol_of r ≢ codes "fakedns"
      → Sought S q s ob d protocol
          (record ob { route_target = some (record d { address = S.parse_address (domain_of r) }) })
          (record d { address = S.parse_address (domain_of r) })
          (protocol_of r)
  redirected :
      (r : SniffResult)
      → q.enabled ≡ true
      → s ≡ found r
      → should_override S.fake_dns r q d ≡ true
      → (q.route_only ≡ false) ⊎ (protocol_of r ≡ codes "fakedns")
      → Sought S q s ob d protocol
          (record ob { target = record d { address = S.parse_address (domain_of r) } })
          (record d { address = S.parse_address (domain_of r) })
          (protocol_of r)

-- What the hosts make of an outbound and its destination. There is one way, too.
pub data Resolved (hosts : Option (Destination → Option Address)) (ob : Outbound) (d : Destination)
    : Outbound → Destination → Type 0 where
  no_hosts : hosts ≡ none → Resolved hosts ob d ob d
  no_name : is_ip d.address ≡ true → Resolved hosts ob d ob d
  no_entry :
      (lookup : Destination → Option Address)
      → hosts ≡ some lookup
      → lookup ob.target ≡ none
      → Resolved hosts ob d ob d
  in_route :
      (lookup : Destination → Option Address) (a : Address)
      → hosts ≡ some lookup
      → is_ip d.address ≡ false
      → lookup ob.target ≡ some a
      → is_routed_to ob d ≡ true
      → Resolved hosts ob d
          (record ob { route_target = some (record d { address = a }) })
          (record d { address = a })
  in_target :
      (lookup : Destination → Option Address) (a : Address)
      → hosts ≡ some lookup
      → is_ip d.address ≡ false
      → lookup ob.target ≡ some a
      → is_routed_to ob d ≡ false
      → Resolved hosts ob d
          (record ob { target = record d { address = a } })
          (record d { address = a })

resolve-Resolved :
    {H : Type 0} (F : Features H) (ob : Outbound) (d : Destination)
    → Resolved F.lookup_hosts ob d (resolve F ob d).0 (resolve F ob d).1
unfolding resolve
resolve-Resolved F ob d = elim (Option-cases F.lookup_hosts) [
  | inl e ↦ rw (resolve, e) (no_hosts refl)
  | inr (lookup, e) ↦ elim (Bool-cases (is_ip d.address)) [
    | inl p ↦ rw (resolve, e, p) (no_name p)
    | inr p ↦ elim (Option-cases (lookup ob.target)) [
      | inl q ↦ rw (resolve, e, p, q) (no_entry lookup refl q)
      | inr (a, q) ↦ elim (Bool-cases (is_routed_to ob d)) [
        | inl t ↦ rw (resolve, e, p, q, t) (in_route lookup a refl p q t)
        | inr t ↦ rw (resolve, e, p, q, t) (in_target lookup a refl p q t)
      ]
    ]
  ]
]

Resolved-Aims :
    {hosts : Option (Destination → Option Address)} {ob ob' : Outbound} {d d' : Destination}
    → Resolved hosts ob d ob' d'
    → Aims ob d
    → Aims ob' d'
Resolved-Aims (no_hosts e) aims = aims
Resolved-Aims (no_name e) aims = aims
Resolved-Aims (no_entry lookup e f) aims = aims
Resolved-Aims (in_route lookup a e f g h) aims = at_route refl
Resolved-Aims (in_target lookup a e f g h) aims = at_target refl

Sought-Aims :
    {S : Sniffing} {q : SniffingRequest} {s : Sniffed} {ob ob' : Outbound} {d d' : Destination}
    {p p' : Text}
    → Sought S q s ob d p ob' d' p'
    → Aims ob d
    → Aims ob' d'
Sought-Aims (unsniffed e) aims = aims
Sought-Aims (unclear x e f) aims = aims
Sought-Aims (seen r e f g) aims = aims
Sought-Aims (rerouted r e f g h k) aims = at_route refl
Sought-Aims (redirected r e f g h) aims = at_target refl

abbrev pub is_given : {A : Type 0} → Option A → Bool
is_given none = false
is_given (some a) = true

module _ {H : Type 0} (F : Features H) (L : RuleLib) (i : Inbound) where
  -- How the dispatching of a sought connection ends: the rules let its resolved destination pass, and
  -- there is an outbound for it, or not; or the rules reject that destination.
  pub data Routed (m : Manager L) (ob : Outbound) (d : Destination) (protocol : Text)
      : Ending H → Type 0 where
    passed :
        (ob' : Outbound) (d' : Destination) (k : Choice) (h : H)
        → Resolved F.lookup_hosts ob d ob' d'
        → Aims ob' d'
        → (ask_rules F L i d' m).1 ≡ false
        → choose_handler F i.tag ob' protocol ≡ some (k, h)
        → Routed m ob d protocol (dispatched h ob' (detour F i.tag k h))
    forbidden :
        (ob' : Outbound) (d' : Destination)
        → Resolved F.lookup_hosts ob d ob' d'
        → (ask_rules F L i d' m).1 ≡ true
        → Routed m ob d protocol closed
    unroutable :
        (ob' : Outbound) (d' : Destination)
        → Resolved F.lookup_hosts ob d ob' d'
        → (ask_rules F L i d' m).1 ≡ false
        → choose_handler F i.tag ob' protocol ≡ none
        → Routed m ob d protocol closed

  -- How a call of Dispatch ends, where `s` is what the sniffer finds.
  pub data Explained (valid : Bool) (has_links : Bool) (S : Sniffing) (q : SniffingRequest)
      (s : Sniffed) (m : Manager L) (ob : Outbound) (d : Destination) (protocol : Text)
      : Ending H → Type 0 where
    not_valid : valid ≡ false → Explained valid has_links S q s m ob d protocol crashed
    refused :
        valid ≡ true → has_links ≡ false → Explained valid has_links S q s m ob d protocol closed
    served :
        {e : Ending H} (ob' : Outbound) (d' : Destination) (protocol' : Text)
        → valid ≡ true
        → has_links ≡ true
        → Sought S q s ob d protocol ob' d' protocol'
        → Routed m ob' d' protocol' e
        → Explained valid has_links S q s m ob d protocol e

  routed_dispatch-Routed :
      (m : Manager L) (ob : Outbound) (d : Destination) (protocol : Text)
      → Aims ob d
      → Routed m ob d protocol (routed_dispatch F L (some i) ob d protocol m).1
  unfolding routed_dispatch hand_over
  routed_dispatch-Routed m ob d protocol aims =
      let (ob', d') = resolve F ob d in
      let way = resolve-Resolved F ob d in
      elim (Bool-cases (ask_rules F L i d' m).1) [
        | inl hit ↦ rw (routed_dispatch, hit) (forbidden ob' d' way hit)
        | inr ok ↦ elim (Option-cases (choose_handler F i.tag ob' protocol)) [
          | inl e ↦ rw (routed_dispatch, ok, hand_over, e) (unroutable ob' d' way ok e)
          | inr (kh, e) ↦
              rw (routed_dispatch, ok, hand_over, e)
                (passed ob' d' kh.0 kh.1 way (Resolved-Aims way aims) ok e)
        ]
      ]

  -- What follows the sniffing goes where the connection is headed.
  follow-Sought :
      (S : Sniffing) (q : SniffingRequest) (s : Sniffed) (m : Manager L) (ob : Outbound)
      (d : Destination) (protocol : Text)
      → q.enabled ≡ true
      → Aims ob d
      → (ob' : Outbound) × (d' : Destination) × (p : Text) × Sought S q s ob d protocol ob' d' p
        × Routed m ob' d' p (follow F L S q (some i) s ob d protocol m).1
  unfolding follow redirect
  follow-Sought S q (failed e) m ob d protocol on aims =
      (ob, d, protocol, unclear e on refl, routed_dispatch-Routed m ob d protocol aims)
  follow-Sought S q (found r) m ob d protocol on aims =
      let d' = record d { address = S.parse_address (domain_of r) } in
      let p = protocol_of r in
      elim (Bool-cases (should_override S.fake_dns r q d)) [
        | inr e ↦
            rw (follow, redirect, e)
              (ob, d, p, seen r on refl e, routed_dispatch-Routed m ob d p aims)
        | inl e ↦ elim (Bool-cases (q.route_only && not (p == codes "fakedns"))) [
          | inl f ↦
              rw (follow, redirect, e, f)
                (
                  record ob { route_target = some d' },
                  d',
                  p,
                  rerouted r on refl e (ground (arith, f))
                      (ground (arith, f, ==_iff p (codes "fakedns"))),
                  routed_dispatch-Routed m (record ob { route_target = some d' }) d' p
                      (at_route refl),
                )
          | inr f ↦
              rw (follow, redirect, e, f)
                (
                  record ob { target = d' },
                  d',
                  p,
                  redirected r on refl e (ground (arith, f, ==_iff p (codes "fakedns"))),
                  routed_dispatch-Routed m (record ob { target = d' }) d' p (at_target refl),
                )
        ]
      ]

  -- An ending that is another one is explained, too.
  Explained-along :
      {valid has_links : Bool} {S : Sniffing} {q : SniffingRequest} {s : Sniffed} {m : Manager L}
      {ob : Outbound} {d : Destination} {protocol : Text} {e e' : Ending H}
      → e ≡ e'
      → Explained valid has_links S q s m ob d protocol e
      → Explained valid has_links S q s m ob d protocol e'
  Explained-along p x = rw (← p) x

  -- Every call of Dispatch for a connection with an inbound ends in one of these ways. An invalid
  -- destination is a panic. A connection that the limiter gives no links is closed. Any other is
  -- headed where the request's sniffing says, and there as the hosts say: it is closed if the
  -- inbound's rules reject that destination for its user, or if there is no outbound for it; else the
  -- chosen outbound is given it, with that destination as its target or as that of its route.
  pub dispatch-Explained :
      (P : PipeLib) (R : RateLib) (policy : ℕ → Policy) (has_counter : Text → Bool)
      (cache : Text → CacheReply) (S : Sniffing) (q : SniffingRequest) (ob : Outbound)
      (d : Destination) (protocol : Text) (r : CachedReader P) (l : Map Text (InboundInfo R))
      (m : Manager L)
      → Explained
          (is_valid d)
          (is_given (get_link R policy has_counter cache (some i) l).1)
          S
          q
          (run_sniffer P S.sniffers S.fake_dns d q.metadata_only d.network S.is_done r).1
          m
          (begin ob d)
          d
          protocol
          (dispatch F L P R policy has_counter cache S q (some i) ob d protocol r l m).1.1.1
  unfolding dispatch serve should_override
  dispatch-Explained P R policy has_counter cache S q ob d protocol r l m =
      let links = (get_link R policy has_counter cache (some i) l).1 in
      let s = (run_sniffer P S.sniffers S.fake_dns d q.metadata_only d.network S.is_done r).1 in
      elim (Bool-cases (is_valid d)) [
        | inr e ↦ rw (dispatch, e) (not_valid refl)
        | inl e ↦ elim (Option-cases links) [
          | inl f ↦ rw (dispatch, e, f) (refused refl refl)
          | inr (w, f) ↦
              let given : is_given links ≡ true = rw f refl in
              let call =
                dispatch F L P R policy has_counter cache S q (some i) ob d protocol r l m in
              elim (Bool-cases q.enabled) [
                | inl g ↦
                    let same : (follow F L S q (some i) s (begin ob d) d protocol m).1
                        ≡ call.1.1.1 =
                      rw (dispatch, serve, e, f, g) refl in
                    let (ob', d', p, sought, routed) =
                      follow-Sought S q s m (begin ob d) d protocol g (at_target refl) in
                    Explained-along same (served ob' d' p e given sought routed)
                | inr g ↦
                    let same : (routed_dispatch F L (some i) (begin ob d) d protocol m).1
                        ≡ call.1.1.1 =
                      rw (dispatch, serve, e, f, g) refl in
                    Explained-along same (
                      served (begin ob d) d protocol e given (unsniffed g)
                        (routed_dispatch-Routed m (begin ob d) d protocol (at_target refl)))
              ]
        ]
      ]
