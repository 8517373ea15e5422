-- ===== src/Dispatcher/Routes.antt =====
-- routedDispatch of default.go: the hosts, the rules and the choice of an outbound.
use center_agent.Prelude.{
  Bool, false, ◌&&◌, not, Option, none, some, ◌++◌, ◌==◌, nat_eq, list_eq, if◌then◌else◌, [],
}
use center_agent.Prelude.Text.{Text, codes}
use center_agent.Rule.{Manager, detect}
use center_agent.Rule.Libraries.{RuleLib}
use center_agent.Dispatcher.Types.{Address, Destination, is_ip, same_destination}
use center_agent.Dispatcher.Links.{Inbound}

-- session.Outbound; no route target is its zero value, which no valid destination is.
pub record Outbound : Type 0 where
  pub original_target : Destination
  pub target : Destination
  pub route_target : Option Destination

-- What the dispatcher asks of Xray, for one connection: the hosts of the DNS client, if it has them,
-- the text of a destination, the outbound handlers, the router, if there is one, and its tag for the
-- outbound and the sniffed protocol, the tag that the platform forces, or an empty one, and whether
-- an access message is kept.
pub record Features (H : Type 0) : Type 0 where
  pub lookup_hosts : Option (Destination → Option Address)
  pub show : Destination → Text
  pub get_handler : Text → Option H
  pub default_handler : Option H
  pub tag_of : H → Text
  pub pick_route : Option (Outbound → Text → Option Text)
  pub forced_tag : Text
  pub has_message : Bool

-- Which way a handler was chosen: isPickRoute.
pub data Choice : Type 0 where
  by_default by_force by_route : Choice

abbrev pub arrow : Choice → Text
arrow by_default = codes " >> "
arrow by_force = codes " ==> "
arrow by_route = codes " -> "

-- How a dispatching ends: with a handler, the outbound that it is given and the detour that is logged;
-- with the link closed and interrupted; or with a panic.
pub data Ending (H : Type 0) : Type 0 where
  dispatched : H → Outbound → Option Text → Ending H
  closed crashed : Ending H

abbrev pub is_routed_to : Outbound → Destination → Bool
is_routed_to ob d = elim ob.route_target [ none ↦ false | some e ↦ same_destination e d ]

-- `*proxied` in place of the address, in the outbound, too.
abbrev pub proxy : Outbound → Destination → Address → Outbound × Destination
proxy ob d a =
    let d' = record d { address = a } in
    if is_routed_to ob d
    then (record ob { route_target = some d' }, d')
    else (record ob { target = d' }, d')

module _ {H : Type 0} (F : Features H) where
  unfoldable pub resolve : Outbound → Destination → Outbound × Destination
  resolve ob d = elim F.lookup_hosts [
    | none ↦ (ob, d)
    | some lookup ↦
        if is_ip d.address
        then (ob, d)
        else elim (lookup ob.target) [ none ↦ (ob, d) | some a ↦ proxy ob d a ]
  ]

  -- The handler that the router names, if it does.
  abbrev pub routed_handler : Outbound → Text → Option H
  routed_handler ob protocol = elim F.pick_route [
    | none ↦ none
    | some pick ↦ elim (pick ob protocol) [ none ↦ none | some tag ↦ F.get_handler tag ]
  ]

  -- The inbound's own outbound, and then the default one.
  abbrev pub fallback : Text → Option H
  fallback in_tag = elim (F.get_handler in_tag) [ none ↦ F.default_handler | some h ↦ some h ]

  unfoldable pub choose_handler : (in_tag : Text) → Outbound → Text → Option (Choice × H)
  choose_handler in_tag ob protocol =
      let unrouted : Option (Choice × H) = elim (fallback in_tag) [
        | none ↦ none
        | some h ↦ some (by_default, h)
      ] in
      if not (F.forced_tag == [])
      then elim (F.get_handler F.forced_tag) [ none ↦ none | some h ↦ some (by_force, h) ]
      else elim (routed_handler ob protocol) [ none ↦ unrouted | some h ↦ some (by_route, h) ]

  abbrev pub detour : (in_tag : Text) → Choice → H → Option Text
  detour in_tag k h =
      if F.has_message && not (F.tag_of h == [])
      then some (if in_tag == [] then F.tag_of h else in_tag ++ (arrow k ++ F.tag_of h))
      else none

  unfoldable pub hand_over : (in_tag : Text) → Outbound → Text → Ending H
  unfolding choose_handler
  hand_over in_tag ob protocol = elim (choose_handler in_tag ob protocol) [
    | none ↦ closed
    | some (k, h) ↦ dispatched h ob (detour in_tag k h)
  ]

  module _ (L : RuleLib) where
    -- The rules, for a connection with a user.
    unfoldable pub ask_rules : Inbound → Destination → Manager L → Manager L × Bool
    ask_rules i d m = elim i.user [
      | none ↦ (m, false)
      | some u ↦ detect L i.tag (F.show d) u.email m
    ]

    -- routedDispatch. The inbound is used without a check.
    unfoldable pub routed_dispatch :
        Option Inbound → Outbound → Destination → Text → Manager L → Manager L × Ending H
    unfolding resolve ask_rules hand_over
    routed_dispatch none ob d protocol m = (m, crashed)
    routed_dispatch (some i) ob d protocol m =
        let (ob', d') = resolve ob d in
        let (m', hit) = ask_rules i d' m in
        (m', if hit then closed else hand_over i.tag ob' protocol)
