-- ===== src/Controller/Monitor/Rounds.antt =====
-- What a round of the node monitor does to the controller, to Xray and to the limiter.
use center_agent.Prelude.{
  ◌==◌, Bool-cases, nat_eq, list_eq, ◌≡◌, ◌≢◌, refl, ap, ◌∙◌, ◌⊎◌, inl, inr, Bool, true, false,
  none, some, List, [], arith, ==_iff, nat_eq, nat_beq, list_eq, Bool-cases,
}
use center_agent.Prelude.Maps.{load}
use center_agent.Prelude.Text.{Text}
use center_agent.Api.{UserInfo, user_eq}
use center_agent.Limiter.{InboundInfo, add_inbound_limiter, delete_inbound_limiter}
use center_agent.Limiter.Inbounds.{load-add_inbound_limiter, load-delete_inbound_limiter}
use center_agent.Limiter.Libraries.{RateLib}
use center_agent.Rule.{DetectRule}
use center_agent.Rule.Libraries.{RuleLib}
use center_agent.Controller.Compare.{compare_user_list_self}
use center_agent.Controller.Types.{
  NodeInfo, node_eq, Config, Ran, ok, failed, state_of, CoreLib, Controller,
}
use center_agent.Controller.Node.{build_node_tag, add_new_tag, add_new_user}
use center_agent.Controller.Monitor.{
  Reply, got, unmodified, Replies, remove_old, swap_node, check_rules, refresh_users, drop_users,
  take_users, diff_users, finish, apply_round, with_node, node_info_monitor,
}

module _ {R : RateLib} {L : RuleLib} {C : CoreLib} (cfg : Config) (methods_2022 : List Text)
    (deep_equal : List (DetectRule L) → List (DetectRule L) → Bool) where
  abbrev pub round : Bool → Replies L → Controller R L C → Ran (Controller R L C)
  round = node_info_monitor R L C cfg methods_2022 deep_equal

  -- The parts of the controller that make up its node: all but the rules.
  abbrev pub SameNode : Controller R L C → Controller R L C → Type 0
  SameNode s t =
      (t.tag ≡ s.tag)
      × (t.node_info ≡ s.node_info)
      × (t.user_list ≡ s.user_list)
      × (t.limiter ≡ s.limiter)
      × (t.core ≡ s.core)

  abbrev pub IsSameNode : Replies L → Controller R L C → Type 0
  IsSameNode r s = (r.node ≡ got s.node_info) ⊎ (r.node ≡ unmodified)

  check_rules-SameNode :
      (reply : Reply (List (DetectRule L))) (s : Controller R L C)
      → SameNode s (check_rules R L C cfg methods_2022 deep_equal reply s)
  unfolding check_rules
  check_rules-SameNode reply s = ground arith

  apply_round-same :
      (changed users_changed : Bool) (us : List UserInfo) (rules : Reply (List (DetectRule L)))
      (s : Controller R L C)
      → apply_round R L C cfg methods_2022 deep_equal changed users_changed s.node_info us rules s
        ≡ diff_users R L C cfg methods_2022 deep_equal users_changed us
            (check_rules R L C cfg methods_2022 deep_equal rules s)
  unfolding apply_round finish
  apply_round-same changed users_changed us rules s =
      ground (arith, (==_iff s.node_info s.node_info).1 refl)

  unmodified-SameNode :
      (changed : Bool) (rules : Reply (List (DetectRule L))) (s : Controller R L C)
      → SameNode s (
          apply_round R L C cfg methods_2022 deep_equal changed false s.node_info s.user_list rules
            s)
  unfolding diff_users
  unmodified-SameNode changed rules s =
      let (a, b, _, d, f) = check_rules-SameNode rules s in
      rw (apply_round-same changed false s.user_list rules s) (a, b, refl, d, f)

  -- A round on the same node with an unmodified user list touches neither Xray nor the limiter, and
  -- keeps tag, node and users.
  pub round-unmodified :
      (early : Bool) (r : Replies L) (s : Controller R L C)
      → IsSameNode r s
      → r.users ≡ unmodified
      → SameNode s (state_of (round early r s))
  unfolding node_info_monitor with_node
  round-unmodified true r s same users = (refl, refl, refl, refl, refl)
  round-unmodified false r s same users = elim (Bool-cases (nat_beq s.node_info.port 0)) [
    | inl zero_port ↦ ground (arith, zero_port)
    | inr open_port ↦ elim same [
      | inl e ↦ rw (e, users, open_port) (unmodified-SameNode true r.rules s)
      | inr e ↦ rw (e, users, open_port) (unmodified-SameNode false r.rules s)
    ]
  ]

  swap-round :
      (n : NodeInfo) (us : List UserInfo) (r : Replies L) (s : Controller R L C)
      → r.node ≡ got n
      → r.users ≡ got us
      → n ≢ s.node_info
      → n.port ≢ 0
      → state_of (round false r s) ≡ elim (swap_node R L C cfg methods_2022 deep_equal s n) [
        | failed s' ↦ s'
        | ok s' ↦ finish R L C cfg methods_2022 deep_equal true true n us r.rules s'
      ]
  unfolding node_info_monitor apply_round
  swap-round n us r s node users other open_port = ground (arith, ==_iff s.node_info n)

  abbrev moved_to : NodeInfo → Controller R L C → C.Core → Controller R L C
  moved_to n s d = record s {
    node_info = n;
    tag = build_node_tag cfg n;
    core = d;
    limiter = delete_inbound_limiter R s.tag s.limiter;
  }

  swap_node-ok :
      (n : NodeInfo) (s : Controller R L C) (c d : C.Core)
      → remove_old R L C cfg methods_2022 deep_equal s ≡ ok c
      → add_new_tag C n (build_node_tag cfg n) c ≡ ok d
      → swap_node R L C cfg methods_2022 deep_equal s n ≡ ok (moved_to n s d)
  unfolding swap_node
  swap_node-ok n s c d removed added = ground arith

  swap_node-failed :
      (n : NodeInfo) (s : Controller R L C) (c d : C.Core)
      → remove_old R L C cfg methods_2022 deep_equal s ≡ ok c
      → add_new_tag C n (build_node_tag cfg n) c ≡ failed d
      → swap_node R L C cfg methods_2022 deep_equal s n
        ≡ failed (record s { node_info = n; tag = build_node_tag cfg n; core = d })
  unfolding swap_node
  swap_node-failed n s c d removed broken = ground arith

  refresh_users-ok :
      (n : NodeInfo) (us : List UserInfo) (s : Controller R L C) (f : C.Core)
      → add_new_user C methods_2022 cfg n s.node_info s.tag us s.core ≡ ok f
      → refresh_users R L C cfg methods_2022 deep_equal n us s ≡ record s {
        core = f;
        limiter = add_inbound_limiter R s.tag n.speed_limit us cfg.global_device_limit s.limiter;
        user_list = us;
      }
  unfolding refresh_users
  refresh_users-ok n us s f filled = ground arith

  -- Where the panel names another node and Xray carries every step out, the round ends on the new
  -- node: its tag, its users, Xray as the last step left it, and a limiter for the new tag with
  -- nobody online and the node's speed limit. The old tag's limiter is gone if the tag has changed.
  pub round-swap :
      (n : NodeInfo) (us : List UserInfo) (r : Replies L) (s : Controller R L C) (c d f : C.Core)
      → r.node ≡ got n
      → r.users ≡ got us
      → n ≢ s.node_info
      → n.port ≢ 0
      → remove_old R L C cfg methods_2022 deep_equal s ≡ ok c
      → add_new_tag C n (build_node_tag cfg n) c ≡ ok d
      → add_new_user C methods_2022 cfg n n (build_node_tag cfg n) us d ≡ ok f
      → let t = state_of (round false r s) in
        (t.tag ≡ build_node_tag cfg n)
        × (t.node_info ≡ n)
        × (t.user_list ≡ us)
        × (t.core ≡ f)
        × ((info : InboundInfo R) × (load t.tag t.limiter ≡ some info)
            × (info.online ≡ [])
            × (info.node_speed_limit ≡ n.speed_limit))
        × ((s.tag ≡ t.tag) ⊎ (load s.tag t.limiter ≡ none))
  unfolding finish
  round-swap n us r s c d f node users other open_port removed added filled =
      let moved = moved_to n s d in
      let checked = check_rules R L C cfg methods_2022 deep_equal r.rules moved in
      let (a, b, _, l, k) = check_rules-SameNode r.rules moved in
      let (info, added_limiter, online, speed) =
        load-add_inbound_limiter checked.tag n.speed_limit us cfg.global_device_limit
          checked.limiter in
      rw (swap-round n us r s node users other open_port, swap_node-ok n s c d removed added)
        (rw (refresh_users-ok n us checked f (rw (a, b, k) filled)) (
          a,
          b,
          refl,
          refl,
          (
            info,
            added_limiter checked.tag ∙ rw ((==_iff checked.tag checked.tag).1 refl),
            online,
            speed,
          ),
          elim (Bool-cases (s.tag == checked.tag)) [
            | inl same ↦ inl ((==_iff s.tag checked.tag).0 same)
            | inr changed ↦ inr (
                added_limiter s.tag
                ∙ ground (
                  arith,
                  l,
                  changed,
                  ==_iff s.tag s.tag,
                  load-delete_inbound_limiter s.tag s.tag s.limiter,
                ))
          ],
        ))

  -- Where the new node's inbound cannot be added, the controller holds the new node all the same, and
  -- a later round that is told of the same node, with unmodified users, makes no further attempt:
  -- Xray stays as the failed step left it.
  pub round-swap_failed :
      (n : NodeInfo) (us : List UserInfo) (r later : Replies L) (s : Controller R L C)
      (c d : C.Core) (early : Bool)
      → r.node ≡ got n
      → r.users ≡ got us
      → n ≢ s.node_info
      → n.port ≢ 0
      → remove_old R L C cfg methods_2022 deep_equal s ≡ ok c
      → add_new_tag C n (build_node_tag cfg n) c ≡ failed d
      → (later.node ≡ got n) ⊎ (later.node ≡ unmodified)
      → later.users ≡ unmodified
      → let t = state_of (round false r s) in
        (t.node_info ≡ n) × (t.core ≡ d) × ((state_of (round early later t)).core ≡ d)
  unfolding swap_node
  round-swap_failed n us r later s c d early node users other open_port removed broken same still =
      let t = record s { node_info = n; tag = build_node_tag cfg n; core = d } in
      rw (swap-round n us r s node users other open_port, swap_node-failed n s c d removed broken)
        (refl, refl, (round-unmodified early later t same still).4)

  diff_users_again :
      (us : List UserInfo) (s : Controller R L C)
      → s.user_list ≡ us
      → SameNode s (diff_users R L C cfg methods_2022 deep_equal true us s)
  unfolding diff_users drop_users take_users
  diff_users_again us s e = rw (e, compare_user_list_self us) (ground arith)

  diff_users-takes :
      (us : List UserInfo) (s : Controller R L C)
      → (diff_users R L C cfg methods_2022 deep_equal true us s).user_list ≡ us
  unfolding diff_users
  diff_users-takes us s = refl

  same_users-round :
      (us : List UserInfo) (r : Replies L) (s : Controller R L C)
      → IsSameNode r s
      → r.users ≡ got us
      → s.node_info.port ≢ 0
      → state_of (round false r s)
        ≡ diff_users R L C cfg methods_2022 deep_equal true us
            (check_rules R L C cfg methods_2022 deep_equal r.rules s)
  unfolding node_info_monitor with_node
  same_users-round us r s same users open_port = elim same [
    | inl e ↦ ground (arith, e, apply_round-same true true us r.rules s)
    | inr e ↦ ground (arith, e, apply_round-same false true us r.rules s)
  ]

  again-SameNode :
      (us : List UserInfo) (r : Replies L) (s : Controller R L C) (early : Bool)
      → IsSameNode r s
      → r.users ≡ got us
      → s.user_list ≡ us
      → SameNode s (state_of (round early r s))
  unfolding node_info_monitor
  again-SameNode us r s true same users held = (refl, refl, refl, refl, refl)
  again-SameNode us r s false same users held = elim (Bool-cases (nat_beq s.node_info.port 0)) [
    | inl zero_port ↦ ground (arith, zero_port)
    | inr open_port ↦
        let checked = check_rules R L C cfg methods_2022 deep_equal r.rules s in
        let (a, b, u, d, f) = check_rules-SameNode r.rules s in
        let (a', b', u', d', f') = diff_users_again us checked (u ∙ held) in
        rw (same_users-round us r s same users (ground (arith, open_port)))
          (a' ∙ a, b' ∙ b, u' ∙ u, d' ∙ d, f' ∙ f)
  ]

  -- A round on the same node takes over the panel's users, whether or not Xray accepted the changes.
  -- A later round with the same users touches neither Xray nor the limiter: what failed before is
  -- not tried again.
  pub round-same_users :
      (us : List UserInfo) (r later : Replies L) (s : Controller R L C) (early : Bool)
      → IsSameNode r s
      → r.users ≡ got us
      → s.node_info.port ≢ 0
      → IsSameNode later (state_of (round false r s))
      → later.users ≡ got us
      → let t = state_of (round false r s) in
        (t.user_list ≡ us) × SameNode t (state_of (round early later t))
  round-same_users us r later s early same users open_port again users_again =
      let t = state_of (round false r s) in
      let held : t.user_list ≡ us =
        ap (λ (x : Controller R L C). x.user_list) (same_users-round us r s same users open_port)
        ∙ diff_users-takes us (check_rules R L C cfg methods_2022 deep_equal r.rules s) in
      (held, again-SameNode us later t early again users_again held)
