-- ===== src/Controller/Monitor.antt =====
-- controller.go, nodeInfoMonitor: one round of taking over what the panel says.
pub mod Rounds
mod Tests
use center_agent.Prelude.{
  ℕ, Bool, true, false, ◌&&◌, not, Option, none, some, List, [], ◌∷◌, map, ◌==◌, nat_eq, nat_beq,
  ltb, list_eq, if◌then◌else◌, length,
}
use center_agent.Prelude.Maps.{Map}
use center_agent.Prelude.Text.{Text, codes}
use center_agent.Api.{UserInfo, user_eq}
use center_agent.Limiter.{
  InboundInfo, user_key, add_inbound_limiter, update_inbound_limiter, delete_inbound_limiter,
}
use center_agent.Limiter.Libraries.{RateLib}
use center_agent.Rule.{DetectRule, update_rule}
use center_agent.Rule.Libraries.{RuleLib}
use center_agent.Controller.Compare.{compare_user_list}
use center_agent.Controller.Types.{
  NodeInfo, node_eq, Config, Ran, ok, failed, ◌>>=◌, state_of, CoreLib, Controller,
}
use center_agent.Controller.Node.{
  build_node_tag, dokodemo_tag, remove_old_tag, add_new_tag, add_new_user, remove_users,
}

-- What a call of the panel's API gives: a value, its "not modified" error, or another error.
pub data Reply {ℓ} (A : Type ℓ) : Type ℓ where
  got : A → Reply A
  unmodified refused : Reply A

pub record Replies (L : RuleLib) : Type 0 where
  pub node : Reply NodeInfo
  pub users : Reply (List UserInfo)
  pub rules : Reply (List (DetectRule L))

module _ (R : RateLib) (L : RuleLib) (C : CoreLib) (cfg : Config) (methods_2022 : List Text)
    (deep_equal : List (DetectRule L) → List (DetectRule L) → Bool) where
  abbrev pub State : Type 0
  State = Controller R L C

  pub remove_old : State → Ran C.Core
  remove_old s = remove_old_tag C s.tag s.core >>= λ c.
      if s.node_info.node_type == codes "Shadowsocks-Plugin"
      then remove_old_tag C (dokodemo_tag s.tag) c
      else ok c

  -- The change to another node: the old tag goes, the new one comes, and the old limiter goes.
  swap_node : State → NodeInfo → Ran State
  unfolding remove_old
  swap_node s new = elim (remove_old s) [
    | failed c ↦ failed (record s { core = c })
    | ok c ↦
        let moved = record s { node_info = new; tag = build_node_tag cfg new; core = c } in
        elim (add_new_tag C new moved.tag c) [
          | failed c' ↦ failed (record moved { core = c' })
          | ok c' ↦
              ok (record moved { core = c'; limiter = delete_inbound_limiter R s.tag s.limiter })
        ]
  ]

  check_rules : Reply (List (DetectRule L)) → State → State
  check_rules reply s = if cfg.disable_get_rule then s else elim reply [
    | unmodified ↦ s
    | refused ↦ s
    | got rules ↦
        if ltb 0 (length rules)
        then record s { rules = update_rule L deep_equal s.tag rules s.rules }
        else s
  ]

  -- Behind a change of the node: all users are added, to Xray and to a new limiter.
  refresh_users : NodeInfo → List UserInfo → State → State
  refresh_users n us s = elim (add_new_user C methods_2022 cfg n s.node_info s.tag us s.core) [
    | failed c ↦ record s { core = c }
    | ok c ↦ record s {
      core = c;
      limiter = add_inbound_limiter R s.tag n.speed_limit us cfg.global_device_limit s.limiter;
      user_list = us;
    }
  ]

  drop_users : List UserInfo → State → State
  drop_users deleted s =
      if ltb 0 (length deleted)
      then record s {
        core =
            state_of
              (remove_users C (map (λ u. user_key s.tag u.email u.uid) deleted) s.tag s.core);
      }
      else s

  take_users : List UserInfo → State → State
  take_users added s =
      if ltb 0 (length added)
      then record s {
        core =
            state_of (add_new_user C methods_2022 cfg s.node_info s.node_info s.tag added s.core);
        limiter = elim (update_inbound_limiter R s.tag added s.limiter) [
          | none ↦ s.limiter
          | some l ↦ l
        ];
      }
      else s

  -- Without a change of the node only the differences are carried out.
  diff_users : Bool → List UserInfo → State → State
  unfolding drop_users take_users
  diff_users users_changed us s =
      if users_changed
      then (let (deleted, added) = compare_user_list s.user_list us in
          record (take_users added (drop_users deleted s)) { user_list = us })
      else record s { user_list = us }

  finish : Bool → Bool → NodeInfo → List UserInfo → Reply (List (DetectRule L)) → State → State
  unfolding check_rules refresh_users diff_users
  finish node_changed users_changed n us rules s =
      let s' = check_rules rules s in
      if node_changed then refresh_users n us s' else diff_users users_changed us s'

  apply_round : Bool → Bool → NodeInfo → List UserInfo → Reply (List (DetectRule L)) → State → State
  unfolding swap_node finish
  apply_round node_changed users_changed n us rules s =
      if node_changed && not (s.node_info == n)
      then elim (swap_node s n) [ failed s' ↦ s' | ok s' ↦ finish true users_changed n us rules s' ]
      else finish false users_changed n us rules s

  with_node : Replies L → NodeInfo → Bool → State → Ran State
  unfolding apply_round
  with_node r n node_changed s = if nat_beq n.port 0 then failed s else elim r.users [
    | refused ↦ ok s
    | unmodified ↦ ok (apply_round node_changed false n s.user_list r.rules s)
    | got us ↦ ok (apply_round node_changed true n us r.rules s)
  ]

  -- nodeInfoMonitor; `early` is the delay behind the start. Its only error is a port 0.
  unfoldable pub node_info_monitor : Bool → Replies L → State → Ran State
  unfolding with_node
  node_info_monitor early r s = if early then ok s else elim r.node [
    | refused ↦ ok s
    | unmodified ↦ with_node r s.node_info false s
    | got n ↦ with_node r n true s
  ]
