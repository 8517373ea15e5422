-- ===== src/Center/Commands/Steps.antt =====
-- The steps of the queue, and what holds after any number of them.
use center_agent.Prelude.{
  ◌≡◌, refl, inl, inr, Bool, false, ◌&&◌, not, Option, some, List, [], ◌∷◌, arith, ◌==◌, ==_iff,
  nat_eq, list_eq, contains, Bool-cases, Option-cases,
}
use center_agent.Prelude.Ints.{ℤ, int_eq}
use center_agent.Prelude.Maps.{Map, load, has}
use center_agent.Prelude.Text.{Text, codes}
use center_agent.Prelude.Json.{Json}
use center_agent.Center.Hub.{Conn}
use center_agent.Center.Commands.Rows.{Status, Task, Desk, is_active, clashes}
use center_agent.Center.Commands.Queue.{
  Order, enqueue_command, has_concurrent_dangerous, flush_pending,
}
use center_agent.Center.Commands.Reports.{
  Report, is_row, final_status, post_progress, post_result, sync_deploys, conclude, advance,
  has_row,
}
use center_agent.Center.Commands.Deploys.{
  DeployOrder, deploy_task, deploy_key, target_path, with_deploy, apply_config_deploy_flow,
}
use center_agent.Center.Commands.Exclusion.{
  grown-IsSound, clashes-ids, IsActiveId-append, IsSound, IsActiveId, IsTame, ids,
  update_where-IsSound, push_task-IsSound, IsActiveId-absent,
}
use center_agent.Center.Commands.Pushes.{enqueue_command-IsSound, flush_pending-IsSound}

final_status-inactive : (s : Text) (st : Status) → final_status s ≡ some st → is_active st ≡ false
unfolding final_status
final_status-inactive s st h = ground arith

sync_deploys-tasks : (r : Report) (st : Status) (d : Desk) → (sync_deploys r st d).tasks ≡ d.tasks
unfolding sync_deploys
sync_deploys-tasks r st d = ground arith

inactive-IsTame :
    (p : Task → Bool) (f : Task → Task) (ts : List Task)
    → ((t : Task) → (f t).command_id ≡ t.command_id)
    → ((t : Task) → is_active (f t).status ≡ false)
    → IsTame p f ts
inactive-IsTame p f [] k i = tt
inactive-IsTame p f (t ∷ ts) k i =
    (λ e. (k t, λ node kind. ground (arith, i t)), inactive-IsTame p f ts k i)

conclude-id : (r : Report) (st : Status) (t : Task) → (conclude r st t).command_id ≡ t.command_id
unfolding conclude
conclude-id r st t = refl

conclude-status :
    (r : Report) (st : Status) (t : Task)
    → is_active st ≡ false
    → is_active (conclude r st t).status ≡ false
unfolding conclude
conclude-status r st t h = h

post_result-IsSound : (r : Report) (d : Desk) → IsSound d.tasks → IsSound (post_result r d).0.tasks
unfolding post_result
post_result-IsSound r d s = elim (Bool-cases (r.command == [])) [
  | inl e ↦ rw (post_result, e) s
  | inr e ↦ elim (Option-cases (final_status r.status)) [
    | inl f ↦ rw (post_result, e, f) s
    | inr (st, f) ↦
        rw (post_result, e, f, sync_deploys-tasks)
          (update_where-IsSound (is_row r.command r.node) (conclude r st) d.tasks
            (inactive-IsTame (is_row r.command r.node) (conclude r st) d.tasks
              (λ t. conclude-id r st t)
              (λ t. conclude-status r st t (final_status-inactive r.status st f)))
            s)
  ]
]

advance-IsTame :
    (append_step : Option Json → (step message : Text) → Json) (node : ℤ) (id step message : Text)
    (ts : List Task)
    → IsActiveId id ts
    → IsTame (is_row id node) (advance append_step step message) ts
advance-IsTame append_step node id step message [] h = tt
advance-IsTame append_step node id step message (t ∷ ts) (h, hs) = (
  λ e. (refl, λ n kind. ground (arith, h, ==_iff t.command_id id)),
  advance-IsTame append_step node id step message ts hs,
)

post_progress-IsSound :
    (append_step : Option Json → (step message : Text) → Json) (node : ℤ) (id step message : Text)
    (d : Desk)
    → IsActiveId id d.tasks
    → IsSound d.tasks
    → IsSound (post_progress append_step node id step message d).0.tasks
unfolding post_progress
post_progress-IsSound append_step node id step message d h s = elim (Bool-cases (id == [])) [
  | inl e ↦ rw (post_progress, e) s
  | inr e ↦ elim (Bool-cases (has_row id node d.tasks)) [
    | inr f ↦ rw (post_progress, e, f) s
    | inl f ↦
        rw (post_progress, e, f)
          (update_where-IsSound (is_row id node) (advance append_step step message) d.tasks
            (advance-IsTame append_step node id step message d.tasks h) s)
  ]
]

with_deploy-IsActiveId :
    (o : DeployOrder) (sha : Text) (d : Desk)
    → contains (ids d.tasks) o.fresh_id ≡ false
    → IsActiveId o.fresh_id (with_deploy o sha d).tasks
unfolding with_deploy
with_deploy-IsActiveId o sha d absent =
    IsActiveId-append o.fresh_id d.tasks _ (IsActiveId-absent o.fresh_id d.tasks absent) refl

with_deploy-IsSound :
    (o : DeployOrder) (sha : Text) (d : Desk)
    → has_concurrent_dangerous o.node (codes "APPLY_CONFIG") d.tasks ≡ false
    → contains (ids d.tasks) o.fresh_id ≡ false
    → IsSound d.tasks
    → IsSound (with_deploy o sha d).tasks
unfolding with_deploy
with_deploy-IsSound o sha d free absent s =
    grown-IsSound (deploy_task o sha (target_path (load o.node d.nodes))) d.tasks free absent s

apply_config_deploy_flow-IsSound :
    (delivers : Conn → Bool) (o : DeployOrder) (d : Desk)
    → has_concurrent_dangerous o.node (codes "APPLY_CONFIG") d.tasks ≡ false
    → IsSound d.tasks
    → IsSound (apply_config_deploy_flow delivers o d).0.tasks
unfolding apply_config_deploy_flow
apply_config_deploy_flow-IsSound delivers o d free s =
    elim (Option-cases (load o.version d.configs)) [
      | inl e ↦ rw (apply_config_deploy_flow, e) s
      | inr (sha, e) ↦
          let key = deploy_key o in
          elim (Bool-cases (has o.node d.nodes && not (clashes o.fresh_id o.node key d.tasks))) [
            | inr f ↦ rw (apply_config_deploy_flow, e, f) s
            | inl f ↦
                let absent = clashes-ids o.fresh_id o.node key d.tasks (ground (arith, f)) in
                rw (apply_config_deploy_flow, e, f)
                  (push_task-IsSound delivers o.node o.fresh_id (with_deploy o sha d)
                    (with_deploy-IsActiveId o sha d absent)
                    (with_deploy-IsSound o sha d free absent s))
          ]
    ]

-- What happens to the queue. An order to deploy counts where no other APPLY_CONFIG is active at the
-- node, and a step of progress where its command is still active: the code checks neither.
pub data Step : Desk → Desk → Type 0 where
  ordered :
      (delivers : Conn → Bool) (o : Order) (d : Desk) → Step d (enqueue_command delivers o d).0
  flushed :
      (delivers : Text → Conn → Bool) (node : ℤ) (d : Desk) → Step d (flush_pending delivers node d)
  concluded : (r : Report) (d : Desk) → Step d (post_result r d).0
  progressed :
      (append_step : Option Json → (step message : Text) → Json) (node : ℤ) (id step message : Text)
      (d : Desk)
      → IsActiveId id d.tasks
      → Step d (post_progress append_step node id step message d).0
  deployed :
      (delivers : Conn → Bool) (o : DeployOrder) (d : Desk)
      → has_concurrent_dangerous o.node (codes "APPLY_CONFIG") d.tasks ≡ false
      → Step d (apply_config_deploy_flow delivers o d).0
  reconnected : (hub : Map ℤ Conn) (d : Desk) → Step d (record d { hub = hub })

pub data Steps : Desk → Desk → Type 0 where
  still : (d : Desk) → Steps d d
  then_step : (d e f : Desk) → Steps d e → Step e f → Steps d f

Step-IsSound : (d e : Desk) → Step d e → IsSound d.tasks → IsSound e.tasks
Step-IsSound _ _ (ordered delivers o d) s = enqueue_command-IsSound delivers o d s
Step-IsSound _ _ (flushed delivers node d) s = flush_pending-IsSound delivers node d s
Step-IsSound _ _ (concluded r d) s = post_result-IsSound r d s
Step-IsSound _ _ (progressed append_step node id step message d h) s =
    post_progress-IsSound append_step node id step message d h s
Step-IsSound _ _ (deployed delivers o d h) s = apply_config_deploy_flow-IsSound delivers o d h s
Step-IsSound _ _ (reconnected hub d) s = s

-- Whatever orders, pushes, reports and connections come one after another, each call whole, so that
-- no other comes between an order's checks and its insert: no two dangerous commands of one type are
-- ever active at a node, and command IDs stay apart, if that was so at first, progress is reported of
-- active commands only, and a configuration is only deployed at a node without an active
-- APPLY_CONFIG.
pub Steps-IsSound : (d e : Desk) → Steps d e → IsSound d.tasks → IsSound e.tasks
Steps-IsSound _ _ (still d) s = s
Steps-IsSound _ _ (then_step d e f run step) s = Step-IsSound e f step (Steps-IsSound d e run s)
