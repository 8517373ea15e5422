-- ===== src/Center/Commands/Tests.antt =====
-- The queue of one node, and the theorems at concrete data.
use center_agent.Prelude.{
  ◌⊎◌, ◌≢◌, ==_iff, ◌+◌, ◌≡◌, ◌↔◌, inl, inr, refl, Bool, true, false, none, some, [], ◌∷◌, arith,
  nat_eq, list_eq, ◌==◌, map,
}
use center_agent.Prelude.Ints.{ℤ, pos, int_eq}
use center_agent.Prelude.Maps.{Map, load}
use center_agent.Prelude.Text.{Text, codes}
use center_agent.Prelude.Json.{number}
use center_agent.Center.Hub.{Conn, IsKeyed, send, register, unregister, unregister-register}
use center_agent.Center.Commands.Rows.{
  Node, pending, sent, Task, Deploy, waiting, done, Desk, active_count, clashes,
}
use center_agent.Center.Commands.Queue.{
  Order, already_queued, not_permitted, key_of, enqueue_command, has_concurrent_dangerous,
  flush_pending, check_order, insert_task,
}
use center_agent.Center.Commands.Reports.{Report, post_result, find_task, final_status, deploy_id}
use center_agent.Center.Commands.Deploys.{DeployOrder, apply_config_deploy_flow}
use center_agent.Center.Commands.Exclusion.{IsSound}
use center_agent.Center.Commands.Steps.{still, then_step, ordered, concluded, Steps-IsSound}
use center_agent.Center.Commands.Permissions.{IsEnabled, IsPermitted, enqueue_command_iff}
use center_agent.Center.Commands.Races.{insert_task-raced}
use center_agent.Center.Commands.Flush.{pushed_row, flush_pending-tasks}
use center_agent.Center.Commands.Crossing.{post_result-foreign, apply_config_deploy_flow-unchecked}

abbrev node_of : Text → Node
node_of status = record {
  disabled = false;
  manage_status = status;
  allow_restart = true;
  allow_config_apply = false;
  allow_upgrade = false;
  allow_install = false;
  imported_config_hash = none;
  discovered_config_path = none;
}

-- Node 1 may be written, node 2 may not.
abbrev desk : Desk
desk = record {
  nodes =
      (pos 1, node_of (codes "MANAGED_WRITABLE"))
      ∷ (pos 2, node_of (codes "MANAGED_READONLY"))
      ∷ [];
  tasks = [];
  deploys = [];
  configs = (pos 5, codes "abc") ∷ [];
  hub = [];
}

abbrev restart : Order
restart = record {
  admin = pos 9;
  node = pos 1;
  command_type = codes "RESTART_XRAYR";
  payload = [];
  key = codes "k1";
  now = 0;
  fresh_id = codes "c1";
}

abbrev again : Order
again = record restart { key = codes "k2"; fresh_id = codes "c2" }

abbrev reaches : Conn → Bool
reaches _ = true

abbrev queued : Desk
queued = (enqueue_command reaches restart desk).0

second_restart :
    (enqueue_command reaches (record restart { key = codes "k2"; fresh_id = codes "c2" }) queued).1
    ≡ inl already_queued
unfolding enqueue_command load active_count
second_restart = refl

readonly_restart :
    (enqueue_command reaches (record restart { node = pos 2 }) desk).1 ≡ inl not_permitted
unfolding enqueue_command load active_count
readonly_restart = refl

desk-IsSound : IsSound desk.tasks
unfolding active_count
desk-IsSound = record { exclusive = λ node kind d. omega arith; unique = tt }

abbrev finished : Report
finished = record {
  node = pos 1;
  command = codes "c1";
  status = codes "success";
  log = [];
  result = [];
  error = [];
}

Steps-IsSound_example : IsSound (post_result finished queued).0.tasks
Steps-IsSound_example =
    Steps-IsSound desk (post_result finished queued).0
      (then_step desk queued (post_result finished queued).0
        (then_step desk desk queued (still desk) (ordered reaches restart desk))
        (concluded finished queued))
      desk-IsSound

enqueue_command_iff_example : ((enqueue_command reaches restart desk).1 ≡ inr (codes "c1")) ↔ (
    (n : Node) × IsEnabled restart desk n
    × IsPermitted (codes "RESTART_XRAYR") n
    × (has_concurrent_dangerous (pos 1) (codes "RESTART_XRAYR") [] ≡ false)
    × (clashes (codes "c1") (pos 1) (key_of restart) [] ≡ false))
enqueue_command_iff_example = enqueue_command_iff reaches restart desk

insert_task-raced_example :
    let (d₁, first) = insert_task reaches restart desk in
    let (d₂, second) = insert_task reaches again d₁ in
    (check_order again desk ≡ none)
    × (first ≡ inr (codes "c1"))
    × (second ≡ inr (codes "c2"))
    × (active_count (pos 1) (codes "RESTART_XRAYR") d₂.tasks ≡ 2)
unfolding check_order load active_count key_of
insert_task-raced_example =
    insert_task-raced reaches restart again desk refl refl refl refl refl
      (λ e. ground (arith, e, ==_iff (codes "c1") (codes "c2")))
      (λ e. ground (arith, e, ==_iff (codes "k1") (codes "k2"))) refl

abbrev deploy_order : DeployOrder
deploy_order = record {
  admin = pos 9;
  node = pos 2;
  version = pos 5;
  now = 0;
  fresh_id = codes "d1";
  fresh_deploy = pos 3;
}

apply_config_deploy_flow-unchecked_example :
    let (d', answer) = apply_config_deploy_flow reaches deploy_order desk in
    (answer ≡ inr (codes "d1", pos 3))
    × (active_count (pos 2) (codes "APPLY_CONFIG") d'.tasks
        ≡ active_count (pos 2) (codes "APPLY_CONFIG") [] + 1)
unfolding load
apply_config_deploy_flow-unchecked_example =
    apply_config_deploy_flow-unchecked reaches deploy_order desk
      (node_of (codes "MANAGED_READONLY")) (codes "abc") refl refl refl

abbrev deploying : Desk
deploying = (apply_config_deploy_flow reaches deploy_order desk).0

abbrev the_task : Task
the_task = record {
  command_id = codes "d1";
  node = pos 2;
  command_type = codes "APPLY_CONFIG";
  payload = (codes "config_deploy_task_id", number (pos 3)) ∷ [];
  idempotency_key = codes "k";
  expires_at = 0;
  status = pending;
  created_by = pos 9;
  result_json = [];
  log_summary = [];
  error_message = [];
}

abbrev the_deploy : Deploy
the_deploy = record {
  node = pos 2;
  config_version = pos 5;
  status = waiting;
  old_config_hash = none;
  new_config_hash = codes "abc";
  related_command = codes "d1";
  backup_path = none;
  error_message = none;
  progress_log = [];
}

abbrev open_desk : Desk
open_desk = record desk { tasks = the_task ∷ []; deploys = (pos 3, the_deploy) ∷ [] }

-- Two commands wait at node 2, of which the second one is not taken, and one at node 1.
abbrev waiting_desk : Desk
waiting_desk = record desk {
  tasks =
      the_task
      ∷ record the_task { command_id = codes "d2" }
      ∷ record the_task { command_id = codes "d3"; node = pos 1 }
      ∷ [];
  hub = (pos 2, record { node = pos 2; handle = 1 }) ∷ [];
}

abbrev takes_d1 : Text → Conn → Bool
takes_d1 id conn = id == codes "d1"

only_first :
    (flush_pending takes_d1 (pos 2) waiting_desk).tasks
    ≡ record the_task { status = sent }
      ∷ record the_task { command_id = codes "d2" }
      ∷ record the_task { command_id = codes "d3"; node = pos 1 }
      ∷ []
unfolding flush_pending load
only_first = refl

flush_pending-tasks_example :
    (flush_pending takes_d1 (pos 2) waiting_desk).tasks
    ≡ map
        (pushed_row (λ id. send (takes_d1 id) (pos 2) waiting_desk.hub) (pos 2))
        waiting_desk.tasks
flush_pending-tasks_example =
    flush_pending-tasks takes_d1 (pos 2) waiting_desk (refl, (refl, (refl, tt)))

-- Node 1 reports the success of node 2's deployment.
post_result-foreign_example :
    let d' = (post_result (record finished { command = codes "d1" }) open_desk).0 in
    (d'.tasks ≡ open_desk.tasks)
    × (after : Deploy) × (load (pos 3) d'.deploys ≡ some after)
    × (after.status ≡ done)
unfolding load deploy_id final_status find_task
post_result-foreign_example =
    post_result-foreign (record finished { command = codes "d1" }) open_desk the_task the_deploy
      (refl, tt) (ground arith) refl refl (ground arith) refl refl refl

abbrev two_nodes : Map ℤ Conn
two_nodes =
    (pos 1, record { node = pos 1; handle = 4 }) ∷ (pos 2, record { node = pos 2; handle = 3 }) ∷ []

two_nodes-IsKeyed : IsKeyed two_nodes
unfolding load
two_nodes-IsKeyed n c h = ground (arith, h, ==_iff n (pos 1), ==_iff n (pos 2))

unregister-register_example :
    let stale : Conn = record { node = pos 1; handle = 4 } in
    let fresh : Conn = record { node = pos 1; handle = 5 } in
    let (hub', _, _) = register (pos 1) 5 two_nodes in
    (unregister stale hub' ≡ hub')
    × (load (pos 1) (unregister stale hub') ≡ some fresh)
    × (load (pos 2) (unregister fresh hub') ≢ some fresh)
    × ((pos 2 ≡ pos 1) ⊎ (load (pos 2) (unregister fresh hub') ≡ load (pos 2) two_nodes))
unregister-register_example =
    unregister-register 4 5 (pos 1) (pos 2) two_nodes (omega arith) two_nodes-IsKeyed
