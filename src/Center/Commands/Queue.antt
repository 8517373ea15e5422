-- ===== src/Center/Commands/Queue.antt =====
-- assertCommandAllowed, dangerousCommand, hasConcurrentDangerous, enqueueCommand and
-- flushPendingCommands. An error of the database other than a broken constraint is not modelled.
use center_agent.Prelude.{
  ℕ, ◌+◌, ◌*◌, ◌⊎◌, inl, inr, Bool, true, false, ◌&&◌, ◌||◌, not, Option, none, some, List, [], ◌∷◌,
  ◌++◌, ltb, ◌==◌, nat_eq, list_eq, if◌then◌else◌,
}
use center_agent.Prelude.Ints.{ℤ, int_eq}
use center_agent.Prelude.Maps.{Map, load}
use center_agent.Prelude.Text.{Text, codes, decimal}
use center_agent.Prelude.Json.{Json}
use center_agent.Center.Hub.{Conn, send}
use center_agent.Center.Commands.Rows.{
  Node, Status, pending, sent, Task, Desk, active_count, update_where, clashes,
}

pub data Refusal : Type 0 where
  no_node not_permitted unknown_command already_queued constraint no_version : Refusal

abbrev pub is_writable : Text → Bool
is_writable ms = ms == codes "MANAGED_WRITABLE"

abbrev pub is_readonly : Text → Bool
is_readonly ms =
    ms == codes "MANAGED_READONLY" || (not (is_writable ms) && not (ms == codes "DISCOVERED"))

unfoldable pub permit : Text → Bool → Option Refusal
permit ms flag =
    if is_readonly ms || not (is_writable ms) || not flag then some not_permitted else none

unfoldable pub assert_command_allowed : Text → Node → Option Refusal
unfolding permit
assert_command_allowed cmd n =
    if cmd == codes "STATUS_XRAYR"
    then none
    else if cmd == codes "RESTART_XRAYR"
    then permit n.manage_status n.allow_restart
    else if cmd == codes "APPLY_CONFIG"
    then permit n.manage_status n.allow_config_apply
    else if cmd == codes "INSTALL_XRAYR"
    then permit n.manage_status n.allow_install
    else if cmd == codes "UPGRADE_XRAYR"
    then permit n.manage_status n.allow_upgrade
    else some unknown_command

unfoldable pub dangerous_command : Text → Bool
dangerous_command cmd =
    cmd == codes "RESTART_XRAYR"
    || cmd == codes "APPLY_CONFIG"
    || cmd == codes "INSTALL_XRAYR"
    || cmd == codes "UPGRADE_XRAYR"

unfoldable pub has_concurrent_dangerous : ℤ → Text → List Task → Bool
unfolding active_count dangerous_command
has_concurrent_dangerous node cmd tasks =
    dangerous_command cmd && ltb 0 (active_count node cmd tasks)

-- `UPDATE command_task SET status='SENT' ... WHERE command_id=$1`
abbrev pub mark_sent : Text → List Task → List Task
mark_sent id = update_where (λ t. t.command_id == id) (λ t. record t { status = sent })

-- An order of an administrator, with the moment and the random command ID.
pub record Order : Type 0 where
  pub admin : ℤ
  pub node : ℤ
  pub command_type : Text
  pub payload : Map Text Json
  pub key : Text
  pub now : ℕ
  pub fresh_id : Text

abbrev pub minutes : ℕ → ℕ
minutes n = n * 60000000000

unfoldable pub key_of : Order → Text
unfolding decimal
key_of o = if o.key == [] then o.command_type ++ (codes "-" ++ decimal o.now) else o.key

unfoldable pub new_task : Order → Task
unfolding key_of
new_task o = record {
  command_id = o.fresh_id;
  node = o.node;
  command_type = o.command_type;
  payload = o.payload;
  idempotency_key = key_of o;
  expires_at = o.now + minutes 10;
  status = pending;
  created_by = o.admin;
  result_json = [];
  log_summary = [];
  error_message = [];
}

-- The push to the node's socket, and what the row becomes if it arrived.
unfoldable pub push_task : (Conn → Bool) → ℤ → Text → Desk → Desk
unfolding send
push_task delivers node id d =
    if send delivers node d.hub then record d { tasks = mark_sent id d.tasks } else d

unfoldable pub insert_task : (Conn → Bool) → Order → Desk → Desk × (Refusal ⊎ Text)
unfolding new_task push_task
insert_task delivers o d =
    let grown = record d { tasks = d.tasks ++ (new_task o ∷ []) } in
    if clashes o.fresh_id o.node (key_of o) d.tasks
    then (d, inl constraint)
    else (push_task delivers o.node o.fresh_id grown, inr o.fresh_id)

-- What is read before the insert: the node with its permissions, and the count of active commands.
unfoldable pub check_order : Order → Desk → Option Refusal
unfolding assert_command_allowed has_concurrent_dangerous
check_order o d = elim (load o.node d.nodes) [
  | none ↦ some no_node
  | some n ↦ if n.disabled then some no_node else elim (assert_command_allowed o.command_type n) [
    | some e ↦ some e
    | none ↦
        if has_concurrent_dangerous o.node o.command_type d.tasks then some already_queued else none
  ]
]

-- A whole call, which nothing else comes between. The code has no transaction or lock for that: two
-- calls at a time may both check before either inserts.
unfoldable pub enqueue_command : (Conn → Bool) → Order → Desk → Desk × (Refusal ⊎ Text)
unfolding check_order insert_task
enqueue_command delivers o d = elim (check_order o d) [
  | some e ↦ (d, inl e)
  | none ↦ insert_task delivers o d
]

-- The rows that the query finds are pushed one after another. `delivers` may answer each in its own
-- way.
unfoldable pub flush_each : (Text → Conn → Bool) → ℤ → List Task → Desk → Desk
unfolding push_task
flush_each delivers node [] d = d
flush_each delivers node (t ∷ ts) d =
    flush_each delivers node ts (push_task (delivers t.command_id) node t.command_id d)

abbrev pub is_pending : Status → Bool
is_pending pending = true
is_pending _ = false

abbrev pub pending_of : ℤ → List Task → List Task
pending_of node [] = []
pending_of node (t ∷ ts) =
    let rest = pending_of node ts in
    if t.node == node && is_pending t.status then t ∷ rest else rest

unfoldable pub flush_pending : (Text → Conn → Bool) → ℤ → Desk → Desk
unfolding flush_each
flush_pending delivers node d = flush_each delivers node (pending_of node d.tasks) d
