-- ===== src/Center/Commands/Reports.antt =====
-- What agents report of commands: postAgentCommandProgress, postAgentCommandResult and
-- mergeCommandResultJSON.
use center_agent.Prelude.{
  Bool, true, false, ◌&&◌, ◌||◌, Option, none, some, List, [], ◌∷◌, ◌==◌, nat_eq, list_eq,
  if◌then◌else◌,
}
use center_agent.Prelude.Ints.{ℤ, pos, ltb_ℤ, int_eq}
use center_agent.Prelude.Maps.{Map, load, store, has}
use center_agent.Prelude.Text.{Text, codes, trim_space, atoi}
use center_agent.Prelude.Json.{Json, null, number, text, string_at}
use center_agent.Center.Sign.{to_upper}
use center_agent.Center.Commands.Rows.{
  Status, running, success, failed, timeout, canceled, Task, done, broken, Deploy, Desk,
  update_where,
}

pub data Answer : Type 0 where
  no_content bad_request not_found : Answer

abbrev pub is_row : Text → ℤ → Task → Bool
is_row id node t = t.command_id == id && t.node == node

-- `append_step` puts a step with the present time behind the steps of an array, or starts one.
-- What a step makes of the row.
abbrev pub advance :
    (Option Json → (step message : Text) → Json) → (step message : Text) → Task → Task
advance append_step step message t = record t {
  status = running;
  result_json =
      store (codes "progress") (append_step (load (codes "progress") t.result_json) step message)
        t.result_json;
}

abbrev pub has_row : Text → ℤ → List Task → Bool
has_row id node [] = false
has_row id node (t ∷ ts) = is_row id node t || has_row id node ts

unfoldable pub post_progress :
    (append_step : Option Json → (step message : Text) → Json)
    → ℤ
    → (id step message : Text) → Desk
    → Desk × Answer
post_progress append_step node id step message d =
    if id == []
    then (d, bad_request)
    else if has_row id node d.tasks
    then (
      record d { tasks = update_where (is_row id node) (advance append_step step message) d.tasks },
      no_content,
    )
    else (d, not_found)

abbrev store_all : Map Text Json → Map Text Json → Map Text Json
store_all [] m = m
store_all ((k, v) ∷ kvs) m = store_all kvs (store k v m)

abbrev is_null : Json → Bool
is_null null = true
is_null _ = false

-- The new values over the old ones; a missing list of steps is the old one.
unfoldable pub merge_result : (cur incoming : Map Text Json) → Map Text Json
merge_result cur incoming =
    let out = store_all incoming cur in
    if has (codes "progress") incoming then out else elim (load (codes "progress") cur) [
      | none ↦ out
      | some v ↦ if is_null v then out else store (codes "progress") v out
    ]

-- The states that an agent may report.
unfoldable pub final_status : Text → Option Status
unfolding trim_space
final_status s =
    let st = to_upper (trim_space s) in
    if st == codes "SUCCESS"
    then some success
    else if st == codes "FAILED"
    then some failed
    else if st == codes "TIMEOUT"
    then some timeout
    else if st == codes "CANCELED"
    then some canceled
    else none

-- int64FromAny: a number, a text that is one, and else 0.
unfoldable pub int64_from : Option Json → ℤ
int64_from (some (number n)) = n
int64_from (some (text s)) = elim (atoi s) [ none ↦ pos 0 | some n ↦ n ]
int64_from _ = pos 0

-- A report of a command's end, by the node that signed it.
pub record Report : Type 0 where
  pub node : ℤ
  pub command : Text
  pub status : Text
  pub log : Text
  pub result : Map Text Json
  pub error : Text

abbrev is_success : Status → Bool
is_success success = true
is_success _ = false

-- strFromResult: a text in the result that is not empty, and else the old value, as COALESCE has it.
abbrev coalesce : Text → Option Text → Option Text
coalesce s old = if s == [] then old else some s

-- What becomes of the deployment that the command belongs to.
unfoldable pub sync_deploy : Report → Status → Deploy → Deploy
unfolding string_at
sync_deploy r st dep =
    let after = string_at (codes "after_config_hash") r.result in
    if is_success st
    then record dep {
      status = done;
      new_config_hash = if after == [] then dep.new_config_hash else after;
      backup_path = coalesce (string_at (codes "backup_path") r.result) dep.backup_path;
      error_message = none;
      progress_log = r.log;
    }
    else record dep { status = broken; error_message = some r.error; progress_log = r.log }

unfoldable pub find_task : Text → List Task → Option Task
find_task id [] = none
find_task id (t ∷ ts) = let rest = find_task id ts in if t.command_id == id then some t else rest

-- The deployment that a command belongs to; 0 is none.
unfoldable pub deploy_id : Task → ℤ
unfolding int64_from
deploy_id t = int64_from (load (codes "config_deploy_task_id") t.payload)

-- The deployment of a finished APPLY_CONFIG. The command is looked up by its ID alone.
unfoldable pub sync_deploys : Report → Status → Desk → Desk
unfolding sync_deploy find_task deploy_id
sync_deploys r st d = elim (find_task r.command d.tasks) [
  | none ↦ d
  | some t ↦
      let id = deploy_id t in
      if t.command_type == codes "APPLY_CONFIG" && ltb_ℤ (pos 0) id
      then elim (load id d.deploys) [
        | none ↦ d
        | some dep ↦ record d { deploys = store id (sync_deploy r st dep) d.deploys }
      ]
      else d
]

-- What a result makes of the row.
unfoldable pub conclude : Report → Status → Task → Task
unfolding merge_result
conclude r st t = record t {
  status = st;
  log_summary = r.log;
  error_message = r.error;
  result_json = merge_result t.result_json r.result;
}

unfoldable pub post_result : Report → Desk → Desk × Answer
unfolding final_status conclude sync_deploys
post_result r d = if r.command == [] then (d, bad_request) else elim (final_status r.status) [
  | none ↦ (d, bad_request)
  | some st ↦ (
    sync_deploys r st
        (record d { tasks = update_where (is_row r.command r.node) (conclude r st) d.tasks }),
    no_content,
  )
]
