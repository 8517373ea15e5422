-- ===== src/Center/Commands/Deploys.antt =====
-- applyConfigDeployFlow.
use center_agent.Prelude.{
  ℕ, ◌+◌, ◌⊎◌, inl, inr, Bool, ◌&&◌, not, Option, none, some, [], ◌∷◌, ◌++◌, nat_eq, list_eq,
  if◌then◌else◌,
}
use center_agent.Prelude.Ints.{ℤ, int_eq}
use center_agent.Prelude.Maps.{load, store, has}
use center_agent.Prelude.Text.{Text, codes, format_int, decimal}
use center_agent.Prelude.Json.{number, text}
use center_agent.Center.Hub.{Conn}
use center_agent.Center.Commands.Rows.{Node, pending, Task, waiting, Deploy, Desk, clashes}
use center_agent.Center.Commands.Queue.{Refusal, constraint, no_version, minutes, push_task}

-- An order to deploy a configuration; `fresh_deploy` is the ID that the table gives the deployment.
pub record DeployOrder : Type 0 where
  pub admin : ℤ
  pub node : ℤ
  pub version : ℤ
  pub now : ℕ
  pub fresh_id : Text
  pub fresh_deploy : ℤ

abbrev or_empty : Option Text → Text
or_empty none = []
or_empty (some s) = s

abbrev pub old_hash : Option Node → Option Text
old_hash none = none
old_hash (some n) = n.imported_config_hash

abbrev pub target_path : Option Node → Text
target_path none = []
target_path (some n) = or_empty n.discovered_config_path

unfoldable pub deploy_key : DeployOrder → Text
unfolding format_int decimal
deploy_key o = codes "apply-" ++ (format_int o.node ++ (codes "-" ++ decimal o.now))

unfoldable pub deploy_task : DeployOrder → (sha target : Text) → Task
unfolding deploy_key
deploy_task o sha target = record {
  command_id = o.fresh_id;
  node = o.node;
  command_type = codes "APPLY_CONFIG";
  payload =
      (codes "config_deploy_task_id", number o.fresh_deploy)
      ∷ (codes "config_version_id", number o.version)
      ∷ (codes "config_hash", text sha)
      ∷ (codes "content_sha256", text sha)
      ∷ (codes "config_yaml", text [])
      ∷ (
        codes "yaml_path",
        text (codes "/api/agent/config-deploy/" ++ (format_int o.fresh_deploy ++ codes "/yaml")),
      )
      ∷ (codes "target_config_path", text target)
      ∷ [];
  idempotency_key = deploy_key o;
  expires_at = o.now + minutes 15;
  status = pending;
  created_by = o.admin;
  result_json = [];
  log_summary = [];
  error_message = [];
}

-- Both rows.
unfoldable pub with_deploy : DeployOrder → (sha : Text) → Desk → Desk
unfolding deploy_task
with_deploy o sha d =
    let node = load o.node d.nodes in
    let deploy : Deploy = record {
      node = o.node;
      config_version = o.version;
      status = waiting;
      old_config_hash = old_hash node;
      new_config_hash = sha;
      related_command = o.fresh_id;
      backup_path = none;
      error_message = none;
      progress_log = [];
    } in
    record d {
      deploys = store o.fresh_deploy deploy d.deploys;
      tasks = d.tasks ++ (deploy_task o sha (target_path node) ∷ []);
    }

-- The two inserts are one transaction: a broken constraint leaves neither.
unfoldable pub apply_config_deploy_flow :
    (Conn → Bool) → DeployOrder → Desk → Desk × (Refusal ⊎ (Text × ℤ))
unfolding with_deploy push_task
apply_config_deploy_flow delivers o d = elim (load o.version d.configs) [
  | none ↦ (d, inl no_version)
  | some sha ↦
      if has o.node d.nodes && not (clashes o.fresh_id o.node (deploy_key o) d.tasks)
      then (
        push_task delivers o.node o.fresh_id (with_deploy o sha d),
        inr (o.fresh_id, o.fresh_deploy),
      )
      else (d, inl constraint)
]
