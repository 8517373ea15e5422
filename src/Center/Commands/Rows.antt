-- ===== src/Center/Commands/Rows.antt =====
-- The rows of the tables node, command_task and config_deploy_task, as far as commands use them:
-- without the moments of changes.
use center_agent.Prelude.{
  ℕ, ◌+◌, Bool, true, false, ◌&&◌, ◌||◌, Option, List, [], ◌∷◌, ◌==◌, nat_eq, list_eq,
  if◌then◌else◌,
}
use center_agent.Prelude.Ints.{ℤ, int_eq}
use center_agent.Prelude.Maps.{Map}
use center_agent.Prelude.Text.{Text}
use center_agent.Prelude.Json.{Json}
use center_agent.Center.Hub.{Conn}

pub record Node : Type 0 where
  pub disabled : Bool
  pub manage_status : Text
  pub allow_restart : Bool
  pub allow_config_apply : Bool
  pub allow_upgrade : Bool
  pub allow_install : Bool
  pub imported_config_hash : Option Text
  pub discovered_config_path : Option Text

pub data Status : Type 0 where
  pending sent running success failed timeout canceled : Status

pub record Task : Type 0 where
  pub command_id : Text
  pub node : ℤ
  pub command_type : Text
  pub payload : Map Text Json
  pub idempotency_key : Text
  pub expires_at : ℕ
  pub status : Status
  pub created_by : ℤ
  pub result_json : Map Text Json
  pub log_summary : Text
  pub error_message : Text

pub data DeployStatus : Type 0 where
  waiting done broken : DeployStatus

pub record Deploy : Type 0 where
  pub node : ℤ
  pub config_version : ℤ
  pub status : DeployStatus
  pub old_config_hash : Option Text
  pub new_config_hash : Text
  pub related_command : Text
  pub backup_path : Option Text
  pub error_message : Option Text
  pub progress_log : Text

-- The tables, tasks and deployments in the order of their IDs, the known configurations with their
-- hashes, and the open sockets.
pub record Desk : Type 0 where
  pub nodes : Map ℤ Node
  pub tasks : List Task
  pub deploys : Map ℤ Deploy
  pub configs : Map ℤ Text
  pub hub : Map ℤ Conn

abbrev pub is_active : Status → Bool
is_active pending = true
is_active sent = true
is_active running = true
is_active _ = false

-- `SELECT COUNT(*) ... status IN ('PENDING','SENT','RUNNING')`
abbrev pub counts : ℤ → Text → Task → ℕ
counts node kind t = if t.node == node && t.command_type == kind && is_active t.status then 1 else 0

unfoldable pub active_count : ℤ → Text → List Task → ℕ
active_count node kind [] = 0
active_count node kind (t ∷ ts) = counts node kind t + active_count node kind ts

-- An update of the rows that a test picks.
abbrev pub update_where : (Task → Bool) → (Task → Task) → List Task → List Task
update_where p f [] = []
update_where p f (t ∷ ts) = (if p t then f t else t) ∷ update_where p f ts

-- The command ID, and the pair of node and key, are unique; the node must be known.
abbrev pub clashes : Text → ℤ → Text → List Task → Bool
clashes id node key [] = false
clashes id node key (t ∷ ts) =
    t.command_id == id || (t.node == node && t.idempotency_key == key) || clashes id node key ts
