-- ===== src/Agent/Commands.antt =====
-- The white list of commands, the commands STATUS_XRAYR and RESTART_XRAYR (cmdexec/exec.go,
-- discovery/active.go), and what is reported of a command. The texts of messages are left out.
use center_agent.Prelude.{
  ◌||◌, Bool, true, false, Option, none, some, List, [], ◌∷◌, ◌==◌, nat_eq, list_eq, if◌then◌else◌,
}
use center_agent.Prelude.Maps.{Map}
use center_agent.Prelude.Text.{Text, codes, equal_fold, trim_space}
use center_agent.Prelude.Json.{Json, boolean, text}
use center_agent.Agent.Os.{Os}

-- What the commands read of agent.yml.
pub record Settings : Type 0 where
  pub allow_commands : List Text
  pub backup_dir : Text
  pub config_path : Text
  pub service_name : Text

unfoldable pub is_allowed : List Text → Text → Bool
unfolding trim_space
is_allowed [] cmd = false
is_allowed (x ∷ xs) cmd = equal_fold (trim_space x) cmd || is_allowed xs cmd

-- The errors of a command, one for each message.
pub data Failure : Type 0 where
  not_allowed restart_failed inactive missing_fields wrong_target not_downloaded : Failure
  wrong_hash not_backed_up not_written not_replaced : Failure
  not_linux wrong_service_name wrong_binary wrong_config wrong_unit wrong_os wrong_arch : Failure
  bad_download_path bad_sha256 bad_name_length bad_name paths_refused dirs_refused : Failure
  already_installed not_installed unit_not_backed_up artifact_unread bad_config_hash : Failure
  no_directory not_prepared binary_not_put config_not_put unit_not_put not_reloaded : Failure
  not_restarted : Failure

pub data Status : Type 0 where
  success failed : Status

pub record Outcome : Type 0 where
  pub status : Status
  pub failure : Option Failure
  pub extra : Map Text Json

pub data Message : Type 0 where
  progress : (command step : Text) → Message
  result : (command : Text) → Outcome → Message

abbrev pub failing : Failure → Map Text Json → Outcome
failing f extra = record { status = failed; failure = some f; extra = extra }

abbrev pub succeeding : Map Text Json → Outcome
succeeding extra = record { status = success; failure = none; extra = extra }

-- The results among the messages.
abbrev pub results : List Message → List Outcome
results [] = []
results (progress _ _ ∷ ms) = results ms
results (result _ o ∷ ms) = o ∷ results ms

module _ (O : Os) where
  unfoldable pub is_service_active : Text → O.Machine → Bool
  unfolding trim_space
  is_service_active service m =
      let name = if service == [] then codes "xrayr" else service in
      elim (O.query_active name m) [ none ↦ false | some out ↦ trim_space out == codes "active" ]

  -- The hash of a file, empty if it cannot be read.
  unfoldable pub hash_of_file : Text → O.Machine → Text
  hash_of_file path m = elim (O.read_file path m) [ none ↦ [] | some b ↦ O.sha256_hex b ]

  unfoldable pub run_status : Settings → Text → O.Machine → O.Machine × List Message
  run_status cfg id m =
      if is_allowed cfg.allow_commands (codes "STATUS_XRAYR")
      then (
        m,
        result id (
              succeeding (
                (codes "systemd_active", boolean (is_service_active cfg.service_name m))
                ∷ (codes "config_hash", text (hash_of_file cfg.config_path m))
                ∷ []))
            ∷ [],
      )
      else (m, result id (failing not_allowed []) ∷ [])

  unfoldable pub restarted : Settings → O.Machine × Bool → Outcome
  restarted cfg (m, false) = failing restart_failed []
  restarted cfg (m, true) =
      if is_service_active cfg.service_name m
      then succeeding ((codes "systemd_active", boolean true) ∷ [])
      else failing inactive []

  unfoldable pub run_restart : Settings → Text → O.Machine → O.Machine × List Message
  unfolding restarted
  run_restart cfg id m =
      if is_allowed cfg.allow_commands (codes "RESTART_XRAYR")
      then (let after = O.restart cfg.service_name m in
          (after.0, progress id (codes "restart") ∷ result id (restarted cfg after) ∷ []))
      else (m, result id (failing not_allowed []) ∷ [])
