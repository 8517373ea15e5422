-- ===== src/Agent/Refusals.antt =====
-- The result of a restart.
use center_agent.Prelude.{◌≡◌, ◌↔◌, true, ◌&&◌, [], ◌∷◌, arith}
use center_agent.Prelude.Text.{Text, codes}
use center_agent.Prelude.Json.{boolean}
use center_agent.Agent.Os.{Os}
use center_agent.Agent.Commands.{
  Settings, is_allowed, succeeding, results, is_service_active, run_restart, restarted,
}

module _ (O : Os) where
  -- A restart reports success exactly when the command is allowed, systemctl restarts the service
  -- without an error, and the service is active then.
  pub run_restart-success :
      (cfg : Settings) (id : Text) (m : O.Machine)
      → (results (run_restart O cfg id m).1
          ≡ succeeding ((codes "systemd_active", boolean true) ∷ []) ∷ [])
        ↔ (is_allowed cfg.allow_commands (codes "RESTART_XRAYR")
              && (O.restart cfg.service_name m).1
              && is_service_active O cfg.service_name (O.restart cfg.service_name m).0
            ≡ true)
  unfolding run_restart restarted
  run_restart-success cfg id m = ground arith
