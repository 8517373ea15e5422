-- ===== src/Agent/Install/Frame.antt =====
-- The files that an installation may change, and that its rollbacks change no other.
use center_agent.Prelude.{ℕ, ◌≡◌, ◌≢◌, Bool, true, false}
use center_agent.Prelude.Text.{Text}
use center_agent.Prelude.Maps.{Map}
use center_agent.Prelude.Json.{Json}
use center_agent.Agent.Commands.{Failure}
use center_agent.Agent.Install.Host.{Host, IsHost, part_file}
use center_agent.Agent.Install.Tasks.{◌>>◌, call, stop}
use center_agent.Agent.Install.Files.{
  Backups, Work, backup_path, written_file, rollback_bin, rollback_upgrade, rollback_install,
  rollback_full,
}
use center_agent.Agent.Install.Run.{
  Order, binary_of, unit_of, config_of, artifact_file, new_file, give_up,
}
use center_agent.Agent.Install.Keeps.{Keeps, >>=-Keeps, pure-Keeps, finish-Keeps, if-Keeps}
use center_agent.Agent.Install.Writes.{
  sudo_install_call-Keeps, sudo_rm-Keeps, write_back-Keeps, systemctl_restart-Keeps,
}

-- The files that a run may change: the three of agent.yml, and those that it names itself.
pub data Touched (H : Host) (o : Order) (q : Text) : Type 0 where
  binary : q ≡ binary_of o → Touched H o q
  config : q ≡ config_of o → Touched H o q
  unit : q ≡ unit_of o → Touched H o q
  fresh : (n : ℕ) → q ≡ new_file H o n → Touched H o q
  artifact : (n : ℕ) → q ≡ artifact_file H o n → Touched H o q
  part : (n : ℕ) → q ≡ part_file H (artifact_file H o n) → Touched H o q
  backup :
      (prefix stamp : Text)
      → q ≡ backup_path H o.setup.settings.backup_dir prefix stamp
      → Touched H o q
  written : (n : ℕ) → q ≡ written_file H n → Touched H o q

module _ {H : Host} (K : IsHost H) (o : Order) {q : Text} (away : ¬ Touched H o q) where
  away_written : (n : ℕ) → q ≢ written_file H n
  away_written n e = away (written n e)

  pub rollback_bin-Keeps : (from : Text) → Keeps H q (rollback_bin H (binary_of o) from)
  unfolding rollback_bin
  rollback_bin-Keeps from =
      let apart : q ≢ binary_of o = λ e. away (binary e) in
      if-Keeps _ (sudo_rm-Keeps K _ apart) (sudo_install_call-Keeps K _ from _ apart)

  pub rollback_upgrade-Keeps : (k : Backups) → Keeps H q (rollback_upgrade H o.setup k)
  unfolding rollback_upgrade
  rollback_upgrade-Keeps k =
      >>=-Keeps
        (if-Keeps _ (pure-Keeps tt) (sudo_install_call-Keeps K _ k.binary _ (λ e. away (binary e))))
        (λ _.
          if-Keeps _ (write_back-Keeps K k.unit _ _ (λ e. away (unit e)) away_written)
            (pure-Keeps tt))

  pub remove_both-Keeps : Keeps H q (call (H.sudo_rm (binary_of o)) >> call (H.sudo_rm (unit_of o)))
  remove_both-Keeps =
      >>=-Keeps (sudo_rm-Keeps K _ (λ e. away (binary e)))
        (λ _. sudo_rm-Keeps K _ (λ e. away (unit e)))

  pub rollback_install-Keeps :
      (install : Bool) (k : Backups) → Keeps H q (rollback_install H o.setup install k)
  unfolding rollback_install
  rollback_install-Keeps false k = rollback_upgrade-Keeps k
  rollback_install-Keeps true k = remove_both-Keeps

  pub rollback_full-Keeps :
      (install : Bool) (k : Backups) → Keeps H q (rollback_full H o.setup install k)
  unfolding rollback_full
  rollback_full-Keeps true k = remove_both-Keeps
  rollback_full-Keeps false k = >>=-Keeps (rollback_upgrade-Keeps k) (λ _.
      if-Keeps _ (pure-Keeps tt)
        (write_back-Keeps K k.config _ _ (λ e. away (config e)) away_written))

  pub give_up-Keeps :
      (rollback : Work H (Unit {0})) (f : Failure) (extra : Map Text Json)
      → Keeps H q rollback
      → Keeps H q {A = Unit {0}} (give_up H o rollback (stop o.id f extra))
  give_up-Keeps rollback f extra h =
      >>=-Keeps h (λ _. >>=-Keeps (systemctl_restart-Keeps K o.id _) (λ _. finish-Keeps o.id _))
