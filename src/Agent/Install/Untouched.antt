-- ===== src/Agent/Install/Untouched.antt =====
-- That a run of runXrayrInstallUpgrade leaves every other file alone, stage by stage.
use center_agent.Prelude.{ℕ, ◌≡◌, ◌≢◌, false, ◌&&◌, arith}
use center_agent.Prelude.Text.{Text, codes}
use center_agent.Agent.Install.Host.{Host, IsHost}
use center_agent.Agent.Install.Checks.{paths_allowed, dirs_allowed}
use center_agent.Agent.Install.Files.{Backups, no_backups, written_file}
use center_agent.Agent.Install.Run.{
  Order, artifact_file, new_file, verify, restart, write_unit, write_initial_config,
  overwrite_config, write_config, put_in_place, put_new, deploy, back_up_binary, back_up,
  run_xrayr_install_upgrade, run_install_or_upgrade,
}
use center_agent.Agent.Install.Keeps.{
  Keeps, >>=-Keeps, pure-Keeps, say-Keeps, finish-Keeps, look-Keeps, look->>=-Keeps, attempt-Keeps,
  change-Keeps, if-Keeps, on_value-Keeps, require-Keeps, require->>=-Keeps, admit-Keeps,
  deferring-Keeps,
}
use center_agent.Agent.Install.Frame.{
  Touched, binary, config, unit, fresh, artifact, part, backup, written, rollback_bin-Keeps,
  rollback_upgrade-Keeps, rollback_install-Keeps, rollback_full-Keeps, give_up-Keeps,
}
use center_agent.Agent.Install.Writes.{
  remove-Keeps, mkdir_all-Keeps, sudo_install-Keeps, systemctl-Keeps, systemctl_call-Keeps,
  backup_file_to_dir-Keeps, copy_file_chmod-Keeps, write_file_via_sudo-Keeps,
  systemctl_restart-Keeps, signed_get_to_file-content, check_hash-Keeps, back_up_config-Keeps,
  back_up_unit-Keeps,
}

module _ {H : Host} (K : IsHost H) (o : Order) {q : Text} (away : ¬ Touched H o q) where
  away_written : (n : ℕ) → q ≢ written_file H n
  away_written n e = away (written n e)

  verify-Keeps : (k : Backups) → Keeps H q (verify H o k)
  unfolding verify
  verify-Keeps k = >>=-Keeps (change-Keeps _ (K.os.content-sleep 2 q)) (λ _.
      >>=-Keeps (say-Keeps o.id _) (λ _. >>=-Keeps (look-Keeps _) (λ active.
        if-Keeps active (>>=-Keeps (say-Keeps o.id _) (λ _. finish-Keeps o.id _)) (
          >>=-Keeps (say-Keeps o.id _) (λ _.
            >>=-Keeps (rollback_full-Keeps K o away o.install k) (λ _.
              >>=-Keeps (systemctl-Keeps K _) (λ _.
                >>=-Keeps (systemctl_restart-Keeps K o.id _)
                  (λ _. >>=-Keeps (look-Keeps _) (λ _. finish-Keeps o.id _)))))))))

  restart-Keeps : (k : Backups) → Keeps H q (restart H o k)
  unfolding restart
  restart-Keeps k =
      let full = rollback_full-Keeps K o away o.install k in
      >>=-Keeps (say-Keeps o.id _) (λ _. >>=-Keeps (systemctl-Keeps K _) (λ reloaded.
        if-Keeps reloaded
          (>>=-Keeps (if-Keeps _ (systemctl_call-Keeps K _) (pure-Keeps tt)) (λ _.
            >>=-Keeps (systemctl-Keeps K _) (λ up.
              if-Keeps up (verify-Keeps k)
                (give_up-Keeps K o away _ _ _ (>>=-Keeps full (λ _. systemctl_call-Keeps K _))))))
          (give_up-Keeps K o away _ _ _ full)))

  write_unit-Keeps : (k : Backups) → Keeps H q (write_unit H o k)
  unfolding write_unit
  write_unit-Keeps k = >>=-Keeps (say-Keeps o.id _) (λ _.
      >>=-Keeps (write_file_via_sudo-Keeps K _ _ _ (λ e. away (unit e)) away_written) (λ done.
        if-Keeps done (restart-Keeps k)
          (give_up-Keeps K o away _ _ _ (rollback_install-Keeps K o away o.install k))))

  write_initial_config-Keeps : (k : Backups) → Keeps H q (write_initial_config H o k)
  unfolding write_initial_config
  write_initial_config-Keeps k = if-Keeps _ (pure-Keeps tt) (
      if-Keeps _
        (>>=-Keeps (write_file_via_sudo-Keeps K _ _ _ (λ e. away (config e)) away_written) (λ done.
          if-Keeps done (pure-Keeps tt)
            (>>=-Keeps (rollback_bin-Keeps K o away k.binary) (λ _. finish-Keeps o.id _))))
        (>>=-Keeps (rollback_bin-Keeps K o away k.binary) (λ _. finish-Keeps o.id _)))

  write_config-Keeps : (k : Backups) → Keeps H q (write_config H o k)
  unfolding write_config overwrite_config
  write_config-Keeps k = if-Keeps _ (write_initial_config-Keeps k) (
      if-Keeps _
        (>>=-Keeps (write_file_via_sudo-Keeps K _ _ _ (λ e. away (config e)) away_written) (λ done.
          if-Keeps done (pure-Keeps tt)
            (give_up-Keeps K o away _ _ _ (rollback_upgrade-Keeps K o away k))))
        (pure-Keeps tt))

  put_in_place-Keeps : (a : Text) → Keeps H q (put_in_place H o a)
  unfolding put_in_place put_new
  put_in_place-Keeps a = >>=-Keeps (say-Keeps o.id _) (λ _.
      >>=-Keeps (attempt-Keeps _ (K.content-sudo_mkdir _ q)) (λ _.
        >>=-Keeps (require-Keeps o.id _ _ _) (λ _. look->>=-Keeps _ _ λ m.
          let apart : q ≢ new_file H o (H.nanos m) = λ e. away (fresh (H.nanos m) e) in
          >>=-Keeps (copy_file_chmod-Keeps K a _ apart) (λ _.
            >>=-Keeps (require-Keeps o.id _ _ _) (λ _.
              >>=-Keeps (sudo_install-Keeps K _ _ _ (λ e. away (binary e)))
                (λ _. >>=-Keeps (remove-Keeps K _ apart) (λ _. require-Keeps o.id _ _ _)))))))

  back_up_binary-Keeps : Keeps H q (back_up_binary H o)
  unfolding back_up_binary
  back_up_binary-Keeps = >>=-Keeps (say-Keeps o.id _) (λ _.
      >>=-Keeps
        (backup_file_to_dir-Keeps K _ _ (codes "xrayr-bin")
          (λ stamp e. away (backup (codes "xrayr-bin") stamp e)))
        (λ saved.
          on_value-Keeps saved (finish-Keeps o.id _) (λ p.
            back_up_unit-Keeps K o _ (λ stamp e. away (backup (codes "xrayr-unit") stamp e)))))

  back_up-Keeps : Keeps H q (back_up H o)
  unfolding back_up
  back_up-Keeps = if-Keeps o.install (pure-Keeps no_backups) back_up_binary-Keeps

  module _ (n : ℕ) where
    deploy-Keeps : (k : Backups) → Keeps H q (deploy H o k (artifact_file H o n))
    unfolding deploy
    deploy-Keeps k =
        let a = artifact_file H o n in
        >>=-Keeps (say-Keeps o.id _) (λ _.
          >>=-Keeps
            (attempt-Keeps _
              (signed_get_to_file-content K a (λ e. away (part n e)) (λ e. away (artifact n e)) _))
            (λ _. >>=-Keeps (require-Keeps o.id _ _ _) (λ _.
              >>=-Keeps (check_hash-Keeps K o a) (λ _.
                >>=-Keeps
                  (back_up_config-Keeps K o k
                    (λ stamp e. away (backup (codes "xrayr-cfg") stamp e)))
                  (λ saved.
                    >>=-Keeps (put_in_place-Keeps a)
                      (λ _. >>=-Keeps (write_config-Keeps saved) (λ _. write_unit-Keeps saved)))))))

-- A run changes no other file, and none at all where agent.yml names a path that is not allowed.
module _ {H : Host} (K : IsHost H) (o : Order) {q : Text} where
  run_install_or_upgrade-Keeps :
      (Touched H o q → (paths_allowed o.setup && dirs_allowed o.setup) ≡ false)
      → Keeps H q (run_install_or_upgrade H o)
  unfolding run_install_or_upgrade run_xrayr_install_upgrade
  run_install_or_upgrade-Keeps spared = >>=-Keeps (require-Keeps o.id _ _ _) (λ _.
      >>=-Keeps (require-Keeps o.id _ _ _) (λ _. >>=-Keeps (say-Keeps o.id _) (λ _.
        >>=-Keeps (admit-Keeps o.id _) (λ _. >>=-Keeps (admit-Keeps o.id _) (λ _.
          require->>=-Keeps o.id _ _ _ _ (λ paths. require->>=-Keeps o.id _ _ _ _ (λ dirs.
            let away : ¬ Touched H o q = λ t. absurd (ground (arith, spared t)) in
            >>=-Keeps (mkdir_all-Keeps K _) (λ _. >>=-Keeps (mkdir_all-Keeps K _) (λ _.
              >>=-Keeps (look-Keeps _) (λ _. >>=-Keeps (require-Keeps o.id _ _ _) (λ _.
                >>=-Keeps (require-Keeps o.id _ _ _) (λ _.
                  >>=-Keeps (back_up-Keeps K o away) (λ saved. look->>=-Keeps _ _ (λ m.
                    deferring-Keeps _
                      (λ (m' : H.os.Machine).
                        K.os.content-remove _ q m' (λ e. away (artifact (H.nanos m) e)))
                      (deploy-Keeps K o away (H.nanos m) saved)))))))))))))))

-- After any run of INSTALL_XRAYR or UPGRADE_XRAYR a file holds what it held, unless it is one of
-- the three that agent.yml names, an artifact, a backup or a temporary file of the run, and the
-- paths and directories of agent.yml are all on the white lists.
pub run_install_or_upgrade-content :
    {H : Host} (K : IsHost H) (o : Order) (q : Text) (m : H.os.Machine)
    → (Touched H o q → (paths_allowed o.setup && dirs_allowed o.setup) ≡ false)
    → H.os.content q ((run_install_or_upgrade H o).run m).after ≡ H.os.content q m
run_install_or_upgrade-content K o q m spared = (run_install_or_upgrade-Keeps K o spared).keeps m
