-- ===== src/Agent/Install/Run.antt =====
-- The body of runXrayrInstallUpgrade: check, back up, download, verify, install, restart, roll back.
use center_agent.Prelude.{
  ℕ, Bool, true, ◌&&◌, ◌||◌, not, none, some, [], ◌∷◌, ◌++◌, ◌==◌, nat_eq, list_eq, if◌then◌else◌,
}
use center_agent.Prelude.Maps.{Map}
use center_agent.Prelude.Text.{Text, codes, to_lower, decimal, dir}
use center_agent.Prelude.Json.{Json, boolean, text}
use center_agent.Agent.Commands.{
  is_allowed, is_service_active, succeeding, not_allowed, inactive, wrong_hash, not_backed_up,
  not_downloaded, not_linux, paths_refused, dirs_refused, already_installed, not_installed,
  unit_not_backed_up, artifact_unread, bad_config_hash, no_directory, not_prepared, binary_not_put,
  config_not_put, unit_not_put, not_reloaded, not_restarted, restart_failed,
}
use center_agent.Agent.Install.Host.{
  Host, read_file_maybe_sudo, sha256_file_hex, signed_get_to_file,
}
use center_agent.Agent.Install.Tasks.{
  ◌>>=◌, ◌>>◌, pure, call, attempt, change, look, say, finish, stop, require, admit, on_value,
  on_bytes, deferring,
}
use center_agent.Agent.Install.Checks.{
  Setup, str_from, field_of, payload_bool, service_name, effective_binary_path,
  effective_service_path, config_path, validate_install_payload, validate_local_service_name,
  paths_allowed, dirs_allowed,
}
use center_agent.Agent.Install.Files.{
  Backups, no_backups, render_systemd_unit, Work, write_backup_bytes, backup_file_to_dir,
  copy_file_chmod, write_file_via_sudo, put_binary, rollback_bin, rollback_upgrade,
  rollback_install, rollback_full, systemctl, systemctl_restart,
}

-- One run: the command with its payload, what agent.yml says, and which of the two commands it is.
pub record Order : Type 0 where
  pub id : Text
  pub payload : Map Text Json
  pub setup : Setup
  pub install : Bool

abbrev pub binary_of : Order → Text
binary_of o = effective_binary_path o.setup

abbrev pub unit_of : Order → Text
unit_of o = effective_service_path o.setup

abbrev pub config_of : Order → Text
config_of o = config_path o.setup

abbrev pub wanted_sha : Order → Text
wanted_sha o = to_lower (field_of o.payload (codes "sha256"))

abbrev pub overwrites : Order → Bool
overwrites o = payload_bool o.payload (codes "overwrite_config")

unfoldable pub unit_text : Order → Text
unfolding render_systemd_unit effective_binary_path config_path
unit_text o = render_systemd_unit (binary_of o) (config_of o)

module _ (H : Host) where
  unfoldable pub artifact_file : Order → ℕ → Text
  unfolding decimal
  artifact_file o n =
      H.os.join o.setup.artifact_cache_dir
        (codes "artifact-" ++ (o.id ++ (codes "-" ++ (decimal n ++ codes ".bin"))))

  unfoldable pub new_file : Order → ℕ → Text
  unfolding decimal effective_binary_path
  new_file o n = binary_of o ++ (codes ".new." ++ decimal n)

  -- The failure that follows a rollback and a restart.
  abbrev pub give_up : {A : Type 0} → Order → Work H (Unit {0}) → Work H A → Work H A
  give_up o rollback report = do
    rollback
    _ ← systemctl_restart H o.id (service_name o.setup)
    report

  unfoldable pub verify : Order → Backups → Work H (Unit {0})
  unfolding rollback_full systemctl_restart service_name is_service_active effective_binary_path
      config_path effective_service_path
  verify o k = do
    change (H.os.sleep 2)
    say o.id (codes "VERIFY_SERVICE")
    active ← look (is_service_active H.os o.setup.settings.service_name)
    if active
        then (do
          say o.id (codes "DONE")
          finish o.id (
              succeeding (
                (codes "binary_path", text (binary_of o))
                ∷ (codes "config_path", text (config_of o))
                ∷ (codes "service_path", text (unit_of o))
                ∷ (codes "backup_binary", text k.binary)
                ∷ [])))
        else (do
          say o.id (codes "ROLLBACK")
          rollback_full H o.setup o.install k
          _ ← systemctl H (codes "daemon-reload" ∷ [])
          restarted ← systemctl_restart H o.id (service_name o.setup)
          again ← look (is_service_active H.os o.setup.settings.service_name)
          stop o.id (if restarted then inactive else not_restarted) (
              (codes "rollback", boolean true)
              ∷ (codes "active_after_rollback", boolean again)
              ∷ (codes "backup_binary", text k.binary)
              ∷ (codes "backup_service", text k.unit)
              ∷ (codes "backup_config", text k.config)
              ∷ []))

  abbrev pub rolled_back : Map Text Json
  rolled_back = (codes "rollback", boolean true) ∷ []

  unfoldable pub restart : Order → Backups → Work H (Unit {0})
  unfolding verify rollback_full systemctl_restart service_name payload_bool
  restart o k = do
    say o.id (codes "RESTARTING")
    reloaded ← systemctl H (codes "daemon-reload" ∷ [])
    if reloaded
        then (do
          if o.install || payload_bool o.payload (codes "enable_service")
              then call (H.systemctl (codes "enable" ∷ service_name o.setup ∷ []))
              else pure tt
          up ← systemctl H (codes "restart" ∷ service_name o.setup ∷ [])
          if up
              then verify o k
              else give_up o
                  (rollback_full H o.setup o.install k
                    >> call (H.systemctl (codes "daemon-reload" ∷ [])))
                  (stop o.id restart_failed rolled_back))
        else give_up o (rollback_full H o.setup o.install k) (stop o.id not_reloaded rolled_back)

  unfoldable pub write_unit : Order → Backups → Work H (Unit {0})
  unfolding restart write_file_via_sudo rollback_install systemctl_restart unit_text
      effective_service_path
  write_unit o k = do
    say o.id (codes "SYSTEMD")
    written ← write_file_via_sudo H (unit_of o) (unit_text o) (codes "0644")
    if written
        then restart o k
        else give_up o (rollback_install H o.setup o.install k) (stop o.id unit_not_put [])

  -- The configuration that comes with an installation, if there is one.
  unfoldable pub write_initial_config : Order → Backups → Work H (Unit {0})
  unfolding field_of write_file_via_sudo rollback_bin effective_binary_path config_path
  write_initial_config o k =
      let yaml = field_of o.payload (codes "initial_config_yaml") in
      let want = to_lower (field_of o.payload (codes "initial_config_sha256")) in
      if yaml == []
      then pure tt
      else if H.os.sha256_hex yaml == want
      then (do
        written ← write_file_via_sudo H (config_of o) yaml (codes "0600")
        if written
            then pure tt
            else (rollback_bin H (binary_of o) k.binary >> stop o.id config_not_put []))
      else (rollback_bin H (binary_of o) k.binary >> stop o.id bad_config_hash [])

  unfoldable pub overwrite_config : Order → Backups → Work H (Unit {0})
  unfolding str_from write_file_via_sudo rollback_upgrade systemctl_restart service_name config_path
  overwrite_config o k = do
    written ←
        write_file_via_sudo H (config_of o) (str_from o.payload (codes "config_yaml"))
          (codes "0600")
    if written
        then pure tt
        else give_up o (rollback_upgrade H o.setup k) (stop o.id config_not_put [])

  unfoldable pub write_config : Order → Backups → Work H (Unit {0})
  unfolding write_initial_config overwrite_config payload_bool
  write_config o k =
      if o.install
      then write_initial_config o k
      else if overwrites o
      then overwrite_config o k
      else pure tt

  -- `install` by sudo, from the file beside the binary, which is then removed.
  unfoldable pub put_new : Order → (tmp : Text) → Work H (Unit {0})
  unfolding effective_binary_path
  put_new o tmp = do
    put ← put_binary H tmp (binary_of o)
    change (H.os.remove tmp)
    require o.id put binary_not_put []

  unfoldable pub put_in_place : Order → (artifact : Text) → Work H (Unit {0})
  unfolding new_file copy_file_chmod put_new effective_binary_path config_path dir
  put_in_place o artifact = do
    say o.id (codes "INSTALLING")
    made ← attempt (H.sudo_mkdir (dir (binary_of o) ∷ dir (config_of o) ∷ []))
    require o.id made no_directory []
    tmp ← look (λ m. new_file o (H.nanos m))
    copied ← copy_file_chmod H artifact tmp
    require o.id copied not_prepared []
    put_new o tmp

  -- The old configuration, where an upgrade overwrites it. That it was not backed up is no failure.
  unfoldable pub save_config : Order → Backups → Work H Backups
  unfolding field_of str_from write_backup_bytes config_path
  save_config o k = do
    say o.id (codes "BACKUP")
    require o.id
        (H.os.sha256_hex (str_from o.payload (codes "config_yaml"))
          == to_lower (field_of o.payload (codes "config_sha256")))
        bad_config_hash []
    old ← look (H.os.read_file (config_of o))
    on_bytes old (pure k) λ b. do
      saved ← write_backup_bytes H b o.setup.settings.backup_dir (codes "xrayr-cfg")
      pure (elim saved [ none ↦ k | some p ↦ record k { config = p } ])

  unfoldable pub back_up_config : Order → Backups → Work H Backups
  unfolding save_config payload_bool
  back_up_config o k = if not o.install && overwrites o then save_config o k else pure k

  unfoldable pub check_hash : Order → (artifact : Text) → Work H (Unit {0})
  unfolding field_of sha256_file_hex
  check_hash o artifact = do
    say o.id (codes "VERIFYING")
    got ← look (sha256_file_hex H artifact)
    on_value got (stop o.id artifact_unread []) λ h.
        require o.id (h == wanted_sha o) wrong_hash
          ((codes "want", text (wanted_sha o)) ∷ (codes "got", text h) ∷ [])

  unfoldable pub deploy : Order → Backups → (artifact : Text) → Work H (Unit {0})
  unfolding check_hash back_up_config put_in_place write_config write_unit field_of
      signed_get_to_file
  deploy o k artifact = do
    say o.id (codes "DOWNLOADING")
    downloaded ←
        attempt (signed_get_to_file H (field_of o.payload (codes "download_path")) artifact)
    require o.id downloaded not_downloaded []
    check_hash o artifact
    saved ← back_up_config o k
    put_in_place o artifact
    write_config o saved
    write_unit o saved

  unfoldable pub back_up_unit : Order → Backups → Work H Backups
  unfolding read_file_maybe_sudo write_backup_bytes effective_service_path
  back_up_unit o k = do
    old ← look (read_file_maybe_sudo H (unit_of o))
    on_bytes old (pure k) λ b. do
      saved ← write_backup_bytes H b o.setup.settings.backup_dir (codes "xrayr-unit")
      on_value saved (stop o.id unit_not_backed_up [])
          λ p. pure (record k { unit = p; had_unit = true })

  unfoldable pub back_up_binary : Order → Work H Backups
  unfolding backup_file_to_dir back_up_unit effective_binary_path
  back_up_binary o = do
    say o.id (codes "BACKUP")
    saved ← backup_file_to_dir H (binary_of o) o.setup.settings.backup_dir (codes "xrayr-bin")
    on_value saved (stop o.id not_backed_up [])
        λ p. back_up_unit o (record no_backups { binary = p })

  unfoldable pub back_up : Order → Work H Backups
  unfolding back_up_binary
  back_up o = if o.install then pure no_backups else back_up_binary o

  unfoldable pub run_xrayr_install_upgrade : Order → Work H (Unit {0})
  unfolding back_up deploy artifact_file validate_install_payload validate_local_service_name
      paths_allowed dirs_allowed effective_binary_path config_path effective_service_path
  run_xrayr_install_upgrade o = do
    require o.id (o.setup.goos == codes "linux") not_linux []
    say o.id (codes "CHECKING")
    admit o.id (validate_install_payload o.setup o.payload)
    admit o.id (validate_local_service_name o.setup.settings.service_name)
    require o.id (paths_allowed o.setup) paths_refused (
        (codes "binary", text (binary_of o))
        ∷ (codes "config", text (config_of o))
        ∷ (codes "service", text (unit_of o))
        ∷ [])
    require o.id (dirs_allowed o.setup) dirs_refused []
    change (H.os.mkdir_all o.setup.artifact_cache_dir)
    change (H.os.mkdir_all o.setup.settings.backup_dir)
    exists ← look (H.is_file (binary_of o))
    require o.id (not (o.install && exists)) already_installed []
    require o.id (o.install || exists) not_installed []
    saved ← back_up o
    artifact ← look (λ m. artifact_file o (H.nanos m))
    deferring (H.os.remove artifact) (deploy o saved artifact)

  -- RunInstallXrayR and RunUpgradeXrayR: the white list of commands, and the body.
  unfoldable pub run_install_or_upgrade : Order → Work H (Unit {0})
  unfolding run_xrayr_install_upgrade
  run_install_or_upgrade o = do
    require o.id
        (is_allowed o.setup.settings.allow_commands
          (if o.install then codes "INSTALL_XRAYR" else codes "UPGRADE_XRAYR"))
        not_allowed []
    run_xrayr_install_upgrade o
