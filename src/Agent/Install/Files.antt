-- ===== src/Agent/Install/Files.antt =====
-- The files that an installation writes, its backups, and how a failed one puts them back.
use center_agent.Prelude.{
  ℕ, Bool, true, false, ◌&&◌, not, Option, none, some, List, [], ◌∷◌, ◌++◌, ◌==◌, nat_eq, list_eq,
  if◌then◌else◌,
}
use center_agent.Prelude.Text.{Text, codes, decimal, dir}
use center_agent.Agent.Install.Host.{Host, read_file_maybe_sudo}
use center_agent.Agent.Install.Tasks.{
  Task, ◌>>=◌, ◌>>◌, pure, call, attempt, change, look, say, on_value, on_bytes,
}
use center_agent.Agent.Install.Checks.{
  Setup, effective_binary_path, effective_service_path, config_path,
}

-- The backups of an upgrade; an empty path stands for none.
pub record Backups : Type 0 where
  pub binary : Text
  pub unit : Text
  pub config : Text
  pub had_unit : Bool

abbrev pub no_backups : Backups
no_backups = record { binary = []; unit = []; config = []; had_unit = false }

unfoldable pub render_systemd_unit : (binary config : Text) → Text
unfolding dir
render_systemd_unit binary config =
    codes "[Unit]\nDescription=XrayR\nAfter=network.target\n\n[Service]\nType=simple\n"
    ++ (codes "WorkingDirectory="
        ++ (dir config
            ++ (codes "\nExecStart="
                ++ (binary
                    ++ (codes " --config "
                        ++ (config
                            ++ codes
                                "\nRestart=on-failure\nRestartSec=10\n\n[Install]\nWantedBy=multi-user.target\n"))))))

module _ (H : Host) where
  abbrev pub Work : Type 0 → Type 0
  Work A = Task H.os.Machine A

  unfoldable pub backup_path : (dir prefix stamp : Text) → Text
  backup_path d prefix stamp = H.os.join d (prefix ++ (codes "-" ++ (stamp ++ codes ".bak")))

  -- The path of the backup, or nothing if the write fails.
  unfoldable pub write_backup_bytes : (b dir prefix : Text) → Work (Option Text)
  unfolding backup_path
  write_backup_bytes b d prefix = do
    change (H.os.mkdir_all d)
    dst ← look (λ m. backup_path d prefix (H.stamp m))
    written ← attempt (H.os.write_file dst b)
    pure (if written then some dst else none)

  unfoldable pub backup_file_to_dir : (src dir prefix : Text) → Work (Option Text)
  unfolding write_backup_bytes read_file_maybe_sudo
  backup_file_to_dir src d prefix = do
    read ← look (read_file_maybe_sudo H src)
    on_value read (pure none) (λ b. write_backup_bytes b d prefix)

  unfoldable pub copy_file_chmod : (src dst : Text) → Work Bool
  copy_file_chmod src dst = do
    read ← look (H.os.read_file src)
    on_value read (pure false) (λ b. attempt (H.os.write_file dst b))

  unfoldable pub written_file : ℕ → Text
  unfolding decimal
  written_file n = H.os.join H.temp_dir (codes "xrayr-agent-wr-" ++ decimal n)

  unfoldable pub write_file_via_sudo : (dest b mode : Text) → Work Bool
  unfolding written_file
  write_file_via_sudo dest b mode = do
    tmp ← look (λ m. written_file (H.nanos m))
    written ← attempt (H.os.write_file tmp b)
    if written
        then (do done ← attempt (H.sudo_install mode tmp dest); change (H.os.remove tmp); pure done)
        else pure false

  abbrev pub put_binary : (from dest : Text) → Work Bool
  put_binary from dest = attempt (H.sudo_install (codes "0755") from dest)

  unfoldable pub rollback_bin : (binary backup : Text) → Work (Unit {0})
  rollback_bin binary backup =
      if backup == []
      then call (H.sudo_rm binary)
      else call (H.sudo_install (codes "0755") backup binary)

  -- A backup that cannot be read, or is empty, is not written back.
  unfoldable pub write_back : (backup dest mode : Text) → Work (Unit {0})
  unfolding write_file_via_sudo
  write_back backup dest mode = do
    read ← look (H.os.read_file backup)
    on_bytes read (pure tt) (λ b. write_file_via_sudo dest b mode >>= λ _. pure tt)

  unfoldable pub rollback_upgrade : Setup → Backups → Work (Unit {0})
  unfolding write_back effective_binary_path effective_service_path
  rollback_upgrade s k = do
    if k.binary == []
        then pure tt
        else call (H.sudo_install (codes "0755") k.binary (effective_binary_path s))
    if k.had_unit && not (k.unit == [])
        then write_back k.unit (effective_service_path s) (codes "0644")
        else pure tt

  unfoldable pub rollback_install : Setup → (install : Bool) → Backups → Work (Unit {0})
  unfolding rollback_upgrade effective_binary_path effective_service_path
  rollback_install s false k = rollback_upgrade s k
  rollback_install s true k = do
    call (H.sudo_rm (effective_binary_path s))
    call (H.sudo_rm (effective_service_path s))

  unfoldable pub rollback_full : Setup → (install : Bool) → Backups → Work (Unit {0})
  unfolding rollback_upgrade write_back effective_binary_path effective_service_path config_path
  rollback_full s true k = do
    call (H.sudo_rm (effective_binary_path s))
    call (H.sudo_rm (effective_service_path s))
  rollback_full s false k = do
    rollback_upgrade s k
    if k.config == [] then pure tt else write_back k.config (config_path s) (codes "0600")

  abbrev pub systemctl : List Text → Work Bool
  systemctl words = attempt (H.systemctl words)

  unfoldable pub systemctl_restart : (id service : Text) → Work Bool
  systemctl_restart id service = do
    done ← systemctl (codes "restart" ∷ service ∷ [])
    if done then pure true else (say id (codes "ROLLBACK") >> pure false)
