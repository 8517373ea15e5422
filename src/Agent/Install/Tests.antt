-- ===== src/Agent/Install/Tests.antt =====
-- Installations on a concrete machine, and the theorems at concrete data.
use center_agent.Prelude.{
  ◌≡◌, ◌≢◌, refl, ap, Bool, true, false, ◌&&◌, Option, none, some, [], ◌∷◌, ◌++◌, arith, ◌==◌,
  ==_iff, nat_eq, list_eq, if◌then◌else◌, Option-cases, inl, inr,
}
use center_agent.Prelude.Maps.{Map, load, store, delete, load-store, load-store_self, load-delete}
use center_agent.Prelude.Json.{Json, text}
use center_agent.Prelude.Text.{
  Text, codes, trim_space, has_prefix, decimal, split, kept_parts, clean, base, dir,
}
use center_agent.Agent.Os.{Os, IsOs}
use center_agent.Agent.Commands.{is_allowed, is_service_active, results, Outcome}
use center_agent.Agent.Tests.{plain_os, plain_os-IsOs}
use center_agent.Agent.Install.Host.{
  Host, IsHost, move_into_place, save_body, signed_get_to_file, read_file_maybe_sudo,
  sha256_file_hex,
}
use center_agent.Agent.Install.Tasks.{
  then_turn, ◌>>=◌, pure, call, attempt, change, look, say, finish, require, on_value, on_bytes,
  admit, deferring,
}
use center_agent.Agent.Install.Checks.{
  Setup, str_from, field_of, payload_bool, service_name, effective_binary_path,
  effective_service_path, config_path, arch_matches_payload, validate_install_payload,
  validate_local_service_name, allowed_binary_path, allowed_config_path, allowed_service_path,
  dir_allowed, paths_allowed, dirs_allowed,
}
use center_agent.Agent.Install.Files.{
  render_systemd_unit, backup_path, write_backup_bytes, backup_file_to_dir, copy_file_chmod,
  written_file, write_file_via_sudo, rollback_bin, write_back, rollback_upgrade, rollback_install,
  rollback_full, systemctl_restart,
}
use center_agent.Agent.Install.Run.{
  Order, unit_text, artifact_file, new_file, verify, restart, write_unit, write_initial_config,
  overwrite_config, write_config, put_new, put_in_place, save_config, back_up_config, check_hash,
  deploy, back_up_unit, back_up_binary, back_up, run_xrayr_install_upgrade, run_install_or_upgrade,
}
use center_agent.Agent.Install.Undo.{Apart}
use center_agent.Agent.Install.Stages.{Ended}
use center_agent.Agent.Install.Frame.{
  Touched, binary, config, unit, fresh, artifact, part, backup, written,
}
use center_agent.Agent.Install.Untouched.{run_install_or_upgrade-content}
use center_agent.Agent.Install.Reports.{run_install_or_upgrade-Ended}

abbrev program : Text
program = codes "/usr/local/bin/XrayR"

abbrev filler : Text
filler = codes "0000000000000000000000000000000000000000000000000000000000000"

-- The service runs unless its program is `bad`. A hash is the text, filled up to 64 characters.
abbrev box_os : Os
box_os = record plain_os {
  query_active = λ s m. elim (load program m) [
    | none ↦ none
    | some b ↦ if b == codes "bad" then none else some (codes "active")
  ];
  sha256_hex = λ b. b ++ filler;
}

box_os-IsOs : IsOs box_os
box_os-IsOs = record {
  content-read_file = plain_os-IsOs.content-read_file;
  content-write_file = plain_os-IsOs.content-write_file;
  content-write_file_other = plain_os-IsOs.content-write_file_other;
  content-rename = plain_os-IsOs.content-rename;
  content-rename_failed = plain_os-IsOs.content-rename_failed;
  content-rename_other = plain_os-IsOs.content-rename_other;
  content-remove = plain_os-IsOs.content-remove;
  content-mkdir_all = plain_os-IsOs.content-mkdir_all;
  content-restart = plain_os-IsOs.content-restart;
  content-sleep = plain_os-IsOs.content-sleep;
}

abbrev copied : Text → Text → Map Text Text → Map Text Text × Bool
copied p q m = elim (load p m) [ none ↦ (m, false) | some b ↦ (store q b m, true) ]

-- The center serves `body`.
abbrev box : Text → Host
box body = record {
  os = box_os;
  is_file = λ p m. elim (load p m) [ none ↦ false | some _ ↦ true ];
  sudo_cat = λ p m. load p m;
  sudo_mkdir = λ ps m. (m, true);
  sudo_install = λ mode p q m. copied p q m;
  sudo_rm = λ p m. (delete p m, true);
  systemctl = λ words m. (m, true);
  temp_dir = codes "/tmp";
  stamp = λ m. codes "20250101-000000";
  nanos = λ m. 7;
  ask = λ path m. some (record { status = 200; body = body; complete = true });
}

copied_done :
    (p q : Text) (m : Map Text Text) → (copied p q m).1 ≡ true → load q (copied p q m).0 ≡ load p m
copied_done p q m h = elim (Option-cases (load p m)) [
  | inl e ↦ ground (arith, e)
  | inr (b, e) ↦ rw (copied, e) (load-store_self q b m)
]

copied_other : (p q r : Text) (m : Map Text Text) → r ≢ q → load r (copied p q m).0 ≡ load r m
copied_other p q r m h = elim (Option-cases (load p m)) [
  | inl e ↦ rw (copied, e) refl
  | inr (b, e) ↦ rw (copied, e) (ground (arith, load-store q r b m, ==_iff r q))
]

box-IsHost : (body : Text) → IsHost (box body)
box-IsHost body = record {
  os = box_os-IsOs;
  content-sudo_cat = λ p b m h. h;
  content-sudo_mkdir = λ ps q m. refl;
  content-sudo_install = λ mode p q m h. copied_done p q m h;
  content-sudo_install_other = λ mode p q r m h. copied_other p q r m h;
  content-sudo_rm = λ p m h. rw (load-delete p p m) (ground (arith, ==_iff p p));
  content-sudo_rm_other = λ p q m h. ground (arith, load-delete p q m, ==_iff q p);
  content-systemctl = λ words q m. refl;
}

abbrev setup : Setup
setup = record {
  settings = record {
    allow_commands = codes "INSTALL_XRAYR" ∷ codes "UPGRADE_XRAYR" ∷ [];
    backup_dir = codes "/var/lib/xrayr-agent/backups";
    config_path = codes "/etc/XrayR/config.yml";
    service_name = codes "xrayr";
  };
  artifact_cache_dir = codes "/var/lib/xrayr-agent/artifacts";
  yml_binary_path = program;
  yml_service_path = codes "/etc/systemd/system/xrayr.service";
  goos = codes "linux";
  goarch = codes "amd64";
}

abbrev payload : Text → Map Text Json
payload body =
    (codes "service_name", text (codes "XrayR"))
    ∷ (codes "target_binary_path", text program)
    ∷ (codes "target_config_path", text (codes "/etc/XrayR/config.yml"))
    ∷ (codes "target_service_path", text (codes "/etc/systemd/system/xrayr.service"))
    ∷ (codes "target_os", text (codes "Linux"))
    ∷ (codes "target_arch", text (codes "x86_64"))
    ∷ (codes "download_path", text (codes "/api/agent/artifacts/3/download"))
    ∷ (codes "sha256", text (body ++ filler))
    ∷ []

abbrev order : Text → Bool → Order
order body install = record {
  id = codes "c7";
  payload = payload body;
  setup = setup;
  install = install;
}

abbrev machine : Map Text Text
machine = (program, codes "old") ∷ []

-- The program on the machine, after a run with the artifact `body`.
abbrev program_after : Text → Bool → Option Text
program_after body install =
    load program ((run_install_or_upgrade (box body) (order body install)).run machine).after

-- The new artifact takes the old program's place.
upgrade_done : program_after (codes "new") false ≡ some (codes "new")
unfolding run_install_or_upgrade then_turn ◌>>=◌ pure call attempt change look say finish require
    on_value on_bytes admit deferring move_into_place save_body signed_get_to_file
    read_file_maybe_sudo sha256_file_hex str_from field_of payload_bool service_name
    effective_binary_path effective_service_path config_path arch_matches_payload
    validate_install_payload validate_local_service_name allowed_binary_path allowed_config_path
    allowed_service_path dir_allowed paths_allowed dirs_allowed render_systemd_unit backup_path
    write_backup_bytes backup_file_to_dir copy_file_chmod written_file write_file_via_sudo
    rollback_bin write_back rollback_upgrade rollback_install rollback_full systemctl_restart
    unit_text artifact_file new_file verify restart write_unit write_initial_config overwrite_config
    write_config put_new put_in_place save_config back_up_config check_hash deploy back_up_unit
    back_up_binary back_up run_xrayr_install_upgrade load store delete trim_space decimal split
    kept_parts clean base dir is_allowed is_service_active
upgrade_done = refl

-- A program that does not run is replaced by the old one.
upgrade_undone : program_after (codes "bad") false ≡ some (codes "old")
unfolding run_install_or_upgrade then_turn ◌>>=◌ pure call attempt change look say finish require
    on_value on_bytes admit deferring move_into_place save_body signed_get_to_file
    read_file_maybe_sudo sha256_file_hex str_from field_of payload_bool service_name
    effective_binary_path effective_service_path config_path arch_matches_payload
    validate_install_payload validate_local_service_name allowed_binary_path allowed_config_path
    allowed_service_path dir_allowed paths_allowed dirs_allowed render_systemd_unit backup_path
    write_backup_bytes backup_file_to_dir copy_file_chmod written_file write_file_via_sudo
    rollback_bin write_back rollback_upgrade rollback_install rollback_full systemctl_restart
    unit_text artifact_file new_file verify restart write_unit write_initial_config overwrite_config
    write_config put_new put_in_place save_config back_up_config check_hash deploy back_up_unit
    back_up_binary back_up run_xrayr_install_upgrade load store delete trim_space decimal split
    kept_parts clean base dir is_allowed is_service_active
upgrade_undone = refl

-- An installation over an old program is refused.
install_refused : program_after (codes "new") true ≡ some (codes "old")
unfolding run_install_or_upgrade then_turn ◌>>=◌ pure call attempt change look say finish require
    on_value on_bytes admit deferring move_into_place save_body signed_get_to_file
    read_file_maybe_sudo sha256_file_hex str_from field_of payload_bool service_name
    effective_binary_path effective_service_path config_path arch_matches_payload
    validate_install_payload validate_local_service_name allowed_binary_path allowed_config_path
    allowed_service_path dir_allowed paths_allowed dirs_allowed render_systemd_unit backup_path
    write_backup_bytes backup_file_to_dir copy_file_chmod written_file write_file_via_sudo
    rollback_bin write_back rollback_upgrade rollback_install rollback_full systemctl_restart
    unit_text artifact_file new_file verify restart write_unit write_initial_config overwrite_config
    write_config put_new put_in_place save_config back_up_config check_hash deploy back_up_unit
    back_up_binary back_up run_xrayr_install_upgrade load store delete trim_space decimal split
    kept_parts clean base dir is_allowed is_service_active
install_refused = refl

apart_by : (a b s : Text) → has_prefix a s ≡ true → has_prefix b s ≡ false → a ≢ b
apart_by a b s h k e = ground (arith, h, k, ap (λ t. has_prefix t s) e)

order-Apart : (body : Text) → Apart (box body) (order body false)
unfolding trim_space effective_binary_path effective_service_path service_name config_path
    artifact_file backup_path written_file new_file
order-Apart body = record {
  binary_config = apart_by _ _ (codes "/u") refl refl;
  binary_unit = apart_by _ _ (codes "/u") refl refl;
  binary_backup = λ p s. apart_by _ _ (codes "/u") refl refl;
  binary_artifact = λ n. apart_by _ _ (codes "/u") refl refl;
  binary_part = λ n. apart_by _ _ (codes "/u") refl refl;
  binary_written = λ n. apart_by _ _ (codes "/u") refl refl;
  config_written = λ n. apart_by _ _ (codes "/e") refl refl;
  unit_written = λ n. apart_by _ _ (codes "/e") refl refl;
  unit_artifact = λ n. apart_by _ _ (codes "/e") refl refl;
  artifact_backup = λ n s. apart_by _ _ (codes "/var/lib/xrayr-agent/a") refl refl;
  aside = λ s. record {
    some_path = apart_by _ _ (codes "/") refl refl;
    binary = apart_by _ _ (codes "/v") refl refl;
    config = apart_by _ _ (codes "/v") refl refl;
    unit = apart_by _ _ (codes "/v") refl refl;
    unit_backup = λ t. apart_by _ _ (codes "/var/lib/xrayr-agent/backups/xrayr-b") refl refl;
    config_backup = λ t. apart_by _ _ (codes "/var/lib/xrayr-agent/backups/xrayr-b") refl refl;
    artifact = λ n. apart_by _ _ (codes "/var/lib/xrayr-agent/b") refl refl;
    part = λ n. apart_by _ _ (codes "/var/lib/xrayr-agent/b") refl refl;
    fresh = λ n. apart_by _ _ (codes "/v") refl refl;
    written = λ n. apart_by _ _ (codes "/v") refl refl;
  };
}

run_install_or_upgrade-Ended_example :
    let o = order (codes "bad") false in
    let end = (run_install_or_upgrade (box (codes "bad")) o).run machine in
    (r : Outcome) × (results end.sent ≡ r ∷ []) × Ended (box (codes "bad")) o machine r end.after
run_install_or_upgrade-Ended_example =
    run_install_or_upgrade-Ended (box-IsHost (codes "bad")) (order (codes "bad") false) machine
      (order-Apart (codes "bad"))

-- A file that no run touches: its path begins like none of theirs.
passwd-untouched :
    (body : Text)
    → Touched (box body) (order body false) (codes "/etc/passwd")
    → (paths_allowed (order body false).setup && dirs_allowed (order body false).setup) ≡ false
unfolding trim_space effective_binary_path effective_service_path service_name config_path
    artifact_file backup_path written_file new_file
passwd-untouched body (binary e) = absurd (apart_by _ _ (codes "/etc/p") refl refl e)
passwd-untouched body (config e) = absurd (apart_by _ _ (codes "/etc/p") refl refl e)
passwd-untouched body (unit e) = absurd (apart_by _ _ (codes "/etc/p") refl refl e)
passwd-untouched body (fresh n e) = absurd (apart_by _ _ (codes "/etc/p") refl refl e)
passwd-untouched body (artifact n e) = absurd (apart_by _ _ (codes "/etc/p") refl refl e)
passwd-untouched body (part n e) = absurd (apart_by _ _ (codes "/etc/p") refl refl e)
passwd-untouched body (backup p t e) = absurd (apart_by _ _ (codes "/etc/p") refl refl e)
passwd-untouched body (written n e) = absurd (apart_by _ _ (codes "/etc/p") refl refl e)

run_install_or_upgrade-content_example :
    load
      (codes "/etc/passwd")
      ((run_install_or_upgrade (box (codes "new")) (order (codes "new") false)).run machine).after
    ≡ load (codes "/etc/passwd") machine
run_install_or_upgrade-content_example =
    run_install_or_upgrade-content (box-IsHost (codes "new")) (order (codes "new") false)
      (codes "/etc/passwd") machine (passwd-untouched (codes "new"))
