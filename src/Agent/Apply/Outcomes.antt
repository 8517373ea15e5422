-- ===== src/Agent/Apply/Outcomes.antt =====
-- What a run of RunApplyConfig leaves in the configuration file, and what it reports.
use center_agent.Prelude.{
  ◌≡◌, ◌≢◌, refl, ap, sym, ◌∙◌, ◌⊎◌, inl, inr, ◌||◌, ◌&&◌, not, true, false, Option, none, some,
  List, [], ◌∷◌, ◌++◌, arith, ◌==◌, ==_iff, nat_eq, list_eq, length, length-append, Bool-cases,
  Option-cases,
}
use center_agent.Prelude.Maps.{Map, load}
use center_agent.Prelude.Text.{Text, codes, trim_space}
use center_agent.Prelude.Json.{Json, boolean, text, string_at}
use center_agent.Agent.Os.{Os, IsOs}
use center_agent.Agent.Commands.{
  Failure, inactive, progress, not_written, not_replaced, not_backed_up, not_downloaded, wrong_hash,
  not_allowed, Message, missing_fields, wrong_target, failing, succeeding, results,
  is_service_active, is_allowed,
}
use center_agent.Agent.Apply.{
  Job, config_file, temp_file, backup_file, wanted_hash, precheck, restore, activate, replace,
  back_up, install, download, run_apply_config,
}

-- The configuration that a run from `m₀` reads before it replaces it.
abbrev pub old_of : (O : Os) → Job → O.Machine → Option Text
old_of O j m₀ = O.read_file (config_file j) (O.mkdir_all j.settings.backup_dir m₀)

-- Two seconds after the restart with the new file.
abbrev pub started : (O : Os) → Job → (raw : Text) → O.Machine → O.Machine
started O j raw m₀ =
    let saved = (back_up O j (old_of O j m₀) (O.mkdir_all j.settings.backup_dir m₀)).0 in
    let replaced =
      (O.rename (temp_file j) (config_file j) (O.write_file (temp_file j) raw saved).0).0 in
    O.sleep 2 (O.restart j.settings.service_name replaced).0

-- Why the old file did not come back, and the machine then: it could not be read, it was empty, or it
-- was written back and the write failed. The service was restarted.
pub data Unrestorable (O : Os) (j : Job) (old : Option Text) (up m : O.Machine) : Type 0 where
  unread : old ≡ none → m ≡ (O.restart j.settings.service_name up).0 → Unrestorable O j old up m
  empty : old ≡ some [] → m ≡ (O.restart j.settings.service_name up).0 → Unrestorable O j old up m
  refused :
      (b : Text)
      → old ≡ some b
      → (O.write_file (config_file j) b up).1 ≡ false
      → m ≡ (O.restart j.settings.service_name (O.write_file (config_file j) b up).0).0
      → Unrestorable O j old up m

-- How a run from `m₀` ends in `m`, where the download gives `given` and the hash is to be `want`.
pub data Ended (O : Os) (j : Job) (want : Text) (given : Option Text) (m₀ m : O.Machine)
    (ms : List Message) : Type 0 where
  applied :
      (raw : Text) (extra : Map Text Json)
      → given ≡ some raw
      → O.sha256_hex raw ≡ want
      → O.content (config_file j) m ≡ some raw
      → is_service_active O j.settings.service_name m ≡ true
      → results ms ≡ succeeding extra ∷ []
      → Ended O j want given m₀ m ms
  kept :
      (f : Failure) (extra : Map Text Json)
      → O.content (config_file j) m ≡ O.content (config_file j) m₀
      → results ms ≡ failing f extra ∷ []
      → Ended O j want given m₀ m ms
  stuck :
      (raw : Text) (up : O.Machine) (extra : Map Text Json)
      → given ≡ some raw
      → O.sha256_hex raw ≡ want
      → up ≡ started O j raw m₀
      → is_service_active O j.settings.service_name up ≡ false
      → Unrestorable O j (old_of O j m₀) up m
      → load (codes "rolled_back") extra ≡ some (boolean true)
      → results ms ≡ failing inactive extra ∷ []
      → Ended O j want given m₀ m ms

temp_file-config_file : (j : Job) → config_file j ≢ temp_file j
unfolding temp_file
temp_file-config_file j e =
    omega (arith, ap length e, length-append (config_file j) (codes ".tmp." ++ _))

module _ {O : Os} (K : IsOs O) (j : Job) (want : Text) (given : Option Text) (m₀ : O.Machine) where
  abbrev End : O.Machine × List Message → Type 0
  End (m, ms) = Ended O j want given m₀ m ms

  announced :
      {m : O.Machine} {ms : List Message} {id step : Text}
      → End (m, ms)
      → End (m, progress id step ∷ ms)
  announced (applied raw extra g h c a r) = applied raw extra g h c a r
  announced (kept f extra c r) = kept f extra c r
  announced (stuck raw up extra g h s d u told r) = stuck raw up extra g h s d u told r

  -- The end of the rollback: the old file is back, or it could not come back.
  restore-Ended :
      (raw : Text) (old : Option Text) (up : O.Machine) (ms : List Message) (extra : Map Text Json)
      → old_of O j m₀ ≡ old
      → ((b : Text) → old ≡ some b → O.content (config_file j) m₀ ≡ some b)
      → given ≡ some raw
      → O.sha256_hex raw ≡ want
      → up ≡ started O j raw m₀
      → is_service_active O j.settings.service_name up ≡ false
      → load (codes "rolled_back") extra ≡ some (boolean true)
      → results ms ≡ failing inactive extra ∷ []
      → End ((O.restart j.settings.service_name (restore O j old up)).0, ms)
  unfolding restore
  restore-Ended raw none up ms extra e was g h s down told r =
      stuck raw up extra g h s down (unread e refl) told r
  restore-Ended raw (some []) up ms extra e was g h s down told r =
      stuck raw up extra g h s down (empty e refl) told r
  restore-Ended raw (some (c ∷ b)) up ms extra e was g h s down told r =
      let path = config_file j in
      elim (Bool-cases (O.write_file path (c ∷ b) up).1) [
        | inl written ↦
            kept inactive extra
              (K.content-restart j.settings.service_name path (O.write_file path (c ∷ b) up).0
                ∙ (K.content-write_file path (c ∷ b) up written ∙ sym (was (c ∷ b) refl)))
              r
        | inr refusal ↦ stuck raw up extra g h s down (refused (c ∷ b) e refusal refl) told r
      ]

  activate-Ended :
      (raw : Text) (old : Option Text) (m : O.Machine)
      → old_of O j m₀ ≡ old
      → O.sleep 2 (O.restart j.settings.service_name m).0 ≡ started O j raw m₀
      → ((b : Text) → old ≡ some b → O.content (config_file j) m₀ ≡ some b)
      → given ≡ some raw
      → O.sha256_hex raw ≡ want
      → O.content (config_file j) m ≡ some raw
      → End (activate O j old m)
  unfolding activate load
  activate-Ended raw old m e s was g h now =
      let service = j.settings.service_name in
      let up = O.sleep 2 (O.restart service m).0 in
      let still =
        K.content-sleep 2 (config_file j) (O.restart service m).0
        ∙ (K.content-restart service (config_file j) m ∙ now) in
      elim (Bool-cases (is_service_active O service up)) [
        | inl up_again ↦ rw up_again (applied raw _ g h still up_again refl)
        | inr down ↦ rw down (restore-Ended raw old up _ _ e was g h s down refl refl)
      ]

  replace-Ended :
      (raw : Text) (old : Option Text) (m : O.Machine)
      → old_of O j m₀ ≡ old
      → m ≡ (back_up O j (old_of O j m₀) (O.mkdir_all j.settings.backup_dir m₀)).0
      → ((b : Text) → old ≡ some b → O.content (config_file j) m₀ ≡ some b)
      → given ≡ some raw
      → O.sha256_hex raw ≡ want
      → O.content (config_file j) m ≡ O.content (config_file j) m₀
      → End (replace O j raw old m)
  unfolding replace
  replace-Ended raw old m e s was g h same =
      let tmp = temp_file j in
      let path = config_file j in
      let m₁ = (O.write_file tmp raw m).0 in
      let m₂ = (O.rename tmp path m₁).0 in
      let aside = temp_file-config_file j in
      let after_replacing : O.Machine → O.Machine = λ x.
        O.sleep 2
          (O.restart j.settings.service_name (O.rename tmp path (O.write_file tmp raw x).0).0).0 in
      let still = K.content-write_file_other tmp path raw m aside ∙ same in
      elim (Bool-cases (O.write_file tmp raw m).1) [
        | inr bad ↦ rw bad (kept not_written [] still refl)
        | inl written ↦ elim (Bool-cases (O.rename tmp path m₁).1) [
          | inr bad ↦
              rw (written, bad)
                (kept not_replaced []
                  (K.content-remove tmp path m₂ aside
                    ∙ (K.content-rename_failed tmp path path m₁ bad ∙ still))
                  refl)
          | inl renamed ↦
              rw (written, renamed)
                (announced (
                  activate-Ended raw old m₂ e (ap after_replacing s) was g h (
                    K.content-rename tmp path m₁ renamed ∙ K.content-write_file tmp raw m written)))
        ]
      ]

  module _ (apart : config_file j ≢ backup_file O j) where
    back_up-content :
        (old : Option Text) (m : O.Machine)
        → O.content (config_file j) (back_up O j old m).0 ≡ O.content (config_file j) m
    unfolding back_up
    back_up-content none m = refl
    back_up-content (some b) m = K.content-write_file_other (backup_file O j) _ b m apart

    install-Ended :
        (raw : Text) → given ≡ some raw → O.sha256_hex raw ≡ want → End (install O j raw m₀)
    unfolding install
    install-Ended raw g h =
        let m₁ = O.mkdir_all j.settings.backup_dir m₀ in
        let old = O.read_file (config_file j) m₁ in
        let same = K.content-mkdir_all j.settings.backup_dir (config_file j) m₀ in
        let kept_old = back_up-content old m₁ ∙ same in
        elim (Bool-cases (back_up O j old m₁).1) [
          | inr bad ↦ rw bad (kept not_backed_up [] kept_old refl)
          | inl saved ↦ rw saved (
              replace-Ended raw old (back_up O j old m₁).0 refl refl
                (λ b e. sym same ∙ K.content-read_file (config_file j) b m₁ e) g h kept_old)
        ]

    download-Ended :
        (fetch : Text → Option Text) (yaml : Text)
        → given ≡ fetch yaml
        → End (download O j fetch yaml want m₀)
    unfolding download
    download-Ended fetch yaml e = elim (Option-cases (fetch yaml)) [
      | inl none_given ↦ rw (download, none_given) (kept not_downloaded [] refl refl)
      | inr (raw, got) ↦ elim (Bool-cases (O.sha256_hex raw == want)) [
        | inr bad ↦ rw (download, got, bad) (kept wrong_hash _ refl refl)
        | inl same ↦
            rw (download, got, same)
              (install-Ended raw (e ∙ got) ((==_iff (O.sha256_hex raw) want).0 same))
      ]
    ]

precheck-cases :
    (local : Text) (payload : Map Text Json)
    → ((f : Failure) × (extra : Map Text Json) × (precheck local payload ≡ inl (failing f extra)))
      ⊎ (precheck local payload ≡ inr (string_at (codes "yaml_path") payload, wanted_hash payload))
unfolding precheck
precheck-cases local payload =
    let want = wanted_hash payload in
    let yaml = string_at (codes "yaml_path") payload in
    let target = trim_space (string_at (codes "target_config_path") payload) in
    elim (Bool-cases (yaml == [] || want == [])) [
      | inl lacking ↦ inl (missing_fields, [], rw lacking refl)
      | inr given ↦ elim (Bool-cases (not (target == []) && not (target == local))) [
        | inl other ↦ inl (
          wrong_target,
          (codes "expected", text local) ∷ (codes "got", text target) ∷ [],
          rw (given, other) refl,
        )
        | inr fits ↦ inr (rw (given, fits) refl)
      ]
    ]

module _ {O : Os} (K : IsOs O) where
  -- Where the backup is not the configuration file itself, every run reports exactly one result. It
  -- reports success with the downloaded text, whose hash is the wanted one, in the configuration
  -- file and an active service; or a failure with the file as it was; or a failed start of the new
  -- file, whose hash is the wanted one, said to be rolled back: the service was not active two seconds
  -- after its restart, the old file had been unreadable or empty, or was written back and the write
  -- failed, and the service was restarted.
  pub run_apply_config-Ended :
      (j : Job) (fetch : Text → Option Text) (payload : Map Text Json) (m : O.Machine)
      → config_file j ≢ backup_file O j
      → let (m', ms) = run_apply_config O j fetch payload m in
        Ended O j (wanted_hash payload) (fetch (string_at (codes "yaml_path") payload)) m m' ms
  unfolding run_apply_config
  run_apply_config-Ended j fetch payload m apart =
      elim (Bool-cases (is_allowed j.settings.allow_commands (codes "APPLY_CONFIG"))) [
        | inr bad ↦ rw bad (kept not_allowed [] refl refl)
        | inl good ↦ elim (precheck-cases (config_file j) payload) [
          | inl (f, extra, refusal) ↦ rw (good, refusal) (kept f extra refl refl)
          | inr passed ↦
              rw (good, passed)
                (announced K j _ _ m
                  (announced K j _ _ m (download-Ended K j _ _ m apart fetch _ refl)))
        ]
      ]
