-- ===== src/Agent/Apply.antt =====
-- RunApplyConfig of cmdexec/exec.go: fetch, check, back up, replace, restart, roll back.
pub mod Outcomes
use center_agent.Prelude.{
  ℕ, ◌⊎◌, inl, inr, Bool, true, false, ◌||◌, ◌&&◌, not, Option, none, some, List, [], ◌∷◌, ◌++◌,
  ◌==◌, nat_eq, list_eq, if◌then◌else◌,
}
use center_agent.Prelude.Maps.{Map}
use center_agent.Prelude.Text.{Text, codes, to_lower, trim_space, decimal}
use center_agent.Prelude.Json.{Json, boolean, text, string_at}
use center_agent.Agent.Os.{Os}
use center_agent.Agent.Commands.{
  Settings, is_allowed, Failure, not_allowed, inactive, missing_fields, wrong_target,
  not_downloaded, wrong_hash, not_backed_up, not_written, not_replaced, Outcome, Message, progress,
  result, failing, succeeding, is_service_active, hash_of_file,
}

-- The hash that the center asks for.
unfoldable pub wanted_hash : Map Text Json → Text
unfolding string_at trim_space
wanted_hash payload =
    let given = string_at (codes "config_hash") payload in
    to_lower
      (trim_space (if given == [] then string_at (codes "content_sha256") payload else given))

-- The checks before the download: an error, or the path of the YAML and its hash.
unfoldable pub precheck : Text → Map Text Json → Outcome ⊎ (Text × Text)
unfolding wanted_hash
precheck local payload =
    let want = wanted_hash payload in
    let yaml = string_at (codes "yaml_path") payload in
    let target = trim_space (string_at (codes "target_config_path") payload) in
    if yaml == [] || want == []
    then inl (failing missing_fields [])
    else if not (target == []) && not (target == local)
    then inl
        (failing wrong_target ((codes "expected", text local) ∷ (codes "got", text target) ∷ []))
    else inr (yaml, want)

-- A run's surroundings: the command, the file's name, the stamps that name the backup and the
-- temporary file.
pub record Job : Type 0 where
  pub id : Text
  pub settings : Settings
  pub stamp : Text
  pub nanos : ℕ

abbrev pub config_file : Job → Text
config_file j = trim_space j.settings.config_path

unfoldable pub temp_file : Job → Text
unfolding decimal
temp_file j = config_file j ++ (codes ".tmp." ++ decimal j.nanos)

module _ (O : Os) where
  unfoldable pub backup_file : Job → Text
  backup_file j = O.join j.settings.backup_dir (codes "config-" ++ (j.stamp ++ codes ".yml"))

  -- The hash of the old file, empty if there was nothing to read.
  before_hash : Option Text → Text
  before_hash none = []
  before_hash (some b) = if b == [] then [] else O.sha256_hex b

  unfoldable pub restore : Job → Option Text → O.Machine → O.Machine
  restore j none m = m
  restore j (some b) m = if b == [] then m else (O.write_file (config_file j) b m).0

  -- After the new file is in place: the restart, and the rollback if the service is not active.
  unfoldable pub activate : Job → Option Text → O.Machine → O.Machine × List Message
  unfolding restore before_hash
  activate j old m =
      let service = j.settings.service_name in
      let up = O.sleep 2 (O.restart service m).0 in
      let saved =
        (codes "backup_path", text (backup_file j))
        ∷ (codes "before_config_hash", text (before_hash old))
        ∷ [] in
      if is_service_active O service up
      then (
        up,
        progress j.id (codes "restart")
            ∷ result j.id (
                succeeding (
                  saved
                  ++ ((codes "after_config_hash", text (hash_of_file O (config_file j) up)) ∷ [])))
            ∷ [],
      )
      else (
        (O.restart service (restore j old up)).0,
        progress j.id (codes "restart")
            ∷ progress j.id (codes "rollback")
            ∷ result j.id (failing inactive (saved ++ ((codes "rolled_back", boolean true) ∷ [])))
            ∷ [],
      )

  -- The temporary file and the replacement.
  unfoldable pub replace : Job → Text → Option Text → O.Machine → O.Machine × List Message
  unfolding activate temp_file
  replace j raw old m =
      let (m₁, written) = O.write_file (temp_file j) raw m in
      let (m₂, renamed) = O.rename (temp_file j) (config_file j) m₁ in
      let (m₃, rest) = activate j old m₂ in
      if written
      then (if renamed then (m₃, progress j.id (codes "write") ∷ rest) else (
        O.remove (temp_file j) m₂,
        progress j.id (codes "write") ∷ result j.id (failing not_replaced []) ∷ [],
      ))
      else (m₁, progress j.id (codes "write") ∷ result j.id (failing not_written []) ∷ [])

  unfoldable pub back_up : Job → Option Text → O.Machine → O.Machine × Bool
  unfolding backup_file
  back_up j none m = (m, true)
  back_up j (some b) m = O.write_file (backup_file j) b m

  -- The download is checked: the old file is backed up and the new one takes its place.
  unfoldable pub install : Job → Text → O.Machine → O.Machine × List Message
  unfolding back_up replace
  install j raw m =
      let m₁ = O.mkdir_all j.settings.backup_dir m in
      let old = O.read_file (config_file j) m₁ in
      let (m₂, saved) = back_up j old m₁ in
      if saved then replace j raw old m₂ else (m₂, result j.id (failing not_backed_up []) ∷ [])

  unfoldable pub download :
      Job → (Text → Option Text) → Text → Text → O.Machine → O.Machine × List Message
  unfolding install
  download j fetch yaml want m = elim (fetch yaml) [
    | none ↦ (m, result j.id (failing not_downloaded []) ∷ [])
    | some raw ↦ if O.sha256_hex raw == want then install j raw m else (
      m,
      result j.id (
            failing wrong_hash
              ((codes "want", text want) ∷ (codes "got", text (O.sha256_hex raw)) ∷ []))
          ∷ [],
    )
  ]

  -- `fetch` is what SignedGET answers.
  unfoldable pub run_apply_config :
      Job → (Text → Option Text) → Map Text Json → O.Machine → O.Machine × List Message
  unfolding precheck download
  run_apply_config j fetch payload m =
      if is_allowed j.settings.allow_commands (codes "APPLY_CONFIG")
      then elim (precheck (config_file j) payload) [
        | inl o ↦ (m, progress j.id (codes "precheck") ∷ result j.id o ∷ [])
        | inr (yaml, want) ↦
            let (m', rest) = download j fetch yaml want m in
            (m', progress j.id (codes "precheck") ∷ progress j.id (codes "download") ∷ rest)
      ]
      else (m, result j.id (failing not_allowed []) ∷ [])
