-- ===== src/Agent/Install/Writes.antt =====
-- The file operations of an installation change no file but those that they name.
use center_agent.Prelude.{
  leb, take, ℕ, ◌≡◌, ◌≢◌, refl, ◌∙◌, true, false, ◌&&◌, none, List, [], Bool-cases, Option-cases,
  inl, inr,
}
use center_agent.Prelude.Text.{Text, codes}
use center_agent.Agent.Install.Host.{
  Host, IsHost, Answer, part_file, size_limit, move_into_place, save_body, signed_get_to_file,
}
use center_agent.Agent.Install.Tasks.{call, attempt, change}
use center_agent.Agent.Install.Files.{
  Backups, backup_path, written_file, write_backup_bytes, backup_file_to_dir, copy_file_chmod,
  write_file_via_sudo, write_back, systemctl_restart,
}
use center_agent.Agent.Install.Run.{Order, save_config, back_up_config, check_hash, back_up_unit}
use center_agent.Agent.Install.Keeps.{
  Keeps, >>=-Keeps, pure-Keeps, say-Keeps, finish-Keeps, look-Keeps, look->>=-Keeps, call-Keeps,
  attempt-Keeps, change-Keeps, if-Keeps, on_value-Keeps, on_bytes-Keeps, require-Keeps,
}

module _ {H : Host} (K : IsHost H) {q : Text} where
  pub write_file-Keeps : (p b : Text) → q ≢ p → Keeps H q (attempt (H.os.write_file p b))
  write_file-Keeps p b h = attempt-Keeps _ (λ m. K.os.content-write_file_other p q b m h)

  pub remove-Keeps : (p : Text) → q ≢ p → Keeps H q (change (H.os.remove p))
  remove-Keeps p h = change-Keeps _ (λ m. K.os.content-remove p q m h)

  pub mkdir_all-Keeps : (p : Text) → Keeps H q (change (H.os.mkdir_all p))
  mkdir_all-Keeps p = change-Keeps _ (K.os.content-mkdir_all p q)

  pub sudo_install-Keeps : (mode p d : Text) → q ≢ d → Keeps H q (attempt (H.sudo_install mode p d))
  sudo_install-Keeps mode p d h = attempt-Keeps _ (λ m. K.content-sudo_install_other mode p d q m h)

  pub sudo_install_call-Keeps :
      (mode p d : Text) → q ≢ d → Keeps H q (call (H.sudo_install mode p d))
  sudo_install_call-Keeps mode p d h =
      call-Keeps _ (λ m. K.content-sudo_install_other mode p d q m h)

  pub sudo_rm-Keeps : (p : Text) → q ≢ p → Keeps H q (call (H.sudo_rm p))
  sudo_rm-Keeps p h = call-Keeps _ (λ m. K.content-sudo_rm_other p q m h)

  pub systemctl-Keeps : (words : List Text) → Keeps H q (attempt (H.systemctl words))
  systemctl-Keeps words = attempt-Keeps _ (K.content-systemctl words q)

  pub systemctl_call-Keeps : (words : List Text) → Keeps H q (call (H.systemctl words))
  systemctl_call-Keeps words = call-Keeps _ (K.content-systemctl words q)

  pub write_backup_bytes-Keeps :
      (b d prefix : Text)
      → ((stamp : Text) → q ≢ backup_path H d prefix stamp)
      → Keeps H q (write_backup_bytes H b d prefix)
  unfolding write_backup_bytes
  write_backup_bytes-Keeps b d prefix h =
      >>=-Keeps (mkdir_all-Keeps _)
        (λ _. look->>=-Keeps _ _ λ m. >>=-Keeps (write_file-Keeps _ b (h _)) (λ _. pure-Keeps _))

  pub backup_file_to_dir-Keeps :
      (src d prefix : Text)
      → ((stamp : Text) → q ≢ backup_path H d prefix stamp)
      → Keeps H q (backup_file_to_dir H src d prefix)
  unfolding backup_file_to_dir
  backup_file_to_dir-Keeps src d prefix h =
      >>=-Keeps (look-Keeps _)
        (λ read. on_value-Keeps read (pure-Keeps none) (λ b. write_backup_bytes-Keeps b d prefix h))

  pub copy_file_chmod-Keeps : (src dst : Text) → q ≢ dst → Keeps H q (copy_file_chmod H src dst)
  unfolding copy_file_chmod
  copy_file_chmod-Keeps src dst h =
      >>=-Keeps (look-Keeps _)
        (λ read. on_value-Keeps read (pure-Keeps false) (λ b. write_file-Keeps dst b h))

  pub write_file_via_sudo-Keeps :
      (dest b mode : Text)
      → q ≢ dest
      → ((n : ℕ) → q ≢ written_file H n)
      → Keeps H q (write_file_via_sudo H dest b mode)
  unfolding write_file_via_sudo
  write_file_via_sudo-Keeps dest b mode h w = look->>=-Keeps _ _ λ m.
      >>=-Keeps (write_file-Keeps _ b (w (H.nanos m))) (λ done.
        if-Keeps done
          (>>=-Keeps (sudo_install-Keeps mode _ dest h)
            (λ _. >>=-Keeps (remove-Keeps _ (w (H.nanos m))) (λ _. pure-Keeps _)))
          (pure-Keeps false))

  pub write_back-Keeps :
      (from dest mode : Text)
      → q ≢ dest
      → ((n : ℕ) → q ≢ written_file H n)
      → Keeps H q (write_back H from dest mode)
  unfolding write_back
  write_back-Keeps from dest mode h w = >>=-Keeps (look-Keeps _) (λ read.
      on_bytes-Keeps read (pure-Keeps tt)
        (λ b. >>=-Keeps (write_file_via_sudo-Keeps dest b mode h w) (λ _. pure-Keeps tt)))

  pub systemctl_restart-Keeps : (id service : Text) → Keeps H q (systemctl_restart H id service)
  unfolding systemctl_restart
  systemctl_restart-Keeps id service =
      >>=-Keeps (systemctl-Keeps _) (λ done.
        if-Keeps done (pure-Keeps true) (>>=-Keeps (say-Keeps id _) (λ _. pure-Keeps false)))

  module _ (dest : Text) (away_part : q ≢ part_file H dest) (away_file : q ≢ dest) where
    pub move_into_place-content :
        (m : H.os.Machine) → H.os.content q (move_into_place H dest m).0 ≡ H.os.content q m
    unfolding move_into_place
    move_into_place-content m =
        let a = dest in
        let p = part_file H a in
        let m₁ = H.os.rename p a (H.os.remove a m) in
        let same =
          K.os.content-rename_other p a q (H.os.remove a m) away_part away_file
          ∙ K.os.content-remove a q m away_file in
        elim (Bool-cases m₁.1) [
          | inl moved ↦ rw moved same
          | inr stays ↦ rw stays (K.os.content-remove p q m₁.0 away_part ∙ same)
        ]

    pub save_body-content :
        (r : Answer) (m : H.os.Machine) → H.os.content q (save_body H dest r m).0 ≡ H.os.content q m
    unfolding save_body
    save_body-content r m =
        let p = part_file H dest in
        let body = take size_limit r.body in
        let m₁ = H.os.write_file p [] m in
        let m₂ = H.os.write_file p body m₁.0 in
        let first = K.os.content-write_file_other p q [] m away_part in
        let second = K.os.content-write_file_other p q body m₁.0 away_part ∙ first in
        elim (Bool-cases m₁.1) [
          | inr refusal ↦ rw refusal first
          | inl created ↦ elim (Bool-cases (m₂.1 && r.complete)) [
            | inl whole ↦ rw (created, whole) (move_into_place-content m₂.0 ∙ second)
            | inr broken ↦ rw (created, broken) (K.os.content-remove p q m₂.0 away_part ∙ second)
          ]
        ]

    pub signed_get_to_file-content :
        (path : Text) (m : H.os.Machine)
        → H.os.content q (signed_get_to_file H path dest m).0 ≡ H.os.content q m
    unfolding signed_get_to_file
    signed_get_to_file-content path m = elim (Option-cases (H.ask path m)) [
      | inl e ↦ rw (signed_get_to_file, e) refl
      | inr (r, e) ↦ elim (Bool-cases (leb 300 r.status)) [
        | inl bad ↦ rw (signed_get_to_file, e, bad) refl
        | inr good ↦ rw (signed_get_to_file, e, good) (save_body-content r m)
      ]
    ]

  module _ (o : Order) where
    pub check_hash-Keeps : (a : Text) → Keeps H q (check_hash H o a)
    unfolding check_hash
    check_hash-Keeps a = >>=-Keeps (say-Keeps o.id _) (λ _.
        >>=-Keeps (look-Keeps _)
          (λ got. on_value-Keeps got (finish-Keeps o.id _) (λ h. require-Keeps o.id _ _ _)))

    save_config-Keeps :
        (k : Backups)
        → ((stamp : Text) → q ≢ backup_path H o.setup.settings.backup_dir (codes "xrayr-cfg") stamp)
        → Keeps H q (save_config H o k)
    unfolding save_config
    save_config-Keeps k h = >>=-Keeps (say-Keeps o.id _) (λ _.
        >>=-Keeps (require-Keeps o.id _ _ _) (λ _. >>=-Keeps (look-Keeps _) (λ old.
          on_bytes-Keeps old (pure-Keeps k) (λ b.
            >>=-Keeps (write_backup_bytes-Keeps b _ (codes "xrayr-cfg") h) (λ _. pure-Keeps _)))))

    pub back_up_config-Keeps :
        (k : Backups)
        → ((stamp : Text) → q ≢ backup_path H o.setup.settings.backup_dir (codes "xrayr-cfg") stamp)
        → Keeps H q (back_up_config H o k)
    unfolding back_up_config
    back_up_config-Keeps k h = if-Keeps _ (save_config-Keeps k h) (pure-Keeps k)

    pub back_up_unit-Keeps :
        (k : Backups)
        → ((stamp : Text)
            → q ≢ backup_path H o.setup.settings.backup_dir (codes "xrayr-unit") stamp)
        → Keeps H q (back_up_unit H o k)
    unfolding back_up_unit
    back_up_unit-Keeps k h = >>=-Keeps (look-Keeps _) (λ old.
        on_bytes-Keeps old (pure-Keeps _) (λ b.
          >>=-Keeps (write_backup_bytes-Keeps b _ (codes "xrayr-unit") h)
            (λ kept. on_value-Keeps kept (finish-Keeps o.id _) (λ u. pure-Keeps _))))
