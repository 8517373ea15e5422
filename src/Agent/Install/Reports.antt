-- ===== src/Agent/Install/Reports.antt =====
-- What a run of runXrayrInstallUpgrade reports, and what then holds of the binary and the unit.
use center_agent.Prelude.{
  ℕ, ◌≡◌, ◌≢◌, refl, sym, ◌∙◌, false, ◌&&◌, not, Option, none, some, [], ◌∷◌, arith, ==_iff, nat_eq,
  list_eq, Bool-cases, Option-cases, inl, inr, take,
}
use center_agent.Prelude.Text.{Text, codes}
use center_agent.Agent.Commands.{Outcome, results}
use center_agent.Agent.Install.Host.{
  Host, IsHost, part_file, size_limit, sha256_file_hex, read_file_maybe_sudo, signed_get_to_file,
}
use center_agent.Agent.Install.Checks.{field_of}
use center_agent.Agent.Install.Files.{
  Backups, no_backups, backup_path, write_backup_bytes, backup_file_to_dir,
}
use center_agent.Agent.Install.Run.{
  Order, binary_of, unit_of, config_of, wanted_sha, overwrites, artifact_file, save_config,
  back_up_config, check_hash, deploy, back_up_unit, back_up_binary, back_up,
  run_xrayr_install_upgrade, run_install_or_upgrade,
}
use center_agent.Agent.Install.Writes.{
  signed_get_to_file-content, check_hash-Keeps, back_up_config-Keeps, back_up_unit-Keeps,
  write_backup_bytes-Keeps, backup_file_to_dir-Keeps,
}
use center_agent.Agent.Install.Turns.{
  Ends, goes, over, >>=-Ends, pure-Ends, finish-Ends, say->>=-Ends, look->>=-Ends, attempt->>=-Ends,
  change->>=-Ends, if-Ends, on_bytes-Ends, on_value-Ends, require-Ends, require->>=-Ends,
  admit->>=-Ends, deferring-Ends,
}
use center_agent.Agent.Install.Undo.{
  Aside, Apart, kept, Undone-step, Saved, nothing, saved, Saved-step, Saved-same, Ends-and,
  Ends-map,
}
use center_agent.Agent.Install.Stages.{
  Ended, installed, failed, without, write_unit-Ends, write_config-Ends, put_in_place-Ends,
}

-- The path of the configuration's backup is noted; the binary's stays.
config_binary :
    (k : Backups) (r : Option Text)
    → (elim r as (λ _. Backups) [ none ↦ k | some p ↦ record k { config = p } ]).binary ≡ k.binary
config_binary k none = refl
config_binary k (some p) = refl

sha256_file_hex-some :
    {H : Host} (K : IsHost H) (p h : Text) (m : H.os.Machine)
    → sha256_file_hex H p m ≡ some h
    → (b : Text) × (H.os.content p m ≡ some b) × (H.os.sha256_hex (take size_limit b) ≡ h)
unfolding sha256_file_hex
sha256_file_hex-some {H} K p h m e = elim (Option-cases (H.os.read_file p m)) [
  | inl none_read ↦ absurd (ground (arith, e, none_read))
  | inr (b, got) ↦ (b, K.os.content-read_file p b m got, ground (arith, e, got))
]

read_file_maybe_sudo-content :
    {H : Host} (K : IsHost H) (p b : Text) (m : H.os.Machine)
    → read_file_maybe_sudo H p m ≡ some b
    → H.os.content p m ≡ some b
unfolding read_file_maybe_sudo
read_file_maybe_sudo-content {H} K p b m e = elim (Option-cases (H.os.read_file p m)) [
  | inl none_read ↦ K.content-sudo_cat p b m (ground (arith, e, none_read))
  | inr (c, got) ↦ K.os.content-read_file p b m (ground (arith, e, got))
]

module _ {H : Host} (K : IsHost H) {o : Order} (A : Apart H o) {m₀ : H.os.Machine} where
  check_hash-Ends :
      (artifact : Text) (m : H.os.Machine)
      → H.os.content (binary_of o) m ≡ H.os.content (binary_of o) m₀
      → Ends
          (λ _ m'.
            (b : Text) × (H.os.content artifact m' ≡ some b)
            × (H.os.sha256_hex (take size_limit b) ≡ wanted_sha o))
          (Ended H o m₀)
          (check_hash H o artifact)
          m
  unfolding check_hash
  check_hash-Ends artifact m same = say->>=-Ends _ _ _ (
      look->>=-Ends _ _ (
        on_value-Ends (sha256_file_hex H artifact m)
          (λ _. finish-Ends o.id _ (failed _ [] (kept same) refl))
          (λ h e.
            let (b, there, hash) = sha256_file_hex-some K artifact h m e in
            require-Ends o.id _ _ _ (λ _. failed _ _ (kept same) refl)
              (λ good. (b, there, hash ∙ (==_iff h (wanted_sha o)).0 good)))))

  write_backup_bytes-Ends :
      (b d prefix : Text) (m : H.os.Machine)
      → Ends
          (λ r m'.
            (p : Text)
            → r ≡ some p
            → (stamp : Text) × (p ≡ backup_path H d prefix stamp) × (H.os.content p m' ≡ some b))
          (Ended H o m₀)
          (write_backup_bytes H b d prefix)
          m
  unfolding write_backup_bytes
  write_backup_bytes-Ends b d prefix m =
      let m₁ = H.os.mkdir_all d m in
      let dst = backup_path H d prefix (H.stamp m₁) in
      change->>=-Ends _ _ (
        look->>=-Ends _ _ (
          attempt->>=-Ends _ _ (
            pure-Ends _ (λ p e. elim (Bool-cases (H.os.write_file dst b m₁).1) [
              | inl done ↦
                  let same : dst ≡ p = ground (arith, e, done) in
                  (H.stamp m₁, sym same, rw (← same) (K.os.content-write_file dst b m₁ done))
              | inr bad ↦ absurd (ground (arith, e, bad))
            ]))))

  save_config-Ends :
      (k : Backups) (m : H.os.Machine)
      → H.os.content (binary_of o) m ≡ H.os.content (binary_of o) m₀
      → Ends (λ k' _. k'.binary ≡ k.binary) (Ended H o m₀) (save_config H o k) m
  unfolding save_config
  save_config-Ends k m same = say->>=-Ends _ _ _ (
      require->>=-Ends _ _ _ _ _ (λ _. failed _ [] (kept same) refl)
        (λ _. look->>=-Ends _ _ (
          on_bytes-Ends (H.os.read_file (config_of o) m) (pure-Ends k refl) (λ b _.
            >>=-Ends _ (write_backup_bytes-Ends b _ (codes "xrayr-cfg") m)
              (λ r m' _. pure-Ends _ (config_binary k r))))))

  back_up_config-Ends :
      (k : Backups) (m : H.os.Machine)
      → H.os.content (binary_of o) m ≡ H.os.content (binary_of o) m₀
      → Ends (λ k' _. k'.binary ≡ k.binary) (Ended H o m₀) (back_up_config H o k) m
  unfolding back_up_config
  back_up_config-Ends k m same =
      if-Ends (not o.install && overwrites o) (λ _. save_config-Ends k m same)
        (λ _. pure-Ends k refl)

  deploy-Ends :
      (k : Backups) (n : ℕ) (m : H.os.Machine)
      → Saved H o m₀ k m
      → H.os.content (binary_of o) m ≡ H.os.content (binary_of o) m₀
      → Ends (λ (_ : Unit {0}) _. ⊥) (Ended H o m₀) (deploy H o k (artifact_file H o n)) m
  unfolding deploy
  deploy-Ends k n m s same =
      let a = artifact_file H o n in
      let bin = binary_of o in
      let path = field_of o.payload (codes "download_path") in
      let m₁ = (signed_get_to_file H path a m).0 in
      let first = λ (q : Text) (h : q ≢ part_file H a) (h' : q ≢ a).
        signed_get_to_file-content K a h h' path m in
      let same₁ = first bin (A.binary_part n) (A.binary_artifact n) ∙ same in
      let s₁ = Saved-step (λ x. first k.binary (x.part n) (x.artifact n)) s in
      say->>=-Ends _ _ _ (
        attempt->>=-Ends _ _ (
          require->>=-Ends _ _ _ _ _ (λ _. failed _ [] (kept same₁) refl)
            (λ _.
              >>=-Ends _
                (Ends-and (λ m'. (q : Text) → H.os.content q m' ≡ H.os.content q m₁)
                  (λ q. (check_hash-Keeps K {q = q} o a).keeps m₁) (check_hash-Ends a m₁ same₁))
                (λ _ m₂ ((b, there, right), second).
                  >>=-Ends _
                    (Ends-and
                      (λ m'.
                        (q : Text)
                        → ((stamp : Text)
                            → q
                              ≢ backup_path H o.setup.settings.backup_dir (codes "xrayr-cfg") stamp)
                        → H.os.content q m' ≡ H.os.content q m₂)
                      (λ q h. (back_up_config-Keeps K o k h).keeps m₂)
                      (back_up_config-Ends k m₂ (second bin ∙ same₁)))
                    (λ k' m₃ (kept_binary, third).
                      let s₃ =
                        Saved-step (λ x. third k.binary x.config_backup ∙ second k.binary) s₁ in
                      >>=-Ends _
                        (put_in_place-Ends K A k' b a m₃ (Saved-same kept_binary s₃)
                          (third a (A.artifact_backup n) ∙ there) right
                          (third bin (A.binary_backup (codes "xrayr-cfg")) ∙ (second bin ∙ same₁)))
                        (λ _ m₄ (s₄, p₄).
                          >>=-Ends _ (write_config-Ends K A k' b m₄ s₄ p₄)
                            (λ _ m₅ (s₅, p₅). write_unit-Ends K A k' b m₅ s₅ p₅)))))))

  -- What the backups of an upgrade leave: the old binary under another path.
  back_up_unit-Ends :
      (k : Backups) (m : H.os.Machine)
      → H.os.content (binary_of o) m ≡ H.os.content (binary_of o) m₀
      → Ends (λ k' _. k'.binary ≡ k.binary) (Ended H o m₀) (back_up_unit H o k) m
  unfolding back_up_unit
  back_up_unit-Ends k m same =
      let d = o.setup.settings.backup_dir in
      look->>=-Ends _ _ (
        on_bytes-Ends (read_file_maybe_sudo H (unit_of o) m) (pure-Ends k refl) (λ b _.
          >>=-Ends (λ _ m'. H.os.content (binary_of o) m' ≡ H.os.content (binary_of o) m)
            (Ends-map (λ _ _ p. p.1)
              (Ends-and (λ m'. H.os.content (binary_of o) m' ≡ H.os.content (binary_of o) m)
                ((write_backup_bytes-Keeps K b d (codes "xrayr-unit")
                    (A.binary_backup (codes "xrayr-unit"))).keeps
                  m)
                (write_backup_bytes-Ends b d (codes "xrayr-unit") m)))
            (λ saved m' still.
              on_value-Ends saved (λ _. finish-Ends o.id _ (failed _ [] (kept (still ∙ same)) refl))
                (λ p _. pure-Ends _ refl))))

  backup_file_to_dir-Ends :
      (m : H.os.Machine)
      → Ends
          (λ r m'.
            (p : Text)
            → r ≡ some p
            → Aside H o p × (H.os.content p m' ≡ H.os.content (binary_of o) m))
          (Ended H o m₀)
          (backup_file_to_dir H (binary_of o) o.setup.settings.backup_dir (codes "xrayr-bin"))
          m
  unfolding backup_file_to_dir
  backup_file_to_dir-Ends m = look->>=-Ends _ _ (
      on_value-Ends (read_file_maybe_sudo H (binary_of o) m)
        (λ _. pure-Ends none (λ p e. absurd (ground (arith, e))))
        (λ b read.
          Ends-map
            (λ r m' h p e.
              let (stamp, path, there) = h p e in
              (
                rw path (A.aside stamp),
                there ∙ sym (read_file_maybe_sudo-content K (binary_of o) b m read),
              ))
            (write_backup_bytes-Ends b o.setup.settings.backup_dir (codes "xrayr-bin") m)))

  back_up_binary-Ends :
      (m : H.os.Machine)
      → H.os.content (binary_of o) m ≡ H.os.content (binary_of o) m₀
      → o.install ≡ false
      → Ends
          (λ k m'.
            Saved H o m₀ k m' × (H.os.content (binary_of o) m' ≡ H.os.content (binary_of o) m₀))
          (Ended H o m₀)
          (back_up_binary H o)
          m
  unfolding back_up_binary
  back_up_binary-Ends m same i =
      let bin = binary_of o in
      let d = o.setup.settings.backup_dir in
      say->>=-Ends _ _ _ (
        >>=-Ends _
          (Ends-and (λ m'. H.os.content bin m' ≡ H.os.content bin m)
            ((backup_file_to_dir-Keeps K bin d (codes "xrayr-bin")
                (A.binary_backup (codes "xrayr-bin"))).keeps
              m)
            (backup_file_to_dir-Ends m))
          (λ r m₁ (h, still).
            on_value-Ends r (λ _. finish-Ends o.id _ (failed _ [] (kept (still ∙ same)) refl))
              (λ p e.
                let (aside, there) = h p e in
                let k : Backups = record no_backups { binary = p } in
                let keep_unit =
                  λ (q : Text)
                      (w : (stamp : Text) → q ≢ backup_path H d (codes "xrayr-unit") stamp).
                    (back_up_unit-Keeps K o k w).keeps m₁ in
                Ends-map
                  (λ l m₂ (path, (old, new)). (
                    Saved-same {k = k} path (saved i aside (old ∙ (there ∙ same))),
                    new ∙ (still ∙ same),
                  ))
                  (Ends-and
                    (λ m'.
                      (H.os.content p m' ≡ H.os.content p m₁)
                      × (H.os.content bin m' ≡ H.os.content bin m₁))
                    (
                      keep_unit p aside.unit_backup,
                      keep_unit bin (A.binary_backup (codes "xrayr-unit")),
                    )
                    (back_up_unit-Ends k m₁ (still ∙ same))))))

  back_up-Ends :
      (m : H.os.Machine)
      → H.os.content (binary_of o) m ≡ H.os.content (binary_of o) m₀
      → Ends
          (λ k m'.
            Saved H o m₀ k m' × (H.os.content (binary_of o) m' ≡ H.os.content (binary_of o) m₀))
          (Ended H o m₀)
          (back_up H o)
          m
  unfolding back_up
  back_up-Ends m same =
      if-Ends o.install (λ i. pure-Ends no_backups (nothing i refl, same))
        (back_up_binary-Ends m same)

  Ended-remove :
      (n : ℕ) (r : Outcome) (m : H.os.Machine)
      → Ended H o m₀ r m
      → Ended H o m₀ r (H.os.remove (artifact_file H o n) m)
  Ended-remove n r m (installed b extra up there right unit again active tidy e) =
      installed b extra up (K.os.content-remove _ (binary_of o) m (A.binary_artifact n) ∙ there)
        right (K.os.content-remove _ (unit_of o) m (A.unit_artifact n) ∙ unit) again active
        (without n m tidy) e
  Ended-remove n r m (failed f extra u e) =
      failed f extra (Undone-step (K.os.content-remove _ (binary_of o) m (A.binary_artifact n)) u) e

module _ {H : Host} (K : IsHost H) {o : Order} (A : Apart H o) (m : H.os.Machine) where
  run_xrayr_install_upgrade-Ends :
      Ends (λ (_ : Unit {0}) _. ⊥) (Ended H o m) (run_xrayr_install_upgrade H o) m
  unfolding run_xrayr_install_upgrade
  run_xrayr_install_upgrade-Ends =
      let bin = binary_of o in
      let m₁ = H.os.mkdir_all o.setup.artifact_cache_dir m in
      let m₂ = H.os.mkdir_all o.setup.settings.backup_dir m₁ in
      let same = K.os.content-mkdir_all _ bin m₁ ∙ K.os.content-mkdir_all _ bin m in
      require->>=-Ends _ _ _ _ _ (λ _. failed _ _ (kept refl) refl)
        (λ _. say->>=-Ends _ _ _ (
          admit->>=-Ends _ _ _ (λ f. failed f _ (kept refl) refl)
            (admit->>=-Ends _ _ _ (λ f. failed f _ (kept refl) refl)
              (require->>=-Ends _ _ _ _ _ (λ _. failed _ _ (kept refl) refl)
                (λ _.
                  require->>=-Ends _ _ _ _ _ (λ _. failed _ _ (kept refl) refl)
                    (λ _. change->>=-Ends _ _ (
                      change->>=-Ends _ _ (
                        look->>=-Ends _ _ (
                          require->>=-Ends _ _ _ _ _ (λ _. failed _ _ (kept same) refl)
                            (λ _.
                              require->>=-Ends _ _ _ _ _ (λ _. failed _ _ (kept same) refl)
                                (λ _. >>=-Ends _ (back_up-Ends K A m₂ same) (λ k m₃ (s, still).
                                  look->>=-Ends _ _ (
                                    deferring-Ends (H.os.remove (artifact_file H o (H.nanos m₃)))
                                      (λ _ _ none_left. none_left) (Ended-remove K A (H.nanos m₃))
                                      (deploy-Ends K A k (H.nanos m₃) m₃ s still))))))))))))))

-- Where the files of a run are apart from one another, every run of INSTALL_XRAYR or UPGRADE_XRAYR
-- sends exactly one result. If it is a success, the binary's file holds a text with the wanted hash
-- and the unit's file the rendered unit, `daemon-reload` and `restart` went well with both in place,
-- the service was active two seconds after the restart, and since then only the artifact was removed.
-- If it is a failure, the binary's file is as it was, or has been removed again after a first
-- installation, or `sudo` refused to put the new binary in the old one's place, to put the old one
-- back, or to remove what was installed, and the file has not changed since.
pub run_install_or_upgrade-Ended :
    {H : Host} (K : IsHost H) (o : Order) (m : H.os.Machine)
    → Apart H o
    → let end = (run_install_or_upgrade H o).run m in
      (r : Outcome) × (results end.sent ≡ r ∷ []) × Ended H o m r end.after
unfolding run_install_or_upgrade
run_install_or_upgrade-Ended {H} K o m A =
    elim (require->>=-Ends {E = Ended H o m} _ _ _ _ _ (λ _. failed _ [] (kept refl) refl)
      (λ _. run_xrayr_install_upgrade-Ends K A m)) [
        | goes a v s impossible ↦ absurd impossible
        | over r v s e ↦ (r, s, e)
      ]
