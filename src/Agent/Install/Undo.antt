-- ===== src/Agent/Install/Undo.antt =====
-- What a failed installation leaves in the binary's file: the rollbacks, and what they rest on.
use center_agent.Prelude.{
  ℕ, ◌≡◌, ◌≢◌, refl, take, ap, ◌∙◌, Bool, true, false, ◌&&◌, not, none, some, [], ◌∷◌, arith, ◌==◌,
  ==_iff, nat_eq, list_eq, Bool-cases, inl, inr,
}
use center_agent.Prelude.Text.{Text, codes}
use center_agent.Agent.Commands.{Outcome}
use center_agent.Agent.Install.Host.{Host, IsHost, part_file, size_limit}
use center_agent.Agent.Install.Tasks.{Task, ◌>>◌, call}
use center_agent.Agent.Install.Files.{
  Backups, backup_path, written_file, write_file_via_sudo, rollback_bin, write_back,
  rollback_upgrade, rollback_install, rollback_full, systemctl_restart,
}
use center_agent.Agent.Install.Run.{
  Order, binary_of, unit_of, config_of, artifact_file, new_file, wanted_sha,
}
use center_agent.Agent.Install.Writes.{write_file_via_sudo-Keeps}
use center_agent.Agent.Install.Turns.{
  Ends, goes, over, >>=-Ends, pure-Ends, say->>=-Ends, look->>=-Ends, attempt->>=-Ends,
  change->>=-Ends, call->>=-Ends, call-Ends, if-Ends, on_bytes-Ends,
}

-- A backup that is none of the other files of a run.
pub record Aside (H : Host) (o : Order) (p : Text) : Type 0 where
  pub some_path : p ≢ []
  pub binary : p ≢ binary_of o
  pub config : p ≢ config_of o
  pub unit : p ≢ unit_of o
  pub unit_backup :
      (stamp : Text) → p ≢ backup_path H o.setup.settings.backup_dir (codes "xrayr-unit") stamp
  pub config_backup :
      (stamp : Text) → p ≢ backup_path H o.setup.settings.backup_dir (codes "xrayr-cfg") stamp
  pub artifact : (n : ℕ) → p ≢ artifact_file H o n
  pub part : (n : ℕ) → p ≢ part_file H (artifact_file H o n)
  pub fresh : (n : ℕ) → p ≢ new_file H o n
  pub written : (n : ℕ) → p ≢ written_file H n

-- No two files of a run have the same path.
pub record Apart (H : Host) (o : Order) : Type 0 where
  pub binary_config : binary_of o ≢ config_of o
  pub binary_unit : binary_of o ≢ unit_of o
  pub binary_backup :
      (prefix stamp : Text) → binary_of o ≢ backup_path H o.setup.settings.backup_dir prefix stamp
  pub binary_artifact : (n : ℕ) → binary_of o ≢ artifact_file H o n
  pub binary_part : (n : ℕ) → binary_of o ≢ part_file H (artifact_file H o n)
  pub binary_written : (n : ℕ) → binary_of o ≢ written_file H n
  pub config_written : (n : ℕ) → config_of o ≢ written_file H n
  pub unit_written : (n : ℕ) → unit_of o ≢ written_file H n
  pub unit_artifact : (n : ℕ) → unit_of o ≢ artifact_file H o n
  pub artifact_backup :
      (n : ℕ) (stamp : Text)
      → artifact_file H o n ≢ backup_path H o.setup.settings.backup_dir (codes "xrayr-cfg") stamp
  pub aside :
      (stamp : Text)
      → Aside H o (backup_path H o.setup.settings.backup_dir (codes "xrayr-bin") stamp)

-- What a run from `m₀` meets where `sudo` refuses: to put the new binary, which has the wanted hash,
-- in the place of the old one; to put the old one back; or to remove what was to be installed. Since
-- that call, up to `m`, the binary's file has not changed.
pub data Refused (H : Host) (o : Order) (m₀ m : H.os.Machine) : Type 0 where
  not_put :
      (from b : Text) (met : H.os.Machine)
      → H.os.content from met ≡ some b
      → H.os.sha256_hex (take size_limit b) ≡ wanted_sha o
      → H.os.content (binary_of o) met ≡ H.os.content (binary_of o) m₀
      → (H.sudo_install (codes "0755") from (binary_of o) met).1 ≡ false
      → H.os.content (binary_of o) m
        ≡ H.os.content (binary_of o) (H.sudo_install (codes "0755") from (binary_of o) met).0
      → Refused H o m₀ m
  not_put_back :
      (from : Text) (met : H.os.Machine)
      → H.os.content from met ≡ H.os.content (binary_of o) m₀
      → (H.sudo_install (codes "0755") from (binary_of o) met).1 ≡ false
      → H.os.content (binary_of o) m
        ≡ H.os.content (binary_of o) (H.sudo_install (codes "0755") from (binary_of o) met).0
      → Refused H o m₀ m
  not_removed :
      (met : H.os.Machine)
      → o.install ≡ true
      → (H.sudo_rm (binary_of o) met).1 ≡ false
      → H.os.content (binary_of o) m ≡ H.os.content (binary_of o) (H.sudo_rm (binary_of o) met).0
      → Refused H o m₀ m

-- The binary's file on `m`, after a failed run from `m₀`: as it was; gone, if the run was to install
-- it; or out of reach, since `sudo` refused on the way.
pub data Undone (H : Host) (o : Order) (m₀ m : H.os.Machine) : Type 0 where
  kept : H.os.content (binary_of o) m ≡ H.os.content (binary_of o) m₀ → Undone H o m₀ m
  removed : o.install ≡ true → H.os.content (binary_of o) m ≡ none → Undone H o m₀ m
  lost : Refused H o m₀ m → Undone H o m₀ m

pub Undone-step :
    {H : Host} {o : Order} {m₀ m m' : H.os.Machine}
    → H.os.content (binary_of o) m' ≡ H.os.content (binary_of o) m
    → Undone H o m₀ m
    → Undone H o m₀ m'
Undone-step e (kept h) = kept (e ∙ h)
Undone-step e (removed i h) = removed i (e ∙ h)
Undone-step e (lost (not_put from b x there right old bad since)) =
    lost (not_put from b x there right old bad (e ∙ since))
Undone-step e (lost (not_put_back from x there bad since)) =
    lost (not_put_back from x there bad (e ∙ since))
Undone-step e (lost (not_removed x i bad since)) = lost (not_removed x i bad (e ∙ since))

-- The backup that a rollback can use: none for a first installation, else the old binary.
pub data Saved (H : Host) (o : Order) (m₀ : H.os.Machine) (k : Backups) (m : H.os.Machine)
    : Type 0 where
  nothing : o.install ≡ true → k.binary ≡ [] → Saved H o m₀ k m
  saved :
      o.install ≡ false
      → Aside H o k.binary
      → H.os.content k.binary m ≡ H.os.content (binary_of o) m₀
      → Saved H o m₀ k m

pub Saved-step :
    {H : Host} {o : Order} {m₀ m m' : H.os.Machine} {k : Backups}
    → (Aside H o k.binary → H.os.content k.binary m' ≡ H.os.content k.binary m)
    → Saved H o m₀ k m
    → Saved H o m₀ k m'
Saved-step e (nothing i h) = nothing i h
Saved-step e (saved i a h) = saved i a (e a ∙ h)

pub Saved-same :
    {H : Host} {o : Order} {m₀ m : H.os.Machine} {k l : Backups}
    → l.binary ≡ k.binary
    → Saved H o m₀ k m
    → Saved H o m₀ l m
Saved-same e (nothing i h) = nothing i (e ∙ h)
Saved-same {H} {o} {m₀} {m} e (saved i a h) = saved i (rw e a) (ap (λ p. H.os.content p m) e ∙ h)

pub Ends-map :
    {M A : Type 0} {Q R : A → M → Type 0} {E : Outcome → M → Type 0} {t : Task M A} {m : M}
    → ((a : A) (m' : M) → Q a m' → R a m')
    → Ends Q E t m
    → Ends R E t m
Ends-map f (goes a v s h) = goes a v s (f a _ h)
Ends-map f (over r v s h) = over r v s h

-- What else holds where a body ends, added to what `Ends` says of a body that goes on.
pub Ends-and :
    {M A : Type 0} {Q : A → M → Type 0} {E : Outcome → M → Type 0} {t : Task M A} {m : M}
    (P : M → Type 0)
    → P (t.run m).after
    → Ends Q E t m
    → Ends (λ a m'. Q a m' × P m') E t m
Ends-and P p (goes a v s h) = goes a v s (h, p)
Ends-and P p (over r v s h) = over r v s h

-- A write through `sudo`: the file holds the text if it is done, and no other file has changed.
pub record Wrote (H : Host) (dest b : Text) (m : H.os.Machine) (done : Bool) (m' : H.os.Machine)
    : Type 0 where
  pub there : done ≡ true → H.os.content dest m' ≡ some b
  pub others :
      (q : Text)
      → q ≢ dest
      → ((n : ℕ) → q ≢ written_file H n)
      → H.os.content q m' ≡ H.os.content q m

module _ {H : Host} (K : IsHost H) {o : Order} {m₀ : H.os.Machine} where
  install-Undone :
      (from : Text) (m : H.os.Machine)
      → H.os.content from m ≡ H.os.content (binary_of o) m₀
      → Undone H o m₀ (H.sudo_install (codes "0755") from (binary_of o) m).0
  install-Undone from m h =
      elim (Bool-cases (H.sudo_install (codes "0755") from (binary_of o) m).1) [
        | inl put ↦ kept (K.content-sudo_install (codes "0755") from (binary_of o) m put ∙ h)
        | inr bad ↦ lost (not_put_back from m h bad refl)
      ]

  removal-Undone :
      (m : H.os.Machine) → o.install ≡ true → Undone H o m₀ (H.sudo_rm (binary_of o) m).0
  removal-Undone m i = elim (Bool-cases (H.sudo_rm (binary_of o) m).1) [
    | inl gone ↦ removed i (K.content-sudo_rm (binary_of o) m gone)
    | inr bad ↦ lost (not_removed m i bad refl)
  ]

module _ {H : Host} (K : IsHost H) {E : Outcome → H.os.Machine → Type 0} where
  write_file_via_sudo-there :
      (dest b mode : Text) (m : H.os.Machine)
      → ((n : ℕ) → dest ≢ written_file H n)
      → Ends
          (λ done m'. done ≡ true → H.os.content dest m' ≡ some b)
          E
          (write_file_via_sudo H dest b mode)
          m
  unfolding write_file_via_sudo
  write_file_via_sudo-there dest b mode m apart =
      let tmp = written_file H (H.nanos m) in
      let m₁ = (H.os.write_file tmp b m).0 in
      let m₂ = (H.sudo_install mode tmp dest m₁).0 in
      look->>=-Ends _ _ (
        attempt->>=-Ends _ _ (
          if-Ends _
            (λ written. attempt->>=-Ends _ _ (
              change->>=-Ends _ _ (
                pure-Ends _ (λ put.
                  K.os.content-remove tmp dest m₂ (apart (H.nanos m))
                  ∙ (K.content-sudo_install mode tmp dest m₁ put
                      ∙ K.os.content-write_file tmp b m written)))))
            (λ _. pure-Ends false (λ e. absurd (ground (arith, e))))))

  pub write_file_via_sudo-Ends :
      (dest b mode : Text) (m : H.os.Machine)
      → ((n : ℕ) → dest ≢ written_file H n)
      → Ends (Wrote H dest b m) E (write_file_via_sudo H dest b mode) m
  write_file_via_sudo-Ends dest b mode m apart =
      Ends-map (λ _ _ p. record { there = p.0; others = p.1 })
        (Ends-and
          (λ m'.
            (q : Text)
            → q ≢ dest
            → ((n : ℕ) → q ≢ written_file H n)
            → H.os.content q m' ≡ H.os.content q m)
          (λ q h w. (write_file_via_sudo-Keeps K dest b mode h w).keeps m)
          (write_file_via_sudo-there dest b mode m apart))

  -- A file that is written back is not the binary, and nothing is reported of it.
  write_back-Ends :
      {o : Order} {m₀ : H.os.Machine} (from dest mode : Text) (m : H.os.Machine)
      → ((n : ℕ) → dest ≢ written_file H n)
      → ((n : ℕ) → binary_of o ≢ written_file H n)
      → binary_of o ≢ dest
      → Undone H o m₀ m
      → Ends (λ _ m'. Undone H o m₀ m') E (write_back H from dest mode) m
  unfolding write_back
  write_back-Ends {o = o} from dest mode m apart aside other u = look->>=-Ends _ _ (
      on_bytes-Ends _ (pure-Ends tt u) (λ b _.
        >>=-Ends (Wrote H dest b m) (write_file_via_sudo-Ends dest b mode m apart)
          (λ _ m' w. pure-Ends tt (Undone-step (w.others (binary_of o) other aside) u))))

  pub systemctl_restart-Ends :
      (id service : Text) (m : H.os.Machine)
      → Ends
          (λ _ m'. (q : Text) → H.os.content q m' ≡ H.os.content q m)
          E
          (systemctl_restart H id service)
          m
  unfolding systemctl_restart
  systemctl_restart-Ends id service m =
      let same = λ (q : Text). K.content-systemctl (codes "restart" ∷ service ∷ []) q m in
      attempt->>=-Ends _ _ (
        if-Ends (H.systemctl (codes "restart" ∷ service ∷ []) m).1 (λ _. pure-Ends true same)
          (λ _. say->>=-Ends _ _ _ (pure-Ends false same)))

  module _ {o : Order} (A : Apart H o) {m₀ : H.os.Machine} where
    pub rollback_bin-Ends :
        (k : Backups) (m : H.os.Machine)
        → Saved H o m₀ k m
        → Ends (λ _ m'. Undone H o m₀ m') E (rollback_bin H (binary_of o) k.binary) m
    unfolding rollback_bin
    rollback_bin-Ends k m (nothing i e) =
        if-Ends (k.binary == []) (λ _. call-Ends _ (removal-Undone K m i))
          (λ h. absurd (ground (arith, e, h, ==_iff k.binary [])))
    rollback_bin-Ends k m (saved i a h) =
        if-Ends (k.binary == []) (λ e. absurd (a.some_path ((==_iff k.binary []).0 e)))
          (λ _. call-Ends _ (install-Undone K k.binary m h))

    pub rollback_upgrade-Ends :
        (k : Backups) (m : H.os.Machine)
        → Aside H o k.binary
        → H.os.content k.binary m ≡ H.os.content (binary_of o) m₀
        → Ends (λ _ m'. Undone H o m₀ m') E (rollback_upgrade H o.setup k) m
    unfolding rollback_upgrade
    rollback_upgrade-Ends k m a h =
        >>=-Ends (λ _ m'. Undone H o m₀ m')
          (if-Ends (k.binary == []) (λ e. absurd (a.some_path ((==_iff k.binary []).0 e)))
            (λ _. call-Ends _ (install-Undone K k.binary m h)))
          (λ _ m' u.
            if-Ends (k.had_unit && not (k.unit == []))
              (λ _. write_back-Ends k.unit _ _ m' A.unit_written A.binary_written A.binary_unit u)
              (λ _. pure-Ends tt u))

    remove_both-Ends :
        (m : H.os.Machine)
        → o.install ≡ true
        → Ends
            (λ _ m'. Undone H o m₀ m')
            E
            (call (H.sudo_rm (binary_of o)) >> call (H.sudo_rm (unit_of o)))
            m
    remove_both-Ends m i = call->>=-Ends _ _ (
        call-Ends _ (
          Undone-step (K.content-sudo_rm_other (unit_of o) (binary_of o) _ A.binary_unit)
            (removal-Undone K m i)))

    pub rollback_install-Ends :
        (install : Bool) (k : Backups) (m : H.os.Machine)
        → o.install ≡ install
        → Saved H o m₀ k m
        → Ends (λ _ m'. Undone H o m₀ m') E (rollback_install H o.setup install k) m
    unfolding rollback_install
    rollback_install-Ends true k m i s = remove_both-Ends m i
    rollback_install-Ends false k m i (nothing j e) = absurd (ground (arith, i, j))
    rollback_install-Ends false k m i (saved j a h) = rollback_upgrade-Ends k m a h

    pub rollback_full-Ends :
        (install : Bool) (k : Backups) (m : H.os.Machine)
        → o.install ≡ install
        → Saved H o m₀ k m
        → Ends (λ _ m'. Undone H o m₀ m') E (rollback_full H o.setup install k) m
    unfolding rollback_full
    rollback_full-Ends true k m i s = remove_both-Ends m i
    rollback_full-Ends false k m i (nothing j e) = absurd (ground (arith, i, j))
    rollback_full-Ends false k m i (saved j a h) =
        >>=-Ends (λ _ m'. Undone H o m₀ m') (rollback_upgrade-Ends k m a h)
          (λ _ m' u.
            if-Ends (k.config == []) (λ _. pure-Ends tt u)
              (λ _.
                write_back-Ends k.config _ _ m' A.config_written A.binary_written A.binary_config
                  u))
