-- ===== src/Agent/Install/Stages.antt =====
-- What the stages of an installation leave and report from the new binary on.
use center_agent.Prelude.{
  ℕ, ◌≡◌, ◌≢◌, ◌⊎◌, inl, inr, refl, ap, sym, ◌∙◌, true, false, ◌||◌, some, [], ◌∷◌, ◌++◌, arith,
  ◌==◌, nat_eq, list_eq, take, length, length-append,
}
use center_agent.Prelude.Maps.{Map}
use center_agent.Prelude.Json.{Json}
use center_agent.Prelude.Text.{Text, codes, to_lower, dir}
use center_agent.Agent.Commands.{Failure, Outcome, failing, succeeding, is_service_active}
use center_agent.Agent.Install.Host.{Host, IsHost, size_limit}
use center_agent.Agent.Install.Tasks.{◌>>◌, call, stop}
use center_agent.Agent.Install.Checks.{service_name, field_of, payload_bool, str_from}
use center_agent.Agent.Install.Files.{Backups, Work, copy_file_chmod, rollback_bin, rollback_full}
use center_agent.Agent.Install.Run.{
  Order, binary_of, unit_of, config_of, wanted_sha, overwrites, unit_text, new_file, artifact_file,
  give_up, verify, restart, write_unit, write_initial_config, overwrite_config, write_config,
  put_new, put_in_place,
}
use center_agent.Agent.Install.Writes.{copy_file_chmod-Keeps}
use center_agent.Agent.Install.Turns.{
  Ends, >>=-Ends, pure-Ends, finish-Ends, say->>=-Ends, look->>=-Ends, attempt-Ends,
  attempt->>=-Ends, change->>=-Ends, call-Ends, if-Ends, on_value-Ends, require-Ends,
  require->>=-Ends,
}
use center_agent.Agent.Install.Undo.{
  Aside, Apart, Undone, kept, lost, not_put, Undone-step, Saved, nothing, saved, Saved-step,
  Ends-and, Wrote, write_file_via_sudo-Ends, systemctl_restart-Ends, rollback_bin-Ends,
  rollback_upgrade-Ends, rollback_install-Ends, rollback_full-Ends,
}

-- The service has been restarted, on `m`: `systemctl daemon-reload` went well with the binary `b` and
-- the unit in place, the service was enabled or not, and `systemctl restart` went well.
pub record Restarted (H : Host) (o : Order) (b : Text) (m : H.os.Machine) : Type 0 where
  pub first : H.os.Machine
  pub second : H.os.Machine
  pub binary : H.os.content (binary_of o) first ≡ some b
  pub unit : H.os.content (unit_of o) first ≡ some (unit_text o)
  pub reloaded : (H.systemctl (codes "daemon-reload" ∷ []) first).1 ≡ true
  pub enabled :
      (second ≡ (H.systemctl (codes "daemon-reload" ∷ []) first).0)
      ⊎ (second
          ≡ (H.systemctl
              (codes "enable" ∷ service_name o.setup ∷ [])
              (H.systemctl (codes "daemon-reload" ∷ []) first).0).0)
  pub restarted : (H.systemctl (codes "restart" ∷ service_name o.setup ∷ []) second).1 ≡ true
  pub after : m ≡ (H.systemctl (codes "restart" ∷ service_name o.setup ∷ []) second).0

-- The machine `up`, with artifacts removed.
pub data Tidied (H : Host) (o : Order) (up : H.os.Machine) : H.os.Machine → Type 0 where
  as_it_was : Tidied H o up up
  without :
      (n : ℕ) (m : H.os.Machine)
      → Tidied H o up m
      → Tidied H o up (H.os.remove (artifact_file H o n) m)

-- The machine `m` and the result of a run from `m₀`. A success was found two seconds after a restart,
-- with nothing done since but removing the artifact.
pub data Ended (H : Host) (o : Order) (m₀ : H.os.Machine) (r : Outcome) (m : H.os.Machine)
    : Type 0 where
  installed :
      (b : Text) (extra : Map Text Json) (restarted : H.os.Machine)
      → H.os.content (binary_of o) m ≡ some b
      → H.os.sha256_hex (take size_limit b) ≡ wanted_sha o
      → H.os.content (unit_of o) m ≡ some (unit_text o)
      → Restarted H o b restarted
      → is_service_active H.os o.setup.settings.service_name (H.os.sleep 2 restarted) ≡ true
      → Tidied H o (H.os.sleep 2 restarted) m
      → r ≡ succeeding extra
      → Ended H o m₀ r m
  failed :
      (f : Failure) (extra : Map Text Json)
      → Undone H o m₀ m
      → r ≡ failing f extra
      → Ended H o m₀ r m

-- The artifact is in the binary's place.
pub record InPlace (H : Host) (o : Order) (b : Text) (m : H.os.Machine) : Type 0 where
  pub there : H.os.content (binary_of o) m ≡ some b
  pub right : H.os.sha256_hex (take size_limit b) ≡ wanted_sha o

InPlace-step :
    {H : Host} {o : Order} {b : Text} {m m' : H.os.Machine}
    → H.os.content (binary_of o) m' ≡ H.os.content (binary_of o) m
    → InPlace H o b m
    → InPlace H o b m'
InPlace-step e p = record { there = e ∙ p.there; right = p.right }

binary_new : (H : Host) (o : Order) (n : ℕ) → binary_of o ≢ new_file H o n
unfolding new_file
binary_new H o n e = omega (arith, ap length e, length-append (binary_of o) (codes ".new." ++ _))

module _ {H : Host} (K : IsHost H) {o : Order} (A : Apart H o) {m₀ : H.os.Machine} where
  give_up-Ends :
      (rollback : Work H (Unit {0})) (f : Failure) (extra : Map Text Json) (m : H.os.Machine)
      → Ends (λ _ m'. Undone H o m₀ m') (Ended H o m₀) rollback m
      → Ends (λ (_ : Unit {0}) _. ⊥) (Ended H o m₀) (give_up H o rollback (stop o.id f extra)) m
  give_up-Ends rollback f extra m h =
      >>=-Ends (λ _ m'. Undone H o m₀ m') h
        (λ _ m₁ u.
          >>=-Ends (λ _ m'. (q : Text) → H.os.content q m' ≡ H.os.content q m₁)
            (systemctl_restart-Ends K o.id _ m₁)
            (λ _ m₂ same.
              finish-Ends o.id _ (failed f extra (Undone-step (same (binary_of o)) u) refl)))

  verify-Ends :
      (k : Backups) (b : Text) (m : H.os.Machine)
      → Saved H o m₀ k m
      → InPlace H o b m
      → H.os.content (unit_of o) m ≡ some (unit_text o)
      → Restarted H o b m
      → Ends (λ (_ : Unit {0}) _. ⊥) (Ended H o m₀) (verify H o k) m
  unfolding verify
  verify-Ends k b m s p u again =
      let up = H.os.sleep 2 m in
      let same = λ (q : Text). K.os.content-sleep 2 q m in
      change->>=-Ends _ _ (
        say->>=-Ends _ _ _ (
          look->>=-Ends _ _ (
            if-Ends (is_service_active H.os o.setup.settings.service_name up)
              (λ active. say->>=-Ends _ _ _ (
                finish-Ends o.id _ (
                  installed b _ m (same _ ∙ p.there) p.right (same _ ∙ u) again active as_it_was
                    refl)))
              (λ _. say->>=-Ends _ _ _ (
                >>=-Ends (λ _ m'. Undone H o m₀ m')
                  (rollback_full-Ends K A o.install k up refl (Saved-step (λ _. same k.binary) s))
                  (λ _ m₁ undone. attempt->>=-Ends _ _ (
                    let m₂ = (H.systemctl (codes "daemon-reload" ∷ []) m₁).0 in
                    >>=-Ends (λ _ m'. (q : Text) → H.os.content q m' ≡ H.os.content q m₂)
                      (systemctl_restart-Ends K o.id _ m₂)
                      (λ _ m₃ back. look->>=-Ends _ _ (
                        finish-Ends o.id _ (
                          failed _ _
                            (Undone-step (back _ ∙ K.content-systemctl _ (binary_of o) m₁) undone)
                            refl))))))))))

  -- After a rollback, one more call of systemctl.
  reloaded-Ends :
      (k : Backups) (m : H.os.Machine)
      → Saved H o m₀ k m
      → Ends
          (λ _ m'. Undone H o m₀ m')
          (Ended H o m₀)
          (rollback_full H o.setup o.install k >> call (H.systemctl (codes "daemon-reload" ∷ [])))
          m
  reloaded-Ends k m s =
      >>=-Ends (λ _ m'. Undone H o m₀ m') (rollback_full-Ends K A o.install k m refl s)
        (λ _ m' u. call-Ends _ (Undone-step (K.content-systemctl _ (binary_of o) m') u))

  restart-Ends :
      (k : Backups) (b : Text) (m : H.os.Machine)
      → Saved H o m₀ k m
      → InPlace H o b m
      → H.os.content (unit_of o) m ≡ some (unit_text o)
      → Ends (λ (_ : Unit {0}) _. ⊥) (Ended H o m₀) (restart H o k) m
  unfolding restart
  restart-Ends k b m s p u =
      let reload = codes "daemon-reload" ∷ [] in
      let again = codes "restart" ∷ service_name o.setup ∷ [] in
      let m₁ = (H.systemctl reload m).0 in
      let first = λ (q : Text). K.content-systemctl reload q m in
      say->>=-Ends _ _ _ (
        attempt->>=-Ends _ _ (
          if-Ends (H.systemctl reload m).1
            (λ reloaded.
              >>=-Ends
                (λ _ m'.
                  ((m' ≡ m₁)
                    ⊎ (m' ≡ (H.systemctl (codes "enable" ∷ service_name o.setup ∷ []) m₁).0))
                  × ((q : Text) → H.os.content q m' ≡ H.os.content q m₁))
                (if-Ends (o.install || payload_bool o.payload (codes "enable_service"))
                  (λ _. call-Ends _ (inr refl, λ q. K.content-systemctl _ q m₁))
                  (λ _. pure-Ends tt (inl refl, λ q. refl)))
                (λ _ m₂ (enabled, second). attempt->>=-Ends _ _ (
                  let m₃ = (H.systemctl again m₂).0 in
                  let all = λ (q : Text). K.content-systemctl again q m₂ ∙ (second q ∙ first q) in
                  let s₃ = Saved-step (λ _. all k.binary) s in
                  if-Ends (H.systemctl again m₂).1
                    (λ restarted.
                      verify-Ends k b m₃ s₃ (InPlace-step (all _) p) (all _ ∙ u) record {
                        first = m;
                        second = m₂;
                        binary = p.there;
                        unit = u;
                        reloaded = reloaded;
                        enabled = enabled;
                        restarted = restarted;
                        after = refl;
                      })
                    (λ _. give_up-Ends _ _ _ m₃ (reloaded-Ends k m₃ s₃)))))
            (λ _.
              give_up-Ends _ _ _ m₁
                (rollback_full-Ends K A o.install k m₁ refl (Saved-step (λ _. first k.binary) s)))))

  pub write_unit-Ends :
      (k : Backups) (b : Text) (m : H.os.Machine)
      → Saved H o m₀ k m
      → InPlace H o b m
      → Ends (λ (_ : Unit {0}) _. ⊥) (Ended H o m₀) (write_unit H o k) m
  unfolding write_unit
  write_unit-Ends k b m s p = say->>=-Ends _ _ _ (
      >>=-Ends (Wrote H (unit_of o) (unit_text o) m)
        (write_file_via_sudo-Ends K (unit_of o) (unit_text o) (codes "0644") m A.unit_written)
        (λ done m₁ w.
          let s₁ = Saved-step (λ a. w.others k.binary a.unit a.written) s in
          if-Ends done
            (λ d.
              restart-Ends k b m₁ s₁
                (InPlace-step (w.others (binary_of o) A.binary_unit A.binary_written) p)
                (w.there d))
            (λ _. give_up-Ends _ _ _ m₁ (rollback_install-Ends K A o.install k m₁ refl s₁))))

  undo_binary-Ends :
      (k : Backups) (b : Text) (f : Failure) (m : H.os.Machine)
      → Saved H o m₀ k m
      → Ends
          (λ (_ : Unit {0}) m'. Saved H o m₀ k m' × InPlace H o b m')
          (Ended H o m₀)
          (rollback_bin H (binary_of o) k.binary >> stop o.id f [])
          m
  undo_binary-Ends k b f m s =
      >>=-Ends (λ _ m'. Undone H o m₀ m') (rollback_bin-Ends K A k m s)
        (λ _ m' u. finish-Ends o.id _ (failed f [] u refl))

  write_initial_config-Ends :
      (k : Backups) (b : Text) (m : H.os.Machine)
      → Saved H o m₀ k m
      → InPlace H o b m
      → Ends
          (λ _ m'. Saved H o m₀ k m' × InPlace H o b m')
          (Ended H o m₀)
          (write_initial_config H o k)
          m
  unfolding write_initial_config
  write_initial_config-Ends k b m s p =
      let yaml = field_of o.payload (codes "initial_config_yaml") in
      let want = to_lower (field_of o.payload (codes "initial_config_sha256")) in
      if-Ends (yaml == []) (λ _. pure-Ends tt (s, p))
        (λ _.
          if-Ends (H.os.sha256_hex yaml == want)
            (λ _.
              >>=-Ends (Wrote H (config_of o) yaml m)
                (write_file_via_sudo-Ends K (config_of o) yaml (codes "0600") m A.config_written)
                (λ done m₁ w.
                  let s₁ = Saved-step (λ a. w.others k.binary a.config a.written) s in
                  if-Ends done
                    (λ _. pure-Ends tt (
                      s₁,
                      InPlace-step (w.others (binary_of o) A.binary_config A.binary_written) p,
                    ))
                    (λ _. undo_binary-Ends k b _ m₁ s₁)))
            (λ _. undo_binary-Ends k b _ m s))

  overwrite_config-Ends :
      (k : Backups) (b : Text) (m : H.os.Machine)
      → Aside H o k.binary
      → H.os.content k.binary m ≡ H.os.content (binary_of o) m₀
      → o.install ≡ false
      → InPlace H o b m
      → Ends
          (λ _ m'. Saved H o m₀ k m' × InPlace H o b m')
          (Ended H o m₀)
          (overwrite_config H o k)
          m
  unfolding overwrite_config
  overwrite_config-Ends k b m a h i p =
      let yaml = str_from o.payload (codes "config_yaml") in
      >>=-Ends (Wrote H (config_of o) yaml m)
        (write_file_via_sudo-Ends K (config_of o) yaml (codes "0600") m A.config_written)
        (λ done m₁ w.
          let h₁ = w.others k.binary a.config a.written ∙ h in
          if-Ends done
            (λ _. pure-Ends tt (
              saved i a h₁,
              InPlace-step (w.others (binary_of o) A.binary_config A.binary_written) p,
            ))
            (λ _.
              >>=-Ends (λ _ m'. Undone H o m₀ m') (rollback_upgrade-Ends K A k m₁ a h₁)
                (λ _ m₂ u.
                  >>=-Ends (λ _ m'. (q : Text) → H.os.content q m' ≡ H.os.content q m₂)
                    (systemctl_restart-Ends K o.id _ m₂)
                    (λ _ m₃ same.
                      finish-Ends o.id _ (failed _ [] (Undone-step (same (binary_of o)) u) refl)))))

  pub write_config-Ends :
      (k : Backups) (b : Text) (m : H.os.Machine)
      → Saved H o m₀ k m
      → InPlace H o b m
      → Ends (λ _ m'. Saved H o m₀ k m' × InPlace H o b m') (Ended H o m₀) (write_config H o k) m
  unfolding write_config
  write_config-Ends k b m (nothing i e) p =
      if-Ends o.install (λ _. write_initial_config-Ends k b m (nothing i e) p)
        (λ j. absurd (ground (arith, i, j)))
  write_config-Ends k b m (saved i a h) p =
      if-Ends o.install (λ _. write_initial_config-Ends k b m (saved i a h) p)
        (λ _.
          if-Ends (overwrites o) (λ _. overwrite_config-Ends k b m a h i p)
            (λ _. pure-Ends tt (saved i a h, p)))

  copy_file_chmod-Ends :
      (from to : Text) (m : H.os.Machine)
      → Ends
          (λ done m'. done ≡ true → H.os.content to m' ≡ H.os.content from m)
          (Ended H o m₀)
          (copy_file_chmod H from to)
          m
  unfolding copy_file_chmod
  copy_file_chmod-Ends from to m = look->>=-Ends _ _ (
      on_value-Ends (H.os.read_file from m) (λ _. pure-Ends false (λ e. absurd (ground (arith, e))))
        (λ b e.
          attempt-Ends _ (λ done.
            K.os.content-write_file to b m done ∙ sym (K.os.content-read_file from b m e))))

  put_new-Ends :
      (k : Backups) (b tmp : Text) (m : H.os.Machine)
      → binary_of o ≢ tmp
      → (Aside H o k.binary → k.binary ≢ tmp)
      → Saved H o m₀ k m
      → H.os.content tmp m ≡ some b
      → H.os.sha256_hex (take size_limit b) ≡ wanted_sha o
      → H.os.content (binary_of o) m ≡ H.os.content (binary_of o) m₀
      → Ends (λ _ m'. Saved H o m₀ k m' × InPlace H o b m') (Ended H o m₀) (put_new H o tmp) m
  unfolding put_new
  put_new-Ends k b tmp m apart aside s there right old =
      let m₁ = (H.sudo_install (codes "0755") tmp (binary_of o) m).0 in
      attempt->>=-Ends _ _ (
        change->>=-Ends _ _ (
          require-Ends o.id _ _ _
            (λ bad.
              failed _ []
                (lost (
                  not_put tmp b m there right old bad
                    (K.os.content-remove tmp (binary_of o) m₁ apart)))
                refl)
            (λ put. (
              Saved-step
                  (λ a.
                    K.os.content-remove tmp k.binary m₁ (aside a)
                    ∙ K.content-sudo_install_other _ tmp _ k.binary m a.binary)
                  s,
              record {
                there =
                    K.os.content-remove tmp (binary_of o) m₁ apart
                    ∙ (K.content-sudo_install _ tmp (binary_of o) m put ∙ there);
                right = right;
              },
            ))))

  pub put_in_place-Ends :
      (k : Backups) (b artifact : Text) (m : H.os.Machine)
      → Saved H o m₀ k m
      → H.os.content artifact m ≡ some b
      → H.os.sha256_hex (take size_limit b) ≡ wanted_sha o
      → H.os.content (binary_of o) m ≡ H.os.content (binary_of o) m₀
      → Ends
          (λ _ m'. Saved H o m₀ k m' × InPlace H o b m')
          (Ended H o m₀)
          (put_in_place H o artifact)
          m
  unfolding put_in_place
  put_in_place-Ends k b artifact m s there right same =
      let dirs = dir (binary_of o) ∷ dir (config_of o) ∷ [] in
      let m₁ = (H.sudo_mkdir dirs m).0 in
      let first = λ (q : Text). K.content-sudo_mkdir dirs q m in
      let tmp = new_file H o (H.nanos m₁) in
      say->>=-Ends _ _ _ (
        attempt->>=-Ends _ _ (
          require->>=-Ends _ _ _ _ _ (λ _. failed _ [] (kept (first _ ∙ same)) refl)
            (λ _. look->>=-Ends _ _ (
              >>=-Ends
                (λ done m'.
                  (done ≡ true → H.os.content tmp m' ≡ H.os.content artifact m₁)
                  × ((q : Text) → q ≢ tmp → H.os.content q m' ≡ H.os.content q m₁))
                (Ends-and (λ m'. (q : Text) → q ≢ tmp → H.os.content q m' ≡ H.os.content q m₁)
                  (λ q h. (copy_file_chmod-Keeps K artifact tmp h).keeps m₁)
                  (copy_file_chmod-Ends artifact tmp m₁))
                (λ done m₂ (copied, second).
                  let apart = binary_new H o (H.nanos m₁) in
                  require->>=-Ends _ _ _ _ _
                    (λ _. failed _ [] (kept (second _ apart ∙ (first _ ∙ same))) refl)
                    (λ d.
                      put_new-Ends k b tmp m₂ apart (λ a. a.fresh (H.nanos m₁))
                        (Saved-step (λ a. second k.binary (a.fresh (H.nanos m₁)) ∙ first k.binary)
                          s)
                        (copied d ∙ (first artifact ∙ there)) right
                        (second _ apart ∙ (first _ ∙ same))))))))
