-- ===== src/Agent/Install/Host.antt =====
-- What an installation uses of the machine beyond Agent.Os: `sudo`, clocks, and the center's answer.
use center_agent.Prelude.{
  ℕ, ◌*◌, ◌^◌, ◌≡◌, ◌≢◌, Bool, true, false, Option, none, some, List, [], ◌++◌, ◌&&◌, leb, take,
  if◌then◌else◌,
}
use center_agent.Prelude.Text.{Text, codes}
use center_agent.Agent.Os.{Os, IsOs}

-- The answer to a request. A body is broken off where the transfer fails.
pub record Answer : Type 0 where
  pub status : ℕ
  pub body : Text
  pub complete : Bool

pub record Host : Type 1 where
  pub os : Os
  -- `os.Stat` finds something that is not a directory.
  pub is_file : Text → os.Machine → Bool
  -- Commands under `sudo -n`: `cat`, `mkdir -p`, `install` with its mode, `rm -f`, `systemctl`.
  pub sudo_cat : Text → os.Machine → Option Text
  pub sudo_mkdir : List Text → os.Machine → os.Machine × Bool
  pub sudo_install : (mode from to : Text) → os.Machine → os.Machine × Bool
  pub sudo_rm : Text → os.Machine → os.Machine × Bool
  pub systemctl : List Text → os.Machine → os.Machine × Bool
  -- `os.TempDir`, and the clock: as `20060102-150405`, and in nanoseconds.
  pub temp_dir : Text
  pub stamp : os.Machine → Text
  pub nanos : os.Machine → ℕ
  -- The signed request for a path; no answer if it cannot be sent.
  pub ask : Text → os.Machine → Option Answer

-- The documented behaviour of these calls.
pub record IsHost (H : Host) : Type 0 where
  pub os : IsOs H.os
  pub content-sudo_cat :
      (p b : Text) (m : H.os.Machine) → H.sudo_cat p m ≡ some b → H.os.content p m ≡ some b
  pub content-sudo_mkdir :
      (ps : List Text) (q : Text) (m : H.os.Machine)
      → H.os.content q (H.sudo_mkdir ps m).0 ≡ H.os.content q m
  pub content-sudo_install :
      (mode p q : Text) (m : H.os.Machine)
      → (H.sudo_install mode p q m).1 ≡ true
      → H.os.content q (H.sudo_install mode p q m).0 ≡ H.os.content p m
  pub content-sudo_install_other :
      (mode p q r : Text) (m : H.os.Machine)
      → r ≢ q
      → H.os.content r (H.sudo_install mode p q m).0 ≡ H.os.content r m
  pub content-sudo_rm :
      (p : Text) (m : H.os.Machine)
      → (H.sudo_rm p m).1 ≡ true
      → H.os.content p (H.sudo_rm p m).0 ≡ none
  pub content-sudo_rm_other :
      (p q : Text) (m : H.os.Machine) → q ≢ p → H.os.content q (H.sudo_rm p m).0 ≡ H.os.content q m
  pub content-systemctl :
      (words : List Text) (q : Text) (m : H.os.Machine)
      → H.os.content q (H.systemctl words m).0 ≡ H.os.content q m

-- `512 << 20`
abbrev pub size_limit : ℕ
size_limit = 512 * 2 ^ 20

module _ (H : Host) where
  abbrev pub part_file : Text → Text
  part_file dest = dest ++ codes ".part"

  -- The file with the body takes its place under its own name.
  unfoldable pub move_into_place : Text → H.os.Machine → H.os.Machine × Bool
  move_into_place dest m =
      let (m₁, moved) = H.os.rename (part_file dest) dest (H.os.remove dest m) in
      if moved then (m₁, true) else (H.os.remove (part_file dest) m₁, false)

  -- `os.Create` empties the file, `io.Copy` fills it.
  unfoldable pub save_body : Text → Answer → H.os.Machine → H.os.Machine × Bool
  unfolding move_into_place
  save_body dest a m =
      let (m₁, created) = H.os.write_file (part_file dest) [] m in
      let (m₂, written) = H.os.write_file (part_file dest) (take size_limit a.body) m₁ in
      if created
      then (if written && a.complete
          then move_into_place dest m₂
          else (H.os.remove (part_file dest) m₂, false))
      else (m₁, false)

  -- SignedGETToFile of capi/client.go.
  unfoldable pub signed_get_to_file : (path dest : Text) → H.os.Machine → H.os.Machine × Bool
  unfolding save_body
  signed_get_to_file path dest m = elim (H.ask path m) [
    | none ↦ (m, false)
    | some a ↦ if leb 300 a.status then (m, false) else save_body dest a m
  ]

  unfoldable pub read_file_maybe_sudo : Text → H.os.Machine → Option Text
  read_file_maybe_sudo p m = elim (H.os.read_file p m) [ some b ↦ some b | none ↦ H.sudo_cat p m ]

  unfoldable pub sha256_file_hex : Text → H.os.Machine → Option Text
  sha256_file_hex p m = elim (H.os.read_file p m) [
    | none ↦ none
    | some b ↦ some (H.os.sha256_hex (take size_limit b))
  ]
