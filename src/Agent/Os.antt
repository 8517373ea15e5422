-- ===== src/Agent/Os.antt =====
-- What the agent uses of the operating system: files, systemctl and hashes.
use center_agent.Prelude.{ℕ, ◌≡◌, ◌≢◌, Bool, true, false, Option, some}
use center_agent.Prelude.Text.{Text}

pub record Os : Type 1 where
  pub Machine : Type 0
  -- What stands in a file, whether or not the agent may read it.
  pub content : Text → Machine → Option Text
  -- `os.ReadFile`, `os.WriteFile`, `os.Rename`, `os.Remove`, `os.MkdirAll`: a Boolean says that the
  -- call returned no error.
  pub read_file : Text → Machine → Option Text
  pub write_file : Text → Text → Machine → Machine × Bool
  pub rename : (from to : Text) → Machine → Machine × Bool
  pub remove : Text → Machine → Machine
  pub mkdir_all : Text → Machine → Machine
  -- `systemctl restart`, and the output of `systemctl is-active` where it ran without an error.
  pub restart : Text → Machine → Machine × Bool
  pub query_active : Text → Machine → Option Text
  pub sleep : ℕ → Machine → Machine
  -- `filepath.Join`, and the hexadecimal SHA-256 of a text
  pub join : Text → Text → Text
  pub sha256_hex : Text → Text

-- The documented behaviour of the calls. A write that fails may leave anything in its own file.
pub record IsOs (O : Os) : Type 0 where
  pub content-read_file :
      (p b : Text) (m : O.Machine) → O.read_file p m ≡ some b → O.content p m ≡ some b
  pub content-write_file :
      (p b : Text) (m : O.Machine)
      → (O.write_file p b m).1 ≡ true
      → O.content p (O.write_file p b m).0 ≡ some b
  pub content-write_file_other :
      (p q b : Text) (m : O.Machine) → q ≢ p → O.content q (O.write_file p b m).0 ≡ O.content q m
  pub content-rename :
      (p q : Text) (m : O.Machine)
      → (O.rename p q m).1 ≡ true
      → O.content q (O.rename p q m).0 ≡ O.content p m
  pub content-rename_failed :
      (p q r : Text) (m : O.Machine)
      → (O.rename p q m).1 ≡ false
      → O.content r (O.rename p q m).0 ≡ O.content r m
  pub content-rename_other :
      (p q r : Text) (m : O.Machine)
      → r ≢ p
      → r ≢ q
      → O.content r (O.rename p q m).0 ≡ O.content r m
  pub content-remove :
      (p q : Text) (m : O.Machine) → q ≢ p → O.content q (O.remove p m) ≡ O.content q m
  pub content-mkdir_all :
      (p q : Text) (m : O.Machine) → O.content q (O.mkdir_all p m) ≡ O.content q m
  pub content-restart :
      (service q : Text) (m : O.Machine) → O.content q (O.restart service m).0 ≡ O.content q m
  pub content-sleep : (n : ℕ) (q : Text) (m : O.Machine) → O.content q (O.sleep n m) ≡ O.content q m
