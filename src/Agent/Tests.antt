-- ===== src/Agent/Tests.antt =====
-- The agent's commands on a concrete machine, and the theorems at concrete data.
use center_agent.Prelude.{
  ◌≡◌, ◌≢◌, ◌↔◌, inl, inr, refl, Bool, true, false, Option, none, some, List, [], ◌∷◌, ◌++◌, arith,
  ◌==◌, ==_iff, nat_eq, list_eq, if◌then◌else◌, Option-cases,
}
use center_agent.Prelude.Maps.{Map, load, store, delete, load-store, load-store_self, load-delete}
use center_agent.Prelude.Text.{Text, codes, trim_space, decimal}
use center_agent.Prelude.Json.{Json, text, boolean}
use center_agent.Agent.Os.{Os, IsOs}
use center_agent.Agent.Commands.{
  Settings, is_allowed, Message, results, succeeding, run_restart, is_service_active,
}
use center_agent.Agent.Apply.{Job, backup_file, run_apply_config, wanted_hash}
use center_agent.Agent.Apply.Outcomes.{Ended, run_apply_config-Ended}
use center_agent.Agent.Refusals.{run_restart-success}

abbrev config : Text
config = codes "/etc/xrayr.yml"

-- A machine that is its files, and a service that runs unless its file is `bad`.
abbrev plain_rename : Text → Text → Map Text Text → Map Text Text × Bool
plain_rename p q m = elim (load p m) [ none ↦ (m, false) | some b ↦ (store q b (delete p m), true) ]

abbrev pub plain_os : Os
plain_os = record {
  Machine = Map Text Text;
  content = λ p m. load p m;
  read_file = λ p m. load p m;
  write_file = λ p b m. (store p b m, true);
  rename = plain_rename;
  remove = λ p m. delete p m;
  mkdir_all = λ p m. m;
  restart = λ s m. (m, true);
  query_active = λ s m. elim (load config m) [
    | none ↦ none
    | some b ↦ if b == codes "bad" then none else some (codes "active")
  ];
  sleep = λ n m. m;
  join = λ p q. p ++ (codes "/" ++ q);
  sha256_hex = λ b. b;
}

plain_rename_done :
    (p q : Text) (m : Map Text Text)
    → (plain_rename p q m).1 ≡ true
    → load q (plain_rename p q m).0 ≡ load p m
plain_rename_done p q m h = elim (Option-cases (load p m)) [
  | inl e ↦ ground (arith, e)
  | inr (b, e) ↦ rw (plain_rename, e) (load-store_self q b (delete p m))
]

plain_rename_failed :
    (p q r : Text) (m : Map Text Text)
    → (plain_rename p q m).1 ≡ false
    → load r (plain_rename p q m).0 ≡ load r m
plain_rename_failed p q r m h = ground arith

plain_rename_other :
    (p q r : Text) (m : Map Text Text) → r ≢ p → r ≢ q → load r (plain_rename p q m).0 ≡ load r m
plain_rename_other p q r m h k = elim (Option-cases (load p m)) [
  | inl e ↦ ground (arith, e)
  | inr (b, e) ↦
      rw (plain_rename, e)
        (ground (arith, load-store q r b (delete p m), load-delete p r m, ==_iff r p, ==_iff r q))
]

pub plain_os-IsOs : IsOs plain_os
plain_os-IsOs = record {
  content-read_file = λ p b m h. h;
  content-write_file = λ p b m h. load-store_self p b m;
  content-write_file_other = λ p q b m h. ground (arith, load-store p q b m, ==_iff q p);
  content-rename = plain_rename_done;
  content-rename_failed = plain_rename_failed;
  content-rename_other = plain_rename_other;
  content-remove = λ p q m h. ground (arith, load-delete p q m, ==_iff q p);
  content-mkdir_all = λ p q m. refl;
  content-restart = λ s q m. refl;
  content-sleep = λ n q m. refl;
}

abbrev settings : Settings
settings = record {
  allow_commands = codes "status_xrayr" ∷ codes " Apply_Config" ∷ codes "RESTART_XRAYR" ∷ [];
  backup_dir = codes "/var/backup";
  config_path = codes "/etc/xrayr.yml ";
  service_name = codes "xrayr";
}

abbrev job : Job
job = record { id = codes "c1"; settings = settings; stamp = codes "20240101-000000"; nanos = 7 }

-- The center serves one file.
abbrev serve : Text → Text → Option Text
serve yaml path = if path == codes "/y" then some yaml else none

abbrev payload : Text → Map Text Json
payload hash = (codes "config_hash", text hash) ∷ (codes "yaml_path", text (codes "/y")) ∷ []

abbrev files : Map Text Text
files = (config, codes "old") ∷ []

abbrev ran : Text → Map Text Text × List Message
ran yaml = run_apply_config plain_os job (serve yaml) (payload yaml) files

-- A file that the service takes, and one with which it does not start.
good_run : load config (ran (codes "new")).0 ≡ some (codes "new")
unfolding run_apply_config load store delete decimal is_allowed is_service_active
good_run = refl

bad_run : load config (ran (codes "bad")).0 ≡ some (codes "old")
unfolding run_apply_config load store delete decimal is_allowed is_service_active
bad_run = refl

run_apply_config-Ended_example :
    let (m', ms) = ran (codes "new") in
    Ended plain_os job (codes "new") (some (codes "new")) files m' ms
unfolding wanted_hash backup_file trim_space load
run_apply_config-Ended_example =
    run_apply_config-Ended plain_os-IsOs job (serve (codes "new")) (payload (codes "new")) files
      (ground arith)

run_restart-success_example :
    (results (run_restart plain_os settings (codes "c2") files).1
      ≡ succeeding ((codes "systemd_active", boolean true) ∷ []) ∷ [])
    ↔ (true ≡ true)
unfolding is_allowed is_service_active load
run_restart-success_example = run_restart-success plain_os settings (codes "c2") files
