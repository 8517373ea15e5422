-- ===== src/Agent/Install/Checks.antt =====
-- The checks before an installation: the payload against agent.yml, the names, and the white lists
-- of paths.
use center_agent.Prelude.{
  ℕ, ◌||◌, ◌&&◌, not, Bool, true, false, Option, none, some, [], ◌∷◌, ◌++◌, ◌==◌, nat_eq, list_eq,
  leb, ltb, length, if◌then◌else◌, contains,
}
use center_agent.Prelude.Maps.{Map, load}
use center_agent.Prelude.Text.{
  Text, codes, to_lower, equal_fold, trim_space, has_prefix, has_suffix, has_infix, trim_suffix,
  format_int, base, clean, dot_dot,
}
use center_agent.Prelude.Json.{Json, null, boolean, number, text, nested}
use center_agent.Agent.Commands.{
  Settings, Failure, wrong_service_name, wrong_binary, wrong_config, wrong_unit, wrong_os,
  wrong_arch, bad_download_path, bad_sha256, bad_name_length, bad_name,
}

-- What an installation reads of agent.yml beyond Settings, and the build of the agent.
pub record Setup : Type 0 where
  pub settings : Settings
  pub artifact_cache_dir : Text
  pub yml_binary_path : Text
  pub yml_service_path : Text
  pub goos : Text
  pub goarch : Text

-- `fmt.Sprint` of what JSON decodes to; a number is below `10 ^ 21`, from where on Go prints an
-- exponent.
abbrev pub sprint : Json → Text
sprint null = []
sprint (boolean true) = codes "true"
sprint (boolean false) = codes "false"
sprint (number z) = format_int z
sprint (text s) = s
sprint (nested s) = s

unfoldable pub str_from : Map Text Json → Text → Text
str_from m k = elim (load k m) [ none ↦ [] | some v ↦ sprint v ]

unfoldable pub field_of : Map Text Json → Text → Text
unfolding str_from trim_space
field_of m k = trim_space (str_from m k)

unfoldable pub payload_bool : Map Text Json → Text → Bool
unfolding field_of
payload_bool m k =
    let s = to_lower (field_of m k) in s == codes "1" || s == codes "true" || s == codes "yes"

-- A default for an empty text.
abbrev pub or_default : Text → Text → Text
or_default s d = if s == [] then d else s

unfoldable pub service_name : Setup → Text
unfolding trim_space
service_name s = or_default (trim_space s.settings.service_name) (codes "xrayr")

unfoldable pub effective_binary_path : Setup → Text
unfolding trim_space
effective_binary_path s = or_default (trim_space s.yml_binary_path) (codes "/usr/local/bin/XrayR")

unfoldable pub effective_service_path : Setup → Text
unfolding trim_space service_name
effective_service_path s =
    or_default (trim_space s.yml_service_path)
      (codes "/etc/systemd/system/" ++ (service_name s ++ codes ".service"))

unfoldable pub config_path : Setup → Text
unfolding trim_space
config_path s = trim_space s.settings.config_path

unfoldable pub arch_matches_payload : (artifact host : Text) → Bool
arch_matches_payload artifact host =
    let a = to_lower artifact in
    let h = to_lower host in
    a == h || a == codes "amd64" && h == codes "x86_64" || a == codes "x86_64" && h == codes "amd64"

unfoldable pub validate_install_payload : Setup → Map Text Json → Option Failure
unfolding service_name effective_binary_path effective_service_path config_path field_of
    arch_matches_payload
validate_install_payload s payload =
    let wanted = field_of payload in
    let dl = wanted (codes "download_path") in
    if not
      (equal_fold (or_default (wanted (codes "service_name")) (codes "xrayr")) (service_name s))
    then some wrong_service_name
    else if not (wanted (codes "target_binary_path") == effective_binary_path s)
    then some wrong_binary
    else if not (wanted (codes "target_config_path") == config_path s)
    then some wrong_config
    else if not (wanted (codes "target_service_path") == effective_service_path s)
    then some wrong_unit
    else if not (equal_fold (wanted (codes "target_os")) s.goos)
    then some wrong_os
    else if not (arch_matches_payload (wanted (codes "target_arch")) s.goarch)
    then some wrong_arch
    else if dl == []
        || not (has_prefix dl (codes "/api/agent/artifacts/"))
        || not (has_suffix dl (codes "/download"))
    then some bad_download_path
    else if not (length (wanted (codes "sha256")) == 64)
    then some bad_sha256
    else none

abbrev pub is_name_code : ℕ → Bool
is_name_code c =
    leb b'a' c && leb c b'z'
    || leb b'A' c && leb c b'Z'
    || leb b'0' c && leb c b'9'
    || c == b'-'
    || c == b'_'

abbrev pub all_name_codes : Text → Bool
all_name_codes [] = true
all_name_codes (c ∷ s) = is_name_code c && all_name_codes s

unfoldable pub validate_local_service_name : Text → Option Failure
unfolding trim_space
validate_local_service_name sn =
    let name = trim_space sn in
    let s = trim_suffix name (codes ".service") in
    if name == []
    then none
    else if s == [] || ltb 64 (length s)
    then some bad_name_length
    else if all_name_codes s
    then none
    else some bad_name

unfoldable pub allowed_binary_path : Text → Bool
allowed_binary_path p =
    contains (codes "/usr/local/bin/XrayR" ∷ codes "/usr/bin/XrayR" ∷ codes "/opt/XrayR/XrayR" ∷ [])
      p

unfoldable pub allowed_config_path : Text → Bool
unfolding base
allowed_config_path p =
    not (has_infix p dot_dot)
    && has_prefix p (codes "/etc/XrayR/")
    && (base p == codes "config.yml" || base p == codes "config.yaml")

unfoldable pub allowed_service_path : Text → Bool
unfolding base
allowed_service_path p =
    not (has_infix p dot_dot)
    && has_prefix p (codes "/etc/systemd/system/")
    && has_suffix p (codes ".service")
    && all_name_codes (trim_suffix (base p) (codes ".service"))

abbrev pub is_under : Text → Text → Bool
is_under d root = d == root || has_prefix d (root ++ codes "/")

unfoldable pub dir_allowed : Text → Bool
unfolding clean
dir_allowed dir =
    let d = clean dir in
    is_under d (codes "/var/lib/xrayr-agent")
    || is_under d (codes "/var/backups/xrayr-agent")
    || is_under d (codes "/etc/XrayR")

-- The tests of the three paths, and of the two directories.
unfoldable pub paths_allowed : Setup → Bool
unfolding effective_binary_path effective_service_path config_path allowed_binary_path
    allowed_config_path allowed_service_path
paths_allowed s =
    allowed_binary_path (effective_binary_path s)
    && allowed_config_path (config_path s)
    && allowed_service_path (effective_service_path s)

unfoldable pub dirs_allowed : Setup → Bool
unfolding dir_allowed
dirs_allowed s = dir_allowed s.settings.backup_dir && dir_allowed s.artifact_cache_dir
