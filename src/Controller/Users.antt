-- ===== src/Controller/Users.antt =====
-- service/controller/userbuilder.go: the users of a panel as Xray's users.
use center_agent.Prelude.{
  ℕ, ◌+◌, ◌*◌, ◌/◌, ◌%◌, Bool, ◌&&◌, ◌||◌, Option, none, some, List, [], ◌∷◌, map, ltb, leb, ◌==◌,
  nat_eq, list_eq, if◌then◌else◌, length, take, contains,
}
use center_agent.Prelude.Text.{Text, codes, to_lower, has_infix}
use center_agent.Api.{UserInfo}
use center_agent.Limiter.{user_key}
use center_agent.Controller.Types.{
  NodeInfo, Config, CipherType, aes_128_gcm, aes_256_gcm, chacha20_poly1305, xchacha20_poly1305,
  none_cipher, unknown_cipher, Account, vmess, vless, trojan, shadowsocks, shadowsocks_2022,
  XrayUser,
}
use center_agent.Controller.Users.Base64.{base64}
pub mod Base64

-- cipherFromString
unfoldable pub cipher_from_string : Text → CipherType
cipher_from_string c =
    let s = to_lower c in
    if s == codes "aes-128-gcm" || s == codes "aead_aes_128_gcm"
    then aes_128_gcm
    else if s == codes "aes-256-gcm" || s == codes "aead_aes_256_gcm"
    then aes_256_gcm
    else if s == codes "chacha20-poly1305"
        || s == codes "aead_chacha20_poly1305"
        || s == codes "chacha20-ietf-poly1305"
    then chacha20_poly1305
    else if s == codes "none" || s == codes "plain"
    then none_cipher
    else unknown_cipher

-- Whether the AEADMethod table has an entry.
abbrev is_aead : CipherType → Bool
is_aead aes_128_gcm = Bool.true
is_aead aes_256_gcm = Bool.true
is_aead chacha20_poly1305 = Bool.true
is_aead xchacha20_poly1305 = Bool.true
is_aead none_cipher = Bool.false
is_aead unknown_cipher = Bool.false

-- checkShadowsocksPassword; `none` is its error.
unfoldable pub check_shadowsocks_password : Text → Text → Text → Option Text
unfolding base64
check_shadowsocks_password panel_type password method =
    if has_infix panel_type (codes "V2board")
    then (if ltb (length password) 16
        then none
        else if method == codes "2022-blake3-aes-128-gcm"
        then some (base64 (take 16 password))
        else if ltb (length password) 32
        then none
        else some (base64 (take 32 password)))
    else some password

abbrev user_tag : Text → UserInfo → Text
user_tag tag u = user_key tag u.email u.uid

abbrev xray_user : Text → UserInfo → Account → Option XrayUser
xray_user tag u a = some (record { email = user_tag tag u; account = a })

unfoldable pub build_vmess_user : Text → List UserInfo → List (Option XrayUser)
build_vmess_user tag = map (λ u. xray_user tag u (vmess u.uuid))

unfoldable pub build_vless_user : Text → Text → List UserInfo → List (Option XrayUser)
build_vless_user flow tag = map (λ u. xray_user tag u (vless u.uuid flow))

unfoldable pub build_trojan_user : Text → List UserInfo → List (Option XrayUser)
build_trojan_user tag = map (λ u. xray_user tag u (trojan u.uuid))

-- An entry for a user with a Shadowsocks 2022 method; it stays nil where the password is refused.
ss_2022_user : Text → Text → Text → UserInfo → Option XrayUser
ss_2022_user panel_type tag method u =
    elim (check_shadowsocks_password panel_type u.passwd method) [
      | none ↦ none
      | some key ↦ xray_user tag u (shadowsocks_2022 key (user_tag tag u))
    ]

-- `methods_2022` is shadowaead_2022.List.
module _ (methods_2022 : List Text) where
  unfoldable pub build_ss_user : Text → Text → Text → List UserInfo → List (Option XrayUser)
  unfolding ss_2022_user
  build_ss_user panel_type method tag = map (λ u.
      if contains methods_2022 (to_lower method)
      then ss_2022_user panel_type tag method u
      else xray_user tag u (shadowsocks u.passwd (cipher_from_string method)))

  ss_plugin_user : Text → Text → UserInfo → Option XrayUser
  unfolding ss_2022_user
  ss_plugin_user panel_type tag u =
      if contains methods_2022 (to_lower u.method)
      then ss_2022_user panel_type tag u.method u
      else (let cipher = cipher_from_string u.method in
          if is_aead cipher then xray_user tag u (shadowsocks u.passwd cipher) else none)

  unfoldable pub build_ss_plugin_user : Text → Text → List UserInfo → List (Option XrayUser)
  unfolding ss_plugin_user
  build_ss_plugin_user panel_type tag = map (ss_plugin_user panel_type tag)
