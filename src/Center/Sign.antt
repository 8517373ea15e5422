-- ===== src/Center/Sign.antt =====
-- Signatures of requests: hsign/hsign.go of the center, whose signing part the agent's hsign.go
-- repeats.
use center_agent.Prelude.{
  Bool, true, ◌&&◌, not, Option, none, some, [], ◌∷◌, ◌++◌, ◌==◌, nat_eq, list_eq, leb, ◌-◌, ℕ, map,
  if◌then◌else◌,
}
use center_agent.Prelude.Ints.{ℤ, pos, ltb_ℤ, ◌-ℤ◌, to_int64}
use center_agent.Prelude.Text.{Text, format_int}

-- The hexadecimal SHA-256 of a text, and the hexadecimal HMAC-SHA-256 of a text under a key.
pub record HashLib : Type 0 where
  pub sha256_hex : Text → Text
  pub hmac_hex : (key message : Text) → Text

-- `strings.ToUpper`
abbrev pub upper_code : ℕ → ℕ
upper_code c = if leb b'a' c && leb c b'z' then c - 32 else c

abbrev pub to_upper : Text → Text
to_upper = map upper_code

abbrev newline : Text
newline = 10 ∷ []

unfoldable pub signing_string : (method path : Text) → ℤ → (nonce body_hash : Text) → Text
unfolding format_int
signing_string method path ts nonce body_hash =
    to_upper method
    ++ (newline
        ++ (path ++ (newline ++ (format_int ts ++ (newline ++ (nonce ++ (newline ++ body_hash)))))))

pub data VerifyError : Type 0 where
  replayed skewed body_mismatch signature_mismatch : VerifyError

-- `abs` of an int64, which leaves the least one as it is.
unfoldable pub abs_int64 : ℤ → ℤ
abs_int64 n = if ltb_ℤ n (pos 0) then to_int64 (pos 0 -ℤ n) else n

module _ (H : HashLib) where
  unfoldable pub sign : (secret method path : Text) → ℤ → (nonce body : Text) → Text
  unfolding signing_string
  sign secret method path ts nonce body =
      H.hmac_hex secret (signing_string method path ts nonce (H.sha256_hex body))

  -- `seen` is what the function of that name answers, where one is given. `skew` and `now` are
  -- seconds.
  unfoldable pub verify :
      (secret method path : Text)
      → (ts : ℤ) → (nonce body_hash sig body : Text) → (skew : ℤ) → (seen : Option Bool) → (now : ℤ)
      → Option VerifyError
  unfolding sign abs_int64
  verify secret method path ts nonce body_hash sig body skew (some true) now = some replayed
  verify secret method path ts nonce body_hash sig body skew seen now =
      if ltb_ℤ skew (abs_int64 (to_int64 (now -ℤ ts)))
      then some skewed
      else if not (body_hash == H.sha256_hex body)
      then some body_mismatch
      else if not (sign secret method path ts nonce body == sig)
      then some signature_mismatch
      else none
