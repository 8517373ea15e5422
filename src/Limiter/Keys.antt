-- ===== src/Limiter/Keys.antt =====
-- The user keys `tag|email|uid`, which the rule manager takes the UID from.
use mathlib.Core.List.{append_assoc}
use center_agent.Prelude.{◌≡◌, ap, sym, ◌∙◌, some, ◌∷◌, ◌++◌}
use center_agent.Prelude.Ints.{ℤ}
use center_agent.Prelude.Text.{
  Text, atoi, last_field, format_int, IsInt64, atoi-format_int, last_field-append, format_int-bar,
}
use center_agent.Limiter.{user_key}

-- The last field of a user key is the UID, whatever stands in the tag and the email.
pub atoi-user_key :
    (tag email : Text) (uid : ℤ)
    → IsInt64 uid
    → atoi (last_field b'|' (user_key tag email uid)) ≡ some uid
unfolding user_key
atoi-user_key tag email uid h =
    ap (λ s. atoi (last_field b'|' s))
      (sym (append_assoc tag (b'|' ∷ email) (b'|' ∷ format_int uid)))
    ∙ ap atoi (last_field-append b'|' (tag ++ (b'|' ∷ email)) (format_int uid) (format_int-bar uid))
    ∙ atoi-format_int uid h
