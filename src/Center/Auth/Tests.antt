-- ===== src/Center/Auth/Tests.antt =====
-- Signed requests with concrete keys and clocks, and the theorems at concrete data.
use center_agent.Prelude.{
  ℕ, ◌*◌, ◌≡◌, ◌≢◌, ◌↔◌, inl, inr, refl, Option, none, some, [], ◌∷◌, ◌++◌, arith, ◌==◌, nat_eq,
  list_eq, if◌then◌else◌,
}
use center_agent.Prelude.Ints.{ℤ, pos, negsuc, int_eq}
use center_agent.Prelude.Maps.{load, store}
use center_agent.Prelude.Text.{Text, codes, format_int, atoi}
use center_agent.Center.Sign.{HashLib}
use center_agent.Center.Nonces.{purge}
use center_agent.Center.Auth.{
  Request, Access, bad_signature, second, new_cache, authenticate, signed_request,
}
use center_agent.Center.Auth.Agreement.{Valid, authenticate_iff, authenticate-signed_request}
use center_agent.Center.Auth.Replays.{Call, run, authenticate-no_replay}

abbrev plain_hash : HashLib
plain_hash = record { sha256_hex = λ b. b'h' ∷ b; hmac_hex = λ k m. b'-' ∷ (k ++ m) }

abbrev keys_of : ℤ → Option Text
keys_of id = if id == pos 7 then some (codes "key") else none

abbrev heartbeat : Request
heartbeat =
    signed_request plain_hash (codes "7") (codes "key") (codes "post") (codes "/hb") (pos 1000)
      (codes "n1") (codes "{}")

abbrev at_1010 : ℕ
at_1010 = 1010 * second

abbrev visitor : Access
visitor = record { node = pos 7; secret = codes "key" }

accepted_run : (authenticate plain_hash keys_of heartbeat at_1010 at_1010 new_cache).1 ≡ inr visitor
unfolding authenticate signed_request load atoi
accepted_run = refl

late_run :
    (authenticate plain_hash keys_of heartbeat (1091 * second) (1091 * second) new_cache).1
    ≡ inl bad_signature
unfolding authenticate signed_request load atoi
late_run = refl

abbrev call : Call
call = record { request = heartbeat; at = at_1010; end = at_1010 }

authenticate_iff_example :
    (authenticate plain_hash keys_of heartbeat at_1010 at_1010 new_cache
      ≡ (record new_cache { entries = (codes "n1", at_1010) ∷ [] }, inr visitor))
    ↔ Valid plain_hash keys_of heartbeat at_1010 at_1010 new_cache
        (record new_cache { entries = (codes "n1", at_1010) ∷ [] })
        visitor
authenticate_iff_example =
    authenticate_iff plain_hash keys_of heartbeat at_1010 at_1010 new_cache
      (record new_cache { entries = (codes "n1", at_1010) ∷ [] }) visitor (omega arith)
      (omega arith)

-- The timestamp 2^63 seconds before the clock passes.
wrapped_clock :
    (authenticate plain_hash keys_of
      (signed_request plain_hash
        (codes "7")
        (codes "key")
        (codes "post")
        (codes "/hb")
        (negsuc 9223372036854774797)
        (codes "n1")
        (codes "{}"))
      at_1010
      at_1010
      new_cache).1
    ≡ inr visitor
unfolding authenticate signed_request atoi load purge
wrapped_clock = refl

authenticate-signed_request_example :
    authenticate plain_hash keys_of
      (signed_request plain_hash
        (format_int (pos 7))
        (codes "key")
        (codes "post")
        (codes "/hb")
        (pos 1000)
        (codes "n1")
        (codes "{}"))
      at_1010
      at_1010
      new_cache
    ≡ (
      record new_cache { entries = store (codes "n1") at_1010 (purge new_cache.ttl at_1010 []) },
      inr visitor,
    )
unfolding purge load
authenticate-signed_request_example =
    authenticate-signed_request plain_hash keys_of (codes "key") (codes "post") (codes "/hb")
      (codes "n1") (codes "{}") (pos 7) 1000 at_1010 at_1010 new_cache (λ b. ground arith)
      (λ k m. ground arith) (omega arith) refl (ground arith) (ground arith) refl (omega arith)
      (omega arith) (omega arith) (omega arith)

authenticate-no_replay_example :
    (authenticate plain_hash keys_of heartbeat (1020 * second) (1020 * second) (
      run plain_hash keys_of
        (call ∷ [])
        (authenticate plain_hash keys_of heartbeat at_1010 at_1010 new_cache).0)).1
    ≢ inr visitor
unfolding authenticate signed_request load atoi
authenticate-no_replay_example =
    authenticate-no_replay plain_hash keys_of call
      (record call { at = 1020 * second; end = 1020 * second }) (call ∷ []) new_cache visitor
      visitor refl refl refl refl (omega arith) (omega arith) (omega arith) (omega arith)
      (omega arith, omega arith) refl
