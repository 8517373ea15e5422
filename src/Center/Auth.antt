-- ===== src/Center/Auth.antt =====
-- The check of an agent's request: requireAgentHMAC of httpapi/server.go, and the request that the
-- agent makes (xrayr-agent/internal/capi/client.go).
pub mod Clock
pub mod Replays
pub mod Acceptance
pub mod Agreement
pub mod Tests
use center_agent.Prelude.{
  ℕ, ◌*◌, ◌/◌, ◌⊎◌, inl, inr, Bool, true, false, ◌||◌, Option, none, some, List, [], ◌∷◌, ◌==◌,
  nat_eq, list_eq, if◌then◌else◌,
}
use center_agent.Prelude.Ints.{ℤ, pos}
use center_agent.Prelude.Text.{Text, codes, atoi, format_int}
use center_agent.Center.Sign.{HashLib, VerifyError, verify, sign}
use center_agent.Center.Nonces.{Cache, seen}

-- A header that is missing is empty; the body is none where it cannot be read.
pub record Request : Type 0 where
  pub node_id : Text
  pub timestamp : Text
  pub nonce : Text
  pub body_hash : Text
  pub signature : Text
  pub method : Text
  pub path : Text
  pub body : Option Text

pub data Denial : Type 0 where
  missing_headers bad_timestamp bad_node_id unauthorized unread_body bad_signature nonce_replay :
      Denial

-- What the handler behind the check finds in its context.
pub record Access : Type 0 where
  pub node : ℤ
  pub secret : Text

abbrev pub second : ℕ
second = 1000000000

-- `time.Now().Unix()` and `d.Seconds()` of nanoseconds
abbrev pub seconds : ℕ → ℤ
seconds t = pos (t / second)

-- The cache that `New` makes: ten minutes, and a skew of 90 seconds.
abbrev pub new_cache : Cache
new_cache = record { entries = []; ttl = 600 * second; skew = 90 * second }

module _ (H : HashLib) where
  -- The nonce is looked up last. `at` is when `Verify` reads the clock, `end` when `Seen` does.
  admit_nonce : Access → Text → (end : ℕ) → Cache → Cache × (Denial ⊎ Access)
  unfolding seen
  admit_nonce a nonce end c =
      let (c', was) = seen end nonce c in if was then (c', inl nonce_replay) else (c', inr a)

  check_signature :
      Request → (ts : ℤ) → Access → (body : Text) → (at end : ℕ) → Cache → Cache × (Denial ⊎ Access)
  unfolding verify admit_nonce
  check_signature r ts a body at end c =
      elim (verify H a.secret r.method r.path ts r.nonce r.body_hash r.signature body
        (seconds c.skew) none (seconds at)) [
          | some _ ↦ (c, inl bad_signature)
          | none ↦ admit_nonce a r.nonce end c
        ]

  -- `secret_of` is the key of a node that is not disabled, as the database gives it.
  check_node :
      (ℤ → Option Text) → Request → (ts id : ℤ) → (at end : ℕ) → Cache → Cache × (Denial ⊎ Access)
  unfolding check_signature
  check_node secret_of r ts id at end c = elim (secret_of id) [
    | none ↦ (c, inl unauthorized)
    | some secret ↦ if secret == [] then (c, inl unauthorized) else elim r.body [
      | none ↦ (c, inl unread_body)
      | some body ↦ check_signature r ts (record { node = id; secret = secret }) body at end c
    ]
  ]

  unfoldable pub authenticate :
      (ℤ → Option Text) → Request → (at end : ℕ) → Cache → Cache × (Denial ⊎ Access)
  unfolding check_node
  authenticate secret_of r at end c =
      if r.node_id == []
        || r.timestamp == []
        || r.nonce == []
        || r.body_hash == []
        || r.signature == []
      then (c, inl missing_headers)
      else elim (atoi r.timestamp) [
        | none ↦ (c, inl bad_timestamp)
        | some ts ↦ elim (atoi r.node_id) [
          | none ↦ (c, inl bad_node_id)
          | some id ↦ check_node secret_of r ts id at end c
        ]
      ]

  -- signedRequestBytes: the request that an agent makes at `ts`, with a random nonce.
  unfoldable pub signed_request :
      (node_id secret method path : Text) → (ts : ℤ) → (nonce body : Text) → Request
  unfolding sign format_int
  signed_request node_id secret method path ts nonce body = record {
    node_id = node_id;
    timestamp = format_int ts;
    nonce = nonce;
    body_hash = H.sha256_hex body;
    signature = sign H secret method path ts nonce body;
    method = method;
    path = path;
    body = some body;
  }
