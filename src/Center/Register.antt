-- ===== src/Center/Register.antt =====
-- The registration of an agent with its install token: agentRegister of httpapi/handlers_rest.go.
pub mod Tests
use center_agent.Prelude.{
  ℕ, ◌≡◌, ◌≢◌, refl, ◌⊎◌, inl, inr, Bool, true, false, Option, none, some, List, [], ◌∷◌, arith,
  ltb, ◌==◌, ==_iff, nat_eq, list_eq, if◌then◌else◌, Bool-cases, Option-cases,
}
use center_agent.Prelude.Ints.{ℤ, int_eq}
use center_agent.Prelude.Maps.{Map, load, store, load-store, load-store_self}
use center_agent.Prelude.Text.{Text}

-- A row of node_install_token, under the hash of its token.
pub record Token : Type 0 where
  pub node : ℤ
  pub used_at : Option ℕ
  pub expires_at : ℕ
  pub revoked : Bool

-- What the registration writes of a node.
pub record AgentRow : Type 0 where
  pub hmac_key : Text
  pub hostname : Text
  pub public_ip : Text
  pub agent_version : Text
  pub agent_os : Text
  pub agent_arch : Text
  pub last_seen_at : ℕ

pub record Registry : Type 0 where
  pub tokens : Map Text Token
  pub agents : Map ℤ AgentRow

pub record Registration : Type 0 where
  pub token : Text
  pub hostname : Text
  pub os : Text
  pub arch : Text
  pub agent_version : Text
  pub public_ip : Text

pub data Denied : Type 0 where
  bad_json invalid_token already_used expired : Denied

-- `COALESCE(NULLIF(new, ''), old)`
abbrev pub or_old : (new old : Text) → Text
or_old new old = if new == [] then old else new

unfoldable pub sign_up : Registration → (secret : Text) → (now : ℕ) → AgentRow → AgentRow
sign_up r secret now a = record {
  hmac_key = secret;
  hostname = or_old r.hostname a.hostname;
  public_ip = or_old r.public_ip a.public_ip;
  agent_version = r.agent_version;
  agent_os = or_old r.os a.agent_os;
  agent_arch = or_old r.arch a.agent_arch;
  last_seen_at = now;
}

-- Both updates of the transaction.
unfoldable pub redeem :
    (hash : Text) → Token → Registration → (secret : Text) → (now : ℕ) → Registry → Registry
unfolding sign_up
redeem hash t r secret now s = record {
  tokens = store hash (record t { used_at = some now }) s.tokens;
  agents = elim (load t.node s.agents) [
    | none ↦ s.agents
    | some a ↦ store t.node (sign_up r secret now a) s.agents
  ];
}

-- `secret` is the new random key; `hash` is hashToken.
unfoldable pub register_agent :
    (hash : Text → Text)
    → Registration
    → (secret : Text) → (now : ℕ) → Registry
    → Registry × (Denied ⊎ (ℤ × Text))
register_agent hash r secret now s =
    if r.token == [] then (s, inl bad_json) else elim (load (hash r.token) s.tokens) [
      | none ↦ (s, inl invalid_token)
      | some t ↦ if t.revoked then (s, inl invalid_token) else elim t.used_at [
        | some _ ↦ (s, inl already_used)
        | none ↦
            if ltb t.expires_at now
            then (s, inl expired)
            else (redeem (hash r.token) t r secret now s, inr (t.node, secret))
      ]
    ]

-- The token with this hash is there, not revoked, and used.
pub record IsUsed (hash : Text) (s : Registry) : Type 0 where
  pub token : Token
  pub row : load hash s.tokens ≡ some token
  pub valid : token.revoked ≡ false
  pub moment : ℕ
  pub used : token.used_at ≡ some moment

module _ (hash : Text → Text) where
  register_agent-cases :
      (r : Registration) (secret : Text) (now : ℕ) (s : Registry)
      → ((d : Denied) × (register_agent hash r secret now s ≡ (s, inl d)))
        ⊎ ((t : Token) × (load (hash r.token) s.tokens ≡ some t)
            × (t.used_at ≡ none)
            × (t.revoked ≡ false)
            × ((r.token == []) ≡ false)
            × (register_agent hash r secret now s
                ≡ (redeem (hash r.token) t r secret now s, inr (t.node, secret))))
  unfolding register_agent
  register_agent-cases r secret now s = elim (Bool-cases (r.token == [])) [
    | inl p ↦ inl (bad_json, rw (register_agent, p) refl)
    | inr p ↦ elim (Option-cases (load (hash r.token) s.tokens)) [
      | inl q ↦ inl (invalid_token, rw (register_agent, p, q) refl)
      | inr (t, q) ↦ elim (Bool-cases t.revoked) [
        | inl v ↦ inl (invalid_token, rw (register_agent, p, q, v) refl)
        | inr v ↦ elim (Option-cases t.used_at) [
          | inr (u, w) ↦ inl (already_used, rw (register_agent, p, q, v, w) refl)
          | inl w ↦ elim (Bool-cases (ltb t.expires_at now)) [
            | inl e ↦ inl (expired, rw (register_agent, p, q, v, w, e) refl)
            | inr e ↦ inr (t, q, w, v, p, ground (arith, p, q, v, w, e))
          ]
        ]
      ]
    ]
  ]

  redeem-IsUsed :
      (h : Text) (t : Token) (r : Registration) (secret : Text) (now : ℕ) (s : Registry)
      → t.revoked ≡ false
      → IsUsed h (redeem h t r secret now s)
  unfolding redeem
  redeem-IsUsed h t r secret now s valid = record {
    token = record t { used_at = some now };
    row = load-store_self h (record t { used_at = some now }) s.tokens;
    valid = valid;
    moment = now;
    used = refl;
  }

  register_agent-keeps :
      (r : Registration) (secret : Text) (now : ℕ) (h : Text) (s : Registry)
      → IsUsed h s
      → IsUsed h (register_agent hash r secret now s).0
  unfolding redeem
  register_agent-keeps r secret now h s u = elim (register_agent-cases r secret now s) [
    | inl (_, e) ↦ rw e u
    | inr (t, q, w, v, n, e) ↦ rw e record {
      token = u.token;
      row = elim (Bool-cases (h == hash r.token)) [
        | inl same ↦ ground (arith, rw (← (==_iff h (hash r.token)).0 same) at q, w, u.row, u.used)
        | inr other ↦ ground (
          arith,
          load-store (hash r.token) h (record t { used_at = some now }) s.tokens,
          other,
          u.row,
        )
      ];
      valid = u.valid;
      moment = u.moment;
      used = u.used;
    }
  ]

  -- Registrations one after another, each with its new key and its moment.
  pub run : List (Registration × Text × ℕ) → Registry → Registry
  run [] s = s
  run ((r, secret, now) ∷ xs) s = run xs (register_agent hash r secret now s).0

  run-keeps :
      (xs : List (Registration × Text × ℕ)) (h : Text) (s : Registry)
      → IsUsed h s
      → IsUsed h (run xs s)
  unfolding run
  run-keeps [] h s u = u
  run-keeps ((r, secret, now) ∷ xs) h s u =
      run-keeps xs h (register_agent hash r secret now s).0
        (register_agent-keeps r secret now h s u)

  -- An install token registers once: after an accepted registration, whatever registrations follow,
  -- the same token is turned away as used and nothing changes.
  pub register_agent-once :
      (r again : Registration) (secret secret' : Text) (now later : ℕ)
      (xs : List (Registration × Text × ℕ)) (s : Registry) (node : ℤ) (key : Text)
      → (register_agent hash r secret now s).1 ≡ inr (node, key)
      → again.token ≡ r.token
      → let s' = run xs (register_agent hash r secret now s).0 in
        register_agent hash again secret' later s' ≡ (s', inl already_used)
  unfolding register_agent
  register_agent-once r again secret secret' now later xs s node key ok same =
      let s' = run xs (register_agent hash r secret now s).0 in
      elim (register_agent-cases r secret now s) [
        | inl (d, e) ↦ ground (arith, e, ok)
        | inr (t, q, w, v, n, e) ↦
            let u =
              run-keeps xs (hash r.token) (register_agent hash r secret now s).0
                (rw e (redeem-IsUsed (hash r.token) t r secret now s v)) in
            elim (Bool-cases (again.token == [])) [
              | inl p ↦ ground (arith, rw same at p, n)
              | inr p ↦ rw (register_agent, p, same, u.row, u.valid, u.used) refl
            ]
      ]
