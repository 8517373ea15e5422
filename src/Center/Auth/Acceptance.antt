-- ===== src/Center/Auth/Acceptance.antt =====
-- What an accepted request has been checked for.
use center_agent.Prelude.{
  ℕ, ◌≡◌, ◌≢◌, refl, inl, inr, false, ◌||◌, Option, none, some, [], arith, ◌==◌, ==_iff, nat_eq,
  list_eq, Bool-cases, Option-cases,
}
use center_agent.Prelude.Ints.{ℤ, ltb_ℤ, ◌-ℤ◌, to_int64}
use center_agent.Prelude.Maps.{load, store}
use center_agent.Prelude.Text.{Text, atoi}
use center_agent.Center.Sign.{HashLib, abs_int64, verify, sign}
use center_agent.Center.Nonces.{Cache, purge, seen}
use center_agent.Center.Auth.{
  Request, Access, seconds, admit_nonce, check_signature, check_node, authenticate,
}

-- A request that stands every check, and the cache that it leaves.
pub record Accepted (H : HashLib) (secret_of : ℤ → Option Text) (r : Request) (at end : ℕ)
    (c c' : Cache) (a : Access) : Type 0 where
  pub ts : ℤ
  pub body : Text
  pub timestamp : atoi r.timestamp ≡ some ts
  pub node_id : atoi r.node_id ≡ some a.node
  pub key : secret_of a.node ≡ some a.secret
  pub key_set : a.secret ≢ []
  pub whole : r.body ≡ some body
  pub digest : r.body_hash ≡ H.sha256_hex body
  pub signature : r.signature ≡ sign H a.secret r.method r.path ts r.nonce body
  pub fresh : ltb_ℤ (seconds c.skew) (abs_int64 (to_int64 (seconds at -ℤ ts))) ≡ false
  pub unseen : load r.nonce (purge c.ttl end c.entries) ≡ none
  pub noted : c' ≡ record c { entries = store r.nonce end (purge c.ttl end c.entries) }

verify-none :
    (H : HashLib) (secret method path nonce body_hash sig body : Text) (ts skew now : ℤ)
    → verify H secret method path ts nonce body_hash sig body skew none now ≡ none
    → (ltb_ℤ skew (abs_int64 (to_int64 (now -ℤ ts))) ≡ false)
      × (body_hash ≡ H.sha256_hex body)
      × (sig ≡ sign H secret method path ts nonce body)
unfolding verify
verify-none H secret method path nonce body_hash sig body ts skew now h =
    let want = sign H secret method path ts nonce body in
    ground (arith, ==_iff body_hash (H.sha256_hex body), ==_iff want sig)

-- What the last two checks of an accepted request have found.
abbrev Checked : HashLib → Request → ℤ → ℕ → ℕ → Cache → Cache → Access → Text → Type 0
Checked H r ts at end c c' a body =
    (verify H a.secret r.method r.path ts r.nonce r.body_hash r.signature body (seconds c.skew) none
        (seconds at)
      ≡ none)
    × (load r.nonce (purge c.ttl end c.entries) ≡ none)
    × (c' ≡ record c { entries = store r.nonce end (purge c.ttl end c.entries) })

module _ (H : HashLib) (secret_of : ℤ → Option Text) (at end : ℕ) where
  check_signature-inr :
      (r : Request) (ts : ℤ) (b a : Access) (body : Text) (c : Cache)
      → (check_signature H r ts b body at end c).1 ≡ inr a
      → (b ≡ a) × Checked H r ts at end c (check_signature H r ts b body at end c).0 a body
  unfolding check_signature admit_nonce seen
  check_signature-inr r ts b a body c h =
      elim (Option-cases (
        verify H b.secret r.method r.path ts r.nonce r.body_hash r.signature body (seconds c.skew)
          none (seconds at))) [
            | inr (e, p) ↦ ground (arith, p)
            | inl p ↦ elim (Option-cases (load r.nonce (purge c.ttl end c.entries))) [
              | inr (t, q) ↦ ground (arith, p, q)
              | inl q ↦
                  let same : b ≡ a = ground (arith, p, q) in
                  (same, rw (← same) (p, q, rw (check_signature, p, admit_nonce, seen, q) refl))
            ]
          ]

  check_node-inr :
      (r : Request) (ts id : ℤ) (a : Access) (c : Cache)
      → (check_node H secret_of r ts id at end c).1 ≡ inr a
      → (body : Text) × (a.node ≡ id)
        × (secret_of id ≡ some a.secret)
        × (a.secret ≢ [])
        × (r.body ≡ some body)
        × Checked H r ts at end c (check_node H secret_of r ts id at end c).0 a body
  unfolding check_node
  check_node-inr r ts id a c h = elim (Option-cases (secret_of id)) [
    | inl e ↦ ground (arith, e)
    | inr (secret, e) ↦ elim (Bool-cases (secret == [])) [
      | inl p ↦ ground (arith, e, p)
      | inr p ↦ elim (Option-cases r.body) [
        | inl q ↦ ground (arith, e, p, q)
        | inr (body, q) ↦
            let b : Access = record { node = id; secret = secret } in
            let (same, k) = check_signature-inr r ts b a body c (rw (check_node, e, p, q) at h) in
            (
              body,
              rw (← same) refl,
              rw (e, ← same) refl,
              rw (← same) (ground (arith, p, ==_iff secret [])),
              q,
              rw (check_node, e, p, q) k,
            )
      ]
    ]
  ]

  pub authenticate-Accepted :
      (r : Request) (c : Cache) (a : Access)
      → (authenticate H secret_of r at end c).1 ≡ inr a
      → Accepted H secret_of r at end c (authenticate H secret_of r at end c).0 a
  unfolding authenticate
  authenticate-Accepted r c a h =
      elim (Bool-cases (
        r.node_id == []
        || r.timestamp == []
        || r.nonce == []
        || r.body_hash == []
        || r.signature == [])) [
          | inl p ↦ ground (arith, p)
          | inr p ↦ elim (Option-cases (atoi r.timestamp)) [
            | inl q ↦ ground (arith, p, q)
            | inr (ts, q) ↦ elim (Option-cases (atoi r.node_id)) [
              | inl s ↦ ground (arith, p, q, s)
              | inr (id, s) ↦
                  let (body, n, k, set, whole, (sound, u, noted)) =
                    check_node-inr r ts id a c (rw (authenticate, p, q, s) at h) in
                  let (fresh, digest, sig) =
                    verify-none H a.secret r.method r.path r.nonce r.body_hash r.signature body ts
                      (seconds c.skew) (seconds at) sound in
                  rw (authenticate, p, q, s)
                    record {
                      ts = ts;
                      body = body;
                      timestamp = q;
                      node_id = rw n s;
                      key = rw n k;
                      key_set = set;
                      whole = whole;
                      digest = digest;
                      signature = sig;
                      fresh = fresh;
                      unseen = u;
                      noted = noted;
                    }
            ]
          ]
        ]
