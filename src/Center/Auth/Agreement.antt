-- ===== src/Center/Auth/Agreement.antt =====
-- Which requests the center accepts, and that it accepts what an agent signs.
use center_agent.Prelude.{
  ℕ, ◌+◌, ◌/◌, ◌≤◌, ◌<◌, ◌^◌, ◌≡◌, ◌≢◌, refl, ap, sym, ◌∙◌, ◌++◌, List, ◌∷◌, keep, leb, ◌↔◌, inl,
  inr, Bool, true, false, ◌||◌, Option, none, some, [], arith, ◌==◌, ==_iff, nat_eq, list_eq,
  Bool-cases,
}
use center_agent.Prelude.Ints.{ℤ, pos, ltb_ℤ, ◌-ℤ◌, to_int64}
use center_agent.Prelude.Maps.{Map, load, store}
use center_agent.Prelude.Text.{Text, atoi, format_int, IsInt64, atoi-format_int, atoi-IsInt64}
use center_agent.Center.Sign.{HashLib, abs_int64, verify, sign, to_upper}
use center_agent.Center.Nonces.{Cache, purge, seen}
use center_agent.Center.Auth.Clock.{IsFresh, IsFresh-skew, skew-IsFresh, skew-within}
use center_agent.Center.Auth.{
  Request, Access, second, seconds, admit_nonce, check_signature, check_node, authenticate,
  signed_request,
}
use center_agent.Center.Auth.Acceptance.{Accepted, authenticate-Accepted}

format_int-some : (z : ℤ) → IsInt64 z → format_int z ≢ []
unfolding atoi
format_int-some z i e = ground (arith, rw e at (atoi-format_int z i))

abbrev pub lacks_header : Request → Bool
lacks_header r =
    r.node_id == [] || r.timestamp == [] || r.nonce == [] || r.body_hash == [] || r.signature == []

has_headers :
    (r : Request)
    → r.node_id ≢ []
    → r.timestamp ≢ []
    → r.nonce ≢ []
    → r.body_hash ≢ []
    → r.signature ≢ []
    → lacks_header r ≡ false
has_headers r a b c d e = ground (
  arith,
  ==_iff r.node_id [],
  ==_iff r.timestamp [],
  ==_iff r.nonce [],
  ==_iff r.body_hash [],
  ==_iff r.signature [],
)

verify-none_of :
    (H : HashLib) (secret method path nonce body_hash sig body : Text) (ts skew now : ℤ)
    → ltb_ℤ skew (abs_int64 (to_int64 (now -ℤ ts))) ≡ false
    → body_hash ≡ H.sha256_hex body
    → sig ≡ sign H secret method path ts nonce body
    → verify H secret method path ts nonce body_hash sig body skew none now ≡ none
unfolding verify
verify-none_of H secret method path nonce body_hash sig body ts skew now f d s =
    let want = sign H secret method path ts nonce body in
    ground (arith, ==_iff body_hash (H.sha256_hex body), ==_iff want sig)

Accepted-authenticate :
    (H : HashLib) (secret_of : ℤ → Option Text) (r : Request) (at end : ℕ) (c c' : Cache)
    (a : Access)
    → lacks_header r ≡ false
    → Accepted H secret_of r at end c c' a
    → authenticate H secret_of r at end c ≡ (c', inr a)
unfolding authenticate
Accepted-authenticate H secret_of r at end c c' a present A =
    let keyed : (a.secret == []) ≡ false = ground (arith, A.key_set, ==_iff a.secret []) in
    let sound =
      verify-none_of H a.secret r.method r.path r.nonce r.body_hash r.signature A.body A.ts
        (seconds c.skew) (seconds at) A.fresh A.digest A.signature in
    rw
      (
        authenticate, present, A.timestamp, A.node_id, check_node, A.key, keyed, A.whole,
        check_signature, sound, admit_nonce, seen, A.unseen, A.noted,
      )
      refl

lacks_header-refused :
    (H : HashLib) (secret_of : ℤ → Option Text) (r : Request) (at end : ℕ) (c c' : Cache)
    (a : Access)
    → lacks_header r ≡ true
    → authenticate H secret_of r at end c ≡ (c', inr a)
    → lacks_header r ≡ false
unfolding authenticate
lacks_header-refused H secret_of r at end c c' a p h = ground (arith, p, h)

-- The lines of a text.
abbrev pub lines : List Text → Text
lines [] = []
lines (s ∷ []) = s
lines (s ∷ t ∷ ts) = s ++ (10 ∷ lines (t ∷ ts))

-- The nonces that were noted no longer ago than the cache's time.
abbrev pub live : Cache → (now : ℕ) → Map Text ℕ
live c now = keep (λ e. leb now (e.1 + c.ttl)) c.entries

-- What a request has to have, and what it leaves: the body's hash, the HMAC of five lines under the
-- node's key, a timestamp that the clock has not left behind or ahead, and a nonce that is not noted.
pub record Valid (H : HashLib) (secret_of : ℤ → Option Text) (r : Request) (at end : ℕ)
    (c c' : Cache) (a : Access) : Type 0 where
  pub ts : ℤ
  pub body : Text
  pub present : lacks_header r ≡ false
  pub timestamp : atoi r.timestamp ≡ some ts
  pub node_id : atoi r.node_id ≡ some a.node
  pub key : secret_of a.node ≡ some a.secret
  pub key_set : a.secret ≢ []
  pub whole : r.body ≡ some body
  pub digest : r.body_hash ≡ H.sha256_hex body
  pub signature :
      r.signature
      ≡ H.hmac_hex a.secret
          (lines (to_upper r.method ∷ r.path ∷ format_int ts ∷ r.nonce ∷ H.sha256_hex body ∷ []))
  pub fresh : IsFresh (c.skew / second) (at / second) ts
  pub unseen : load r.nonce (live c end) ≡ none
  pub noted : c' ≡ record c { entries = store r.nonce end (live c end) }

purge-keep : (ttl now : ℕ) (m : Map Text ℕ) → purge ttl now m ≡ keep (λ e. leb now (e.1 + ttl)) m
unfolding purge
purge-keep ttl now [] = refl
purge-keep ttl now ((k, t) ∷ m) = ground (arith, purge-keep ttl now m)

module _ (H : HashLib) where
  sign-lines :
      (secret method path nonce body : Text) (ts : ℤ)
      → sign H secret method path ts nonce body
        ≡ H.hmac_hex secret
            (lines (to_upper method ∷ path ∷ format_int ts ∷ nonce ∷ H.sha256_hex body ∷ []))
  unfolding sign
  sign-lines secret method path nonce body ts = refl

  module _ (secret_of : ℤ → Option Text) (r : Request) (at end : ℕ) (c c' : Cache) (a : Access)
      (clock : at / second < 2 ^ 62) (bounded : c.skew / second < 2 ^ 62) where
    Accepted-Valid :
        lacks_header r ≡ false
        → Accepted H secret_of r at end c c' a
        → Valid H secret_of r at end c c' a
    Accepted-Valid p A =
        let now_live = purge-keep c.ttl end c.entries in
        record {
          ts = A.ts;
          body = A.body;
          present = p;
          timestamp = A.timestamp;
          node_id = A.node_id;
          key = A.key;
          key_set = A.key_set;
          whole = A.whole;
          digest = A.digest;
          signature = A.signature ∙ sign-lines a.secret r.method r.path r.nonce A.body A.ts;
          fresh =
              skew-IsFresh (c.skew / second) (at / second) A.ts clock bounded
                (atoi-IsInt64 r.timestamp A.ts A.timestamp) A.fresh;
          unseen = sym (ap (load r.nonce) now_live) ∙ A.unseen;
          noted = A.noted ∙ ap (λ m. record c { entries = store r.nonce end m }) now_live;
        }

    Valid-Accepted : Valid H secret_of r at end c c' a → Accepted H secret_of r at end c c' a
    Valid-Accepted V =
        let now_live = purge-keep c.ttl end c.entries in
        record {
          ts = V.ts;
          body = V.body;
          timestamp = V.timestamp;
          node_id = V.node_id;
          key = V.key;
          key_set = V.key_set;
          whole = V.whole;
          digest = V.digest;
          signature = V.signature ∙ sym (sign-lines a.secret r.method r.path r.nonce V.body V.ts);
          fresh = IsFresh-skew (c.skew / second) (at / second) V.ts clock bounded V.fresh;
          unseen = ap (load r.nonce) now_live ∙ V.unseen;
          noted = V.noted ∙ sym (ap (λ m. record c { entries = store r.nonce end m }) now_live);
        }

-- Where clock and skew are below 2^62 seconds, a request is accepted exactly when its headers are
-- there, its timestamp and node ID are numbers, the node is enabled and has a key, the body has the
-- hash of the header, the signature is the HMAC of the five lines under that key, the nonce is not
-- noted within the cache's time, and the timestamp is within the skew of the clock, or exactly 2^63
-- seconds before it, where the difference wraps around. Then the nonce is noted with the present
-- time, and what is older than the cache's time is gone.
pub authenticate_iff :
    (H : HashLib) (secret_of : ℤ → Option Text) (r : Request) (at end : ℕ) (c c' : Cache)
    (a : Access)
    → at / second < 2 ^ 62
    → c.skew / second < 2 ^ 62
    → (authenticate H secret_of r at end c ≡ (c', inr a)) ↔ Valid H secret_of r at end c c' a
authenticate_iff H secret_of r at end c c' a clock bounded = (
  λ h.
      let present : lacks_header r ≡ false = elim (Bool-cases (lacks_header r)) [
        | inr p ↦ p
        | inl p ↦ lacks_header-refused H secret_of r at end c c' a p h
      ] in
      Accepted-Valid H secret_of r at end c c' a clock bounded present
        (rw h at (authenticate-Accepted H secret_of at end r c a (ap (λ p. p.1) h))),
  λ V.
      Accepted-authenticate H secret_of r at end c c' a V.present
        (Valid-Accepted H secret_of r at end c c' a clock bounded V),
)

-- What an agent signs with its node's key is accepted, for the node and under the key: the node is
-- enabled, the nonce is new, and the agent's clock is within the skew of the center's.
pub authenticate-signed_request :
    (H : HashLib) (secret_of : ℤ → Option Text) (secret method path nonce body : Text) (id : ℤ)
    (ts at end : ℕ) (c : Cache)
    → ((b : Text) → H.sha256_hex b ≢ [])
    → ((k m : Text) → H.hmac_hex k m ≢ [])
    → IsInt64 id
    → secret_of id ≡ some secret
    → secret ≢ []
    → nonce ≢ []
    → load nonce (purge c.ttl end c.entries) ≡ none
    → ts < 2 ^ 62
    → at / second < 2 ^ 62
    → ts ≤ at / second + c.skew / second
    → at / second ≤ ts + c.skew / second
    → authenticate H secret_of
        (signed_request H (format_int id) secret method path (pos ts) nonce body)
        at
        end
        c
      ≡ (
        record c { entries = store nonce end (purge c.ttl end c.entries) },
        inr (record { node = id; secret = secret }),
      )
unfolding authenticate signed_request
authenticate-signed_request H secret_of secret method path nonce body id ts at end c digests tags i
      key set new unseen t₁ t₂ early late =
    let r = signed_request H (format_int id) secret method path (pos ts) nonce body in
    Accepted-authenticate H secret_of r at end c _ (record { node = id; secret = secret })
      (has_headers r (format_int-some id i) (format_int-some (pos ts) (ground arith)) new
        (digests body) (tags secret _))
      record {
        ts = pos ts;
        body = body;
        timestamp = atoi-format_int (pos ts) (ground arith);
        node_id = atoi-format_int id i;
        key = key;
        key_set = set;
        whole = refl;
        digest = refl;
        signature = refl;
        fresh = skew-within (c.skew / second) (at / second) ts t₂ t₁ early late;
        unseen = unseen;
        noted = refl;
      }
