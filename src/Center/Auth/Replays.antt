-- ===== src/Center/Auth/Replays.antt =====
-- No request is accepted twice.
use center_agent.Prelude.{
  ℕ, ◌+◌, ◌*◌, ◌/◌, ◌≤◌, ◌<◌, ◌^◌, ◌≡◌, ◌≢◌, refl, ap, ◌∙◌, ◌⊎◌, inl, inr, Option, some, List, [],
  ◌∷◌, arith, ==_iff, nat_eq, list_eq,
}
use center_agent.Prelude.Ints.{ℤ}
use center_agent.Prelude.Maps.{load, load-store, load-store_self}
use center_agent.Prelude.Text.{Text, atoi-IsInt64}
use center_agent.Center.Sign.{HashLib}
use center_agent.Center.Nonces.{Cache, purge, purge-recent, seen}
use center_agent.Center.Auth.{
  Request, Access, new_cache, second, admit_nonce, check_signature, check_node, authenticate,
}
use center_agent.Center.Auth.Clock.{IsFresh, early, before_epoch, wrapped, skew-IsFresh}
use center_agent.Center.Auth.Acceptance.{authenticate-Accepted}

-- A request, with the times at which its signature and its nonce are checked.
pub record Call : Type 0 where
  pub request : Request
  pub at : ℕ
  pub end : ℕ

-- The nonces are looked up one after another, as the cache's lock has it.
abbrev pub IsOrdered : ℕ → List Call → ℕ → Type 0
IsOrdered from [] to = from ≤ to
IsOrdered from (x ∷ xs) to = (from ≤ x.end) × IsOrdered x.end xs to

IsOrdered-bound : (xs : List Call) (from to : ℕ) → IsOrdered from xs to → from ≤ to
IsOrdered-bound [] from to h = h
IsOrdered-bound (x ∷ xs) from to (h, o) = omega (arith, h, IsOrdered-bound xs x.end to o)

seen-keeps :
    (nonce k : Text) (t end : ℕ) (c : Cache)
    → load k c.entries ≡ some t
    → end ≤ t + c.ttl
    → load k (seen end nonce c).0.entries ≡ some t
unfolding seen
seen-keeps nonce k t end c h recent = ground (
  arith,
  purge-recent c.ttl end c.entries k t h,
  load-store nonce k end (purge c.ttl end c.entries),
  ==_iff k nonce,
)

-- The times of a cache stay.
abbrev SameTimes : Cache → Cache → Type 0
SameTimes c d = (d.ttl ≡ c.ttl) × (d.skew ≡ c.skew)

seen-SameTimes : (nonce : Text) (end : ℕ) (c : Cache) → SameTimes c (seen end nonce c).0
unfolding seen
seen-SameTimes nonce end c = ground arith

module _ (H : HashLib) (secret_of : ℤ → Option Text) where
  authenticate-cache :
      (r : Request) (at end : ℕ) (c : Cache)
      → ((authenticate H secret_of r at end c).0 ≡ c)
        ⊎ ((authenticate H secret_of r at end c).0 ≡ (seen end r.nonce c).0)
  unfolding authenticate check_node check_signature admit_nonce
  authenticate-cache r at end c = ground arith

  -- The cache after a list of calls.
  pub run : List Call → Cache → Cache
  unfolding authenticate
  run [] c = c
  run (x ∷ xs) c = run xs (authenticate H secret_of x.request x.at x.end c).0

  run-SameTimes : (xs : List Call) (c : Cache) → SameTimes c (run xs c)
  unfolding run
  run-SameTimes [] c = (refl, refl)
  run-SameTimes (x ∷ xs) c =
      let c' = (authenticate H secret_of x.request x.at x.end c).0 in
      let (ttl, skew) = run-SameTimes xs c' in
      elim (authenticate-cache x.request x.at x.end c) [
        | inl e ↦ (ttl ∙ ap (λ d. d.ttl) e, skew ∙ ap (λ d. d.skew) e)
        | inr e ↦
            let (ttl', skew') = seen-SameTimes x.request.nonce x.end c in
            (ttl ∙ (ap (λ d. d.ttl) e ∙ ttl'), skew ∙ (ap (λ d. d.skew) e ∙ skew'))
      ]

  -- A nonce stays noted with its time while it is not older than the cache's time.
  run-keeps :
      (xs : List Call) (k : Text) (from to t : ℕ) (c : Cache)
      → IsOrdered from xs to
      → load k c.entries ≡ some t
      → to ≤ t + c.ttl
      → load k (run xs c).entries ≡ some t
  unfolding run
  run-keeps [] k from to t c o h recent = h
  run-keeps (x ∷ xs) k from to t c (_, o) h recent =
      let c' = (authenticate H secret_of x.request x.at x.end c).0 in
      let (same, _) = run-SameTimes (x ∷ []) c in
      run-keeps xs k x.end to t c' o
        (elim (authenticate-cache x.request x.at x.end c) [
          | inl e ↦ rw e h
          | inr e ↦ rw e (
              seen-keeps x.request.nonce k t x.end c h
                (omega (arith, IsOrdered-bound xs x.end to o, recent)))
        ])
        (rw same recent)

  -- The clock has moved by at most twice the skew between two requests with the same timestamp.
  close :
      (x y : ℕ) (ts : ℤ) → x < 2 ^ 62 → y < 2 ^ 62 → IsFresh 90 x ts → IsFresh 90 y ts → y ≤ x + 180
  close x y ts p q (early t e a b) (early u f c d) = ground arith
  close x y ts p q (early t e a b) (before_epoch u f c) = ground arith
  close x y ts p q (early t e a b) (wrapped u f c) = ground arith
  close x y ts p q (before_epoch t e a) (early u f c d) = ground arith
  close x y ts p q (before_epoch t e a) (before_epoch u f c) = ground arith
  close x y ts p q (before_epoch t e a) (wrapped u f c) = ground arith
  close x y ts p q (wrapped t e a) (early u f c d) = ground arith
  close x y ts p q (wrapped t e a) (before_epoch u f c) = ground arith
  close x y ts p q (wrapped t e a) (wrapped u f c) = ground arith

  -- An accepted request is never accepted again, not even with other headers, body or path, as long as
  -- nonce and timestamp are the same: whatever requests come between, if a check takes at most a
  -- minute from reading the clock for the skew to looking the nonce up. The cache is one with the
  -- times that the server gives it.
  pub authenticate-no_replay :
      (first last : Call) (between : List Call) (c : Cache) (a b : Access)
      → c.ttl ≡ new_cache.ttl
      → c.skew ≡ new_cache.skew
      → last.request.nonce ≡ first.request.nonce
      → last.request.timestamp ≡ first.request.timestamp
      → first.at ≤ first.end
      → last.end ≤ last.at + 60 * second
      → last.at / second < 2 ^ 62
      → first.at / second < 2 ^ 62
      → IsOrdered first.end between last.end
      → (authenticate H secret_of first.request first.at first.end c).1 ≡ inr a
      → (authenticate H secret_of last.request last.at last.end
          (run between (authenticate H secret_of first.request first.at first.end c).0)).1
        ≢ inr b
  authenticate-no_replay first last between c a b ttl skew nonce stamp t₁ t₂ t₃ t₄ o h again =
      let c' = (authenticate H secret_of first.request first.at first.end c).0 in
      let d = run between c' in
      let A = authenticate-Accepted H secret_of first.at first.end first.request c a h in
      let B = authenticate-Accepted H secret_of last.at last.end last.request d b again in
      let same : B.ts ≡ A.ts = ground (arith, A.timestamp, B.timestamp, stamp) in
      let i = atoi-IsInt64 first.request.timestamp A.ts A.timestamp in
      let nonce_kept : load first.request.nonce c'.entries ≡ some first.end =
        rw A.noted (load-store_self first.request.nonce first.end _) in
      let ttl' : c'.ttl ≡ 600 * second = rw A.noted ttl in
      let skew' : c'.skew ≡ 90 * second = rw A.noted skew in
      let (ttl'', skew'') = run-SameTimes between c' in
      let fa = skew-IsFresh 90 (first.at / second) A.ts t₄ (ground arith) i (rw skew at A.fresh) in
      let fb =
        skew-IsFresh 90 (last.at / second) A.ts t₃ (ground arith) i
          (rw (same, skew'', skew') at B.fresh) in
      let gap = close (first.at / second) (last.at / second) A.ts t₄ t₃ fa fb in
      let bound : last.end ≤ first.end + 600 * second = omega (arith, gap, t₁, t₂) in
      let still =
        run-keeps between first.request.nonce first.end last.end first.end c' o nonce_kept
          (rw ttl' bound) in
      elim (purge-recent d.ttl last.end d.entries first.request.nonce first.end still) [
        | inl found ↦ ground (arith, found, rw nonce at B.unseen)
        | inr expired ↦ omega (arith, bound, rw (ttl'', ttl') at expired)
      ]
