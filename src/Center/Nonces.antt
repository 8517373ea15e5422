-- ===== src/Center/Nonces.antt =====
-- The nonces of the last minutes: noncecache/noncecache.go. Times are nanoseconds.
use center_agent.Prelude.{
  ℕ, ◌+◌, ◌<◌, ◌≤◌, ◌≡◌, Bool, true, false, none, some, [], ◌∷◌, arith, ltb, nat_eq, list_eq,
  if◌then◌else◌, ◌⊎◌,
}
use center_agent.Prelude.Maps.{Map, load, store}
use center_agent.Prelude.Text.{Text}

pub record Cache : Type 0 where
  pub entries : Map Text ℕ
  pub ttl : ℕ
  pub skew : ℕ

-- The entries that are not older than `ttl`.
unfoldable pub purge : (ttl now : ℕ) → Map Text ℕ → Map Text ℕ
purge ttl now [] = []
purge ttl now ((k, t) ∷ m) =
    let rest = purge ttl now m in if ltb (t + ttl) now then rest else (k, t) ∷ rest

unfoldable pub seen : (now : ℕ) → Text → Cache → Cache × Bool
unfolding purge
seen now nonce c =
    let kept = purge c.ttl now c.entries in
    elim (load nonce kept) [
      | some _ ↦ (record c { entries = kept }, true)
      | none ↦ (record c { entries = store nonce now kept }, false)
    ]

-- A nonce that was recorded at `t` is still there, or more than `ttl` has passed by `now`, or it was
-- recorded again later.
pub record IsRecorded (nonce : Text) (t now : ℕ) (c : Cache) : Type 0 where
  pub time : ℕ
  pub entry : load nonce c.entries ≡ some time
  pub later : t ≤ time

pub purge-recent :
    (ttl now : ℕ) (m : Map Text ℕ) (k : Text) (t : ℕ)
    → load k m ≡ some t
    → (load k (purge ttl now m) ≡ some t) ⊎ (t + ttl < now)
unfolding load purge
purge-recent ttl now [] k t h = ground arith
purge-recent ttl now ((j, u) ∷ m) k t h = ground (arith, purge-recent ttl now m k t)
