-- ===== src/Dispatcher/Reader.antt =====
-- cachedReader of default.go: a reader that keeps what the sniffer has looked at.
use center_agent.Prelude.{
  ℕ, ◌≡◌, refl, ap, ◌∙◌, Option, none, some, [], ◌++◌, ◌==◌, nat_eq, list_eq, if◌then◌else◌, take,
  Bool-cases, inl, inr, ==_iff,
}
use mathlib.Core.List.{append_assoc}
use center_agent.Prelude.Text.{Text}

-- pipe.Reader of Xray: each reading gives what has arrived, or nothing and an error. `size` is
-- buf.Size.
pub record PipeLib : Type 1 where
  pub State : Type 0
  pub read_multi_buffer : State → State × Option Text
  pub read_multi_buffer_timeout : State → State × Option Text
  pub interrupt : State → State
  pub size : ℕ

-- The bytes of a reading.
abbrev pub bytes_of : Option Text → Text
bytes_of none = []
bytes_of (some b) = b

-- The documented behaviour of a pipe: what it will still deliver is in order, and a reading takes the
-- first of it.
pub record IsPipe (P : PipeLib) : Type 0 where
  pub content : P.State → Text
  pub content-read :
      (s : P.State)
      → bytes_of (P.read_multi_buffer s).1 ++ content (P.read_multi_buffer s).0 ≡ content s
  pub content-timeout :
      (s : P.State)
      → bytes_of (P.read_multi_buffer_timeout s).1 ++ content (P.read_multi_buffer_timeout s).0
        ≡ content s

module _ (P : PipeLib) where
  pub record CachedReader : Type 0 where
    pub reader : P.State
    pub cached : Text

  -- Cache, with what stands in the buffer then.
  unfoldable pub cache : CachedReader → CachedReader × Text
  cache r =
      let (reader, mb) = P.read_multi_buffer_timeout r.reader in
      let cached = r.cached ++ bytes_of mb in
      (record { reader = reader; cached = cached }, take P.size cached)

  -- readInternal
  abbrev pub read_internal : CachedReader → CachedReader × Option Text
  read_internal r = if r.cached == [] then (r, none) else (record r { cached = [] }, some r.cached)

  abbrev pub read_behind :
      (P.State → P.State × Option Text)
      → CachedReader
      → CachedReader × Option Text
      → CachedReader × Option Text
  read_behind read r (r', some mb) = (r', some mb)
  read_behind read r (r', none) =
      let (reader, mb) = read r'.reader in (record r' { reader = reader }, mb)

  unfoldable pub read_multi_buffer : CachedReader → CachedReader × Option Text
  read_multi_buffer r = read_behind P.read_multi_buffer r (read_internal r)

  unfoldable pub read_multi_buffer_timeout : CachedReader → CachedReader × Option Text
  read_multi_buffer_timeout r = read_behind P.read_multi_buffer_timeout r (read_internal r)

  -- Interrupt
  unfoldable pub interrupt_reader : CachedReader → CachedReader
  interrupt_reader r = record { reader = P.interrupt r.reader; cached = [] }

module _ {P : PipeLib} (W : IsPipe P) where
  -- What a reader will still deliver.
  abbrev pub unread : CachedReader P → Text
  unread r = r.cached ++ W.content r.reader

  pub unread-cache : (r : CachedReader P) → unread (cache P r).0 ≡ unread r
  unfolding cache
  unread-cache r =
      append_assoc r.cached (bytes_of (P.read_multi_buffer_timeout r.reader).1) _
      ∙ ap (λ t. r.cached ++ t) (W.content-timeout r.reader)

  -- A reading takes the first of what is unread, whether it comes from the cache or the pipe.
  pub unread-read :
      (r : CachedReader P)
      → let (r', mb) = read_multi_buffer P r in bytes_of mb ++ unread r' ≡ unread r
  unfolding read_multi_buffer
  unread-read r = elim (Bool-cases (r.cached == [])) [
    | inl e ↦
        let empty : r.cached ≡ [] = (==_iff r.cached []).0 e in
        rw (read_multi_buffer, e, empty) (W.content-read r.reader)
    | inr e ↦ rw (read_multi_buffer, e) refl
  ]
