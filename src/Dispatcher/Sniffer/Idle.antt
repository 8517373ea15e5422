-- ===== src/Dispatcher/Sniffer/Idle.antt =====
-- Which sniffers are asked at all, and what sniffing leaves unread.
use center_agent.Prelude.{
  ℕ, zero, suc, ◌≡◌, ◌≢◌, refl, ◌∙◌, Bool, true, false, ◌||◌, not, Option, none, some, List, [],
  ◌∷◌, ◌++◌, arith, ◌==◌, nat_eq, list_eq, if◌then◌else◌, keep, Bool-cases, inl, inr,
}
use center_agent.Prelude.Text.{Text}
use center_agent.Dispatcher.Types.{
  Network, unknown, tcp, udp, unix, same_network, Destination, FakeDns,
}
use center_agent.Dispatcher.Reader.{PipeLib, IsPipe, CachedReader, cache, unread, unread-cache}
use center_agent.Dispatcher.Sniffer.{
  no_clue, Sniffed, failed, SniffLib, ProtocolSniffer, fake_dns_run, new_sniffer, sniff_loop, sniff,
  metadata_loop, sniff_metadata, sniff_content, run_sniffer,
}

-- A sniffer that Sniff asks on a network.
abbrev pub is_awake : Network → ProtocolSniffer → Bool
is_awake n s = not (s.metadata || not (same_network s.network n))

-- The same answer, and sniffers of which the same ones will be asked.
Alike : Network → (x y : List ProtocolSniffer × Sniffed) → Type 0
Alike n x y = (x.1 ≡ y.1) × (keep (is_awake n) x.0 ≡ keep (is_awake n) y.0)

sniff_loop-keep :
    (all pending : List ProtocolSniffer) (b : Text) (n : Network) (ss : List ProtocolSniffer)
    → sniff_loop all pending b n ss ≡ sniff_loop all pending b n (keep (is_awake n) ss)
unfolding sniff_loop
sniff_loop-keep all pending b n [] = refl
sniff_loop-keep all pending b n (s ∷ ss) =
    elim (Bool-cases (s.metadata || not (same_network s.network n))) [
      | inl e ↦ rw (sniff_loop, e) (sniff_loop-keep all pending b n ss)
      | inr e ↦
          rw
            (
              sniff_loop,
              e,
              sniff_loop-keep all pending b n ss,
              sniff_loop-keep all (pending ++ (s ∷ [])) b n ss,
              e,
            )
            refl
    ]

sniff_loop-Alike :
    (all all' pending : List ProtocolSniffer) (b : Text) (n : Network) (ss : List ProtocolSniffer)
    → keep (is_awake n) all ≡ keep (is_awake n) all'
    → Alike n (sniff_loop all pending b n ss) (sniff_loop all' pending b n ss)
unfolding sniff_loop Alike
sniff_loop-Alike all all' [] b n [] h = (refl, h)
sniff_loop-Alike all all' (p ∷ ps) b n [] h = (refl, refl)
sniff_loop-Alike all all' pending b n (s ∷ ss) h =
    let rest = sniff_loop-Alike all all' pending b n ss h in
    let waiting = sniff_loop-Alike all all' (pending ++ (s ∷ [])) b n ss h in
    elim (Bool-cases (s.metadata || not (same_network s.network n))) [
      | inl e ↦ rw (sniff_loop, e) rest
      | inr e ↦ rw (sniff_loop, e) (ground (arith, h, rest, waiting))
    ]

sniff-Alike :
    (all all' : List ProtocolSniffer) (b : Text) (n : Network)
    → keep (is_awake n) all ≡ keep (is_awake n) all'
    → Alike n (sniff all b n) (sniff all' b n)
unfolding sniff
sniff-Alike all all' b n h =
    rw (sniff, sniff_loop-keep all [] b n all, sniff_loop-keep all' [] b n all', h)
      (sniff_loop-Alike all all' [] b n (keep (is_awake n) all') h)

sniff_content-same :
    (P : PipeLib) (left : ℕ) (is_done : ℕ → Bool) (n : Network) (ss ss' : List ProtocolSniffer)
    (r : CachedReader P)
    → keep (is_awake n) ss ≡ keep (is_awake n) ss'
    → sniff_content P left is_done n ss r ≡ sniff_content P left is_done n ss' r
unfolding sniff_content Alike
sniff_content-same P zero is_done n ss ss' r h = refl
sniff_content-same P (suc left) is_done n ss ss' r h =
    let payload = (cache P r).1 in
    let alike = sniff-Alike ss ss' payload n h in
    elim (Bool-cases (payload == [])) [
      | inl e ↦
          rw (sniff_content, e, sniff_content-same P left is_done n ss ss' (cache P r).0 h) refl
      | inr e ↦
          rw
            (
              sniff_content,
              e,
              alike.0,
              sniff_content-same P left is_done n (sniff ss payload n).0 (sniff ss' payload n).0
                  (cache P r).0 alike.1,
            )
            refl
    ]

fake_dns_run-idle :
    (f : FakeDns) (target : Destination) (b : Option Text)
    → (f.domain_from target.address == []) ≡ true
    → fake_dns_run f target b ≡ failed no_clue
fake_dns_run-idle f target b h = ground (arith, h)

new_sniffer-awake :
    (L : SniffLib) (f : FakeDns) (target : Destination) (n : Network)
    → n ≢ unknown
    → keep (is_awake n) (new_sniffer L (some f) target)
      ≡ keep (is_awake n) (new_sniffer L none target)
unfolding new_sniffer
new_sniffer-awake L f target unknown h = absurd (h refl)
new_sniffer-awake L f target tcp h = refl
new_sniffer-awake L f target udp h = refl
new_sniffer-awake L f target unix h = refl

-- No metadata sniffer finds anything where the fake DNS does not know the address; all stay.
sniff_metadata-idle :
    (L : SniffLib) (f : FakeDns) (target : Destination)
    → (f.domain_from target.address == []) ≡ true
    → sniff_metadata (new_sniffer L (some f) target)
      ≡ (new_sniffer L (some f) target, failed no_clue)
unfolding sniff_metadata new_sniffer metadata_loop
sniff_metadata-idle L f target h =
    rw (sniff_metadata, new_sniffer, fake_dns_run-idle f target none h) refl

sniff_metadata-none :
    (L : SniffLib) (target : Destination)
    → sniff_metadata (new_sniffer L none target) ≡ (new_sniffer L none target, failed no_clue)
unfolding sniff_metadata new_sniffer metadata_loop
sniff_metadata-none L target = refl

-- With a fake DNS that has no domain for the target's address, sniffing ends as it does without a fake
-- DNS, whatever the pools of the fake DNS are: the sniffer "fakedns+others" is never asked, since it
-- has no network.
pub run_sniffer-no_domain :
    (P : PipeLib) (L : SniffLib) (f : FakeDns) (target : Destination) (metadata_only : Bool)
    (n : Network) (is_done : ℕ → Bool) (r : CachedReader P)
    → n ≢ unknown
    → (f.domain_from target.address == []) ≡ true
    → run_sniffer P L (some f) target metadata_only n is_done r
      ≡ run_sniffer P L none target metadata_only n is_done r
unfolding run_sniffer
run_sniffer-no_domain P L f target metadata_only n is_done r known h =
    rw
      (
        run_sniffer,
        sniff_metadata-idle L f target h,
        sniff_metadata-none L target,
        sniff_content-same P 2 is_done n (new_sniffer L (some f) target) (new_sniffer L none target)
            r (new_sniffer-awake L f target n known),
      )
      refl

module _ {P : PipeLib} (W : IsPipe P) where
  sniff_content-unread :
      (left : ℕ) (is_done : ℕ → Bool) (n : Network) (ss : List ProtocolSniffer) (r : CachedReader P)
      → unread W (sniff_content P left is_done n ss r).0 ≡ unread W r
  unfolding sniff_content
  sniff_content-unread zero is_done n ss r = refl
  sniff_content-unread (suc left) is_done n ss r =
      let payload = (cache P r).1 in
      let ss' = if payload == [] then ss else (sniff ss payload n).0 in
      let taken = unread-cache W r in
      let again = sniff_content-unread left is_done n ss' (cache P r).0 ∙ taken in
      ground (arith, taken, again)

  -- Sniffing takes nothing away: whatever it looks at, the reader will still deliver all that the
  -- pipe would have delivered, in order.
  pub run_sniffer-unread :
      (L : SniffLib) (f : Option FakeDns) (target : Destination) (metadata_only : Bool)
      (n : Network) (is_done : ℕ → Bool) (r : CachedReader P)
      → unread W (run_sniffer P L f target metadata_only n is_done r).0 ≡ unread W r
  unfolding run_sniffer
  run_sniffer-unread L f target true n is_done r = refl
  run_sniffer-unread L f target false n is_done r =
      sniff_content-unread 2 is_done n (sniff_metadata (new_sniffer L f target)).0 r
