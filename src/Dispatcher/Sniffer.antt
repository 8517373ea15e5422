-- ===== src/Dispatcher/Sniffer.antt =====
-- The sniffers of sniffer.go and fakednssniffer.go, and the function sniffer of default.go.
use center_agent.Prelude.{
  ℕ, zero, suc, ◌≡◌, Bool, true, false, ◌&&◌, ◌||◌, not, Option, none, some, List, [], ◌∷◌, ◌++◌,
  ◌==◌, nat_eq, list_eq, if◌then◌else◌, length,
}
use center_agent.Prelude.Text.{Text}
use center_agent.Dispatcher.Types.{
  Network, unknown, tcp, udp, same_network, Destination, SniffResult, plain, fake_dns, then_others,
  composite, domain_of, protocol_of, FakeDns,
}
use center_agent.Dispatcher.Reader.{PipeLib, CachedReader, cache}
pub mod Idle

pub data SniffError : Type 0 where
  no_clue unknown_content timed_out done other : SniffError

-- A result, which is not nil then, or an error.
pub data Sniffed : Type 0 where
  found : SniffResult → Sniffed
  failed : SniffError → Sniffed

-- The sniffers of Xray's libraries; `none` is a nil slice.
pub record SniffLib : Type 0 where
  pub sniff_http : Option Text → Sniffed
  pub sniff_tls : Option Text → Sniffed
  pub sniff_bittorrent : Option Text → Sniffed
  pub sniff_quic : Option Text → Sniffed
  pub sniff_utp : Option Text → Sniffed

-- protocolSnifferWithMetadata
pub record ProtocolSniffer : Type 0 where
  pub run : Option Text → Sniffed
  pub metadata : Bool
  pub network : Network

-- The sniffer that newFakeDNSSniffer makes, for a connection with a target.
abbrev pub fake_dns_run : FakeDns → Destination → Option Text → Sniffed
fake_dns_run f target b =
    if (same_network target.network tcp || same_network target.network udp)
      && not (f.domain_from target.address == [])
    then found (fake_dns (f.domain_from target.address))
    else failed no_clue

-- The loop over the other sniffers.
abbrev pub ask_others : List ProtocolSniffer → Option Text → Sniffed
ask_others [] b = failed no_clue
ask_others (v ∷ vs) b =
    let rest = ask_others vs b in
    let has_bytes : Bool = elim b [ none ↦ false | some s ↦ true ] in
    let answer : Sniffed = elim (v.run b) [
      | found r ↦ found (then_others (domain_of r) (protocol_of r))
      | failed e ↦ rest
    ] in
    if v.metadata || has_bytes then answer else rest

-- newFakeDNSThenOthers
abbrev pub then_others_run : FakeDns → Destination → List ProtocolSniffer → Option Text → Sniffed
then_others_run f target others b = elim (fake_dns_run f target b) [
  | found r ↦ found r
  | failed e ↦ elim f.in_pool [
    | none ↦ failed no_clue
    | some has ↦
        let answer = ask_others others b in if has target.address then answer else failed no_clue
  ]
]

abbrev pub library_sniffers : SniffLib → List ProtocolSniffer
library_sniffers L =
    record { run = L.sniff_http; metadata = false; network = tcp }
    ∷ record { run = L.sniff_tls; metadata = false; network = tcp }
    ∷ record { run = L.sniff_bittorrent; metadata = false; network = tcp }
    ∷ record { run = L.sniff_quic; metadata = false; network = udp }
    ∷ record { run = L.sniff_utp; metadata = false; network = udp }
    ∷ []

-- NewSniffer. The two sniffers of the fake DNS have no network.
unfoldable pub new_sniffer : SniffLib → Option FakeDns → Destination → List ProtocolSniffer
new_sniffer L none target = library_sniffers L
new_sniffer L (some f) target =
    record {
      run = then_others_run f target (library_sniffers L);
      metadata = false;
      network = unknown;
    }
    ∷ (library_sniffers L
        ++ (record { run = fake_dns_run f target; metadata = true; network = unknown } ∷ []))

-- The end of both loops: the sniffers that have no clue yet stay.
abbrev pub sniff_end : (all pending : List ProtocolSniffer) → List ProtocolSniffer × Sniffed
sniff_end all [] = (all, failed unknown_content)
sniff_end all (p ∷ ps) = (p ∷ ps, failed no_clue)

-- What a loop makes of an answer: it ends, or it goes on with or without the sniffer.
abbrev pub on_answer {ℓ} : {A : Type ℓ} → Sniffed → (SniffResult → A) → (waiting rest : A) → A
on_answer (found r) end waiting rest = end r
on_answer (failed no_clue) end waiting rest = waiting
on_answer (failed e) end waiting rest = rest

unfoldable pub sniff_loop :
    (all : List ProtocolSniffer)
    → (pending : List ProtocolSniffer) → Text
    → Network
    → List ProtocolSniffer
    → List ProtocolSniffer × Sniffed
sniff_loop all pending b n [] = sniff_end all pending
sniff_loop all pending b n (s ∷ ss) =
    let rest = sniff_loop all pending b n ss in
    let waiting = sniff_loop all (pending ++ (s ∷ [])) b n ss in
    let answer = on_answer (s.run (some b)) (λ r. (all, found r)) waiting rest in
    if s.metadata || not (same_network s.network n) then rest else answer

-- Sniff, with the sniffers that it leaves.
unfoldable pub sniff : List ProtocolSniffer → Text → Network → List ProtocolSniffer × Sniffed
unfolding sniff_loop
sniff all b n = sniff_loop all [] b n all

unfoldable pub metadata_loop :
    (all : List ProtocolSniffer)
    → (pending : List ProtocolSniffer) → List ProtocolSniffer
    → List ProtocolSniffer × Sniffed
metadata_loop all pending [] = sniff_end all pending
metadata_loop all pending (s ∷ ss) =
    let rest = metadata_loop all pending ss in
    let waiting = metadata_loop all (pending ++ (s ∷ [])) ss in
    let answer = on_answer (s.run none) (λ r. (all, found r)) waiting rest in
    if s.metadata then answer else waiting

-- SniffMetadata
unfoldable pub sniff_metadata : List ProtocolSniffer → List ProtocolSniffer × Sniffed
unfolding metadata_loop
sniff_metadata all = metadata_loop all [] all

abbrev pub is_no_clue : Sniffed → Bool
is_no_clue (failed no_clue) = true
is_no_clue s = false

-- The results of both kinds of sniffers.
abbrev pub combine : (metadata content : Sniffed) → Sniffed
combine (found m) (found c) = found (composite m c)
combine (found m) (failed e) = found m
combine (failed e) c = c

module _ (P : PipeLib) where
  -- The loop of sniffer: the attempts that are left, and the ones at which the context is done.
  unfoldable pub sniff_content :
      ℕ → (ℕ → Bool) → Network → List ProtocolSniffer → CachedReader P → CachedReader P × Sniffed
  sniff_content zero is_done n ss r = (r, if is_done 0 then failed done else failed timed_out)
  sniff_content (suc left) is_done n ss r =
      let (r', payload) = cache P r in
      let (ss', s) = sniff ss payload n in
      let again = sniff_content left is_done n (if payload == [] then ss else ss') r' in
      if is_done (suc left)
      then (r, failed done)
      else if not (payload == []) && not (is_no_clue s)
      then (r', s)
      else if length payload == P.size
      then (r', failed unknown_content)
      else again

  -- sniffer: two attempts at the content.
  unfoldable pub run_sniffer :
      SniffLib
      → Option FakeDns
      → Destination
      → (metadata_only : Bool) → Network
      → (ℕ → Bool)
      → CachedReader P
      → CachedReader P × Sniffed
  unfolding sniff_content
  run_sniffer L f target metadata_only n is_done r =
      let (ss, metadata) = sniff_metadata (new_sniffer L f target) in
      let (r', content) = sniff_content 2 is_done n ss r in
      if metadata_only then (r, metadata) else (r', combine metadata content)
