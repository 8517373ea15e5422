-- ===== src/Dispatcher/Tests.antt =====
-- The dispatcher on a concrete connection, and the theorems at concrete data.
use center_agent.Prelude.{
  ℕ, ◌≡◌, ◌≢◌, ◌↔◌, refl, Bool, true, false, Option, none, some, List, [], ◌∷◌, ◌++◌, arith, ◌==◌,
  nat_eq, list_eq, if◌then◌else◌,
}
use center_agent.Prelude.Ints.{pos}
use center_agent.Prelude.Maps.{Map, load}
use center_agent.Prelude.Text.{Text, codes, has_prefix}
use center_agent.Limiter.{InboundInfo, get_user_bucket}
use center_agent.Limiter.Rate.{determine_rate}
use center_agent.Limiter.Refusal.{IsFull}
use center_agent.Limiter.Tests.{plain_rate, hub, busy, hub-busy, node, ann_key, no_cache}
use center_agent.Rule.{Manager, detect}
use center_agent.Rule.Tests.{prefixes, manager}
use center_agent.Dispatcher.Types.{
  tcp, by_name, by_ip, Destination, is_valid, plain, SniffingRequest, FakeDns, should_override,
}
use center_agent.Dispatcher.Reader.{PipeLib, IsPipe, CachedReader, cache, unread}
use center_agent.Dispatcher.Sniffer.{
  no_clue, found, failed, SniffLib, new_sniffer, sniff, metadata_loop, sniff_metadata, run_sniffer,
}
use center_agent.Dispatcher.Sniffer.Idle.{run_sniffer-no_domain, run_sniffer-unread}
use center_agent.Dispatcher.Links.{
  User, Inbound, Policy, uplink, downlink, counter_name, Links, get_link, write, delivered,
  count_steps, wait_steps, get_link-refused, write-get_link, links_of,
}
use center_agent.Dispatcher.Routes.{Outbound, Features, Ending, dispatched, closed}
use center_agent.Dispatcher.Dispatches.{begin, Sniffing, dispatch}
use center_agent.Dispatcher.Dispatches.Endings.{is_given, Explained, dispatch-Explained}

-- A pipe that gives one chunk after another.
abbrev take_chunk : List Text → List Text × Option Text
take_chunk [] = ([], none)
take_chunk (c ∷ cs) = (cs, some c)

abbrev chunks : PipeLib
chunks = record {
  State = List Text;
  read_multi_buffer = take_chunk;
  read_multi_buffer_timeout = take_chunk;
  interrupt = λ s. [];
  size = 8192;
}

abbrev joined : List Text → Text
joined [] = []
joined (c ∷ cs) = c ++ joined cs

joined-take_chunk :
    (s : List Text)
    → (elim (take_chunk s).1 [ none ↦ [] | some b ↦ b ]) ++ joined (take_chunk s).0 ≡ joined s
joined-take_chunk [] = refl
joined-take_chunk (c ∷ cs) = refl

chunks-IsPipe : IsPipe chunks
chunks-IsPipe = record {
  content = joined;
  content-read = λ s. ground (arith, joined-take_chunk s);
  content-timeout = λ s. ground (arith, joined-take_chunk s);
}

-- TLS is found where the text begins with `TLS`.
abbrev tls_only : SniffLib
tls_only = record {
  sniff_http = λ b. failed no_clue;
  sniff_tls = λ b. elim b [
    | none ↦ failed no_clue
    | some s ↦
        if has_prefix s (codes "TLS")
        then found (plain (codes "tls") (codes "bad.example"))
        else failed no_clue
  ];
  sniff_bittorrent = λ b. failed no_clue;
  sniff_quic = λ b. failed no_clue;
  sniff_utp = λ b. failed no_clue;
}

abbrev target : Destination
target = record { network = tcp; address = by_ip (codes "198.18.0.9"); port = 443 }

-- A fake DNS that knows no domain, though the target is in its pool.
abbrev empty_dns : FakeDns
empty_dns = record { domain_from = λ a. []; in_pool = some (λ a. true) }

abbrev split_hello : CachedReader chunks
split_hello = record { reader = codes "T" ∷ codes "LS hello" ∷ []; cached = [] }

abbrev never : ℕ → Bool
never n = false

-- The second attempt finds what the first one could not.
second_attempt : run_sniffer chunks tls_only none target false tcp never split_hello ≡ (
  record { reader = []; cached = codes "TLS hello" },
  found (plain (codes "tls") (codes "bad.example")),
)
unfolding run_sniffer sniff cache sniff_metadata new_sniffer metadata_loop
second_attempt = refl

run_sniffer-no_domain_example :
    run_sniffer chunks tls_only (some empty_dns) target false tcp never split_hello
    ≡ run_sniffer chunks tls_only none target false tcp never split_hello
run_sniffer-no_domain_example =
    run_sniffer-no_domain chunks tls_only empty_dns target false tcp never split_hello
      (λ e. ground (arith, e)) refl

run_sniffer-unread_example :
    unread chunks-IsPipe
      (run_sniffer chunks tls_only (some empty_dns) target false tcp never split_hello).0
    ≡ unread chunks-IsPipe split_hello
run_sniffer-unread_example =
    run_sniffer-unread chunks-IsPipe tls_only (some empty_dns) target false tcp never split_hello

abbrev ann : User
ann = record { email = ann_key; level = 0 }

abbrev from_ann : Text → Inbound
from_ann source = record { tag = node; source = source; user = some ann }

abbrev count_up : ℕ → Policy
count_up level = record { user_uplink = true; user_downlink = false }

abbrev has_all : Text → Bool
has_all name = true

ann-named : ann.email ≢ []
ann-named e = ground (arith, e)

get_link-refused_example :
    ((get_link plain_rate count_up has_all no_cache (some (from_ann (codes "2.2.2.2"))) hub).1
      ≡ none)
    ↔ IsFull busy ann_key (codes "2.2.2.2")
get_link-refused_example =
    get_link-refused count_up has_all no_cache (from_ann (codes "2.2.2.2")) ann hub ann-named refl
      busy hub-busy refl

abbrev ann_links : Links plain_rate
ann_links =
    links_of plain_rate has_all (count_up 0) ann_key
      (record { bucket = some (300, pos 300); speed_limited = true; reject = false; pushes = [] })

ann_linked :
    (get_link plain_rate count_up has_all no_cache (some (from_ann (codes "1.1.1.1"))) hub).1
    ≡ some ann_links
unfolding get_link get_user_bucket load determine_rate
ann_linked = refl

write-get_link_example :
    let a = (get_user_bucket plain_rate node ann_key (codes "1.1.1.1") no_cache hub).1 in
    (write plain_rate ann_links.up 1500
      ≡ count_steps has_all true (counter_name ann_key uplink) 1500
        ++ (wait_steps a 1500 ++ (delivered uplink 1500 ∷ [])))
    × (write plain_rate ann_links.down 1500
        ≡ count_steps has_all false (counter_name ann_key downlink) 1500
          ++ (wait_steps a 1500 ++ (delivered downlink 1500 ∷ [])))
write-get_link_example =
    write-get_link count_up has_all no_cache (from_ann (codes "1.1.1.1")) ann hub ann-named refl
      ann_links 1500 ann_linked

abbrev features : Features Text
features = record {
  lookup_hosts = none;
  show = λ d. elim d.address [ by_name s ↦ s | by_ip s ↦ s ];
  get_handler = λ tag. if tag == node then some (codes "out") else none;
  default_handler = none;
  tag_of = λ h. h;
  pick_route = none;
  forced_tag = [];
  has_message = true;
}

abbrev sniffing : Sniffing
sniffing = record {
  sniffers = tls_only;
  fake_dns = some empty_dns;
  parse_address = by_name;
  is_done = never;
}

abbrev request : SniffingRequest
request = record {
  enabled = true;
  metadata_only = false;
  route_only = true;
  exclude_for_domain = [];
  override_destination_for_protocol = codes "tls" ∷ [];
}

abbrev fresh : Outbound
fresh = record { original_target = target; target = target; route_target = none }

abbrev ann_dispatched :
    SniffingRequest
    → Map Text (InboundInfo plain_rate) × (CachedReader chunks × (Manager prefixes × Ending Text))
ann_dispatched q =
    dispatch features prefixes chunks plain_rate count_up has_all no_cache sniffing q
      (some (from_ann (codes "1.1.1.1"))) fresh target [] split_hello hub manager

-- The sniffed domain is banned; without sniffing, the connection passes.
domain_banned : (ann_dispatched request).1.1.1 ≡ closed
unfolding dispatch get_user_bucket load sniff cache sniff_metadata new_sniffer metadata_loop
    should_override detect determine_rate
domain_banned = refl

not_sniffed :
    (ann_dispatched (record request { enabled = false })).1.1.1
    ≡ dispatched (codes "out") fresh (some (codes "in >> out"))
unfolding dispatch get_user_bucket load detect determine_rate
not_sniffed = refl

dispatch-Explained_example :
    Explained features prefixes
      (from_ann (codes "1.1.1.1"))
      (is_valid target)
      (is_given
        (get_link plain_rate count_up has_all no_cache (some (from_ann (codes "1.1.1.1"))) hub).1)
      sniffing
      request
      (run_sniffer chunks tls_only (some empty_dns) target false tcp never split_hello).1
      manager
      (begin fresh target)
      target
      []
      (ann_dispatched request).1.1.1
dispatch-Explained_example =
    dispatch-Explained features prefixes (from_ann (codes "1.1.1.1")) chunks plain_rate count_up
      has_all no_cache sniffing request fresh target [] split_hello hub manager
