-- ===== src/Panel/Sspanel/RoundTrip.antt =====
-- The server's text of a V2ray node, as SSPanel writes it, and what ParseV2rayNodeResponse reads.
use center_agent.Prelude.{
  ℕ, ◌-◌, ◌^◌, ◌<◌, ◌≡◌, ◌≢◌, refl, sym, ap, ◌∙◌, true, false, List, [], ◌∷◌, ◌++◌, arith, ◌==◌,
  ==_iff, nat_eq, list_eq, contains, contains-append, Bool-cases, inl, inr,
}
use center_agent.Prelude.Ints.{pos}
use center_agent.Prelude.Text.{
  Text, codes, decimal, format_int, atoi-format_int, contains-decimal, split, split-free,
  split-append, split-cons,
}
use center_agent.Panel.Common.{FloatLib, ApiConfig, ok, index, parse_int, node_of, choose_speed}
use center_agent.Panel.Sspanel.Readers.{
  Extras, no_extras, join_equals, set_v2ray, read_item, read_items, read_extras, transports,
  pick_transport, header_of,
}
use center_agent.Panel.Sspanel.Nodes.{NodeInfoResponse, parse_v2ray_node}

-- The parts of such a text, for a node with TLS.
pub record Server : Type 0 where
  pub address : Text
  pub port : ℕ
  pub alter_id : ℕ
  pub transport : Text
  pub path : Text
  pub host : Text

-- `address;port;alter;transport;tls;path=...|host=...`
abbrev pub options : Server → Text
options s = codes "path" ++ (b'=' ∷ s.path ++ (b'|' ∷ codes "host" ++ (b'=' ∷ s.host)))

abbrev pub server_text : Server → Text
server_text s =
    s.address
    ++ (b';' ∷ decimal s.port
        ++ (b';' ∷ decimal s.alter_id
            ++ (b';' ∷ s.transport ++ (b';' ∷ codes "tls" ++ (b';' ∷ options s)))))

-- No part has a separator that would end it.
pub record IsPrintable (s : Server) : Type 0 where
  pub address : contains s.address b';' ≡ false
  pub port : s.port < 2 ^ 31
  pub alter_id : s.alter_id < 2 ^ 15
  pub transport : contains s.transport b';' ≡ false
  pub named : s.transport ≢ []
  pub not_tls : s.transport ≢ codes "tls"
  pub path : contains s.path b';' ≡ false
  pub path_bar : contains s.path b'|' ≡ false
  pub host : contains s.host b';' ≡ false
  pub host_bar : contains s.host b'|' ≡ false
  pub host_equals : contains s.host b'=' ≡ false

parse_int-decimal :
    (n bits : ℕ) → n < 2 ^ (bits - 1) → n < 2 ^ 63 → parse_int (decimal n) bits ≡ ok (pos n)
unfolding parse_int format_int
parse_int-decimal n bits h k = rw (parse_int, atoi-format_int (pos n) k) (ground (arith, h))

join_equals-push :
    (c : ℕ) (f : Text) (fs : List Text) → join_equals ((c ∷ f) ∷ fs) ≡ c ∷ join_equals (f ∷ fs)
join_equals-push c f [] = refl
join_equals-push c f (g ∷ fs) = refl

join_equals-split : (s : Text) → join_equals (split b'=' s) ≡ s
unfolding split
join_equals-split [] = refl
join_equals-split (c ∷ s) =
    let (f, fs, e) = split-cons b'=' s in
    let ih : join_equals (f ∷ fs) ≡ s = sym (ap join_equals e) ∙ join_equals-split s in
    elim (Bool-cases (c == b'=')) [
      | inl p ↦ rw (p, e) (cong_cons (sym ((==_iff c b'=').0 p)) ih)
      | inr p ↦ rw (p, e) (join_equals-push c f fs ∙ ap (λ t. c ∷ t) ih)
    ]
  where
    cong_cons : {a b : ℕ} {s t : Text} → a ≡ b → s ≡ t → a ∷ s ≡ b ∷ t
    cong_cons p q = cc (p, q)

-- The option `path=...`, whose value may hold further equality signs.
read_item-path :
    (path : Text) (e : Extras)
    → read_item set_v2ray (codes "path" ++ (b'=' ∷ path)) e ≡ ok (record e { path = path })
unfolding read_item set_v2ray
read_item-path path e =
    let (f, fs, whole) = split-cons b'=' path in
    rw (read_item, split-append b'=' (codes "path") path refl, whole)
      (ap (λ t. ok (record e { path = t })) (sym (ap join_equals whole) ∙ join_equals-split path))

read_item-host :
    (host : Text) (e : Extras)
    → contains host b'=' ≡ false
    → read_item set_v2ray (codes "host" ++ (b'=' ∷ host)) e ≡ ok (record e { host = host })
unfolding read_item set_v2ray
read_item-host host e h =
    rw (read_item, split-append b'=' (codes "host") host refl, split-free b'=' host h) refl

append_cons-some : (a : Text) (c : ℕ) (t : Text) → (a ++ (c ∷ t) == []) ≡ false
append_cons-some [] c t = refl
append_cons-some (d ∷ a) c t = refl

module _ (s : Server) (p : IsPrintable s) where
  options-free : contains (options s) b';' ≡ false
  options-free =
      ground (
        arith,
        p.path,
        p.host,
        contains-append s.path (b'|' ∷ codes "host" ++ (b'=' ∷ s.host)) b';',
      )

  read_extras-options :
      read_extras set_v2ray (options s) ≡ ok (record no_extras { path = s.path; host = s.host })
  unfolding read_extras read_items
  read_extras-options =
      let first = codes "path" ++ (b'=' ∷ s.path) in
      let second = codes "host" ++ (b'=' ∷ s.host) in
      let fields : split b'|' (options s) ≡ first ∷ second ∷ [] =
        split-append b'|' first second (ground (arith, p.path_bar))
        ∙ ap (λ l. first ∷ l) (split-free b'|' second (ground (arith, p.host_bar))) in
      rw (fields, read_item-path s.path no_extras, read_item-host s.host _ p.host_equals) refl

  split-server_text :
      split b';' (server_text s)
      ≡ s.address ∷ decimal s.port ∷ decimal s.alter_id ∷ s.transport ∷ codes "tls" ∷ options s ∷ []
  split-server_text =
      rw
        (
          split-append b';' s.address _ p.address,
          split-append b';' (decimal s.port) _ (contains-decimal b';' s.port refl),
          split-append b';' (decimal s.alter_id) _ (contains-decimal b';' s.alter_id refl),
          split-append b';' s.transport _ p.transport,
          split-append b';' (codes "tls") (options s) refl,
          split-free b';' (options s) options-free,
        )
        refl

  transport_picked : (pick_transport s.transport (false, [])).1 ≡ s.transport
  transport_picked = elim (Bool-cases (s.transport == codes "tls")) [
    | inl e ↦ absurd (p.not_tls ((==_iff s.transport (codes "tls")).0 e))
    | inr e ↦ elim (Bool-cases (s.transport == [])) [
      | inl f ↦ absurd (p.named ((==_iff s.transport []).0 f))
      | inr f ↦ rw (e, f) refl
    ]
  ]

-- What SSPanel writes for a V2ray node with TLS is read as that node: the port, the alter ID, the
-- transport, the path, which may hold equality signs, and the host, where no part has a separator
-- that would end it, the transport is named, and the numbers fit.
pub parse_v2ray_node-server_text :
    {F : FloatLib} (c : ApiConfig F) (r : NodeInfoResponse F) (s : Server)
    → IsPrintable s
    → r.raw_server ≡ server_text s
    → parse_v2ray_node F c r
      ≡ ok (record (node_of F c s.port (choose_speed F c.speed_limit r.speed_limit) s.transport) {
        alter_id = s.alter_id;
        enable_tls = true;
        path = s.path;
        host = s.host;
        enable_vless = c.enable_vless;
        vless_flow = c.vless_flow;
      })
unfolding parse_v2ray_node index transports header_of
parse_v2ray_node-server_text {F} c r s p e =
    rw
      (
        parse_v2ray_node,
        e,
        append_cons-some s.address _ _,
        split-server_text s p,
        parse_int-decimal s.port 32 p.port (omega (arith, p.port)),
        parse_int-decimal s.alter_id 16 p.alter_id (omega (arith, p.alter_id)),
        read_extras-options s p,
        transport_picked s p,
      )
      (ground (arith, p.port, p.alter_id))
