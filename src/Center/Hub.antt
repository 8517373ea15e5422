-- ===== src/Center/Hub.antt =====
-- The open sockets of the agents: httpapi/agent_hub.go.
use center_agent.Prelude.{
  ℕ, ◌≡◌, ◌≢◌, ap, ◌⊎◌, inl, inr, refl, ◌∙◌, Bool-cases, Option-cases, ==_iff, Bool, false, Option,
  none, some, arith, ◌==◌, ==_refl, nat_eq, if◌then◌else◌,
}
use center_agent.Prelude.Ints.{ℤ, int_eq}
use center_agent.Prelude.Maps.{Map, load, store, delete, load-store, load-store_self, load-delete}

-- `handle` tells the connections apart, as their addresses do.
pub record Conn : Type 0 where
  pub node : ℤ
  pub handle : ℕ

-- The new hub, the connection that it now holds, and the one that was closed for it.
unfoldable pub register : ℤ → ℕ → Map ℤ Conn → Map ℤ Conn × Conn × Option Conn
register node handle hub =
    let conn : Conn = record { node = node; handle = handle } in
    (store node conn hub, conn, load node hub)

unfoldable pub unregister : Conn → Map ℤ Conn → Map ℤ Conn
unregister conn hub = elim (load conn.node hub) [
  | none ↦ hub
  | some cur ↦ if cur.handle == conn.handle then delete conn.node hub else hub
]

-- Whether a message reached the node's socket; `delivers` says how a write ends.
unfoldable pub send : (Conn → Bool) → ℤ → Map ℤ Conn → Bool
send delivers node hub = elim (load node hub) [ none ↦ false | some conn ↦ delivers conn ]

-- Every node's entry is a connection of that node.
abbrev pub IsKeyed : Map ℤ Conn → Type 0
IsKeyed hub = (n : ℤ) (c : Conn) → load n hub ≡ some c → c.node ≡ n

-- A connection that is cut is nobody's; no other node notices.
unregister-cut :
    (conn : Conn) (hub : Map ℤ Conn) (n : ℤ)
    → IsKeyed hub
    → (load n (unregister conn hub) ≢ some conn)
      × ((n ≡ conn.node) ⊎ (load n (unregister conn hub) ≡ load n hub))
unfolding unregister
unregister-cut conn hub n keyed = elim (Option-cases (load conn.node hub)) [
  | inl e ↦ rw (unregister, e) (λ h. ground (arith, e, h, rw (← keyed n conn h) at h), inr refl)
  | inr (cur, e) ↦ elim (Bool-cases (cur.handle == conn.handle)) [
    | inl p ↦
        rw (unregister, e, p, load-delete conn.node n hub)
          (elim (Bool-cases (n == conn.node)) [
            | inl q ↦ rw q (λ h. ground (arith, h), inl ((==_iff n conn.node).0 q))
            | inr q ↦ rw q (λ h. ground (arith, q, ==_iff n conn.node, keyed n conn h), inr refl)
          ])
    | inr p ↦
        rw (unregister, e, p)
          (
            λ h.
                let here : load conn.node hub ≡ some conn =
                  ap (λ m. load m hub) (keyed n conn h) ∙ h in
                ground (arith, e, p, here, ==_refl conn.handle),
            inr refl,
          )
  ]
]

-- Whatever other nodes are connected: a node that has connected again stays reachable over the new
-- connection when the old one is cut. When the new one is cut, no node is reachable over it, and the
-- other nodes stay reachable as they were.
pub unregister-register :
    (old new : ℕ) (node n : ℤ) (hub : Map ℤ Conn)
    → old ≢ new
    → IsKeyed hub
    → let stale : Conn = record { node = node; handle = old } in
      let fresh : Conn = record { node = node; handle = new } in
      let (hub', _, _) = register node new hub in
      (unregister stale hub' ≡ hub')
      × (load node (unregister stale hub') ≡ some fresh)
      × (load n (unregister fresh hub') ≢ some fresh)
      × ((n ≡ node) ⊎ (load n (unregister fresh hub') ≡ load n hub))
unfolding register unregister
unregister-register old new node n hub apart keyed =
    let fresh : Conn = record { node = node; handle = new } in
    let hub' = store node fresh hub in
    let still : IsKeyed hub' = λ m c h. elim (Bool-cases (m == node)) [
      | inl e ↦ ground (arith, e, h, load-store node m fresh hub, ==_iff m node)
      | inr e ↦ keyed m c (ground (arith, e, h, load-store node m fresh hub))
    ] in
    let (gone, others) = unregister-cut fresh hub' n still in
    (
      ground (arith, load-store_self node fresh hub),
      ground (arith, load-store_self node fresh hub),
      gone,
      elim others [
        | inl e ↦ inl e
        | inr e ↦ elim (Bool-cases (n == node)) [
          | inl q ↦ inl ((==_iff n node).0 q)
          | inr q ↦ inr (e ∙ ground (arith, q, load-store node n fresh hub))
        ]
      ],
    )
