-- ===== src/Center/Commands/Permissions.antt =====
-- Which orders are accepted.
use center_agent.Prelude.{
  ◌≡◌, ◌≢◌, ◌↔◌, ◌⊎◌, inl, inr, refl, Bool, true, false, none, some, arith, ◌==◌, ==_iff, nat_eq,
  list_eq, Option-cases, Bool-cases,
}
use center_agent.Prelude.Ints.{int_eq}
use center_agent.Prelude.Maps.{load}
use center_agent.Prelude.Text.{Text, codes}
use center_agent.Center.Hub.{Conn}
use center_agent.Center.Commands.Rows.{Node, Desk, clashes}
use center_agent.Center.Commands.Queue.{
  Order, key_of, assert_command_allowed, has_concurrent_dangerous, check_order, enqueue_command,
  insert_task, permit,
}

-- The flag that a dangerous command needs.
abbrev pub IsFlagged : Text → Node → Type 0
IsFlagged cmd n =
    ((cmd ≡ codes "RESTART_XRAYR") × (n.allow_restart ≡ true))
    ⊎ ((cmd ≡ codes "APPLY_CONFIG") × (n.allow_config_apply ≡ true))
    ⊎ ((cmd ≡ codes "INSTALL_XRAYR") × (n.allow_install ≡ true))
    ⊎ ((cmd ≡ codes "UPGRADE_XRAYR") × (n.allow_upgrade ≡ true))

permit-none :
    (ms : Text) (flag : Bool)
    → (permit ms flag ≡ none) ↔ ((ms ≡ codes "MANAGED_WRITABLE") × (flag ≡ true))
unfolding permit
permit-none ms flag = ground (
  arith,
  ==_iff ms (codes "MANAGED_WRITABLE"),
  ==_iff ms (codes "MANAGED_READONLY"),
  ==_iff ms (codes "DISCOVERED"),
)

differ : (s t : Text) → (s == t) ≡ false → s ≢ t
differ s t h e = ground (arith, ==_iff s t)

-- What an order of this type needs of its node.
pub IsPermitted : Text → Node → Type 0
IsPermitted cmd n =
    (cmd ≡ codes "STATUS_XRAYR") ⊎ ((n.manage_status ≡ codes "MANAGED_WRITABLE") × IsFlagged cmd n)

assert_command_allowed-none :
    (cmd : Text) (n : Node) → (assert_command_allowed cmd n ≡ none) ↔ IsPermitted cmd n
unfolding assert_command_allowed IsPermitted
assert_command_allowed-none cmd n = elim (Bool-cases (cmd == codes "STATUS_XRAYR")) [
  | inl p ↦ rw ((==_iff cmd (codes "STATUS_XRAYR")).0 p) (λ _. inl refl, λ _. refl)
  | inr a ↦ elim (Bool-cases (cmd == codes "RESTART_XRAYR")) [
    | inl p ↦
        rw ((==_iff cmd (codes "RESTART_XRAYR")).0 p)
          (ground (arith, permit-none n.manage_status n.allow_restart))
    | inr b ↦ elim (Bool-cases (cmd == codes "APPLY_CONFIG")) [
      | inl p ↦
          rw ((==_iff cmd (codes "APPLY_CONFIG")).0 p)
            (ground (arith, permit-none n.manage_status n.allow_config_apply))
      | inr c ↦ elim (Bool-cases (cmd == codes "INSTALL_XRAYR")) [
        | inl p ↦
            rw ((==_iff cmd (codes "INSTALL_XRAYR")).0 p)
              (ground (arith, permit-none n.manage_status n.allow_install))
        | inr d ↦ elim (Bool-cases (cmd == codes "UPGRADE_XRAYR")) [
          | inl p ↦
              rw ((==_iff cmd (codes "UPGRADE_XRAYR")).0 p)
                (ground (arith, permit-none n.manage_status n.allow_upgrade))
          | inr e ↦
              let na : cmd ≢ codes "STATUS_XRAYR" = differ cmd _ a in
              let nb : cmd ≢ codes "RESTART_XRAYR" = differ cmd _ b in
              let nc : cmd ≢ codes "APPLY_CONFIG" = differ cmd _ c in
              let nd : cmd ≢ codes "INSTALL_XRAYR" = differ cmd _ d in
              let ne : cmd ≢ codes "UPGRADE_XRAYR" = differ cmd _ e in
              rw (a, b, c, d, e)
                (
                  λ h. ground (arith, h),
                  λ s. elim s [
                    | inl z ↦ elim (na z) [ ]
                    | inr (_, inl (z, _)) ↦ elim (nb z) [ ]
                    | inr (_, inr (inl (z, _))) ↦ elim (nc z) [ ]
                    | inr (_, inr (inr (inl (z, _)))) ↦ elim (nd z) [ ]
                    | inr (_, inr (inr (inr (z, _)))) ↦ elim (ne z) [ ]
                  ],
                )
        ]
      ]
    ]
  ]
]

-- The node is there and enabled.
abbrev pub IsEnabled : Order → Desk → Node → Type 0
IsEnabled o d n = (load o.node d.nodes ≡ some n) × (n.disabled ≡ false)

-- An order is accepted exactly when its node is enabled, it is a status request or the node is
-- writable and has the command's own flag, no dangerous command of its type is active at the node,
-- and neither its ID nor its key is taken.
pub enqueue_command_iff :
    (delivers : Conn → Bool) (o : Order) (d : Desk)
    → ((enqueue_command delivers o d).1 ≡ inr o.fresh_id) ↔ (
        (n : Node) × IsEnabled o d n
        × IsPermitted o.command_type n
        × (has_concurrent_dangerous o.node o.command_type d.tasks ≡ false)
        × (clashes o.fresh_id o.node (key_of o) d.tasks ≡ false))
unfolding enqueue_command check_order
enqueue_command_iff delivers o d = elim (Option-cases (load o.node d.nodes)) [
  | inl e ↦ ground (arith, e)
  | inr (n, e) ↦
      let (sound, complete) = assert_command_allowed-none o.command_type n in
      elim (Bool-cases n.disabled) [
        | inl p ↦ ground (arith, e, p)
        | inr p ↦ elim (Option-cases (assert_command_allowed o.command_type n)) [
          | inr (r, q) ↦ (
            λ h. ground (arith, e, p, q, h),
            λ (m, (f, _), allowed, _, _). ground (arith, e, f, q, complete, allowed),
          )
          | inl q ↦ (
            λ h. let (w, c) = accepted n e p q h in (n, (e, p), sound q, w, c),
            λ (m, _, _, idle, free).
                rw (enqueue_command, check_order, e, p, q, idle, insert_task, free) refl,
          )
        ]
      ]
]
  where
    accepted :
        (n : Node)
        → load o.node d.nodes ≡ some n
        → n.disabled ≡ false
        → assert_command_allowed o.command_type n ≡ none
        → (enqueue_command delivers o d).1 ≡ inr o.fresh_id
        → (has_concurrent_dangerous o.node o.command_type d.tasks ≡ false)
          × (clashes o.fresh_id o.node (key_of o) d.tasks ≡ false)
    accepted n e p q h =
        elim (Bool-cases (has_concurrent_dangerous o.node o.command_type d.tasks)) [
          | inl w ↦ ground (arith, rw (enqueue_command, check_order, e, p, q, w) at h)
          | inr w ↦ elim (Bool-cases (clashes o.fresh_id o.node (key_of o) d.tasks)) [
            | inl c ↦
                ground (arith, rw (enqueue_command, check_order, e, p, q, w, insert_task, c) at h)
            | inr c ↦ (w, c)
          ]
        ]
