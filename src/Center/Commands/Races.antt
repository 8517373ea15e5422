-- ===== src/Center/Commands/Races.antt =====
-- Two orders at a time: enqueueCommand (xrayr-center/internal/httpapi/handlers_phase2.go) reads first
-- and inserts later, without a transaction or a lock.
use center_agent.Prelude.{
  ◌+◌, ◌≡◌, ◌≢◌, refl, ap, sym, ◌∙◌, inl, inr, Bool, true, false, ◌||◌, none, List, [], ◌∷◌, ◌++◌,
  arith, ==_iff, ==_refl, nat_eq, list_eq, Bool-cases,
}
use center_agent.Prelude.Ints.{ℤ, int_eq}
use center_agent.Prelude.Text.{Text}
use center_agent.Center.Hub.{Conn, send}
use center_agent.Center.Commands.Rows.{Task, Desk, active_count, clashes}
use center_agent.Center.Commands.Queue.{
  Order, key_of, new_task, mark_sent, push_task, insert_task, check_order, has_concurrent_dangerous,
  dangerous_command,
}
use center_agent.Center.Commands.Exclusion.{
  IsActiveId-absent, IsActiveId-append, clashes-ids, active_count-append,
}
use center_agent.Center.Commands.Crossing.{active_count-push_task}

clashes-mark_sent :
    (sent_id id : Text) (node : ℤ) (key : Text) (ts : List Task)
    → clashes id node key (mark_sent sent_id ts) ≡ clashes id node key ts
clashes-mark_sent sent_id id node key [] = refl
clashes-mark_sent sent_id id node key (t ∷ ts) =
    ground (arith, clashes-mark_sent sent_id id node key ts)

clashes-push_task :
    (delivers : Conn → Bool) (to : ℤ) (sent_id id : Text) (node : ℤ) (key : Text) (d : Desk)
    → clashes id node key (push_task delivers to sent_id d).tasks ≡ clashes id node key d.tasks
unfolding push_task
clashes-push_task delivers to sent_id id node key d = elim (Bool-cases (send delivers to d.hub)) [
  | inl e ↦ rw (push_task, e) (clashes-mark_sent sent_id id node key d.tasks)
  | inr e ↦ rw (push_task, e) refl
]

clashes-append :
    (id : Text) (node : ℤ) (key : Text) (ts us : List Task)
    → clashes id node key (ts ++ us) ≡ (clashes id node key ts || clashes id node key us)
clashes-append id node key [] us = refl
clashes-append id node key (t ∷ ts) us = ground (arith, clashes-append id node key ts us)

-- An insert that nothing clashes with adds an active row, pushed or not.
insert_task-active :
    (delivers : Conn → Bool) (o : Order) (d : Desk)
    → clashes o.fresh_id o.node (key_of o) d.tasks ≡ false
    → ((insert_task delivers o d).1 ≡ inr o.fresh_id)
      × (active_count o.node o.command_type (insert_task delivers o d).0.tasks
          ≡ active_count o.node o.command_type d.tasks + 1)
unfolding insert_task new_task active_count
insert_task-active delivers o d free =
    let grown : Desk = record d { tasks = d.tasks ++ (new_task o ∷ []) } in
    let active =
      IsActiveId-append o.fresh_id d.tasks (new_task o)
        (IsActiveId-absent o.fresh_id d.tasks
          (clashes-ids o.fresh_id o.node (key_of o) d.tasks free))
        refl in
    rw (insert_task, free)
      (
        refl,
        active_count-push_task delivers o.node o.command_type o.fresh_id grown active
            ∙ ground (
              arith,
              active_count-append d.tasks (new_task o ∷ []) o.node o.command_type,
              ==_refl o.node,
              ==_refl o.command_type,
            ),
      )

-- What did not clash with the table does not clash with the row that the first order has left.
later-free :
    (delivers : Conn → Bool) (o p : Order) (d : Desk)
    → clashes o.fresh_id o.node (key_of o) d.tasks ≡ false
    → clashes p.fresh_id p.node (key_of p) d.tasks ≡ false
    → o.fresh_id ≢ p.fresh_id
    → key_of o ≢ key_of p
    → clashes p.fresh_id p.node (key_of p) (insert_task delivers o d).0.tasks ≡ false
unfolding insert_task new_task
later-free delivers o p d free free' ids_apart keys_apart =
    let grown : Desk = record d { tasks = d.tasks ++ (new_task o ∷ []) } in
    rw (insert_task, free)
      (clashes-push_task delivers o.node o.fresh_id p.fresh_id p.node (key_of p) grown
        ∙ (clashes-append p.fresh_id p.node (key_of p) d.tasks (new_task o ∷ [])
            ∙ ground (
              arith,
              free',
              ids_apart,
              keys_apart,
              ==_iff o.fresh_id p.fresh_id,
              ==_iff (key_of o) (key_of p),
            )))

check_order-idle :
    (o : Order) (d : Desk)
    → check_order o d ≡ none
    → has_concurrent_dangerous o.node o.command_type d.tasks ≡ false
unfolding check_order
check_order-idle o d h = ground (arith, h)

check_order-same :
    (o p : Order) (d : Desk)
    → p.node ≡ o.node
    → p.command_type ≡ o.command_type
    → check_order p d ≡ check_order o d
unfolding check_order
check_order-same o p d node kind =
    ap (λ n. check_order (record p { node = n }) d) node
    ∙ ap (λ k. check_order (record p { node = o.node; command_type = k }) d) kind

-- Two orders of one dangerous command for one node, with IDs and keys that nothing clashes with: if
-- one passes its checks, the other one passes them on the same table, too, and if both are checked
-- before either is inserted, both are accepted, and two such commands are active at the node.
pub insert_task-raced :
    (delivers : Conn → Bool) (o p : Order) (d : Desk)
    → p.node ≡ o.node
    → p.command_type ≡ o.command_type
    → dangerous_command o.command_type ≡ true
    → clashes o.fresh_id o.node (key_of o) d.tasks ≡ false
    → clashes p.fresh_id p.node (key_of p) d.tasks ≡ false
    → o.fresh_id ≢ p.fresh_id
    → key_of o ≢ key_of p
    → check_order o d ≡ none
    → let (d₁, first) = insert_task delivers o d in
      let (d₂, second) = insert_task delivers p d₁ in
      (check_order p d ≡ none)
      × (first ≡ inr o.fresh_id)
      × (second ≡ inr p.fresh_id)
      × (active_count o.node o.command_type d₂.tasks ≡ 2)
unfolding check_order has_concurrent_dangerous
insert_task-raced delivers o p d node kind dangerous free free' ids_apart keys_apart passed =
    let d₁ = (insert_task delivers o d).0 in
    let (first, one) = insert_task-active delivers o d free in
    let still = later-free delivers o p d free free' ids_apart keys_apart in
    let (second, two) = insert_task-active delivers p d₁ still in
    let idle = check_order-idle o d passed in
    let none_active : active_count o.node o.command_type d.tasks ≡ 0 =
      ground (arith, idle, dangerous) in
    (
      check_order-same o p d node kind ∙ passed,
      first,
      second,
      sym (ap (λ n. active_count n o.command_type (insert_task delivers p d₁).0.tasks) node)
          ∙ (sym (ap (λ k. active_count p.node k (insert_task delivers p d₁).0.tasks) kind)
              ∙ (two
                  ∙ (ap (λ n. active_count n p.command_type d₁.tasks + 1) node
                      ∙ (ap (λ k. active_count o.node k d₁.tasks + 1) kind
                          ∙ omega (arith, one, none_active))))),
    )
