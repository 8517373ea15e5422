-- ===== src/Center/Commands/Pushes.antt =====
-- Orders and pushes keep the queue sound.
use center_agent.Prelude.{
  ◌≡◌, ◌≢◌, refl, inl, inr, Bool, true, ◌&&◌, List, [], ◌∷◌, arith, ◌==◌, ==_refl, nat_eq, list_eq,
  contains, Bool-cases, Option-cases,
}
use center_agent.Prelude.Ints.{ℤ, int_eq}
use center_agent.Prelude.Maps.{load}
use center_agent.Prelude.Text.{Text}
use center_agent.Center.Hub.{Conn, send}
use center_agent.Center.Commands.Rows.{
  Status, pending, sent, running, success, failed, timeout, canceled, Task, Desk, is_active,
}
use center_agent.Center.Commands.Queue.{
  Order, push_task, mark_sent, check_order, enqueue_command, has_concurrent_dangerous,
  assert_command_allowed, is_pending, pending_of, flush_each, flush_pending,
}
use center_agent.Center.Commands.Exclusion.{
  IsSound, IsUnique, IsActiveId, ids, push_task-IsSound, insert_task-IsSound, IsActiveId-absent,
}

pub enqueue_command-IsSound :
    (delivers : Conn → Bool) (o : Order) (d : Desk)
    → IsSound d.tasks
    → IsSound (enqueue_command delivers o d).0.tasks
unfolding enqueue_command check_order
enqueue_command-IsSound delivers o d s = elim (Option-cases (load o.node d.nodes)) [
  | inl e ↦ rw (enqueue_command, check_order, e) s
  | inr (n, e) ↦ elim (Bool-cases n.disabled) [
    | inl p ↦ rw (enqueue_command, check_order, e, p) s
    | inr p ↦ elim (Option-cases (assert_command_allowed o.command_type n)) [
      | inr (r, q) ↦ rw (enqueue_command, check_order, e, p, q) s
      | inl q ↦ elim (Bool-cases (has_concurrent_dangerous o.node o.command_type d.tasks)) [
        | inl w ↦ rw (enqueue_command, check_order, e, p, q, w) s
        | inr w ↦
            rw (enqueue_command, check_order, e, p, q, w) (insert_task-IsSound delivers o d w s)
      ]
    ]
  ]
]

-- The rows that wait for their push have IDs whose rows are active.
Waits : List Task → List Task → Type 0
Waits all [] = Unit
Waits all (t ∷ ts) = IsActiveId t.command_id all × Waits all ts

IsActiveId-mark_sent :
    (id sent_id : Text) (ts : List Task) → IsActiveId id ts → IsActiveId id (mark_sent sent_id ts)
IsActiveId-mark_sent id sent_id [] h = tt
IsActiveId-mark_sent id sent_id (t ∷ ts) (h, hs) = elim (Bool-cases (t.command_id == sent_id)) [
  | inl e ↦ rw e (λ _. refl, IsActiveId-mark_sent id sent_id ts hs)
  | inr e ↦ rw e (h, IsActiveId-mark_sent id sent_id ts hs)
]

Waits-push_task :
    (delivers : Conn → Bool) (node : ℤ) (id : Text) (d : Desk) (ts : List Task)
    → Waits d.tasks ts
    → Waits (push_task delivers node id d).tasks ts
unfolding Waits push_task
Waits-push_task delivers node id d [] h = tt
Waits-push_task delivers node id d (t ∷ ts) (h, hs) =
    let rest = Waits-push_task delivers node id d ts hs in
    elim (Bool-cases (send delivers node d.hub)) [
      | inl e ↦ (rw (push_task, e) (IsActiveId-mark_sent t.command_id id d.tasks h), rest)
      | inr e ↦ (rw (push_task, e) h, rest)
    ]

flush_each-IsSound :
    (delivers : Text → Conn → Bool) (node : ℤ) (ts : List Task) (d : Desk)
    → Waits d.tasks ts
    → IsSound d.tasks
    → IsSound (flush_each delivers node ts d).tasks
unfolding flush_each Waits
flush_each-IsSound delivers node [] d w s = s
flush_each-IsSound delivers node (t ∷ ts) d (w, ws) s =
    flush_each-IsSound delivers node ts (push_task (delivers t.command_id) node t.command_id d)
      (Waits-push_task (delivers t.command_id) node t.command_id d ts ws)
      (push_task-IsSound (delivers t.command_id) node t.command_id d w s)

-- Another row in front takes nothing away, if its ID is another one.
Waits-later :
    (t : Task) (all ts : List Task)
    → Waits all ts
    → ((id : Text) → contains (ids ts) id ≡ true → t.command_id ≢ id)
    → Waits (t ∷ all) ts
unfolding Waits
Waits-later t all [] w h = tt
Waits-later t all (u ∷ ts) (w, ws) h = (
  (λ e. ground (arith, h u.command_id (ground (arith, ==_refl u.command_id)) e), w),
  Waits-later t all ts ws (λ id c. h id (ground (arith, c))),
)

ids-pending_of :
    (node : ℤ) (ts : List Task) (id : Text)
    → contains (ids (pending_of node ts)) id ≡ true
    → contains (ids ts) id ≡ true
ids-pending_of node [] id h = ground arith
ids-pending_of node (t ∷ ts) id h = ground (arith, ids-pending_of node ts id)

pending-active : (s : Status) → is_pending s ≡ true → is_active s ≡ true
pending-active pending h = refl
pending-active sent h = refl
pending-active running h = refl
pending-active success h = ground arith
pending-active failed h = ground arith
pending-active timeout h = ground arith
pending-active canceled h = ground arith

Waits-pending_of : (node : ℤ) (ts : List Task) → IsUnique (ids ts) → Waits ts (pending_of node ts)
unfolding Waits
Waits-pending_of node [] u = tt
Waits-pending_of node (t ∷ ts) (u, us) =
    let later =
      Waits-later t ts (pending_of node ts) (Waits-pending_of node ts us)
        (λ id c e. ground (arith, ids-pending_of node ts id c, rw e at u)) in
    elim (Bool-cases (t.node == node && is_pending t.status)) [
      | inr e ↦ rw e later
      | inl e ↦ rw e (
        (λ _. ground (arith, pending-active t.status), IsActiveId-absent t.command_id ts u),
        later,
      )
    ]

pub flush_pending-IsSound :
    (delivers : Text → Conn → Bool) (node : ℤ) (d : Desk)
    → IsSound d.tasks
    → IsSound (flush_pending delivers node d).tasks
unfolding flush_pending
flush_pending-IsSound delivers node d s =
    flush_each-IsSound delivers node (pending_of node d.tasks) d
      (Waits-pending_of node d.tasks s.unique) s
