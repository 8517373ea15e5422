-- ===== src/Center/Commands/Flush.antt =====
-- What flushPendingCommands makes of the rows.
use center_agent.Prelude.{
  ◌≡◌, refl, sym, ap, ◌∙◌, inl, inr, Bool, true, false, ◌&&◌, List, [], ◌∷◌, arith, ◌==◌, ==_iff,
  ==_refl, nat_eq, list_eq, if◌then◌else◌, contains, map, Bool-cases,
}
use center_agent.Prelude.Ints.{ℤ, int_eq}
use center_agent.Prelude.Text.{Text}
use center_agent.Center.Hub.{Conn, send}
use center_agent.Center.Commands.Rows.{Task, Desk, sent}
use center_agent.Center.Commands.Queue.{
  push_task, mark_sent, is_pending, pending_of, flush_each, flush_pending,
}
use center_agent.Center.Commands.Exclusion.{IsUnique, ids}

-- A row whose ID is in a list is SENT.
abbrev sent_row : List Text → Task → Task
sent_row l t = if contains l t.command_id then record t { status = sent } else t

-- The IDs of the rows that reach the socket.
abbrev taken : (Text → Bool) → List Task → List Text
taken reaches [] = []
taken reaches (t ∷ ts) =
    let rest = taken reaches ts in if reaches t.command_id then t.command_id ∷ rest else rest

-- A row of the node that waits and reaches the socket is SENT; another one stays as it is.
abbrev pub pushed_row : (Text → Bool) → ℤ → Task → Task
pushed_row reaches node t =
    if t.node == node && is_pending t.status && reaches t.command_id
    then record t { status = sent }
    else t

cong_cons : {s t : Task} {ss ts : List Task} → s ≡ t → ss ≡ ts → s ∷ ss ≡ t ∷ ts
cong_cons p q = cc (p, q)

apart : (id : Text) (t : Task) → (id == t.command_id) ≡ false → (t.command_id == id) ≡ false
apart id t h = elim (Bool-cases (t.command_id == id)) [
  | inl e ↦
      let same : (id == t.command_id) ≡ true =
        (==_iff id t.command_id).1 (sym ((==_iff t.command_id id).0 e)) in
      absurd (ground (arith, h, same))
  | inr e ↦ e
]

sent_row-mark :
    (id : Text) (l : List Text) (t : Task)
    → sent_row l (if t.command_id == id then record t { status = sent } else t)
      ≡ sent_row (id ∷ l) t
sent_row-mark id l t = elim (Bool-cases (t.command_id == id)) [
  | inl e ↦ elim (Bool-cases (contains l t.command_id)) [
    | inl f ↦ rw (e, f) refl
    | inr f ↦ rw (e, f) refl
  ]
  | inr e ↦ rw e refl
]

map-mark_sent :
    (id : Text) (l : List Text) (ts : List Task)
    → map (sent_row l) (mark_sent id ts) ≡ map (sent_row (id ∷ l)) ts
map-mark_sent id l [] = refl
map-mark_sent id l (t ∷ ts) = cong_cons (sent_row-mark id l t) (map-mark_sent id l ts)

map-none : (ts : List Task) → map (sent_row []) ts ≡ ts
map-none [] = refl
map-none (t ∷ ts) = ap (λ l. t ∷ l) (map-none ts)

-- Every push looks at the same hub.
flush_each-tasks :
    (delivers : Text → Conn → Bool) (node : ℤ) (ts : List Task) (d : Desk)
    → (flush_each delivers node ts d).tasks
      ≡ map (sent_row (taken (λ id. send (delivers id) node d.hub) ts)) d.tasks
unfolding flush_each push_task
flush_each-tasks delivers node [] d = sym (map-none d.tasks)
flush_each-tasks delivers node (t ∷ ts) d =
    elim (Bool-cases (send (delivers t.command_id) node d.hub)) [
      | inl e ↦
          rw (flush_each, push_task, e)
            (flush_each-tasks delivers node ts (record d { tasks = mark_sent t.command_id d.tasks })
              ∙ map-mark_sent t.command_id (taken (λ id. send (delivers id) node d.hub) ts) d.tasks)
      | inr e ↦ rw (flush_each, push_task, e) (flush_each-tasks delivers node ts d)
    ]

module _ (reaches : Text → Bool) (node : ℤ) where
  contains-taken :
      (ts : List Task) (id : Text)
      → contains (ids ts) id ≡ false
      → contains (taken reaches (pending_of node ts)) id ≡ false
  contains-taken [] id h = refl
  contains-taken (t ∷ ts) id h = ground (arith, h, contains-taken ts id)

  map-absent :
      (id : Text) (l : List Text) (ts : List Task)
      → contains (ids ts) id ≡ false
      → map (sent_row (id ∷ l)) ts ≡ map (sent_row l) ts
  map-absent id l [] h = refl
  map-absent id l (t ∷ ts) h =
      cong_cons (rw (apart id t (ground (arith, h))) refl) (map-absent id l ts (ground (arith, h)))

  map-pending_of :
      (ts : List Task)
      → IsUnique (ids ts)
      → map (sent_row (taken reaches (pending_of node ts))) ts ≡ map (pushed_row reaches node) ts
  map-pending_of [] u = refl
  map-pending_of (t ∷ ts) (u, us) =
      let later = taken reaches (pending_of node ts) in
      let all = taken reaches (pending_of node (t ∷ ts)) in
      let absent = contains-taken ts t.command_id u in
      let ih = map-pending_of ts us in
      let as_it_was : (all ≡ later)
          → sent_row later t ≡ pushed_row reaches node t
          → map (sent_row all) (t ∷ ts) ≡ map (pushed_row reaches node) (t ∷ ts) =
        λ p q. ap (λ l. map (sent_row l) (t ∷ ts)) p ∙ cong_cons q ih in
      elim (Bool-cases (t.node == node && is_pending t.status)) [
        | inl e ↦ elim (Bool-cases (reaches t.command_id)) [
          | inl f ↦
              let grown : all ≡ t.command_id ∷ later = rw (e, f) refl in
              ap (λ l. map (sent_row l) (t ∷ ts)) grown
              ∙ cong_cons (rw (e, f, ==_refl t.command_id) refl)
                  (map-absent t.command_id later ts u ∙ ih)
          | inr f ↦ as_it_was (rw (e, f) refl) (rw (e, f, absent) refl)
        ]
        | inr e ↦ as_it_was (rw e refl) (rw (e, absent) refl)
      ]

-- Where command IDs are apart, flushing is one update of the table: the rows of the node that wait
-- and whose push reaches its socket become SENT, and every other row stays as it is.
pub flush_pending-tasks :
    (delivers : Text → Conn → Bool) (node : ℤ) (d : Desk)
    → IsUnique (ids d.tasks)
    → (flush_pending delivers node d).tasks
      ≡ map (pushed_row (λ id. send (delivers id) node d.hub) node) d.tasks
unfolding flush_pending
flush_pending-tasks delivers node d u =
    flush_each-tasks delivers node (pending_of node d.tasks) d
    ∙ map-pending_of (λ id. send (delivers id) node d.hub) node d.tasks u
