-- ===== src/Center/Commands/Exclusion.antt =====
-- No two dangerous commands of one type are active at a node: the invariant of the queue.
use center_agent.Prelude.{
  ◌+◌, ◌≤◌, ◌≡◌, refl, inl, inr, Bool, true, false, List, [], ◌∷◌, ◌++◌, arith, ◌==◌, ==_iff,
  nat_eq, list_eq, contains, contains-append, Bool-cases,
}
use center_agent.Prelude.Ints.{ℤ, int_eq}
use center_agent.Prelude.Text.{Text}
use center_agent.Center.Hub.{Conn, send}
use center_agent.Center.Commands.Rows.{
  sent, Task, Desk, is_active, counts, active_count, update_where, clashes,
}
use center_agent.Center.Commands.Queue.{
  Order, key_of, new_task, push_task, insert_task, dangerous_command, has_concurrent_dangerous,
}

-- At most one active dangerous command of each type at each node.
abbrev pub IsExclusive : List Task → Type 0
IsExclusive ts =
    (node : ℤ) (kind : Text) → dangerous_command kind ≡ true → active_count node kind ts ≤ 1

abbrev pub ids : List Task → List Text
ids [] = []
ids (t ∷ ts) = t.command_id ∷ ids ts

abbrev pub IsUnique : List Text → Type 0
IsUnique [] = Unit
IsUnique (x ∷ xs) = (contains xs x ≡ false) × IsUnique xs

-- The rows with this ID are active.
abbrev pub IsActiveId : Text → List Task → Type 0
IsActiveId id [] = Unit
IsActiveId id (t ∷ ts) = (t.command_id ≡ id → is_active t.status ≡ true) × IsActiveId id ts

pub record IsSound (ts : List Task) : Type 0 where
  pub exclusive : IsExclusive ts
  pub unique : IsUnique (ids ts)

-- What an update of some rows does not raise.
abbrev pub IsTame : (Task → Bool) → (Task → Task) → List Task → Type 0
IsTame p f [] = Unit
IsTame p f (t ∷ ts) =
    (p t ≡ true
      → ((f t).command_id ≡ t.command_id)
        × ((node : ℤ) (kind : Text) → counts node kind (f t) ≤ counts node kind t))
    × IsTame p f ts

active_count-update_where :
    (p : Task → Bool) (f : Task → Task) (ts : List Task) (node : ℤ) (kind : Text)
    → IsTame p f ts
    → active_count node kind (update_where p f ts) ≤ active_count node kind ts
unfolding active_count
active_count-update_where p f [] node kind h = omega arith
active_count-update_where p f (t ∷ ts) node kind (h, hs) =
    let rest = active_count-update_where p f ts node kind hs in
    elim (Bool-cases (p t)) [
      | inl e ↦ rw e (omega (arith, (h e).1 node kind, rest))
      | inr e ↦ rw e (omega (arith, rest))
    ]

ids-update_where :
    (p : Task → Bool) (f : Task → Task) (ts : List Task)
    → IsTame p f ts
    → ids (update_where p f ts) ≡ ids ts
ids-update_where p f [] h = refl
ids-update_where p f (t ∷ ts) (h, hs) = elim (Bool-cases (p t)) [
  | inl e ↦ rw (e, (h e).0, ids-update_where p f ts hs) refl
  | inr e ↦ rw (e, ids-update_where p f ts hs) refl
]

pub update_where-IsSound :
    (p : Task → Bool) (f : Task → Task) (ts : List Task)
    → IsTame p f ts
    → IsSound ts
    → IsSound (update_where p f ts)
update_where-IsSound p f ts tame s = record {
  exclusive = λ node kind d.
      omega (arith, active_count-update_where p f ts node kind tame, s.exclusive node kind d);
  unique = rw (ids-update_where p f ts tame) s.unique;
}

mark_sent-IsTame :
    (id : Text) (ts : List Task)
    → IsActiveId id ts
    → IsTame (λ t. t.command_id == id) (λ t. record t { status = sent }) ts
mark_sent-IsTame id [] h = tt
mark_sent-IsTame id (t ∷ ts) (h, hs) = (
  λ e. (refl, λ node kind. rw (h ((==_iff t.command_id id).0 e)) (omega arith)),
  mark_sent-IsTame id ts hs,
)

pub push_task-IsSound :
    (delivers : Conn → Bool) (node : ℤ) (id : Text) (d : Desk)
    → IsActiveId id d.tasks
    → IsSound d.tasks
    → IsSound (push_task delivers node id d).tasks
unfolding push_task
push_task-IsSound delivers node id d h s = elim (Bool-cases (send delivers node d.hub)) [
  | inl e ↦ rw e (update_where-IsSound _ _ d.tasks (mark_sent-IsTame id d.tasks h) s)
  | inr e ↦ rw e s
]

pub active_count-append :
    (xs ys : List Task) (node : ℤ) (kind : Text)
    → active_count node kind (xs ++ ys) ≡ active_count node kind xs + active_count node kind ys
unfolding active_count
active_count-append [] ys node kind = omega arith
active_count-append (x ∷ xs) ys node kind = omega (arith, active_count-append xs ys node kind)

ids-append : (xs ys : List Task) → ids (xs ++ ys) ≡ ids xs ++ ids ys
ids-append [] ys = refl
ids-append (x ∷ xs) ys = rw (ids-append xs ys) refl

IsUnique-append :
    (xs : List Task) (t : Task)
    → contains (ids xs) t.command_id ≡ false
    → IsUnique (ids xs)
    → IsUnique (ids (xs ++ (t ∷ [])))
IsUnique-append [] t h u = (refl, tt)
IsUnique-append (x ∷ xs) t h (u, us) = (
  rw (ids-append xs (t ∷ [])) (
      ground (
        arith,
        contains-append (ids xs) (t.command_id ∷ []) x.command_id,
        ==_iff x.command_id t.command_id,
        ==_iff t.command_id x.command_id,
      )),
  IsUnique-append xs t (ground arith) us,
)

pub clashes-ids :
    (id : Text) (node : ℤ) (key : Text) (ts : List Task)
    → clashes id node key ts ≡ false
    → contains (ids ts) id ≡ false
clashes-ids id node key [] h = refl
clashes-ids id node key (t ∷ ts) h =
    ground (arith, clashes-ids id node key ts, ==_iff t.command_id id, ==_iff id t.command_id)

pub IsActiveId-absent :
    (id : Text) (ts : List Task) → contains (ids ts) id ≡ false → IsActiveId id ts
IsActiveId-absent id [] h = tt
IsActiveId-absent id (t ∷ ts) h =
    (λ e. ground (arith, ==_iff id t.command_id), IsActiveId-absent id ts (ground arith))

pub IsActiveId-append :
    (id : Text) (xs : List Task) (t : Task)
    → IsActiveId id xs
    → is_active t.status ≡ true
    → IsActiveId id (xs ++ (t ∷ []))
IsActiveId-append id [] t h a = (λ _. a, tt)
IsActiveId-append id (x ∷ xs) t (h, hs) a = (h, IsActiveId-append id xs t hs a)

pub grown-IsSound :
    (t : Task) (ts : List Task)
    → has_concurrent_dangerous t.node t.command_type ts ≡ false
    → contains (ids ts) t.command_id ≡ false
    → IsSound ts
    → IsSound (ts ++ (t ∷ []))
unfolding has_concurrent_dangerous active_count
grown-IsSound t ts none_active absent s = record {
  exclusive = λ node kind dangerous. ground (
    arith,
    active_count-append ts (t ∷ []) node kind,
    s.exclusive node kind dangerous,
    ==_iff t.node node,
    ==_iff t.command_type kind,
  );
  unique = IsUnique-append ts t absent s.unique;
}

-- An order that is accepted keeps the queue sound.
pub insert_task-IsSound :
    (delivers : Conn → Bool) (o : Order) (d : Desk)
    → has_concurrent_dangerous o.node o.command_type d.tasks ≡ false
    → IsSound d.tasks
    → IsSound (insert_task delivers o d).0.tasks
unfolding insert_task new_task
insert_task-IsSound delivers o d none_active s =
    elim (Bool-cases (clashes o.fresh_id o.node (key_of o) d.tasks)) [
      | inl e ↦ rw e s
      | inr e ↦
          let absent = clashes-ids o.fresh_id o.node (key_of o) d.tasks e in
          rw e (
            push_task-IsSound delivers o.node o.fresh_id
              (record d { tasks = d.tasks ++ (new_task o ∷ []) })
              (IsActiveId-append o.fresh_id d.tasks (new_task o)
                (IsActiveId-absent o.fresh_id d.tasks absent) refl)
              (grown-IsSound (new_task o) d.tasks none_active absent s))
    ]
