-- ===== src/Center/Commands/Crossing.antt =====
-- Reports that reach further than they should, and deployments that nothing checks.
use center_agent.Prelude.{
  ◌+◌, ◌≡◌, ◌≢◌, refl, ap, ◌∙◌, inl, inr, Bool, true, false, Option, some, List, [], ◌∷◌, arith,
  ◌==◌, ==_iff, ==_refl, nat_eq, list_eq, contains, Bool-cases,
}
use center_agent.Prelude.Ints.{ℤ, pos, ltb_ℤ, int_eq}
use center_agent.Prelude.Maps.{load, has, load-store_self}
use center_agent.Prelude.Text.{Text, codes}
use center_agent.Prelude.Json.{Json}
use center_agent.Center.Hub.{Conn, send}
use center_agent.Center.Commands.Rows.{
  Node, running, success, Task, Deploy, done, Desk, active_count, update_where, clashes,
}
use center_agent.Center.Commands.Queue.{push_task, mark_sent}
use center_agent.Center.Commands.Reports.{
  Report, is_row, final_status, post_progress, post_result, sync_deploy, sync_deploys, find_task,
  conclude, advance, has_row, deploy_id,
}
use center_agent.Center.Commands.Deploys.{
  DeployOrder, deploy_task, deploy_key, target_path, with_deploy, apply_config_deploy_flow,
}
use center_agent.Center.Commands.Exclusion.{
  IsUnique, ids, active_count-append, IsActiveId, IsActiveId-append, IsActiveId-absent, clashes-ids,
}

-- The rows of a command at its node are running.
abbrev pub IsRunning : Text → ℤ → List Task → Type 0
IsRunning id node [] = Unit
IsRunning id node (t ∷ ts) = (is_row id node t ≡ true → t.status ≡ running) × IsRunning id node ts

advance-IsRunning :
    (append_step : Option Json → (step message : Text) → Json) (node : ℤ) (id step message : Text)
    (ts : List Task)
    → IsRunning id node (update_where (is_row id node) (advance append_step step message) ts)
advance-IsRunning append_step node id step message [] = tt
advance-IsRunning append_step node id step message (t ∷ ts) =
    let rest = advance-IsRunning append_step node id step message ts in
    elim (Bool-cases (is_row id node t)) [
      | inl e ↦ rw e (λ _. refl, rest)
      | inr e ↦ rw e (λ h. ground (arith, e, h), rest)
    ]

-- A step of progress sets its command to RUNNING, whatever its state: a finished one, too.
pub post_progress-IsRunning :
    (append_step : Option Json → (step message : Text) → Json) (node : ℤ) (id step message : Text)
    (d : Desk)
    → id ≢ []
    → IsRunning id node (post_progress append_step node id step message d).0.tasks
unfolding post_progress
post_progress-IsRunning append_step node id step message d named =
    elim (Bool-cases (has_row id node d.tasks)) [
      | inl e ↦
          rw (post_progress, nonempty, e)
            (advance-IsRunning append_step node id step message d.tasks)
      | inr e ↦ rw (post_progress, nonempty, e) (no_rows d.tasks e)
    ]
  where
    nonempty : (id == []) ≡ false
    nonempty = ground (arith, ==_iff id [])

    no_rows : (ts : List Task) → has_row id node ts ≡ false → IsRunning id node ts
    no_rows [] h = tt
    no_rows (t ∷ ts) h = (λ p. ground (arith, p, h), no_rows ts (ground (arith, h)))

absent-update_where :
    (id : Text) (node : ℤ) (f : Task → Task) (ts : List Task)
    → contains (ids ts) id ≡ false
    → update_where (is_row id node) f ts ≡ ts
absent-update_where id node f [] h = refl
absent-update_where id node f (t ∷ ts) h =
    ground (arith, absent-update_where id node f ts, ==_iff t.command_id id, ==_iff id t.command_id)

foreign-update_where :
    (id : Text) (node : ℤ) (f : Task → Task) (ts : List Task) (t : Task)
    → IsUnique (ids ts)
    → find_task id ts ≡ some t
    → t.node ≢ node
    → update_where (is_row id node) f ts ≡ ts
unfolding find_task
foreign-update_where id node f [] t u h apart = refl
foreign-update_where id node f (x ∷ ts) t (u, us) h apart = elim (Bool-cases (x.command_id == id)) [
  | inl e ↦
      let same : x ≡ t = ground (arith, rw (find_task, e) at h) in
      let off : is_row id node x ≡ false =
        ground (arith, e, ==_iff x.node node, ap (λ y. y.node) same) in
      rw (off, absent-update_where id node f ts (rw ((==_iff x.command_id id).0 e) at u)) refl
  | inr e ↦ rw (e, foreign-update_where id node f ts t us (rw (find_task, e) at h) apart) refl
]

-- Where command IDs are apart, a successful result that a node reports for an APPLY_CONFIG of another
-- node, whose deployment there is, leaves every command as it was, and sets that deployment to done.
pub post_result-foreign :
    (r : Report) (d : Desk) (t : Task) (dep : Deploy)
    → IsUnique (ids d.tasks)
    → r.command ≢ []
    → final_status r.status ≡ some success
    → find_task r.command d.tasks ≡ some t
    → t.node ≢ r.node
    → t.command_type ≡ codes "APPLY_CONFIG"
    → ltb_ℤ (pos 0) (deploy_id t) ≡ true
    → load (deploy_id t) d.deploys ≡ some dep
    → let d' = (post_result r d).0 in
      (d'.tasks ≡ d.tasks)
      × (after : Deploy) × (load (deploy_id t) d'.deploys ≡ some after)
      × (after.status ≡ done)
unfolding post_result
post_result-foreign r d t dep u named ok found apart kind positive row =
    let untouched =
      foreign-update_where r.command r.node (conclude r success) d.tasks t u found apart in
    rw (post_result, named', ok, untouched, sync_deploys, found, kind, positive, row)
      (untouched, sync_deploy r success dep, load-store_self _ _ d.deploys, refl)
  where
    named' : (r.command == []) ≡ false
    named' = ground (arith, ==_iff r.command [])

-- A push leaves an active row active.
active_count-mark_sent :
    (node : ℤ) (kind id : Text) (ts : List Task)
    → IsActiveId id ts
    → active_count node kind (mark_sent id ts) ≡ active_count node kind ts
unfolding active_count
active_count-mark_sent node kind id [] h = refl
active_count-mark_sent node kind id (t ∷ ts) (h, hs) =
    ground (arith, h, ==_iff t.command_id id, active_count-mark_sent node kind id ts hs)

pub active_count-push_task :
    (delivers : Conn → Bool) (node : ℤ) (kind id : Text) (d : Desk)
    → IsActiveId id d.tasks
    → active_count node kind (push_task delivers node id d).tasks ≡ active_count node kind d.tasks
unfolding push_task
active_count-push_task delivers node kind id d h = elim (Bool-cases (send delivers node d.hub)) [
  | inl e ↦ rw (push_task, e) (active_count-mark_sent node kind id d.tasks h)
  | inr e ↦ rw (push_task, e) refl
]

active_count-with_deploy :
    (o : DeployOrder) (sha : Text) (d : Desk)
    → active_count o.node (codes "APPLY_CONFIG") (with_deploy o sha d).tasks
      ≡ active_count o.node (codes "APPLY_CONFIG") d.tasks + 1
unfolding with_deploy active_count
active_count-with_deploy o sha d =
    let t = deploy_task o sha (target_path (load o.node d.nodes)) in
    rw (active_count-append d.tasks (t ∷ []) o.node (codes "APPLY_CONFIG"), ==_refl o.node) refl

-- A deployment of a version there is is accepted at any node there is, unless its ID or its key is
-- taken: whatever the node's permissions, whatever is active there, and whether the push arrives. The
-- node has one active APPLY_CONFIG more than before.
pub apply_config_deploy_flow-unchecked :
    (delivers : Conn → Bool) (o : DeployOrder) (d : Desk) (n : Node) (sha : Text)
    → load o.version d.configs ≡ some sha
    → load o.node d.nodes ≡ some n
    → clashes o.fresh_id o.node (deploy_key o) d.tasks ≡ false
    → let (d', answer) = apply_config_deploy_flow delivers o d in
      (answer ≡ inr (o.fresh_id, o.fresh_deploy))
      × (active_count o.node (codes "APPLY_CONFIG") d'.tasks
          ≡ active_count o.node (codes "APPLY_CONFIG") d.tasks + 1)
unfolding apply_config_deploy_flow with_deploy deploy_task
apply_config_deploy_flow-unchecked delivers o d n sha v known free =
    let there : has o.node d.nodes ≡ true = rw (has, known) refl in
    let absent = clashes-ids o.fresh_id o.node (deploy_key o) d.tasks free in
    let active =
      IsActiveId-append o.fresh_id d.tasks (deploy_task o sha (target_path (load o.node d.nodes)))
        (IsActiveId-absent o.fresh_id d.tasks absent) refl in
    rw (apply_config_deploy_flow, v, there, free)
      (
        refl,
        active_count-push_task delivers o.node (codes "APPLY_CONFIG") o.fresh_id
              (with_deploy o sha d) active
            ∙ active_count-with_deploy o sha d,
      )
