-- ===== src/Rule.antt =====
-- common/rule/rule.go: the audit rules of every inbound, and the users that hit them.
pub mod Libraries
pub mod Detection
pub mod Updates
pub mod Tests
use center_agent.Prelude.{
  Bool, true, false, Option, none, some, List, [], ◌∷◌, ◌==◌, nat_eq, list_eq, if◌then◌else◌,
}
use center_agent.Prelude.Ints.{ℤ, negsuc, int_eq}
use center_agent.Prelude.Maps.{Map, load, store, delete}
use center_agent.Prelude.Text.{Text, atoi, last_field}
use center_agent.Api.{DetectResult}
use Libraries.{RuleLib}

module _ (L : RuleLib) where
  -- api.DetectRule
  pub record DetectRule : Type 0 where
    pub id : ℤ
    pub pattern : L.Pattern

  pub record Manager : Type 0 where
    pub rules : Map Text (List DetectRule)
    pub results : Map Text L.ResultSet

  -- UpdateRule. `deep_equal` is `reflect.DeepEqual` on rule lists.
  unfoldable pub update_rule :
      (List DetectRule → List DetectRule → Bool) → Text → List DetectRule → Manager → Manager
  update_rule deep_equal tag new m = elim (load tag m.rules) [
    | none ↦ record m { rules = store tag new m.rules }
    | some old ↦ if deep_equal old new then m else record m { rules = store tag new m.rules }
  ]

  -- GetDetectResult: the results of an inbound, which are taken out.
  unfoldable pub get_detect_result : Text → Manager → List DetectResult × Manager
  get_detect_result tag m = elim (load tag m.results) [
    | none ↦ ([], m)
    | some set ↦ (L.elements set, record m { results = delete tag m.results })
  ]

  -- The loop of Detect, which stops at the first rule that matches.
  first_hit : Text → List DetectRule → Option ℤ
  first_hit destination [] = none
  first_hit destination (r ∷ rs) =
      let rest = first_hit destination rs in
      if L.matches r.pattern destination then some r.id else rest

  add_result : Text → DetectResult → Map Text L.ResultSet → Map Text L.ResultSet
  add_result tag result results = elim (load tag results) [
    | none ↦ store tag (L.singleton result) results
    | some set ↦ store tag (L.add set result) results
  ]

  -- What Detect notes down of a hit; -1 is its mark for no rule.
  record_hit : Text → ℤ → Text → Manager → Manager
  unfolding add_result
  record_hit tag rule_id email m =
      if rule_id == negsuc 0 then m else elim (atoi (last_field b'|' email)) [
        | none ↦ m
        | some uid ↦ record m {
          results = add_result tag (record { uid = uid; rule_id = rule_id }) m.results;
        }
      ]

  -- Detect: whether the destination is rejected, and the manager behind it.
  unfoldable pub detect : Text → Text → Text → Manager → Manager × Bool
  unfolding first_hit record_hit
  detect tag destination email m = elim (load tag m.rules) [
    | none ↦ (m, false)
    | some rules ↦ elim (first_hit destination rules) [
      | none ↦ (m, false)
      | some rule_id ↦ (record_hit tag rule_id email m, true)
    ]
  ]
