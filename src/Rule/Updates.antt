-- ===== src/Rule/Updates.antt =====
-- UpdateRule: the new rules hold from then on.
use center_agent.Prelude.{
  ◌≡◌, inl, inr, Bool, true, some, List, arith, ◌==◌, ==_iff, nat_eq, list_eq, if◌then◌else◌,
  Option-cases,
}
use center_agent.Prelude.Maps.{load, load-store}
use center_agent.Prelude.Text.{Text}
use center_agent.Rule.{DetectRule, Manager, update_rule}
use center_agent.Rule.Libraries.{RuleLib}

module _ {L : RuleLib} where
  -- Where `DeepEqual` finds only equal lists equal, an update replaces the inbound's rules by the new
  -- list, on each of its branches, and leaves other inbounds' rules and all results alone.
  pub load-update_rule :
      (deep_equal : List (DetectRule L) → List (DetectRule L) → Bool) (tag : Text)
      (new : List (DetectRule L)) (m : Manager L)
      → ((old : List (DetectRule L)) → deep_equal old new ≡ true → old ≡ new)
      → ((e : Text)
          → load e (update_rule L deep_equal tag new m).rules
            ≡ (if e == tag then some new else load e m.rules))
        × ((update_rule L deep_equal tag new m).results ≡ m.results)
  unfolding update_rule
  load-update_rule deep_equal tag new m sound = elim (Option-cases (load tag m.rules)) [
    | inl absent ↦ (λ e. ground (arith, load-store tag e new m.rules), ground arith)
    | inr (old, present) ↦
        (λ e. ground (arith, load-store tag e new m.rules, ==_iff e tag, sound old), ground arith)
  ]
