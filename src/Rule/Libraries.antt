-- ===== src/Rule/Libraries.antt =====
-- What the rule manager takes from Go's `regexp` and from github.com/deckarep/golang-set.
use center_agent.Prelude.{Bool, ◌||◌, ◌≡◌, List, ◌==◌, contains}
use center_agent.Prelude.Text.{Text}
use center_agent.Api.{DetectResult, result_eq}

pub record RuleLib : Type 1 where
  pub Pattern : Type 0
  pub matches : Pattern → Text → Bool
  pub ResultSet : Type 0
  pub singleton : DetectResult → ResultSet
  pub add : ResultSet → DetectResult → ResultSet
  pub elements : ResultSet → List DetectResult

-- The documented behaviour of the set: what its iterator yields.
pub record IsRuleLib (L : RuleLib) : Type 0 where
  pub contains-singleton : (a b : DetectResult) → contains (L.elements (L.singleton a)) b ≡ (b == a)
  pub contains-add :
      (s : L.ResultSet) (a b : DetectResult)
      → contains (L.elements (L.add s a)) b ≡ (b == a || contains (L.elements s) b)
