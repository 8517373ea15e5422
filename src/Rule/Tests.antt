-- ===== src/Rule/Tests.antt =====
-- The theorems of the rule manager at concrete data: a pattern is a text that a destination begins
-- with, and a set is a list.
use center_agent.Prelude.{
  ◌≡◌, ◌↔◌, refl, Bool, true, ◌||◌, some, List, [], ◌∷◌, arith, ◌==◌, nat_eq, list_eq,
  if◌then◌else◌, contains,
}
use center_agent.Prelude.Ints.{pos}
use center_agent.Prelude.Maps.{load}
use center_agent.Prelude.Text.{Text, codes, has_prefix}
use center_agent.Api.{DetectResult, result_eq}
use center_agent.Limiter.{user_key}
use center_agent.Rule.{DetectRule, Manager, detect, get_detect_result, update_rule}
use center_agent.Rule.Libraries.{RuleLib, IsRuleLib}
use center_agent.Rule.Detection.{IsFirstHit, detect-reject, get_detect_result-detect}
use center_agent.Rule.Updates.{load-update_rule}

abbrev pub prefixes : RuleLib
prefixes = record {
  Pattern = Text;
  matches = λ p s. has_prefix s p;
  ResultSet = List DetectResult;
  singleton = λ a. a ∷ [];
  add = λ s a. a ∷ s;
  elements = λ s. s;
}

single : (a b : DetectResult) → contains (a ∷ []) b ≡ (b == a)
single a b = ground arith

prefixes-IsRuleLib : IsRuleLib prefixes
prefixes-IsRuleLib = record { contains-singleton = single; contains-add = λ s a b. refl }

abbrev ban : DetectRule prefixes
ban = record { id = pos 4; pattern = codes "bad" }

abbrev inbound : Text
inbound = codes "in"

abbrev pub manager : Manager prefixes
manager = record { rules = (inbound, ban ∷ []) ∷ []; results = [] }

found : load inbound manager.rules ≡ some (ban ∷ [])
unfolding load
found = refl

detect-reject_example :
    ((detect prefixes inbound (codes "bad.example") (codes "in|e|7") manager).1 ≡ true) ↔ (
      (rules : List (DetectRule prefixes)) × (r : DetectRule prefixes) × (load inbound manager.rules
        ≡ some rules)
      × IsFirstHit (codes "bad.example") rules r)
detect-reject_example = detect-reject inbound (codes "bad.example") (codes "in|e|7") manager

get_detect_result-detect_example :
    let (m', rejected) =
      detect prefixes inbound
        (codes "bad.example")
        (user_key inbound (codes "e") (pos 7))
        manager in
    (rejected ≡ true)
    × (m'.rules ≡ manager.rules)
    × ((x : DetectResult)
        → contains (get_detect_result prefixes inbound m').0 x ≡ (
            x == record { uid = pos 7; rule_id = pos 4 }
            || contains (get_detect_result prefixes inbound manager).0 x))
get_detect_result-detect_example =
    get_detect_result-detect prefixes-IsRuleLib inbound (codes "bad.example") (codes "e") (pos 7)
      manager (ban ∷ []) ban found
      (record { before = []; after = []; place = refl; missed = tt; hit = refl }) (ground arith)
      (omega arith)

abbrev same_rules : List (DetectRule prefixes) → List (DetectRule prefixes) → Bool
same_rules [] [] = true
same_rules _ _ = Bool.false

load-update_rule_example :
    ((e : Text)
      → load e (update_rule prefixes same_rules inbound [] manager).rules
        ≡ (if e == inbound then some [] else load e manager.rules))
    × ((update_rule prefixes same_rules inbound [] manager).results ≡ manager.results)
load-update_rule_example = load-update_rule same_rules inbound [] manager same_rules-sound
  where
    same_rules-sound : (old : List (DetectRule prefixes)) → same_rules old [] ≡ true → old ≡ []
    same_rules-sound [] h = refl
    same_rules-sound (r ∷ rs) h = ground arith
