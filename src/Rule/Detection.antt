-- ===== src/Rule/Detection.antt =====
-- Detect: which connections it rejects, and what a later report says of them.
use center_agent.Prelude.{
  ◌≡◌, ◌≢◌, ◌↔◌, refl, inl, inr, true, false, ◌||◌, some, List, [], ◌∷◌, ◌++◌, arith, ◌==◌, ==_iff,
  nat_eq, list_eq, All, contains, Bool-cases, Option-cases,
}
use center_agent.Prelude.Ints.{ℤ, negsuc, int_eq}
use center_agent.Prelude.Maps.{Map, load, load-store_self}
use center_agent.Prelude.Text.{Text, IsInt64}
use center_agent.Api.{DetectResult, result_eq}
use center_agent.Limiter.{user_key}
use center_agent.Limiter.Keys.{atoi-user_key}
use center_agent.Rule.{
  DetectRule, Manager, first_hit, add_result, record_hit, detect, get_detect_result,
}
use center_agent.Rule.Libraries.{RuleLib, IsRuleLib}

module _ {L : RuleLib} where
  -- The first rule of a list that matches a destination.
  pub record IsFirstHit (destination : Text) (rules : List (DetectRule L)) (r : DetectRule L)
      : Type 0 where
    pub before : List (DetectRule L)
    pub after : List (DetectRule L)
    pub place : rules ≡ before ++ (r ∷ after)
    pub missed : All (λ q. L.matches q.pattern destination ≡ false) before
    pub hit : L.matches r.pattern destination ≡ true

  first_hit-passed :
      (destination : Text) (before after : List (DetectRule L)) (r : DetectRule L)
      → All (λ q. L.matches q.pattern destination ≡ false) before
      → L.matches r.pattern destination ≡ true
      → first_hit L destination (before ++ (r ∷ after)) ≡ some r.id
  unfolding first_hit
  first_hit-passed destination [] after r h p = rw p
  first_hit-passed destination (q ∷ before) after r h p =
      rw h.0 (first_hit-passed destination before after r h.1 p)

  first_hit-IsFirstHit :
      (destination : Text) (rules : List (DetectRule L)) (id : ℤ)
      → first_hit L destination rules ≡ some id
      → (r : DetectRule L) × IsFirstHit destination rules r
  unfolding first_hit
  first_hit-IsFirstHit destination [] id h = ground arith
  first_hit-IsFirstHit destination (r ∷ rules) id h =
      elim (Bool-cases (L.matches r.pattern destination)) [
        | inl p ↦ (r, record { before = []; after = rules; place = refl; missed = tt; hit = p })
        | inr p ↦
            let (q, f) = first_hit-IsFirstHit destination rules id (rw p at h) in
            (
              q,
              record {
                before = r ∷ f.before;
                after = f.after;
                place = rw (← f.place);
                missed = (p, f.missed);
                hit = f.hit;
              },
            )
      ]

  -- A connection is rejected exactly when its inbound has a rule that matches the destination.
  pub detect-reject :
      (tag destination email : Text) (m : Manager L)
      → ((detect L tag destination email m).1 ≡ true) ↔ (
          (rules : List (DetectRule L)) × (r : DetectRule L) × (load tag m.rules ≡ some rules)
          × IsFirstHit destination rules r)
  unfolding detect
  detect-reject tag destination email m = elim (Option-cases (load tag m.rules)) [
    | inl absent ↦ (λ h. ground arith, λ (_, _, e, _). ground (arith, e))
    | inr (rules, present) ↦ elim (Option-cases (first_hit L destination rules)) [
      | inl missed ↦ (
        λ h. ground arith,
        λ (rules', r, e, f).
            ground
              (arith, e, f.place, first_hit-passed destination f.before f.after r f.missed f.hit),
      )
      | inr (id, hit) ↦ (
        λ _. let (r, f) = first_hit-IsFirstHit destination rules id hit in (rules, r, present, f),
        λ _. ground arith,
      )
    ]
  ]

  detect-hit :
      (tag destination email : Text) (m : Manager L) (rules : List (DetectRule L))
      (r : DetectRule L)
      → load tag m.rules ≡ some rules
      → IsFirstHit destination rules r
      → detect L tag destination email m ≡ (record_hit L tag r.id email m, true)
  unfolding detect
  detect-hit tag destination email m rules r present f =
      ground (arith, f.place, first_hit-passed destination f.before f.after r f.missed f.hit)

  record_hit-user_key :
      (tag email : Text) (uid id : ℤ) (m : Manager L)
      → id ≢ negsuc 0
      → IsInt64 uid
      → record_hit L tag id (user_key tag email uid) m
        ≡ record m { results = add_result L tag (record { uid = uid; rule_id = id }) m.results }
  unfolding record_hit
  record_hit-user_key tag email uid id m valid bounded =
      ground (arith, ==_iff id (negsuc 0), atoi-user_key tag email uid bounded)

  module _ (laws : IsRuleLib L) where
    contains-add_result :
        (tag : Text) (a x : DetectResult) (m : Manager L) (results : Map Text L.ResultSet)
        → results ≡ add_result L tag a m.results
        → contains (get_detect_result L tag (record m { results = results })).0 x
          ≡ (x == a || contains (get_detect_result L tag m).0 x)
    unfolding add_result get_detect_result
    contains-add_result tag a x m results e = elim (Option-cases (load tag m.results)) [
      | inl absent ↦
          ground (arith, load-store_self tag (L.singleton a) m.results, laws.contains-singleton a x)
      | inr (set, present) ↦
          ground (arith, load-store_self tag (L.add set a) m.results, laws.contains-add set a x)
    ]

    -- A user whose connection hits a rule with an ID other than -1 is rejected, and the next report
    -- of the inbound has exactly one more result than it would have had (or the same ones, if it
    -- held that one): the UID in the user's Xray name, with the ID of the first rule that matches.
    pub get_detect_result-detect :
        (tag destination email : Text) (uid : ℤ) (m : Manager L) (rules : List (DetectRule L))
        (r : DetectRule L)
        → load tag m.rules ≡ some rules
        → IsFirstHit destination rules r
        → r.id ≢ negsuc 0
        → IsInt64 uid
        → let (m', rejected) = detect L tag destination (user_key tag email uid) m in
          (rejected ≡ true)
          × (m'.rules ≡ m.rules)
          × ((x : DetectResult)
              → contains (get_detect_result L tag m').0 x ≡ (
                  x == record { uid = uid; rule_id = r.id }
                  || contains (get_detect_result L tag m).0 x))
    get_detect_result-detect tag destination email uid m rules r present f valid bounded =
        rw (detect-hit tag destination (user_key tag email uid) m rules r present f) (
          rw (record_hit-user_key tag email uid r.id m valid bounded) (
            refl,
            refl,
            λ x. contains-add_result tag (record { uid = uid; rule_id = r.id }) x m _ refl,
          ))
