-- ===== src/Agent/Install/Tasks.antt =====
-- Work that changes the machine, sends messages to the center, and may end before its last line:
-- the shape of the bodies that report a failure and return.
use center_agent.Prelude.{Bool, true, false, Option, none, some, List, [], ◌∷◌, ◌++◌}
use center_agent.Prelude.Maps.{Map}
use center_agent.Prelude.Text.{Text}
use center_agent.Prelude.Json.{Json}
use center_agent.Agent.Commands.{Failure, Outcome, Message, progress, result, failing}

-- No value means that the body has returned.
pub record Turn (M A : Type 0) : Type 0 where
  pub after : M
  pub sent : List Message
  pub value : Option A

pub record Task (M A : Type 0) : Type 0 where
  pub run : M → Turn M A

module _ {M : Type 0} where
  unfoldable pub then_turn : {A B : Type 0} → Turn M A → (A → M → Turn M B) → Turn M B
  then_turn t f = elim t.value [
    | none ↦ record { after = t.after; sent = t.sent; value = none }
    | some a ↦
        let rest = f a t.after in
        record { after = rest.after; sent = t.sent ++ rest.sent; value = rest.value }
  ]

  infixl 5 ◌>>=◌ ◌>>◌
  unfoldable pub ◌>>=◌ : {A B : Type 0} → Task M A → (A → Task M B) → Task M B
  t >>= f = record { run = λ m. then_turn (t.run m) (λ a. (f a).run) }

  abbrev pub ◌>>◌ : {B : Type 0} → Task M (Unit {0}) → Task M B → Task M B
  t >> u = t >>= λ _. u

  unfoldable pub pure : {A : Type 0} → A → Task M A
  pure a = record { run = λ m. record { after = m; sent = []; value = some a } }

  -- A call whose error the code drops, a call whose error it looks at, and a look at the machine.
  unfoldable pub call : (M → M × Bool) → Task M (Unit {0})
  call f = record { run = λ m. record { after = (f m).0; sent = []; value = some tt } }

  unfoldable pub attempt : (M → M × Bool) → Task M Bool
  attempt f = record { run = λ m. record { after = (f m).0; sent = []; value = some (f m).1 } }

  unfoldable pub change : (M → M) → Task M (Unit {0})
  change f = record { run = λ m. record { after = f m; sent = []; value = some tt } }

  unfoldable pub look : {A : Type 0} → (M → A) → Task M A
  look f = record { run = λ m. record { after = m; sent = []; value = some (f m) } }

  unfoldable pub say : (id step : Text) → Task M (Unit {0})
  say id step = record {
    run = λ m. record { after = m; sent = progress id step ∷ []; value = some tt };
  }

  -- A report of the result, and the return that follows it.
  unfoldable pub finish : {A : Type 0} → Text → Outcome → Task M A
  finish id o = record { run = λ m. record { after = m; sent = result id o ∷ []; value = none } }

  abbrev pub stop : {A : Type 0} → Text → Failure → Map Text Json → Task M A
  stop id f extra = finish id (failing f extra)

  unfoldable pub require : Text → Bool → Failure → Map Text Json → Task M (Unit {0})
  unfolding pure finish
  require id true f extra = pure tt
  require id false f extra = stop id f extra

  -- What follows a call that gives a value, or none; and one whose empty value counts as none.
  unfoldable pub on_value : {A B : Type 0} → Option A → Task M B → (A → Task M B) → Task M B
  on_value none t f = t
  on_value (some a) t f = f a

  unfoldable pub on_bytes : {B : Type 0} → Option Text → Task M B → (Text → Task M B) → Task M B
  on_bytes none t f = t
  on_bytes (some []) t f = t
  on_bytes (some (c ∷ b)) t f = f (c ∷ b)

  -- The error of a check, if it found one.
  unfoldable pub admit : Text → Option Failure → Task M (Unit {0})
  unfolding pure finish
  admit id none = pure tt
  admit id (some f) = stop id f []

  -- A deferred call runs after the body, however it returns.
  unfoldable pub deferring : {A : Type 0} → (M → M) → Task M A → Task M A
  deferring f t = record {
    run = λ m.
        let end = t.run m in record { after = f end.after; sent = end.sent; value = end.value };
  }
