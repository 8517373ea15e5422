-- ===== src/Agent/Install/Turns.antt =====
-- How a body ends: it goes on with a value and has reported nothing, or it has reported one result.
use center_agent.Prelude.{
  ◌≡◌, refl, ◌∙◌, Bool, true, false, Option, none, some, List, [], ◌∷◌, ◌++◌, if◌then◌else◌, arith,
}
use center_agent.Prelude.Maps.{Map}
use center_agent.Prelude.Text.{Text}
use center_agent.Prelude.Json.{Json}
use center_agent.Agent.Commands.{Failure, Outcome, Message, progress, result, results, failing}
use center_agent.Agent.Install.Tasks.{
  Task, then_turn, ◌>>=◌, pure, call, attempt, change, look, say, finish, require, on_value,
  on_bytes, admit, deferring,
}

-- How the body `t` ends that starts on the machine `m`.
pub data Ends {M A : Type 0} (Q : A → M → Type 0) (E : Outcome → M → Type 0) (t : Task M A) (m : M)
    : Type 0 where
  goes :
      (a : A)
      → (t.run m).value ≡ some a
      → results (t.run m).sent ≡ []
      → Q a (t.run m).after
      → Ends Q E t m
  over :
      (r : Outcome)
      → (t.run m).value ≡ none
      → results (t.run m).sent ≡ r ∷ []
      → E r (t.run m).after
      → Ends Q E t m

results-append : (ms ns : List Message) → results ms ≡ [] → results (ms ++ ns) ≡ results ns
results-append [] ns e = refl
results-append (progress _ _ ∷ ms) ns e = results-append ms ns e
results-append (result _ r ∷ ms) ns e = absurd (ground (arith, e))

module _ {M : Type 0} {E : Outcome → M → Type 0} where
  pub >>=-Ends :
      {A B : Type 0} (Q : A → M → Type 0) {R : B → M → Type 0} {t : Task M A} {f : A → Task M B}
      {m : M}
      → Ends Q E t m
      → ((a : A) (m' : M) → Q a m' → Ends R E (f a) m')
      → Ends R E (t >>= f) m
  unfolding ◌>>=◌ then_turn
  >>=-Ends Q {t = t} {f = f} {m = m} (goes a v s h) k = elim (k a (t.run m).after h) [
    | goes b v' s' h' ↦
        goes b (rw (then_turn, v) v')
          (rw (then_turn, v)
            (results-append (t.run m).sent ((f a).run (t.run m).after).sent s ∙ s'))
          (rw (then_turn, v) h')
    | over r v' s' h' ↦
        over r (rw (then_turn, v) v')
          (rw (then_turn, v)
            (results-append (t.run m).sent ((f a).run (t.run m).after).sent s ∙ s'))
          (rw (then_turn, v) h')
  ]
  >>=-Ends Q (over r v s h) k =
      over r (rw (then_turn, v)) (rw (then_turn, v) s) (rw (then_turn, v) h)

  pub pure-Ends : {A : Type 0} {Q : A → M → Type 0} (a : A) {m : M} → Q a m → Ends Q E (pure a) m
  unfolding pure
  pure-Ends a h = goes a refl refl h

  pub finish-Ends :
      {A : Type 0} {Q : A → M → Type 0} (id : Text) (r : Outcome) {m : M}
      → E r m
      → Ends Q E (finish id r) m
  unfolding finish
  finish-Ends id r h = over r refl refl h

  pub say-Ends :
      {Q : Unit {0} → M → Type 0} (id step : Text) {m : M} → Q tt m → Ends Q E (say id step) m
  unfolding say
  say-Ends id step {m = m} h = goes tt refl refl h

  pub say->>=-Ends :
      {B : Type 0} {Q : B → M → Type 0} (id step : Text) (f : Unit {0} → Task M B) {m : M}
      → Ends Q E (f tt) m
      → Ends Q E (say id step >>= f) m
  say->>=-Ends {Q = Q} id step f h =
      >>=-Ends (λ a m'. Ends Q E (f a) m') (say-Ends id step h) (λ _ _ p. p)

  pub look-Ends :
      {A : Type 0} {Q : A → M → Type 0} (g : M → A) {m : M} → Q (g m) m → Ends Q E (look g) m
  unfolding look
  look-Ends g {m = m} h = goes (g m) refl refl h

  pub look->>=-Ends :
      {A : Type 0} {B : Type 0} {Q : B → M → Type 0} (g : M → A) (f : A → Task M B) {m : M}
      → Ends Q E (f (g m)) m
      → Ends Q E (look g >>= f) m
  look->>=-Ends {Q = Q} g f h = >>=-Ends (λ a m'. Ends Q E (f a) m') (look-Ends g h) (λ _ _ p. p)

  pub attempt-Ends :
      {Q : Bool → M → Type 0} (g : M → M × Bool) {m : M}
      → Q (g m).1 (g m).0
      → Ends Q E (attempt g) m
  unfolding attempt
  attempt-Ends g {m = m} h = goes (g m).1 refl refl h

  pub attempt->>=-Ends :
      {B : Type 0} {Q : B → M → Type 0} (g : M → M × Bool) (f : Bool → Task M B) {m : M}
      → Ends Q E (f (g m).1) (g m).0
      → Ends Q E (attempt g >>= f) m
  attempt->>=-Ends {Q = Q} g f h =
      >>=-Ends (λ a m'. Ends Q E (f a) m') (attempt-Ends g h) (λ _ _ p. p)

  pub change-Ends :
      {Q : Unit {0} → M → Type 0} (g : M → M) {m : M} → Q tt (g m) → Ends Q E (change g) m
  unfolding change
  change-Ends g {m = m} h = goes tt refl refl h

  pub change->>=-Ends :
      {B : Type 0} {Q : B → M → Type 0} (g : M → M) (f : Unit {0} → Task M B) {m : M}
      → Ends Q E (f tt) (g m)
      → Ends Q E (change g >>= f) m
  change->>=-Ends {Q = Q} g f h =
      >>=-Ends (λ a m'. Ends Q E (f a) m') (change-Ends g h) (λ _ _ p. p)

  pub call-Ends :
      {Q : Unit {0} → M → Type 0} (g : M → M × Bool) {m : M} → Q tt (g m).0 → Ends Q E (call g) m
  unfolding call
  call-Ends g {m = m} h = goes tt refl refl h

  pub call->>=-Ends :
      {B : Type 0} {Q : B → M → Type 0} (g : M → M × Bool) (f : Unit {0} → Task M B) {m : M}
      → Ends Q E (f tt) (g m).0
      → Ends Q E (call g >>= f) m
  call->>=-Ends {Q = Q} g f h = >>=-Ends (λ a m'. Ends Q E (f a) m') (call-Ends g h) (λ _ _ p. p)

  pub require-Ends :
      {Q : Unit {0} → M → Type 0} (id : Text) (b : Bool) (x : Failure) (extra : Map Text Json)
      {m : M}
      → (b ≡ false → E (failing x extra) m)
      → (b ≡ true → Q tt m)
      → Ends Q E (require id b x extra) m
  unfolding require
  require-Ends id false x extra no_way on = finish-Ends id _ (no_way refl)
  require-Ends id true x extra no_way on = pure-Ends tt (on refl)

  pub require->>=-Ends :
      {A : Type 0} {Q : A → M → Type 0} (id : Text) (b : Bool) (x : Failure) (extra : Map Text Json)
      (f : Unit {0} → Task M A) {m : M}
      → (b ≡ false → E (failing x extra) m)
      → (b ≡ true → Ends Q E (f tt) m)
      → Ends Q E (require id b x extra >>= f) m
  require->>=-Ends {Q = Q} id b x extra f no_way on =
      >>=-Ends (λ a m'. Ends Q E (f a) m') (require-Ends id b x extra no_way on) (λ _ _ p. p)

  admit-Ends :
      {Q : Unit {0} → M → Type 0} (id : Text) (e : Option Failure) {m : M}
      → ((x : Failure) → E (failing x []) m)
      → Q tt m
      → Ends Q E (admit id e) m
  unfolding admit
  admit-Ends id (some x) no_way on = finish-Ends id _ (no_way x)
  admit-Ends id none no_way on = pure-Ends tt on

  pub admit->>=-Ends :
      {A : Type 0} {Q : A → M → Type 0} (id : Text) (e : Option Failure) (f : Unit {0} → Task M A)
      {m : M}
      → ((x : Failure) → E (failing x []) m)
      → Ends Q E (f tt) m
      → Ends Q E (admit id e >>= f) m
  admit->>=-Ends {Q = Q} id e f no_way on =
      >>=-Ends (λ a m'. Ends Q E (f a) m') (admit-Ends id e no_way on) (λ _ _ p. p)

  pub if-Ends :
      {A : Type 0} {Q : A → M → Type 0} (b : Bool) {t u : Task M A} {m : M}
      → (b ≡ true → Ends Q E t m)
      → (b ≡ false → Ends Q E u m)
      → Ends Q E (if b then t else u) m
  if-Ends true h k = h refl
  if-Ends false h k = k refl

  pub on_value-Ends :
      {A B : Type 0} {Q : B → M → Type 0} (v : Option A) {t : Task M B} {f : A → Task M B} {m : M}
      → (v ≡ none → Ends Q E t m)
      → ((a : A) → v ≡ some a → Ends Q E (f a) m)
      → Ends Q E (on_value v t f) m
  unfolding on_value
  on_value-Ends none h k = h refl
  on_value-Ends (some a) h k = k a refl

  pub on_bytes-Ends :
      {B : Type 0} {Q : B → M → Type 0} (v : Option Text) {t : Task M B} {f : Text → Task M B}
      {m : M}
      → Ends Q E t m
      → ((b : Text) → v ≡ some b → Ends Q E (f b) m)
      → Ends Q E (on_bytes v t f) m
  unfolding on_bytes
  on_bytes-Ends none h k = h
  on_bytes-Ends (some []) h k = h
  on_bytes-Ends (some (c ∷ b)) h k = k (c ∷ b) refl

  pub deferring-Ends :
      {A : Type 0} {Q : A → M → Type 0} {F : Outcome → M → Type 0} (g : M → M) {t : Task M A}
      {m : M}
      → ((a : A) (m' : M) → Q a m' → Q a (g m'))
      → ((r : Outcome) (m' : M) → F r m' → E r (g m'))
      → Ends Q F t m
      → Ends Q E (deferring g t) m
  unfolding deferring
  deferring-Ends g k l (goes a v s h) = goes a v s (k a _ h)
  deferring-Ends g k l (over r v s h) = over r v s (l r _ h)
