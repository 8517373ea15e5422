-- ===== src/Agent/Install/Keeps.antt =====
-- Bodies that leave a file alone, put together as runXrayrInstallUpgrade puts them together.
use center_agent.Prelude.{
  ◌≡◌, refl, ◌∙◌, Bool, true, false, Option, none, some, [], ◌∷◌, if◌then◌else◌, Option-cases, inl,
  inr,
}
use center_agent.Prelude.Text.{Text}
use center_agent.Agent.Commands.{Failure, Outcome}
use center_agent.Agent.Install.Host.{Host}
use center_agent.Agent.Install.Tasks.{
  Task, Turn, then_turn, ◌>>=◌, pure, call, attempt, change, look, say, finish, require, on_value,
  on_bytes, admit, deferring,
}

-- A body that leaves the file alone.
pub record Keeps (H : Host) (q : Text) {A : Type 0} (t : Task H.os.Machine A) : Type 0 where
  pub keeps : (m : H.os.Machine) → H.os.content q (t.run m).after ≡ H.os.content q m

then_turn-Keeps :
    (H : Host) (q : Text) {A B : Type 0} (c : Option Text) (t : Turn H.os.Machine A)
    (f : A → H.os.Machine → Turn H.os.Machine B)
    → H.os.content q t.after ≡ c
    → ((a : A) (m : H.os.Machine) → H.os.content q (f a m).after ≡ H.os.content q m)
    → H.os.content q (then_turn t f).after ≡ c
unfolding then_turn
then_turn-Keeps H q c t f h k = elim (Option-cases t.value) [
  | inl e ↦ rw e h
  | inr (a, e) ↦ rw e (k a t.after ∙ h)
]

module _ {H : Host} {q : Text} where
  pub >>=-Keeps :
      {A B : Type 0} {t : Task H.os.Machine A} {f : A → Task H.os.Machine B}
      → Keeps H q t
      → ((a : A) → Keeps H q (f a))
      → Keeps H q (t >>= f)
  unfolding ◌>>=◌
  >>=-Keeps h k = record { keeps = λ m. then_turn-Keeps H q _ _ _ (h.keeps m) (λ a. (k a).keeps) }

  pub pure-Keeps : {A : Type 0} (a : A) → Keeps H q (pure a)
  unfolding pure
  pure-Keeps a = record { keeps = λ m. refl }

  pub say-Keeps : (id step : Text) → Keeps H q (say id step)
  unfolding say
  say-Keeps id step = record { keeps = λ m. refl }

  pub finish-Keeps : {A : Type 0} (id : Text) (r : Outcome) → Keeps H q (finish {A = A} id r)
  unfolding finish
  finish-Keeps id r = record { keeps = λ m. refl }

  pub look-Keeps : {A : Type 0} (f : H.os.Machine → A) → Keeps H q (look f)
  unfolding look
  look-Keeps f = record { keeps = λ m. refl }

  -- What is looked at is a value of the function that looks.
  pub look->>=-Keeps :
      {A B : Type 0} (g : H.os.Machine → A) (f : A → Task H.os.Machine B)
      → ((m : H.os.Machine) → Keeps H q (f (g m)))
      → Keeps H q (look g >>= f)
  unfolding ◌>>=◌ look then_turn
  look->>=-Keeps g f k = record { keeps = λ m. (k m).keeps m }

  pub call-Keeps :
      (f : H.os.Machine → H.os.Machine × Bool)
      → ((m : H.os.Machine) → H.os.content q (f m).0 ≡ H.os.content q m)
      → Keeps H q (call f)
  unfolding call
  call-Keeps f h = record { keeps = h }

  pub attempt-Keeps :
      (f : H.os.Machine → H.os.Machine × Bool)
      → ((m : H.os.Machine) → H.os.content q (f m).0 ≡ H.os.content q m)
      → Keeps H q (attempt f)
  unfolding attempt
  attempt-Keeps f h = record { keeps = h }

  pub change-Keeps :
      (f : H.os.Machine → H.os.Machine)
      → ((m : H.os.Machine) → H.os.content q (f m) ≡ H.os.content q m)
      → Keeps H q (change f)
  unfolding change
  change-Keeps f h = record { keeps = h }

  pub if-Keeps :
      {A : Type 0} (b : Bool) {t u : Task H.os.Machine A}
      → Keeps H q t
      → Keeps H q u
      → Keeps H q (if b then t else u)
  if-Keeps true h k = h
  if-Keeps false h k = k

  pub on_value-Keeps :
      {A B : Type 0} (v : Option A) {t : Task H.os.Machine B} {f : A → Task H.os.Machine B}
      → Keeps H q t
      → ((a : A) → Keeps H q (f a))
      → Keeps H q (on_value v t f)
  unfolding on_value
  on_value-Keeps none h k = h
  on_value-Keeps (some a) h k = k a

  pub on_bytes-Keeps :
      {B : Type 0} (v : Option Text) {t : Task H.os.Machine B} {f : Text → Task H.os.Machine B}
      → Keeps H q t
      → ((b : Text) → Keeps H q (f b))
      → Keeps H q (on_bytes v t f)
  unfolding on_bytes
  on_bytes-Keeps none h k = h
  on_bytes-Keeps (some []) h k = h
  on_bytes-Keeps (some (c ∷ b)) h k = k (c ∷ b)

  pub require-Keeps :
      (id : Text) (b : Bool) (f : Failure) (extra : _) → Keeps H q (require id b f extra)
  unfolding require
  require-Keeps id true f extra = pure-Keeps tt
  require-Keeps id false f extra = finish-Keeps id _

  -- What stands behind a requirement is run only if it holds.
  pub require->>=-Keeps :
      {A : Type 0} (id : Text) (b : Bool) (f : Failure) (extra : _)
      (t : Unit {0} → Task H.os.Machine A)
      → (b ≡ true → Keeps H q (t tt))
      → Keeps H q (require id b f extra >>= t)
  unfolding ◌>>=◌ require pure finish then_turn
  require->>=-Keeps id true f extra t h = record { keeps = (h refl).keeps }
  require->>=-Keeps id false f extra t h = record { keeps = λ m. refl }

  pub admit-Keeps : (id : Text) (e : Option Failure) → Keeps H q (admit id e)
  unfolding admit
  admit-Keeps id none = pure-Keeps tt
  admit-Keeps id (some f) = finish-Keeps id _

  pub deferring-Keeps :
      {A : Type 0} (f : H.os.Machine → H.os.Machine) {t : Task H.os.Machine A}
      → ((m : H.os.Machine) → H.os.content q (f m) ≡ H.os.content q m)
      → Keeps H q t
      → Keeps H q (deferring f t)
  unfolding deferring
  deferring-Keeps f {t} h k = record { keeps = λ m. h (t.run m).after ∙ k.keeps m }
