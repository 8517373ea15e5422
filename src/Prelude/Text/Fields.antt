-- ===== src/Prelude/Text/Fields.antt =====
-- `strings.Split` at one byte, and its last field.
use Prim.Native.Nat.{ℕ}
use mathlib.Core.Path.{◌≡◌, refl}
use mathlib.Core.Logic.{inl, inr}
use mathlib.Core.Bool.{false}
use mathlib.Core.List.{List, [], ◌∷◌, ◌++◌}
use native.Mathlib.Omega.{arith}
use center_agent.Prelude.Booleans.{if◌then◌else◌, Bool-cases}
use center_agent.Prelude.Equality.{◌==◌, nat_eq, ==_refl, ==_iff}
use center_agent.Prelude.Lists.{contains}

abbrev push : ℕ → List (List ℕ) → List (List ℕ)
push c [] = (c ∷ []) ∷ []
push c (f ∷ fs) = (c ∷ f) ∷ fs

-- The fields between the separators; one more than there are separators.
unfoldable pub split : ℕ → List ℕ → List (List ℕ)
split sep [] = [] ∷ []
split sep (c ∷ s) = let fs = split sep s in if c == sep then [] ∷ fs else push c fs

abbrev last_of : List ℕ → List (List ℕ) → List ℕ
last_of d [] = d
last_of d (f ∷ fs) = last_of f fs

-- `l[len(l)-1]` of what `split` returns, which is never empty.
unfoldable pub last_field : ℕ → List ℕ → List ℕ
unfolding split
last_field sep s = last_of [] (split sep s)

pub split-free : (sep : ℕ) (s : List ℕ) → contains s sep ≡ false → split sep s ≡ s ∷ []
unfolding split
split-free sep [] h = refl
split-free sep (c ∷ s) h = ground (arith, split-free sep s)

-- What stands before the first separator is the first field.
pub split-append :
    (sep : ℕ) (s t : List ℕ) → contains s sep ≡ false → split sep (s ++ (sep ∷ t)) ≡ s ∷ split sep t
unfolding split
split-append sep [] t h = rw (==_refl sep) refl
split-append sep (c ∷ s) t h =
    let rest = split-append sep s t (ground (arith, h)) in
    elim (Bool-cases (c == sep)) [
      | inl p ↦ absurd (ground (arith, h, p, ==_iff c sep, ==_refl c))
      | inr p ↦ rw (p, rest) refl
    ]

pub split-cons :
    (sep : ℕ) (s : List ℕ) → (f : List ℕ) × (fs : List (List ℕ)) × (split sep s ≡ f ∷ fs)
unfolding split
split-cons sep [] = ([], [], refl)
split-cons sep (c ∷ s) =
    let (f, fs, e) = split-cons sep s in
    elim (Bool-cases (c == sep)) [
      | inl p ↦ ([], split sep s, rw p refl)
      | inr p ↦ (c ∷ f, fs, rw (p, e) refl)
    ]

-- A list of fields with at least two entries, whose last one is `t`.
abbrev EndsWith : List ℕ → List (List ℕ) → Type 0
EndsWith t fs = (f g : List ℕ) × (rest : List (List ℕ)) × (fs ≡ f ∷ g ∷ rest) × (last_of g rest ≡ t)

split-EndsWith :
    (sep : ℕ) (s t : List ℕ) → contains t sep ≡ false → EndsWith t (split sep (s ++ (sep ∷ t)))
unfolding split
split-EndsWith sep [] t h = ([], t, [], rw (==_refl sep, split-free sep t h), refl)
split-EndsWith sep (c ∷ s) t h =
    let (f, g, rest, e, l) = split-EndsWith sep s t h in
    elim (Bool-cases (c == sep)) [
      | inl p ↦ ([], f, g ∷ rest, rw (p, e), l)
      | inr p ↦ (c ∷ f, g, rest, rw (p, e), l)
    ]

-- The last field is what stands behind the last separator.
pub last_field-append :
    (sep : ℕ) (s t : List ℕ) → contains t sep ≡ false → last_field sep (s ++ (sep ∷ t)) ≡ t
unfolding last_field
last_field-append sep s t h = let (f, g, rest, e, l) = split-EndsWith sep s t h in rw e l
