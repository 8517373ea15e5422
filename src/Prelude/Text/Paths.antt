-- ===== src/Prelude/Text/Paths.antt =====
-- What the code takes from Go's `path/filepath`, on a system whose separator is a slash.
use Prim.Native.Nat.{ℕ}
use mathlib.Core.Bool.{Bool, false, ◌||◌}
use mathlib.Core.List.{List, [], ◌∷◌, ◌++◌, reverse}
use center_agent.Prelude.Booleans.{if◌then◌else◌}
use center_agent.Prelude.Equality.{◌==◌, nat_eq, list_eq}
use center_agent.Prelude.Lists.{contains}
use center_agent.Prelude.Text.Fields.{split}

abbrev pub dot_dot : List ℕ
dot_dot = b'.' ∷ b'.' ∷ []

-- The elements that `filepath.Clean` keeps, the last one first: `seen` is what it kept so far.
unfoldable pub kept_parts : Bool → (seen parts : List (List ℕ)) → List (List ℕ)
kept_parts rooted seen [] = seen
kept_parts rooted seen (p ∷ ps) =
    let skipped = kept_parts rooted seen ps in
    let kept = kept_parts rooted (p ∷ seen) ps in
    let top = kept_parts rooted [] ps in
    let popped : List (List ℕ) = elim seen [
      | [] ↦ if rooted then top else kept
      | t ∷ ts ↦ if t == dot_dot then kept else kept_parts rooted ts ps
    ] in
    if p == [] || p == b'.' ∷ [] then skipped else if p == dot_dot then popped else kept

abbrev pub join_slash : List (List ℕ) → List ℕ
join_slash [] = []
join_slash (p ∷ []) = p
join_slash (p ∷ q ∷ ps) = p ++ (b'/' ∷ join_slash (q ∷ ps))

abbrev pub is_rooted : List ℕ → Bool
is_rooted [] = false
is_rooted (c ∷ s) = c == b'/'

-- `filepath.Clean`
unfoldable pub clean : List ℕ → List ℕ
unfolding split kept_parts
clean s =
    let parts = join_slash (reverse (kept_parts (is_rooted s) [] (split b'/' s))) in
    if is_rooted s then b'/' ∷ parts else if parts == [] then b'.' ∷ [] else parts

abbrev pub last_part : List ℕ → List (List ℕ) → List ℕ
last_part d [] = d
last_part d (p ∷ ps) = if p == [] then last_part d ps else last_part p ps

-- `filepath.Base`: the last element that is not empty.
unfoldable pub base : List ℕ → List ℕ
unfolding split
base [] = b'.' ∷ []
base (c ∷ s) = last_part (b'/' ∷ []) (split b'/' (c ∷ s))

-- Up to the last slash, the slash included.
abbrev pub to_last_slash : List ℕ → List ℕ
to_last_slash [] = []
to_last_slash (c ∷ s) = let rest = to_last_slash s in if contains (c ∷ s) b'/' then c ∷ rest else []

-- `filepath.Dir`
unfoldable pub dir : List ℕ → List ℕ
unfolding clean
dir s = clean (to_last_slash s)
