-- ===== src/Panel/Sspanel/Versions.antt =====
-- compareVersion, and the lists of numbers that it compares.
use center_agent.Prelude.{
  map, list_eq, ℕ, zero, suc, ◌+◌, ◌%◌, ◌≤◌, ◌<◌, ◌≡◌, refl, ap, sym, ◌∙◌, ◌&&◌, Option, none, some,
  List, [], ◌∷◌, arith, ◌==◌, nat_eq, if◌then◌else◌, length, Bool-cases, inl, inr,
}
use center_agent.Prelude.Ints.{ℤ, pos, negsuc, ltb_ℤ, ◌+ℤ◌, ◌*ℤ◌, to_int64}
use center_agent.Prelude.Text.{Text, split}

-- `int(c - '0')` on bytes, which wraps around.
abbrev pub digit : ℕ → ℤ
digit c = pos ((c + 208) % 256)

-- `x = x*10 + int(version[i]-'0')` up to the dot or the end, and what stands behind the dot.
unfoldable pub read_number : ℤ → Text → ℤ × Text
read_number x [] = (x, [])
read_number x (c ∷ s) =
    let rest = read_number (to_int64 (x *ℤ pos 10 +ℤ digit c)) s in
    if c == b'.' then (x, s) else rest

-- A number of each, and then the rest.
abbrev pub pick : ℤ → ℤ → ℤ → ℤ
pick x y rest = if ltb_ℤ y x then pos 1 else if ltb_ℤ x y then negsuc 0 else rest

abbrev pub decide : ℤ → ℤ → Option ℤ → Option ℤ
decide x y rest = if ltb_ℤ y x then some (pos 1) else if ltb_ℤ x y then some (negsuc 0) else rest

-- The loop, a round for a number of each version; `none` says that the fuel has run out.
unfoldable pub compare_fuel : ℕ → Text → Text → Option ℤ
compare_fuel zero v w = none
compare_fuel (suc f) v w =
    let (x, v') = read_number (pos 0) v in
    let (y, w') = read_number (pos 0) w in
    let rest = compare_fuel f v' w' in if v == [] && w == [] then some (pos 0) else decide x y rest

-- A round takes at least one character.
unfoldable pub compare_version : Text → Text → Option ℤ
unfolding compare_fuel
compare_version v w = compare_fuel (suc (length v + length w)) v w

-- The number that a part of a version stands for.
abbrev pub value_from : ℤ → Text → ℤ
value_from x [] = x
value_from x (c ∷ s) = value_from (to_int64 (x *ℤ pos 10 +ℤ digit c)) s

-- The order of versions: number by number, where a missing number counts as zero.
abbrev pub compare_numbers : List ℤ → List ℤ → ℤ
compare_numbers [] [] = pos 0
compare_numbers [] (y ∷ ys) = pick (pos 0) y (compare_numbers [] ys)
compare_numbers (x ∷ xs) [] = pick x (pos 0) (compare_numbers xs [])
compare_numbers (x ∷ xs) (y ∷ ys) = pick x y (compare_numbers xs ys)

unfoldable pub numbers : Text → List ℤ
unfolding split
numbers v = map (value_from (pos 0)) (split b'.' v)

compare_numbers-zero : (ys : List ℤ) → compare_numbers [] ys ≡ compare_numbers (pos 0 ∷ []) ys
compare_numbers-zero [] = refl
compare_numbers-zero (y ∷ ys) = refl

compare_numbers-zero_right : (xs : List ℤ) → compare_numbers xs [] ≡ compare_numbers xs (pos 0 ∷ [])
compare_numbers-zero_right [] = refl
compare_numbers-zero_right (x ∷ xs) = refl

-- What is read of a text: its first part, and whether a dot follows.
data Read (x : ℤ) (s : Text) (r : ℤ × Text) : Type 0 where
  last : (f : Text) → split b'.' s ≡ f ∷ [] → value_from x f ≡ r.0 → r.1 ≡ [] → Read x s r
  more : (f : Text) → split b'.' s ≡ f ∷ split b'.' r.1 → value_from x f ≡ r.0 → Read x s r

read_number-Read : (x : ℤ) (s : Text) → Read x s (read_number x s)
unfolding read_number split
read_number-Read x [] = last [] refl refl refl
read_number-Read x (c ∷ s) = elim (Bool-cases (c == b'.')) [
  | inl dot ↦ rw dot (more [] (rw dot) refl)
  | inr other ↦ elim (read_number-Read (to_int64 (x *ℤ pos 10 +ℤ digit c)) s) [
    | last f e v r ↦ rw other (last (c ∷ f) (rw (other, e)) v r)
    | more f e v ↦ rw other (more (c ∷ f) (rw (other, e)) v)
  ]
]

-- The first number of a text is the one read; the others are those of what stands behind it.
record FirstNumber (v : Text) (r : ℤ × Text) : Type 0 where
  rest : List ℤ
  first : numbers v ≡ r.0 ∷ rest
  left : (ys : List ℤ) → compare_numbers rest ys ≡ compare_numbers (numbers r.1) ys
  right : (xs : List ℤ) → compare_numbers xs rest ≡ compare_numbers xs (numbers r.1)

numbers-first : (v : Text) (r : ℤ × Text) → Read (pos 0) v r → FirstNumber v r
unfolding numbers
numbers-first v r (last f e x behind) = record {
  rest = [];
  first = rw (numbers, e, x) refl;
  left = λ ys. rw behind (compare_numbers-zero ys);
  right = λ xs. rw behind (compare_numbers-zero_right xs);
}
numbers-first v r (more f e x) = record {
  rest = numbers r.1;
  first = rw (numbers, e, x) refl;
  left = λ ys. refl;
  right = λ xs. refl;
}

length-read_number : (x : ℤ) (s : Text) → length (read_number x s).1 ≤ length s
unfolding read_number
length-read_number x [] = omega arith
length-read_number x (c ∷ s) =
    ground (arith, length-read_number (to_int64 (x *ℤ pos 10 +ℤ digit c)) s)

length-read_number_lt :
    (x : ℤ) (c : ℕ) (s : Text) → length (read_number x (c ∷ s)).1 < length (c ∷ s)
unfolding read_number
length-read_number_lt x c s =
    ground (arith, length-read_number (to_int64 (x *ℤ pos 10 +ℤ digit c)) s)

decide-some : (x y z : ℤ) → decide x y (some z) ≡ some (pick x y z)
decide-some x y z = ground arith

-- One round, where the rest is compared as its numbers are.
decide-numbers :
    (v w : Text) (rest : Option ℤ)
    → let r = read_number (pos 0) v in
      let q = read_number (pos 0) w in
      rest ≡ some (compare_numbers (numbers r.1) (numbers q.1))
      → decide r.0 q.0 rest ≡ some (compare_numbers (numbers v) (numbers w))
decide-numbers v w rest e =
    let r = read_number (pos 0) v in
    let q = read_number (pos 0) w in
    let n = numbers-first v r (read_number-Read (pos 0) v) in
    let k = numbers-first w q (read_number-Read (pos 0) w) in
    rw (e, n.first, k.first)
      (decide-some r.0 q.0 _
        ∙ ap (λ z. some (pick r.0 q.0 z)) (sym (n.left k.rest ∙ k.right (numbers r.1))))

compare_fuel-numbers :
    (f : ℕ) (v w : Text)
    → length v + length w < f
    → compare_fuel f v w ≡ some (compare_numbers (numbers v) (numbers w))
unfolding compare_fuel numbers
compare_fuel-numbers zero v w h = elim h [ ]
compare_fuel-numbers (suc f) [] [] h = refl
compare_fuel-numbers (suc f) [] (d ∷ t) h = decide-numbers [] (d ∷ t) _ (
    compare_fuel-numbers f _ _
      (omega (arith, length-read_number (pos 0) [], length-read_number_lt (pos 0) d t)))
compare_fuel-numbers (suc f) (c ∷ s) w h = decide-numbers (c ∷ s) w _ (
    compare_fuel-numbers f _ _
      (omega (arith, length-read_number (pos 0) w, length-read_number_lt (pos 0) c s)))

-- The loop of compareVersion ends on every pair of versions, and its answer is the order of their
-- numbers between the dots, from the first on, where a missing number counts as zero. A number is
-- what the code's own arithmetic makes of its characters, with the wrap-around of its integers.
pub compare_version-numbers :
    (v w : Text) → compare_version v w ≡ some (compare_numbers (numbers v) (numbers w))
unfolding compare_version
compare_version-numbers v w = compare_fuel-numbers (suc (length v + length w)) v w (omega arith)
