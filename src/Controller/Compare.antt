-- ===== src/Controller/Compare.antt =====
-- service/controller/controller.go, compareUserList: the users that a new list drops and adds. Go
-- compares the users as structs, which `Eq` stands for.
use center_agent.Prelude.{
  ℕ, ◌≡◌, refl, ◌∙◌, inl, inr, false, not, ◌&&◌, ◌||◌, List, [], ◌∷◌, ◌++◌, arith, Eq, ==_iff,
  nat_beq, ltb, if◌then◌else◌, length, contains, count, contains-append, Bool-cases,
}
use center_agent.Prelude.Maps.{
  Map, load, store, delete, has, has-store, has-delete, length-store, load-nil,
}

module _ {ℓ} {A : Type ℓ} ⦃e : Eq A⦄ where
  -- Step 1: the index of the old list
  index : List A → Map A ℕ → Map A ℕ
  index [] m = m
  index (v ∷ vs) m = index vs (store v 0 m)

  -- Step 2: the new users go in, and those that did not make the map longer are kept aside.
  merge : List A → Map A ℕ → List A → Map A ℕ × List A
  merge [] all set = (all, set)
  merge (v ∷ vs) all set =
      let more = store v 1 all in
      merge vs more (if nat_beq (length all) (length more) then set ++ (v ∷ []) else set)

  -- Step 3
  delete_each : List A → Map A ℕ → Map A ℕ
  delete_each [] m = m
  delete_each (v ∷ vs) m = delete_each vs (delete v m)

  -- Step 4: the users that are left, by whether the old list has them
  sort_out : Map A ℕ → Map A ℕ → List A × List A
  sort_out src [] = ([], [])
  sort_out src ((v, _) ∷ m) =
      let (deleted, added) = sort_out src m in
      if has v src then (v ∷ deleted, added) else (deleted, v ∷ added)

  unfoldable pub compare_user_list : List A → List A → List A × List A
  unfolding index merge delete_each sort_out
  compare_user_list old new =
      let src = index old [] in
      let (all, set) = merge new src [] in sort_out src (delete_each set all)

  has-index : (vs : List A) (m : Map A ℕ) (a : A) → has a (index vs m) ≡ (contains vs a || has a m)
  unfolding index
  has-index [] m a = refl
  has-index (v ∷ vs) m a = ground (arith, has-index vs (store v 0 m) a, has-store v a 0 m)

  has-merge :
      (vs : List A) (all : Map A ℕ) (set : List A) (a : A)
      → has a (merge vs all set).0 ≡ (contains vs a || has a all)
  unfolding merge
  has-merge [] all set a = refl
  has-merge (v ∷ vs) all set a = ground (
    arith,
    has-merge vs (store v 1 all)
        (if nat_beq (length all) (length (store v 1 all)) then set ++ (v ∷ []) else set) a,
    has-store v a 1 all,
  )

  count-contains : (vs : List A) (a : A) → contains vs a ≡ ltb 0 (count a vs)
  count-contains [] a = refl
  count-contains (v ∷ vs) a = ground (arith, count-contains vs a)

  contains-merge :
      (vs : List A) (all : Map A ℕ) (set : List A) (a : A)
      → contains (merge vs all set).1 a
        ≡ (contains set a || (contains vs a && has a all || ltb 1 (count a vs)))
  unfolding merge
  contains-merge [] all set a = ground arith
  contains-merge (v ∷ vs) all set a = elim (Bool-cases (has v all)) [
    | inl old ↦ ground (
      arith,
      contains-merge vs (store v 1 all) (set ++ (v ∷ [])) a,
      has-store v a 1 all,
      length-store v 1 all,
      contains-append set (v ∷ []) a,
      ==_iff a v,
      count-contains vs a,
    )
    | inr new ↦ ground (
      arith,
      contains-merge vs (store v 1 all) set a,
      has-store v a 1 all,
      length-store v 1 all,
      ==_iff a v,
      count-contains vs a,
    )
  ]

  has-delete_each :
      (vs : List A) (m : Map A ℕ) (a : A)
      → has a (delete_each vs m) ≡ (not (contains vs a) && has a m)
  unfolding delete_each
  has-delete_each [] m a = refl
  has-delete_each (v ∷ vs) m a = ground (arith, has-delete_each vs (delete v m) a, has-delete v a m)

  contains-sort_out :
      (src m : Map A ℕ) (a : A)
      → (contains (sort_out src m).0 a ≡ (has a m && has a src))
        × (contains (sort_out src m).1 a ≡ (has a m && not (has a src)))
  unfolding sort_out load
  contains-sort_out src [] a = (refl, refl)
  contains-sort_out src ((v, n) ∷ m) a =
      let (p, q) = contains-sort_out src m a in
      (ground (arith, p, ==_iff a v), ground (arith, q, ==_iff a v))

  -- A user is reported as deleted exactly when the old list has it and the new one does not, and as
  -- added exactly when the old list does not have it and the new one has it once. (A user that the
  -- new list names twice is in neither result.)
  pub contains-compare_user_list :
      (old new : List A) (a : A)
      → (contains (compare_user_list old new).0 a ≡ (contains old a && not (contains new a)))
        × (contains (compare_user_list old new).1 a
            ≡ (not (contains old a) && nat_beq (count a new) 1))
  unfolding compare_user_list
  contains-compare_user_list old new a =
      let src = index old [] in
      let (p, q) =
        contains-sort_out src (delete_each (merge new src []).1 (merge new src []).0) a in
      let d = has-delete_each (merge new src []).1 (merge new src []).0 a in
      (
        p
            ∙ ground (
              arith,
              d,
              has-merge new src [] a,
              contains-merge new src [] a,
              has-index old [] a,
              load-nil {V = ℕ} a,
              count-contains new a,
            ),
        q
            ∙ ground (
              arith,
              d,
              has-merge new src [] a,
              contains-merge new src [] a,
              has-index old [] a,
              load-nil {V = ℕ} a,
              count-contains new a,
            ),
      )

  nil_of_contains : (xs : List A) → ((a : A) → contains xs a ≡ false) → xs ≡ []
  nil_of_contains [] h = refl
  nil_of_contains (x ∷ xs) h = ground (arith, h x, (==_iff x x).1 refl)

  -- A list against itself drops and adds nobody.
  pub compare_user_list_self : (us : List A) → compare_user_list us us ≡ ([], [])
  compare_user_list_self us =
      let none_deleted : (compare_user_list us us).0 ≡ [] =
        nil_of_contains (compare_user_list us us).0
          (λ a. let h = contains-compare_user_list us us a in ground (arith, h.0)) in
      let none_added : (compare_user_list us us).1 ≡ [] =
        nil_of_contains (compare_user_list us us).1 (λ a.
          let h = contains-compare_user_list us us a in ground (arith, h.1, count-contains us a)) in
      ground (arith, none_deleted, none_added)
