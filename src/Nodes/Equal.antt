-- ===== src/Nodes/Equal.antt =====
-- What `ListEqual` decides.
use worker_operator.Base.{
  ℕ, zero, suc, ◌≤◌, ◌<◌, true, List, [], ◌∷◌, nat_eq, length, Eq, count, remove_one,
  remove_one-perm, count-remove_one, count-Perm, length-Perm, ◌≡◌, ◌↔◌, refl, arith,
}
use mathlib.Core.List.{Perm}
use mathlib.Core.List.Perm
use worker_operator.Nodes.Lists.{list_contains, all_contained, list_equal}

module _ {A : Type 0} ⦃e : Eq A⦄ where
  list_contains-count : (li : List A) (v : A) → (list_contains li v ≡ true) ↔ (0 < count v li)
  unfolding list_contains count
  list_contains-count [] v = ground arith
  list_contains-count (x ∷ li) v = ground (arith, list_contains-count li v)

  all_contained-count :
      (l1 l2 : List A) → (all_contained l1 l2 ≡ true) ↔ ((v : A) → 0 < count v l1 → 0 < count v l2)
  unfolding all_contained count
  all_contained-count [] l2 = (λ _ v h. absurd (omega arith), λ _. refl)
  all_contained-count (x ∷ l1) l2 = (
    λ c v h.
        ground (arith, list_contains-count l2 x, (all_contained-count l1 l2).0 (ground arith) v),
    λ h. ground (
      arith,
      list_contains-count l2 x,
      h x,
      (all_contained-count l1 l2).1 (λ v k. h v (ground arith)),
    ),
  )

  -- A list without repetitions whose values all occur in a list as long as it.
  perm_of_subset :
      (l1 l2 : List A)
      → length l1 ≡ length l2
      → ((v : A) → count v l1 ≤ 1)
      → ((v : A) → 0 < count v l1 → 0 < count v l2)
      → Perm l1 l2
  unfolding count
  perm_of_subset [] [] l d h = Perm.refl []
  perm_of_subset [] (y ∷ ys) l d h = absurd (omega arith)
  perm_of_subset (x ∷ xs) ys l d h =
      let here : 0 < count x ys = ground (arith, h x) in
      let p = remove_one-perm x ys here in
      Perm.trans
        (Perm.cons x (
          perm_of_subset xs (remove_one x ys) (omega (arith, length-Perm _ _ p))
            (λ v. ground (arith, d v))
            (λ v k. ground (arith, d v, d x, h v, count-remove_one x v ys here))))
        (Perm.symm p)

  -- Of a list without repetitions `ListEqual` holds exactly with its permutations.
  pub list_equal_of_distinct :
      (l1 l2 : List A) → ((v : A) → count v l1 ≤ 1) → (list_equal l1 l2 ≡ true) ↔ Perm l1 l2
  unfolding list_equal
  list_equal_of_distinct l1 l2 d = (
    λ h. perm_of_subset l1 l2 (ground arith) d ((all_contained-count l1 l2).0 (ground arith)),
    λ p. ground (
      arith,
      length-Perm l1 l2 p,
      (all_contained-count l1 l2).1 (λ v k. ground (arith, count-Perm v p, k)),
    ),
  )

  abbrev pub replicate : ℕ → A → List A
  replicate zero a = []
  replicate (suc n) a = a ∷ replicate n a

  length-replicate : (n : ℕ) (a : A) → length (replicate n a) ≡ n
  length-replicate zero a = omega arith
  length-replicate (suc n) a = omega (arith, length-replicate n a)

  all_contained-replicate :
      (n : ℕ) (a : A) (l2 : List A)
      → list_contains l2 a ≡ true
      → all_contained (replicate n a) l2 ≡ true
  unfolding all_contained
  all_contained-replicate zero a l2 h = refl
  all_contained-replicate (suc n) a l2 h = ground (arith, all_contained-replicate n a l2 h)

  -- With repetitions it holds of lists that are no permutations of one another: a value of any
  -- list, repeated as often as that list is long, passes as equal to it.
  pub list_equal-replicate :
      (a : A) (l2 : List A)
      → list_contains l2 a ≡ true
      → list_equal (replicate (length l2) a) l2 ≡ true
  unfolding list_equal
  list_equal-replicate a l2 h =
      ground (arith, length-replicate (length l2) a, all_contained-replicate (length l2) a l2 h)
