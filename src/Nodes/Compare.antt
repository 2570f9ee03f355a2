-- ===== src/Nodes/Compare.antt =====
-- What the comparisons of lists decide.
use worker_operator.Base.{
  ℕ, ◌+◌, ◌-◌, String, true, none, some, List, [], ◌∷◌, ◌==◌, string_eq, nat_eq, if◌then◌else◌,
  Dict, lookup, insert, get_or, lookup-insert, lookup-erase, count, perm_of_count, count-Perm,
  length-Perm, ◌≡◌, ◌≢◌, ◌↔◌, refl, arith, Option-cases, inl, inr,
}
use mathlib.Core.List.{Perm}
use worker_operator.Nodes.Lists.{bump, tally, drop_one, is_empty, cancel, same_string_slice}

abbrev held : Dict String ℕ → String → ℕ
held diff k = get_or 0 (lookup k diff)

abbrev Positive : Dict String ℕ → Type 0
Positive diff = (k : String) → lookup k diff ≢ some 0

tally-held :
    (xs : List String) (diff : Dict String ℕ) (k : String)
    → held (tally xs diff) k ≡ held diff k + count k xs
unfolding tally count
tally-held [] diff k = omega arith
tally-held (x ∷ xs) diff k =
    ground
      (arith, tally-held xs (bump x diff) k, lookup-insert k x (get_or 0 (lookup x diff) + 1) diff)

tally-Positive :
    (xs : List String) (diff : Dict String ℕ) → Positive diff → Positive (tally xs diff)
unfolding tally
tally-Positive [] diff p = p
tally-Positive (x ∷ xs) diff p =
    tally-Positive xs (bump x diff)
      λ k e. ground (arith, e, p k, lookup-insert k x (get_or 0 (lookup x diff) + 1) diff)

lookup-drop_one :
    (y k : String) (n : ℕ) (diff : Dict String ℕ)
    → lookup k (drop_one y n diff)
      ≡ (if y == k then (if n - 1 == 0 then none else some (n - 1)) else lookup k diff)
unfolding nat_eq
lookup-drop_one y k n diff =
    ground (arith, lookup-insert k y (n - 1) diff, lookup-erase k y (insert y (n - 1) diff))

-- Only the empty map holds nothing.
is_empty-held :
    (diff : Dict String ℕ)
    → Positive diff
    → (is_empty diff ≡ true) ↔ ((k : String) → held diff k ≡ 0)
unfolding lookup
is_empty-held [] p = (λ _ k. refl, λ _. refl)
is_empty-held ((j, n) ∷ diff) p = (λ e. cc, λ h. ground (arith, h j, p j))

drop_one-Positive :
    (y : String) (n : ℕ) (diff : Dict String ℕ) → Positive diff → Positive (drop_one y n diff)
drop_one-Positive y n diff p k e = ground (arith, e, p k, lookup-drop_one y k n diff)

cancel-held :
    (ys : List String) (diff : Dict String ℕ)
    → Positive diff
    → (cancel ys diff ≡ true) ↔ ((k : String) → held diff k ≡ count k ys)
unfolding cancel count
cancel-held [] diff p = is_empty-held diff p
cancel-held (y ∷ ys) diff p = elim (Option-cases (lookup y diff)) [
  | inl e ↦ rw (e, cancel) (λ x. cc, λ h. absurd (ground (arith, h y, e)))
  | inr (n, e) ↦
      let less = cancel-held ys (drop_one y n diff) (drop_one-Positive y n diff p) in
      rw (e, cancel)
        (
          λ c k. ground (arith, less.0 c k, lookup-drop_one y k n diff, p y, e),
          λ h. less.1 (λ k. ground (arith, h k, h y, lookup-drop_one y k n diff, p y, e)),
        )
]

cancel-tally :
    (x y : List String) → (cancel y (tally x []) ≡ true) ↔ ((k : String) → count k x ≡ count k y)
unfolding lookup
cancel-tally x y =
    let c = cancel-held y (tally x []) (tally-Positive x [] (λ k e. cc)) in
    (
      λ e k. ground (arith, c.0 e k, tally-held x [] k),
      λ h. c.1 (λ k. ground (arith, h k, tally-held x [] k)),
    )

-- `sameStringSlice` holds exactly if each list is a permutation of the other one.
pub same_string_slice-Perm : (x y : List String) → (same_string_slice x y ≡ true) ↔ Perm x y
unfolding same_string_slice
same_string_slice-Perm x y = (
  λ e. perm_of_count x y ((cancel-tally x y).0 (ground arith)),
  λ p. ground (arith, length-Perm x y p, (cancel-tally x y).1 (λ k. count-Perm k p)),
)
