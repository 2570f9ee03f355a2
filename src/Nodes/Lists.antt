-- ===== src/Nodes/Lists.antt =====
-- `sameStringSlice` of pkg/cluster/node_reconciler.go, `ListContains` and `ListEqual` of
-- pkg/hub/utils.go.
use worker_operator.Base.{
  ℕ, ◌+◌, ◌-◌, String, Bool, true, false, none, some, List, [], ◌∷◌, ◌==◌, ◌/=◌, string_eq, nat_eq,
  if◌then◌else◌, Dict, lookup, insert, erase, get_or, length, Eq,
}

-- `diff[_x]++`
abbrev pub bump : String → Dict String ℕ → Dict String ℕ
bump x diff = insert x (get_or 0 (lookup x diff) + 1) diff

-- The first loop.
unfoldable pub tally : List String → Dict String ℕ → Dict String ℕ
tally [] diff = diff
tally (x ∷ xs) diff = tally xs (bump x diff)

-- `diff[_y] -= 1`, and `delete` at 0, where the count was `n`. Counts are positive.
abbrev pub drop_one : String → ℕ → Dict String ℕ → Dict String ℕ
drop_one y n diff = let less = insert y (n - 1) diff in if n - 1 == 0 then erase y less else less

abbrev pub is_empty {ℓ} : {A : Type ℓ} → List A → Bool
is_empty [] = true
is_empty (x ∷ xs) = false

-- The second loop and the last test.
unfoldable pub cancel : List String → Dict String ℕ → Bool
cancel [] diff = is_empty diff
cancel (y ∷ ys) diff = elim (lookup y diff) [
  | none ↦ false
  | some n ↦ cancel ys (drop_one y n diff)
]

unfoldable pub same_string_slice : List String → List String → Bool
unfolding tally cancel
same_string_slice x y = if length x /= length y then false else cancel y (tally x [])

module _ {A : Type 0} ⦃e : Eq A⦄ where
  unfoldable pub list_contains : List A → A → Bool
  list_contains [] v = false
  list_contains (x ∷ li) v = if x == v then true else list_contains li v

  -- The loop of `ListEqual`.
  unfoldable pub all_contained : List A → List A → Bool
  unfolding list_contains
  all_contained [] l2 = true
  all_contained (x ∷ l1) l2 = if list_contains l2 x then all_contained l1 l2 else false

  unfoldable pub list_equal : List A → List A → Bool
  unfolding all_contained
  list_equal l1 l2 = if length l1 /= length l2 then false else all_contained l1 l2
