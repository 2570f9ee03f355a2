-- ===== src/Base/Counts.antt =====
-- How often a list holds a value. Two lists are permutations of one another exactly if they hold
-- every value equally often.
use Prim.Native.Nat.{ℕ, suc, ◌<◌}
use mathlib.Core.Path.{◌≡◌, refl, ◌∙◌}
use mathlib.Core.Logic.{∥∥₁_elim, if_pos, if_neg}
use mathlib.Core.List.{List, [], ◌∷◌, Perm, Permᴰ}
use mathlib.Core.List.Perm
use native.Mathlib.Omega.{arith}
use native.Mathlib.Nat.{ℕ_set}
use worker_operator.Base.Equality.{Eq, ◌==◌, if◌then◌else◌}
use worker_operator.Base.Lists.{length}

module _ {A : Type 0} ⦃e : Eq A⦄ where
  unfoldable pub count : A → List A → ℕ
  count a [] = 0
  count a (x ∷ xs) = if x == a then suc (count a xs) else count a xs

  unfoldable pub remove_one : A → List A → List A
  remove_one a [] = []
  remove_one a (x ∷ xs) = if x == a then xs else x ∷ remove_one a xs

  pub remove_one-perm : (a : A) (xs : List A) → 0 < count a xs → Perm xs (a ∷ remove_one a xs)
  unfolding count remove_one
  remove_one-perm a [] h = absurd (omega arith)
  remove_one-perm a (x ∷ xs) h = elim (e.dec x a) [
    | yes p ↦ rw (if_pos _ p) (rw p (Perm.refl _))
    | no n ↦
        rw (if_neg _ n)
          (Perm.trans (Perm.cons x (remove_one-perm a xs (rest n h))) (Perm.swap a x _))
  ]
    where
      rest : ¬ (x ≡ a) → 0 < count a (x ∷ xs) → 0 < count a xs
      rest n h = ground arith

  pub count-remove_one :
      (a b : A) (xs : List A) → 0 < count a xs → count b (a ∷ remove_one a xs) ≡ count b xs
  unfolding count remove_one
  count-remove_one a b [] h = absurd (omega arith)
  count-remove_one a b (x ∷ xs) h = ground (arith, count-remove_one a b xs)

  count-Permᴰ : (a : A) {xs ys : List A} → Permᴰ xs ys → count a xs ≡ count a ys
  unfolding count
  count-Permᴰ a Permᴰ.nil = refl
  count-Permᴰ a (Permᴰ.cons {a = x} {b = y} p q) = ground (arith, count-Permᴰ a q)
  count-Permᴰ a (Permᴰ.swap {a = x} {b = y} p q) = ground arith
  count-Permᴰ a (Permᴰ.trans p q) = count-Permᴰ a p ∙ count-Permᴰ a q

  pub count-Perm : (a : A) {xs ys : List A} → Perm xs ys → count a xs ≡ count a ys
  count-Perm a p = ∥∥₁_elim p (ℕ_set _ _) (count-Permᴰ a)

  pub perm_of_count : (xs ys : List A) → ((a : A) → count a xs ≡ count a ys) → Perm xs ys
  unfolding count
  perm_of_count [] [] h = Perm.refl []
  perm_of_count [] (y ∷ ys) h = absurd (ground (arith, h y))
  perm_of_count (x ∷ xs) ys h =
      let here : 0 < count x ys = ground (arith, h x) in
      Perm.trans
        (Perm.cons x (
          perm_of_count xs (remove_one x ys)
            λ a. ground (arith, h a, count-remove_one x a ys here)))
        (Perm.symm (remove_one-perm x ys here))

  pub length-Perm : (xs ys : List A) → Perm xs ys → length xs ≡ length ys
  length-Perm xs ys p = ∥∥₁_elim p (ℕ_set _ _) go
    where
      go : {xs ys : List A} → Permᴰ xs ys → length xs ≡ length ys
      go Permᴰ.nil = refl
      go (Permᴰ.cons p q) = omega (arith, go q)
      go (Permᴰ.swap p q) = refl
      go (Permᴰ.trans p q) = go p ∙ go q
