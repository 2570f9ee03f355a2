-- ===== src/Rotation/Writes/History.antt =====
-- What the changes of a rotation keep.
use worker_operator.Base.{
  ℕ, zero, suc, ◌≤◌, String, false, none, List, [], ◌∷◌, ◌≡◌, refl, sym, subst, lookup, erase,
  or_empty, get_or, lookup-insert, lookup-erase, contains, string_eq, nat_eq, if◌then◌else◌, length,
  take, Dict, arith,
}
use worker_operator.Rotation.Calls.{Rotation, VpnKeyRotation, Env}
use worker_operator.Rotation.Status.{array_difference, prepend_history, with_history, erase_all}
use worker_operator.Rotation.Writes.{Moves, restated, stamped, synced}

abbrev pub history_of : String → VpnKeyRotation → List Rotation
history_of gw r = get_or [] (lookup gw (or_empty r.status_history))

abbrev pub IsBounded : VpnKeyRotation → Type 0
IsBounded r = (gw : String) → length (history_of gw r) ≤ 5

length-take : {A : Type 0} (n : ℕ) (xs : List A) → length (take n xs) ≤ n
length-take zero xs = omega arith
length-take (suc n) [] = omega arith
length-take (suc n) (x ∷ xs) = omega (arith, length-take n xs)

length-prepend_history :
    (s : Rotation) (history : List Rotation) → length (prepend_history s history) ≤ 5
unfolding prepend_history
length-prepend_history s history = ground (arith, length-take 5 (s ∷ history))

with_history-IsBounded :
    (gw : String) (s : Rotation) (r : VpnKeyRotation)
    → IsBounded r
    → IsBounded (with_history gw s r)
unfolding with_history
with_history-IsBounded gw s r b g = ground (
  arith,
  b g,
  lookup-insert g gw (prepend_history s (history_of gw r)) (or_empty r.status_history),
  length-prepend_history s (history_of gw r),
)

-- No change of a rotation that the controller writes makes the history of a gateway longer than
-- five entries.
pub Moves-IsBounded : (E : Env) (r r' : VpnKeyRotation) → Moves E r r' → IsBounded r → IsBounded r'
Moves-IsBounded E r r' (restated gw status old e p) b g = rw p (b g)
Moves-IsBounded E r r' (stamped gw s p) b g = rw p (with_history-IsBounded gw s _ b g)
Moves-IsBounded E r r' (synced d p) b g = subst (λ x. length (history_of g x) ≤ 5) (sym p) (b g)

pub lookup-erase_all :
    (keys : List String) (key : String) (current : Dict String Rotation)
    → lookup key (erase_all keys current) ≡ (if contains keys key then none else lookup key current)
unfolding erase_all
lookup-erase_all [] key current = refl
lookup-erase_all (k ∷ keys) key current =
    ground (arith, lookup-erase_all keys key (erase k current), lookup-erase key k current)

-- `arrayDifference` holds what occurs in its second list and not in its first one.
pub contains-array_difference :
    (arr1 arr2 : List String) (x : String)
    → contains (array_difference arr1 arr2) x ≡ (if contains arr1 x then false else contains arr2 x)
unfolding array_difference
contains-array_difference arr1 [] x = ground arith
contains-array_difference arr1 (y ∷ arr2) x = ground (arith, contains-array_difference arr1 arr2 x)
