-- ===== src/Base/Words.antt =====
-- The words of a text with commas between them, split and joined again.
use Prim.Native.Nat.{ℕ}
use Prim.Native.Char.{Char}
use Prim.Native.String.{String, ◌++◌ as ◌<>◌}
use mathlib.Core.Path.{◌≡◌, refl}
use mathlib.Core.Logic.{◌≢◌}
use mathlib.Core.Bool.{false}
use mathlib.Core.List.{List, [], ◌∷◌, ◌++◌}
use native.Mathlib.Omega.{arith}
use text.Mathlib.TextEquality.{Char-path}
use text.Mathlib.TextLemmas.{nil-append, cons-append}
use worker_operator.Base.Equality.{nat_eq, string_eq}
use worker_operator.Base.Text.{split, join, push, has_byte, push-append, split-ne-nil}

-- The byte `,`.
abbrev pub comma : ℕ
comma = b','

pub split-comma-append :
    (s d : String) → split comma (s <> ("," <> d)) ≡ split comma s ++ split comma d
unfolding split nat_eq
split-comma-append String.[] d = rw (nil-append, cons-append, nil-append)
split-comma-append (String.◌∷◌ c s) d =
    rw (cons-append c s ("," <> d), split)
      (ground (
        arith,
        split-comma-append s d,
        push-append c (split comma s) (split comma d),
        split-ne-nil comma s,
      ))

pub split-of_no_comma : (d : String) → has_byte comma d ≡ false → split comma d ≡ d ∷ []
unfolding split has_byte
split-of_no_comma String.[] h = refl
split-of_no_comma (String.◌∷◌ c s) h = ground (arith, split-of_no_comma s)

join-cons : (xs : List String) → xs ≢ [] → join "," ("" ∷ xs) ≡ "," <> join "," xs
unfolding join
join-cons [] h = absurd (h refl)
join-cons (x ∷ xs) h = rw nil-append

join-push :
    (c : Char) (xs : List String) → xs ≢ [] → join "," (push c xs) ≡ String.◌∷◌ c (join "," xs)
unfolding join
join-push c [] h = absurd (h refl)
join-push c (x ∷ []) h = refl
join-push c (x ∷ y ∷ xs) h = rw (cons-append c x ("," <> join "," (y ∷ xs)))

-- Splitting at commas and joining again.
pub join-split-comma : (s : String) → join "," (split comma s) ≡ s
unfolding split join
join-split-comma String.[] = refl
join-split-comma (String.◌∷◌ c s) = ground (
  arith,
  cons-append "," "" s,
  nil-append s,
  join-split-comma s,
  join-cons (split comma s) (split-ne-nil comma s),
  join-push c (split comma s) (split-ne-nil comma s),
  Char-path c ",",
)
