-- ===== src/Base/Text.antt =====
-- The functions of Go's `strings` package that the operator calls.
use Prim.Native.Nat.{ℕ}
use Prim.Native.Char.{Char, code}
use Prim.Native.String.{String, ◌++◌ as ◌<>◌}
use mathlib.Core.Path.{◌≡◌, refl, ap, sym, ◌∙◌}
use mathlib.Core.Logic.{◌≢◌}
use mathlib.Core.Bool.{Bool, true, false}
use mathlib.Core.Option.{Option, none, some}
use mathlib.Core.List.{List, [], ◌∷◌, ◌++◌}
use native.Mathlib.Omega.{arith}
use text.Mathlib.TextEquality.{Char-path}
use text.Mathlib.TextLemmas.{nil-append, cons-append}
use worker_operator.Base.Equality.{◌==◌, nat_eq, string_eq, if◌then◌else◌}

-- The byte of `-`.
abbrev pub dash : ℕ
dash = b'-'

abbrev pub push : Char → List String → List String
push c [] = (String.◌∷◌ c String.[]) ∷ []
push c (w ∷ ws) = (String.◌∷◌ c w) ∷ ws

-- `strings.Split(s, sep)` for a separator of one byte.
unfoldable pub split : ℕ → String → List String
split sep String.[] = String.[] ∷ []
split sep (String.◌∷◌ c s) =
    let rest = split sep s in if code c == sep then String.[] ∷ rest else push c rest

-- `strings.Join(l, sep)`
unfoldable pub join : String → List String → String
join sep [] = String.[]
join sep (w ∷ []) = w
join sep (w ∷ v ∷ ws) = w <> (sep <> join sep (v ∷ ws))

-- `strings.CutPrefix(s, prefix)`; `none` where the prefix is not found.
unfoldable pub cut_prefix : String → String → Option String
cut_prefix s String.[] = some s
cut_prefix String.[] (String.◌∷◌ d p) = none
cut_prefix (String.◌∷◌ c s) (String.◌∷◌ d p) = if code c == code d then cut_prefix s p else none

unfoldable pub has_byte : ℕ → String → Bool
has_byte sep String.[] = false
has_byte sep (String.◌∷◌ c s) = if code c == sep then true else has_byte sep s

pub push-append : (c : Char) (xs ys : List String) → xs ≢ [] → push c (xs ++ ys) ≡ push c xs ++ ys
push-append c [] ys h = absurd (h refl)
push-append c (x ∷ xs) ys h = refl

push-ne-nil : (c : Char) (xs : List String) → push c xs ≢ []
push-ne-nil c [] e = cc
push-ne-nil c (x ∷ xs) e = cc

pub split-ne-nil : (sep : ℕ) (s : String) → split sep s ≢ []
unfolding split
split-ne-nil sep String.[] e = cc
split-ne-nil sep (String.◌∷◌ c s) e = ground (arith, e, push-ne-nil c (split sep s))

-- The words of two texts with a dash between them.
pub split-append : (s d : String) → split dash (s <> ("-" <> d)) ≡ split dash s ++ split dash d
unfolding split nat_eq
split-append String.[] d = rw (nil-append, cons-append, nil-append)
split-append (String.◌∷◌ c s) d =
    rw (cons-append c s ("-" <> d), split)
      (ground
        (arith, split-append s d, push-append c (split dash s) (split dash d), split-ne-nil dash s))

pub split-of_no_dash : (d : String) → has_byte dash d ≡ false → split dash d ≡ d ∷ []
unfolding split has_byte
split-of_no_dash String.[] h = refl
split-of_no_dash (String.◌∷◌ c s) h = ground (arith, split-of_no_dash s)

join-cons : (xs : List String) → xs ≢ [] → join "-" ("" ∷ xs) ≡ "-" <> join "-" xs
unfolding join
join-cons [] h = absurd (h refl)
join-cons (x ∷ xs) h = rw nil-append

join-push :
    (c : Char) (xs : List String) → xs ≢ [] → join "-" (push c xs) ≡ String.◌∷◌ c (join "-" xs)
unfolding join
join-push c [] h = absurd (h refl)
join-push c (x ∷ []) h = refl
join-push c (x ∷ y ∷ xs) h = rw (cons-append c x ("-" <> join "-" (y ∷ xs)))

append-ne-nil : (xs : List String) (x : String) → xs ++ x ∷ [] ≢ []
append-ne-nil [] x e = cc
append-ne-nil (y ∷ ys) x e = cc

-- Splitting at dashes and joining again, with one more word at the end.
pub join-split-append : (s x : String) → join "-" (split dash s ++ x ∷ []) ≡ s <> ("-" <> x)
unfolding split join
join-split-append String.[] x = refl
join-split-append (String.◌∷◌ c s) x = ground (
  arith,
  cons-append c s ("-" <> x),
  cons-append "-" "" (s <> ("-" <> x)),
  nil-append (s <> ("-" <> x)),
  join-split-append s x,
  join-cons (split dash s ++ x ∷ []) (append-ne-nil (split dash s) x),
  join-push c (split dash s ++ x ∷ []) (append-ne-nil (split dash s) x),
  push-append c (split dash s) (x ∷ []) (split-ne-nil dash s),
  Char-path c "-",
)

abbrev found : {A : Type 0} → Option A → Bool
found none = false
found (some a) = true

-- `strings.Contains(s, sub)`, with the arguments the other way round.
unfoldable pub infix_of : String → String → Bool
unfolding cut_prefix
infix_of sub String.[] = found (cut_prefix String.[] sub)
infix_of sub (String.◌∷◌ c s) =
    let rest = infix_of sub s in if found (cut_prefix (String.◌∷◌ c s) sub) then true else rest

-- `strings.HasSuffix(s, suffix)`, with the arguments the other way round.
unfoldable pub suffix_of : String → String → Bool
suffix_of suffix String.[] = String.[] == suffix
suffix_of suffix (String.◌∷◌ c s) =
    let rest = suffix_of suffix s in if String.◌∷◌ c s == suffix then true else rest

pub cut_prefix-append : (p s : String) → cut_prefix (p <> s) p ≡ some s
unfolding cut_prefix
cut_prefix-append String.[] s = rw (nil-append s) refl
cut_prefix-append (String.◌∷◌ c p) s =
    rw (cons-append c p s, cut_prefix) (ground (arith, cut_prefix-append p s))

-- The words of a text that begins with a dash.
pub split-dash : (x : String) → split dash ("-" <> x) ≡ "" ∷ split dash x
unfolding split
split-dash x = ap (split dash) (sym (nil-append ("-" <> x))) ∙ split-append "" x

is_nonempty : String → Bool
is_nonempty String.[] = false
is_nonempty (String.◌∷◌ c s) = true

cons-ne-nil : (c : Char) (s : String) → String.◌∷◌ c s ≢ ""
unfolding is_nonempty
cons-ne-nil c s e = let p : true ≡ false = ap is_nonempty e in cc

is_empty-cons : (c : Char) (s : String) → (String.◌∷◌ c s == "") ≡ false
is_empty-cons c s = ground (arith, cons-ne-nil c s)

pub append-is_empty : (p s : String) → p ≢ "" → ((p <> s) == "") ≡ false
append-is_empty String.[] s h = absurd (h refl)
append-is_empty (String.◌∷◌ c p) s h = rw (cons-append c p s) (is_empty-cons c (p <> s))
