-- ===== src/Webhook/Aliases.antt =====
-- `ValidateServiceExport` of pkg/webhook/pod/webhook.go and `aliasExist` of webhook_utils.go.
pub mod Unique
use Prim.Native.Char.{code}
use Prim.Native.String
use worker_operator.Base.{
  ℕ, String, Bool, true, false, ◌&&◌, Option, none, some, List, [], ◌∷◌, Result, ok, err, ◌==◌,
  string_eq, nat_eq, if◌then◌else◌,
}

-- The code points of a text under simple case folding, by a table of it.
unfoldable pub folded : (ℕ → ℕ) → String → List ℕ
folded fold String.[] = []
folded fold (String.◌∷◌ c s) = fold (code c) ∷ folded fold s

unfoldable pub equal_codes : List ℕ → List ℕ → Bool
equal_codes [] [] = true
equal_codes [] (y ∷ ys) = false
equal_codes (x ∷ xs) [] = false
equal_codes (x ∷ xs) (y ∷ ys) = if x == y then equal_codes xs ys else false

-- The fields of a service export that the webhook reads.
pub record Export : Type 0 where
  pub name : String
  pub namespace : String
  pub slice : String
  pub aliases : List String

-- An alias that the loop returns, or what the rest of the loop gives.
abbrev pub or_else : Option String → Option String → Option String
or_else none rest = rest
or_else (some a) rest = some a

module _ (fold : ℕ → ℕ) where
  -- `strings.EqualFold`
  unfoldable pub equal_fold : String → String → Bool
  unfolding folded equal_codes
  equal_fold s t = equal_codes (folded fold s) (folded fold t)

  unfoldable pub alias_exist : List String → String → Bool
  unfolding equal_fold
  alias_exist [] new_alias = false
  alias_exist (alias ∷ existing) new_alias =
      if equal_fold alias new_alias then true else alias_exist existing new_alias

  -- The inner loop: the first new alias that exists already.
  unfoldable pub conflicting_alias : List String → List String → Option String
  unfolding alias_exist
  conflicting_alias existing [] = none
  conflicting_alias existing (new_alias ∷ aliases) =
      if alias_exist existing new_alias then some new_alias else conflicting_alias existing aliases

  abbrev pub same_export : Export → Export → Bool
  same_export a b = (a.name == b.name) && (a.namespace == b.namespace)

  -- The outer loop: the alias that is refused.
  unfoldable pub first_conflict : Export → List Export → Option String
  unfolding conflicting_alias
  first_conflict svcex [] = none
  first_conflict svcex (e ∷ exports) =
      let rest = first_conflict svcex exports in
      if same_export svcex e then rest else or_else (conflicting_alias e.aliases svcex.aliases) rest

  -- `all_exports` is the answer to the list of the slice's service exports. An alias that is
  -- returned is the one refused.
  unfoldable pub validate_service_export :
      (String → Result (List Export)) → Export → Result (Option String)
  unfolding first_conflict
  validate_service_export all_exports svcex = elim (all_exports svcex.slice) [
    | err e ↦ err e
    | ok exports ↦ ok (first_conflict svcex exports)
  ]
