-- ===== src/Base/Go.antt =====
-- Go's `error` values, the `(value, error)` pairs, panics, and the conditional.
use Prim.Native.Nat.{ℕ, compare, Ordering, suc}
use Prim.Native.String.{String}
use mathlib.Core.Path.{◌≡◌, refl}
use mathlib.Core.Logic.{◌⊎◌, inl, inr}
use mathlib.Core.Bool.{Bool, true, false}
use mathlib.Core.List.{List, [], ◌∷◌}

-- A non-nil `error`. `not_found` is one that `errors.IsNotFound` recognises.
pub data GoError : Type 0 where
  not_found : String → GoError
  failed : String → GoError

-- `err.Error()`
abbrev pub error_text : GoError → String
error_text (not_found s) = s
error_text (failed s) = s

-- The result `(a, nil)` or `(_, err)` of a Go function.
pub data Reply (A : Type 0) : Type 0 where
  value : A → Reply A
  error : GoError → Reply A

-- How a function ends that does not return: its goroutine panics, or the process exits.
pub data Ending : Type 0 where
  panicking : String → Ending
  exiting : String → Ending

pub data Outcome (A : Type 0) : Type 0 where
  returned : A → Outcome A
  ended : Ending → Outcome A

abbrev pub panicked : {A : Type 0} → String → Outcome A
panicked message = ended (panicking message)

infix 1 if◌then◌else◌
abbrev pub if◌then◌else◌ {ℓ} : {A : Type ℓ} → Bool → A → A → A
if true then x else y = x
if false then x else y = y

abbrev pub ltb : ℕ → ℕ → Bool
ltb a b = elim (compare a b) [ Ordering.lt ↦ true | _ ↦ false ]

abbrev pub leb : ℕ → ℕ → Bool
leb a b = elim (compare a b) [ Ordering.gt ↦ false | _ ↦ true ]

abbrev pub eqb : ℕ → ℕ → Bool
eqb a b = elim (compare a b) [ Ordering.eq ↦ true | _ ↦ false ]

-- To split on a computed value and keep the equation.
pub Bool-cases : (b : Bool) → (b ≡ true) ⊎ (b ≡ false)
Bool-cases true = inl refl
Bool-cases false = inr refl

pub Reply-cases :
    {A : Type 0} (r : Reply A) → ((a : A) × (r ≡ value a)) ⊎ ((e : GoError) × (r ≡ error e))
Reply-cases (value a) = inl (a, refl)
Reply-cases (error e) = inr (e, refl)

module _ {ℓ} {A : Type ℓ} where
  abbrev pub length : List A → ℕ
  length [] = 0
  length (x ∷ xs) = suc (length xs)
