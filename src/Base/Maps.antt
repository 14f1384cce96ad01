-- ===== src/Base/Maps.antt =====
-- `map[string]string`, which may be nil: `none` is the nil map, which can be read and not written.
use Prim.Native.String.{String}
use mathlib.Core.Path.{◌≡◌, refl}
use mathlib.Core.Option.{Option, none, some}
use mathlib.Core.List.{List, [], ◌∷◌}
use native.Mathlib.Omega.{arith}
use text.Mathlib.Text.{◌==◌}
use text.Mathlib.TextEquality.{eq_iff}
use keptn_gitops_operator.Base.Go.{if◌then◌else◌}

-- `v, ok := m[key]` on the entries of a map.
unfoldable pub lookup {ℓ} : {V : Type ℓ} → String → List (String × V) → Option V
lookup key [] = none
lookup key (entry ∷ entries) =
    let later = lookup key entries in if entry.0 == key then some entry.1 else later

-- `m[key] = v`: the entry is replaced in its place, or comes last.
unfoldable pub insert {ℓ} : {V : Type ℓ} → String → V → List (String × V) → List (String × V)
insert key v [] = (key, v) ∷ []
insert key v (entry ∷ entries) =
    let later = insert key v entries in if entry.0 == key then (key, v) ∷ entries else entry ∷ later

pub lookup-insert {ℓ} :
    {V : Type ℓ} (written read : String) (v : V) (entries : List (String × V))
    → lookup read (insert written v entries)
      ≡ (if written == read then some v else lookup read entries)
unfolding insert lookup
lookup-insert written read v [] = refl
lookup-insert written read v (entry ∷ entries) = ground (
  arith,
  lookup-insert written read v entries,
  eq_iff written read,
  eq_iff entry.0 read,
  eq_iff entry.0 written,
)

abbrev pub GoMap : Type 0
GoMap = Option (List (String × String))

abbrev pub or_empty : Option String → String
or_empty none = ""
or_empty (some s) = s

-- `m[k]`, the empty string where there is none.
abbrev pub index : GoMap → String → String
index none k = ""
index (some m) k = or_empty (lookup k m)
