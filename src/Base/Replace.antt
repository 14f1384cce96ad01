-- ===== src/Base/Replace.antt =====
-- strings.Index and bytes.Replace of Go's standard library, as the promotion service uses them.
use Prim.Native.Nat.{ℕ, zero, suc}
use Prim.Native.Char.{Char, code}
use Prim.Native.String.{String, ◌++◌ as ◌<>◌}
use mathlib.Core.Path.{◌≡◌, refl}
use mathlib.Core.Option.{Option, none, some}
use keptn_gitops_operator.Base.Go.{if◌then◌else◌, eqb}

-- The text after a prefix, if it is one.
unfoldable pub strip : String → String → Option String
strip String.[] s = some s
strip (String.◌∷◌ c p) String.[] = none
strip (String.◌∷◌ c p) (String.◌∷◌ d s) =
    let rest = strip p s in if eqb (code c) (code d) then rest else none

abbrev first_of : Option String → Option String → Option String
first_of (some s) other = some s
first_of none other = other

-- `s[strings.Index(s, needle) + len(needle):]`, or `none` where the index is negative.
unfoldable pub after_first : String → String → Option String
unfolding strip
after_first needle String.[] = strip needle ""
after_first needle (String.◌∷◌ c s) =
    let later = after_first needle s in first_of (strip needle (String.◌∷◌ c s)) later

abbrev pub text_length : String → ℕ
text_length String.[] = 0
text_length (String.◌∷◌ c s) = suc (text_length s)

abbrev replace_at : Option String → Char → String → String → String
replace_at (some rest) c new tail = new <> tail
replace_at none c new tail = String.◌∷◌ c tail

abbrev skip_after : Option String → String → ℕ
skip_after (some rest) String.[] = 0
skip_after (some rest) (String.◌∷◌ c old) = text_length old
skip_after none old = 0

-- The first argument is how many characters of the last occurrence are left.
unfoldable pub replace_from : ℕ → String → String → String → String
unfolding strip
replace_from n old new String.[] = ""
replace_from (suc n) old new (String.◌∷◌ c s) = replace_from n old new s
replace_from zero old new (String.◌∷◌ c s) =
    let here = strip old (String.◌∷◌ c s) in
    replace_at here c new (replace_from (skip_after here old) old new s)

-- bytes.Replace(s, old, new, -1), for an `old` that is not empty.
unfoldable pub replace_all : String → String → String → String
unfolding replace_from
replace_all s old new = replace_from 0 old new s

replace_runs : replace_all "ab{{x}}c{{x}}" "{{x}}" "12" ≡ "ab12c12"
unfolding replace_all replace_from strip
replace_runs = refl

after_runs : after_first "web" "/tmp/x/base/web/helm/web/a" ≡ some "/helm/web/a"
unfolding after_first strip
after_runs = refl
