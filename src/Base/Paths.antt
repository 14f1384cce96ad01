-- ===== src/Base/Paths.antt =====
-- path/filepath of Go's standard library, on texts, for slash-separated paths: Clean, Join and Ext.
use Prim.Native.Char.{Char, code}
use Prim.Native.String.{String, ◌++◌ as ◌<>◌}
use mathlib.Core.Path.{◌≡◌, refl}
use mathlib.Core.Bool.{Bool, true, false}
use mathlib.Core.List.{List, [], ◌∷◌}
use text.Mathlib.Text.{◌==◌}
use keptn_gitops_operator.Base.Go.{if◌then◌else◌, eqb}

abbrev onto_first : Char → List String → List String
onto_first c [] = String.◌∷◌ c "" ∷ []
onto_first c (s ∷ ss) = String.◌∷◌ c s ∷ ss

-- The parts between the slashes.
unfoldable pub elements : String → List String
elements String.[] = "" ∷ []
elements (String.◌∷◌ c s) =
    let rest = elements s in if eqb (code c) b'/' then "" ∷ rest else onto_first c rest

abbrev pub is_rooted : String → Bool
is_rooted String.[] = false
is_rooted (String.◌∷◌ c s) = eqb (code c) b'/'

-- What ".." does to the elements so far, the last one first.
abbrev up : Bool → List String → List String
up true [] = []
up false [] = ".." ∷ []
up rooted (e ∷ es) = if e == ".." then ".." ∷ (e ∷ es) else es

abbrev add_element : Bool → String → List String → List String
add_element rooted e done =
    if e == ""
    then done
    else if e == "."
    then done
    else if e == ".."
    then up rooted done
    else e ∷ done

unfoldable pub reduce : Bool → List String → List String → List String
reduce rooted done [] = done
reduce rooted done (e ∷ es) = reduce rooted (add_element rooted e done) es

-- The elements with slashes between them, from the last one first.
abbrev joined : List String → String → String
joined [] path = path
joined (e ∷ es) path = joined es (e <> ("/" <> path))

abbrev relative : List String → String
relative [] = "."
relative (e ∷ es) = joined es e

abbrev absolute : List String → String
absolute [] = "/"
absolute (e ∷ es) = "/" <> joined es e

-- filepath.Clean
unfoldable pub clean : String → String
unfolding reduce elements
clean path =
    let done = reduce (is_rooted path) [] (elements path) in
    if is_rooted path then absolute done else relative done

abbrev join_onto : String → List String → String
join_onto path [] = clean path
join_onto path (e ∷ es) = if e == "" then join_onto path es else join_onto (path <> ("/" <> e)) es

-- filepath.Join
unfoldable pub join : List String → String
join [] = ""
join (e ∷ es) = if e == "" then join es else join_onto e es

-- From the candidate so far: a dot starts a new one, a slash drops it.
unfoldable pub ext_from : String → String → String
ext_from candidate String.[] = candidate
ext_from candidate (String.◌∷◌ c s) =
    let next =
      if eqb (code c) b'/' then "" else if eqb (code c) b'.' then String.◌∷◌ c s else candidate in
    ext_from next s

-- filepath.Ext
unfoldable pub ext : String → String
unfolding ext_from
ext path = ext_from "" path

join_runs : join ("/tmp/x" ∷ (".keptn" ∷ ("" ∷ ("../base/" ∷ [])))) ≡ "/tmp/x/base"
unfolding join clean reduce elements
join_runs = refl

ext_runs : ext "/tmp.d/x.tar.yaml" ≡ ".yaml"
unfolding ext ext_from
ext_runs = refl
