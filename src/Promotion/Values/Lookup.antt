-- ===== src/Promotion/Values/Lookup.antt =====
-- What a merged map holds under each key.
use keptn_gitops_operator.Base.{
  String, ◌≡◌, refl, Option, none, some, arith, ◌==◌, eq_iff, if◌then◌else◌,
}
use keptn_gitops_operator.Promotion.Values.{
  Value, null, scalar, seq, obj, Fields, end, field, find, put, merge, merge_fields, overridden,
  manipulate,
}

-- Go maps have a key once.
abbrev pub HasDistinctKeys : Fields → Type 0
HasDistinctKeys end = Unit
HasDistinctKeys (field k v f) = (find k f ≡ none) × HasDistinctKeys f

find-put :
    (k j : String) (v : Value) (f : Fields)
    → find k (put j v f) ≡ (if j == k then some v else find k f)
unfolding find put
find-put k j v end = refl
find-put k j v (field i w f) = ground (arith, eq_iff j k, eq_iff i k, eq_iff i j, find-put k j v f)

-- What `merge` makes of the values under one key of its two maps.
abbrev pub merged : Option Value → Option Value → Option Value
merged old none = old
merged none (some v2) = some v2
merged (some v1) (some v2) = some (merge v1 v2)

-- What Manipulate makes of the values under one key of the base and of the stage.
abbrev pub manipulated : Option Value → Option Value → Option Value
manipulated base none = base
manipulated (some (obj f)) (some (obj g)) = some (obj (merge_fields g f))
manipulated base (some v) = some v

manipulated-overridden :
    (v : Value) (base : Option Value) → manipulated base (some v) ≡ some (overridden v base)
unfolding overridden merge
manipulated-overridden null none = refl
manipulated-overridden null (some null) = refl
manipulated-overridden null (some (scalar t)) = refl
manipulated-overridden null (some (seq m)) = refl
manipulated-overridden null (some (obj f)) = refl
manipulated-overridden (scalar s) none = refl
manipulated-overridden (scalar s) (some null) = refl
manipulated-overridden (scalar s) (some (scalar t)) = refl
manipulated-overridden (scalar s) (some (seq m)) = refl
manipulated-overridden (scalar s) (some (obj f)) = refl
manipulated-overridden (seq l) none = refl
manipulated-overridden (seq l) (some null) = refl
manipulated-overridden (seq l) (some (scalar t)) = refl
manipulated-overridden (seq l) (some (seq m)) = refl
manipulated-overridden (seq l) (some (obj f)) = refl
manipulated-overridden (obj g) none = refl
manipulated-overridden (obj g) (some null) = refl
manipulated-overridden (obj g) (some (scalar t)) = refl
manipulated-overridden (obj g) (some (seq m)) = refl
manipulated-overridden (obj g) (some (obj f)) = refl

-- Where the stage's map has each key once, Manipulate leaves under each key the base's value
-- if the stage has none; the merge of both if both are maps; and else the stage's value as it
-- is, with nothing of the base.
pub find-manipulate :
    (stage values : Fields) (k : String)
    → HasDistinctKeys stage
    → find k (manipulate stage values) ≡ manipulated (find k values) (find k stage)
unfolding find manipulate
find-manipulate end values k h = refl
find-manipulate (field j v stage) values k (new, rest) = ground (
  arith,
  eq_iff j k,
  new,
  manipulated-overridden v (find j values),
  find-manipulate stage (put j (overridden v (find j values)) values) k rest,
  find-put k j (overridden v (find j values)) values,
)
