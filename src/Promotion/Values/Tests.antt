-- ===== src/Promotion/Values/Tests.antt =====
-- Values of a stage over those of the base.
use keptn_gitops_operator.Base.{◌≡◌, refl}
use keptn_gitops_operator.Promotion.Values.{
  scalar, seq, obj, nil, cons, Fields, end, field, find, manipulate,
}
use keptn_gitops_operator.Promotion.Values.Lookup.{HasDistinctKeys, manipulated, find-manipulate}

abbrev base_values : Fields
base_values =
    field "image" (obj (field "tag" (scalar "1.1") (field "repo" (scalar "web") end)))
      (field "hosts" (seq (cons (scalar "a") nil)) end)

abbrev stage_values : Fields
stage_values =
    field "image" (obj (field "tag" (scalar "1.2") end))
      (field "hosts" (seq (cons (scalar "b") nil)) end)

stage_values-HasDistinctKeys : HasDistinctKeys stage_values
unfolding find
stage_values-HasDistinctKeys = (refl, (refl, tt))

find-manipulate_example :
    find "image" (manipulate stage_values base_values)
    ≡ manipulated (find "image" base_values) (find "image" stage_values)
find-manipulate_example =
    find-manipulate stage_values base_values "image" stage_values-HasDistinctKeys
