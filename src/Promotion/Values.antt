-- ===== src/Promotion/Values.antt =====
-- promotion-service/pkg/utils/githandler.go: MergeValues, Manipulate and merge. A YAML value is a
-- tree; a Go map is a list of fields with different keys, whose order says nothing.
mod Tests
pub mod Lookup
use keptn_gitops_operator.Base.{
  String, Option, none, some, ◌==◌, failed, Reply, value, error, if◌then◌else◌,
}

mutual
  pub data Value : Type 0 where
    null : Value
    scalar : String → Value
    seq : Items → Value
    obj : Fields → Value

  pub data Items : Type 0 where
    nil : Items
    cons : Value → Items → Items

  pub data Fields : Type 0 where
    end : Fields
    field : String → Value → Fields → Fields

-- `v, ok := m[k]`
unfoldable pub find : String → Fields → Option Value
find k end = none
find k (field j v m) = if j == k then some v else find k m

-- `m[k] = v`
unfoldable pub put : String → Value → Fields → Fields
put k v end = field k v end
put k v (field j w m) = if j == k then field k v m else field j w (put k v m)

unfoldable pub append_items : Items → Items → Items
append_items nil ys = ys
append_items (cons x xs) ys = cons x (append_items xs ys)

-- What `in1[k]` becomes where `in2[k]` is there, from the merge with it.
abbrev pub merged_with : Option Value → Value → (Value → Value) → Value
merged_with none v2 merge_v2 = v2
merged_with (some v1) v2 merge_v2 = merge_v2 v1

unfoldable mutual
  -- The map `in1` is written in place; the result is what it then holds.
  pub merge : Value → Value → Value
  merge (seq l1) (seq l2) = seq (append_items l1 l2)
  merge (obj f1) (obj f2) = obj (merge_fields f1 f2)
  merge null (obj f2) = obj f2
  merge in1 in2 = in1

  -- The loop over `in2`.
  pub merge_fields : Fields → Fields → Fields
  merge_fields f1 end = f1
  merge_fields f1 (field k v2 f2) =
      merge_fields (put k (merged_with (find k f1) v2 (λ v1. merge v1 v2)) f1) f2

-- In `merge(v, ch.Values[k]); ch.Values[k] = v` the result of merge is dropped, so of its changes
-- only those stay that are made in place: those to a map. A missing key reads as nil.
unfoldable pub overridden : Value → Option Value → Value
overridden (obj f) (some base) = merge (obj f) base
overridden v _ = v

-- The loop of Manipulate over the stage's values.
unfoldable pub manipulate : Fields → Fields → Fields
unfolding overridden
manipulate end values = values
manipulate (field k v stage) values = manipulate stage (put k (overridden v (find k values)) values)

-- MergeValues, from what getValues gives for the base and for the stage.
unfoldable pub merge_values : Option Fields → Option Fields → Reply Fields
merge_values (some input) none = value input
merge_values none (some new_values) = value new_values
merge_values none none = error (failed "No Values file specified")
merge_values (some input) (some new_values) = value (manipulate new_values input)
