-- ===== src/Gitops/Apply.antt =====
-- checkCreate and reconcile of gitops-operator/controllers/utils_keptn*.go, which are the same for each
-- kind of resource: an object is created, or updated where the hash of its spec has changed. An
-- annotation keeps the hash.
mod Tests
pub mod Store
pub mod Settles
pub mod Again
pub mod Creations
pub mod Callings
pub mod Stored
pub mod Absent
use keptn_gitops_operator.Base.{GoMap}
use keptn_gitops_operator.Base.{
  String, ◌<>◌, Bool, true, false, Option, none, some, List, [], ◌∷◌, ◌==◌, GoError, not_found,
  failed, error_text, Reply, value, error, if◌then◌else◌, insert, index,
}
use keptn_gitops_operator.Api.{NamespacedName, KeptnGitRepository}
use keptn_gitops_operator.Cluster.{
  ◌>>=◌, ◌>>◌, meta_of, get_object, create, update, set_controller_reference, record_event, Env,
  Exec, pure, panic, perform,
}
use keptn_gitops_operator.Gitops.Parts.{
  Part, kind_of, Resource, is_owned, with_meta, with_spec, hashed, change,
}

abbrev pub hash_key : String
hash_key = "keptn.sh/last-applied-hash"

-- What the hash annotation of an object says.
abbrev pub noted : (p : Part) → Resource p → String
noted p o = index (meta_of (kind_of p) o).annotations hash_key

-- Under which name an object of the repository is looked up.
abbrev pub key_in : (p : Part) → KeptnGitRepository → Resource p → NamespacedName
key_in p repo x = record { name = (meta_of (kind_of p) x).name; namespace = repo.meta.namespace }

abbrev update_message : (p : Part) → Resource p → String
update_message p x =
    "Updated "
    <> ((change p).0
        <> (" "
            <> ((meta_of (kind_of p) x).namespace
                <> ("/"
                    <> ((meta_of (kind_of p) x).name
                        <> (" (Reason: " <> ((change p).1 <> " changed)")))))))

module _ (E : Env) where
  -- The manifest's object in the repository's namespace, with the hash of its spec as its only
  -- annotation.
  unfoldable pub annotated : (p : Part) → KeptnGitRepository → Resource p → Resource p
  annotated p repo x =
      with_meta p
        (record (meta_of (kind_of p) x) {
          namespace = repo.meta.namespace;
          annotations = some ((hash_key, E.hash (hashed p x)) ∷ []);
        })
        x

  -- The object of the cluster with the manifest's spec and its hash.
  unfoldable pub renewed :
      (p : Part) → Resource p → Resource p → List (String × String) → Resource p
  renewed p x obj annotations =
      with_spec p
        (with_meta p
          (record (meta_of (kind_of p) obj) {
            annotations = some (insert hash_key (E.hash (hashed p x)) annotations);
          })
          obj)
        x

  -- The event of an update that succeeded.
  report_update : (p : Part) → Resource p → Option GoError → Exec E (Option GoError)
  report_update p x (some err) = pure (some err)
  report_update p x none = do
    perform (record_event "Normal" "Updated" (update_message p x))
    pure none

  -- Writing to the nil map of an object without annotations panics.
  write : (p : Part) → Resource p → Resource p → GoMap → Exec E (Option GoError)
  unfolding renewed report_update
  write p x obj none = panic "assignment to entry in nil map"
  write p x obj (some annotations) = do
    bad ← perform (update (kind_of p) (renewed p x obj annotations))
    report_update p x bad

  compare_hashes : (p : Part) → Resource p → Reply (Resource p) → Exec E (Option GoError)
  unfolding write
  compare_hashes p x (error err) = pure (some err)
  compare_hashes p x (value obj) =
      if noted p x == noted p obj
      then pure none
      else write p x obj (meta_of (kind_of p) obj).annotations

  reconcile : (p : Part) → KeptnGitRepository → Resource p → Exec E (Option GoError)
  unfolding compare_hashes
  reconcile p repo x = do
    obj ← perform (get_object (kind_of p) (key_in p repo x))
    compare_hashes p x obj

  abbrev not_created : Option GoError → Reply Bool
  not_created none = value false
  not_created (some err) = error err

  abbrev was_created : Option GoError → Reply Bool
  was_created none = value true
  was_created (some err) = error err

  pub create_or_reconcile :
      (p : Part) → KeptnGitRepository → Resource p → Reply (Resource p) → Exec E (Reply Bool)
  unfolding reconcile
  create_or_reconcile p repo x (error (not_found _)) = do
    bad ← perform (create (kind_of p) x)
    pure (was_created bad)
  create_or_reconcile p repo x (error (failed message)) = pure (error (failed message))
  create_or_reconcile p repo x (value _) = do bad ← reconcile p repo x; pure (not_created bad)

  pub look_up : (p : Part) → KeptnGitRepository → Resource p → Exec E (Reply Bool)
  unfolding create_or_reconcile
  look_up p repo x = do
    found ← perform (get_object (kind_of p) (key_in p repo x))
    create_or_reconcile p repo x found

  with_owner :
      (p : Part) → KeptnGitRepository → Resource p → Reply (List String) → Exec E (Reply Bool)
  unfolding look_up
  with_owner p repo x (error err) =
      pure (error (failed ("could not set controller reference: " <> error_text err)))
  with_owner p repo x (value owners) =
      look_up p repo (with_meta p (record (meta_of (kind_of p) x) { owners = owners }) x)

  -- Whether the object was created, or an error.
  unfoldable pub check_create : (p : Part) → KeptnGitRepository → Resource p → Exec E (Reply Bool)
  unfolding with_owner annotated
  check_create p repo x =
      let x' = annotated p repo x in
      if is_owned p
      then (do
        owned ← perform (set_controller_reference repo.meta.name (meta_of (kind_of p) x'))
        with_owner p repo x' owned)
      else look_up p repo x'
