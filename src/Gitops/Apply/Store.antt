-- ===== src/Gitops/Apply/Store.antt =====
-- When an API server keeps what gitops-operator writes.
use keptn_gitops_operator.Base.{
  ℕ, ◌+◌, String, ◌≡◌, false, Option, none, some, not_found, value, error,
}
use keptn_gitops_operator.Api.{NamespacedName}
use keptn_gitops_operator.Cluster.{
  Kind, Object, meta_of, Call, get_object, create, update, Env, World,
}
use keptn_gitops_operator.Cluster.Trace.{count, is_update, is_create, writes, key_of_object}
use keptn_gitops_operator.Gitops.Parts.{Part, kind_of, Resource}
use keptn_gitops_operator.Gitops.Apply.{noted}

-- The API server as documented, with no other client that writes objects of the kind: a read gives
-- the stored object or finds that there is none, an object that is created or updated is stored
-- with its annotations, and no other call changes it.
pub record KeepsAnnotations (E : Env) (k : Kind) : Type 1 where
  pub stored : E.State → NamespacedName → Option (Object k)
  pub reads :
      (s : E.State) (key : NamespacedName) (o : Object k)
      → (E.respond (get_object k key) s).0 ≡ value o
      → (stored s key ≡ some o) × (key_of_object k o ≡ key)
  pub misses :
      (s : E.State) (key : NamespacedName) (m : String)
      → (E.respond (get_object k key) s).0 ≡ error (not_found m)
      → stored s key ≡ none
  pub creates :
      (s : E.State) (o : Object k)
      → (E.respond (create k o) s).0 ≡ none
      → (o' : Object k) × ((stored (E.respond (create k o) s).1 (key_of_object k o) ≡ some o')
          × ((meta_of k o').annotations ≡ (meta_of k o).annotations))
  pub updates :
      (s : E.State) (o : Object k)
      → (E.respond (update k o) s).0 ≡ none
      → (o' : Object k) × ((stored (E.respond (update k o) s).1 (key_of_object k o) ≡ some o')
          × ((meta_of k o').annotations ≡ (meta_of k o).annotations))
  pub keeps :
      (s : E.State) (key : NamespacedName) (c : Call)
      → writes k c ≡ false
      → stored (E.respond c s).1 key ≡ stored s key

-- Creations and updates.
abbrev pub changes : (E : Env) → World E → ℕ
changes E w = count is_update w.trace + count is_create w.trace

module _ (E : Env) (p : Part) (S : KeepsAnnotations E (kind_of p)) (key : NamespacedName)
    (hash : String) where
  -- An object with that hash is stored under the key.
  abbrev pub IsApplied : E.State → Type 0
  IsApplied s = (o : Resource p) × ((S.stored s key ≡ some o) × (noted p o ≡ hash))
