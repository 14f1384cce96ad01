-- ===== src/Cluster/Trace.antt =====
-- What the statements count in traces, and when an environment keeps the objects of a kind.
use keptn_gitops_operator.Base.{arith}
use keptn_gitops_operator.Base.{
  ℕ, suc, Bool, true, false, List, [], ◌∷◌, if◌then◌else◌, Option, none, some, value, eqb, ◌≡◌,
}
use keptn_gitops_operator.Api.{NamespacedName}
use keptn_gitops_operator.Cluster.Calls.{
  Kind, kind_id, Object, meta_of, Call, send, create, update, update_status, get_object, push,
  update_git_repo, send_finished,
}
use keptn_gitops_operator.Cluster.Monad.{Env, Step, did}

abbrev pub count : (Step → Bool) → List Step → ℕ
count p [] = 0
count p (step ∷ steps) = if p step then suc (count p steps) else count p steps

-- A request to the Keptn API that was sent.
abbrev pub is_send : Step → Bool
is_send (did (send r) _) = true
is_send _ = false

-- A request with an answer, whatever its code.
abbrev pub is_answered : Step → Bool
is_answered (did (send r) (value _)) = true
is_answered _ = false

abbrev pub is_update : Step → Bool
is_update (did (update k o) _) = true
is_update _ = false

abbrev pub is_create : Step → Bool
is_create (did (create k o) _) = true
is_create _ = false

-- A creation that succeeded.
abbrev pub is_created : Step → Bool
is_created (did (create k o) none) = true
is_created _ = false

abbrev pub is_status_update : Step → Bool
is_status_update (did (update_status k o) _) = true
is_status_update _ = false

-- A push that succeeded.
abbrev pub is_pushed : Step → Bool
is_pushed (did (push c dir refs) none) = true
is_pushed _ = false

-- An attempt to update the stage's repository.
abbrev pub is_attempt : Step → Bool
is_attempt (did (update_git_repo c stage service version config_version) _) = true
is_attempt _ = false

abbrev pub is_finished : Step → Bool
is_finished (did (send_finished status outcome message) _) = true
is_finished _ = false

-- Whether a call may change the stored object of a kind.
abbrev pub writes : Kind → Call → Bool
writes k (create j o) = eqb (kind_id j) (kind_id k)
writes k (update j o) = eqb (kind_id j) (kind_id k)
writes k (update_status j o) = eqb (kind_id j) (kind_id k)
writes k _ = false

abbrev pub key_of_object : (k : Kind) → Object k → NamespacedName
key_of_object k o = record { name = (meta_of k o).name; namespace = (meta_of k o).namespace }

-- The API server with no other client that writes objects of the kind: a read gives the stored
-- object, a status update that succeeds stores what was given, and no other call changes it. That the
-- API server writes the status alone makes no difference where the object that is given is the
-- stored one in all else.
pub record Stores (E : Env) (k : Kind) : Type 1 where
  pub stored : E.State → NamespacedName → Option (Object k)
  pub reads :
      (s : E.State) (key : NamespacedName) (o : Object k)
      → (E.respond (get_object k key) s).0 ≡ value o
      → (stored s key ≡ some o) × (key_of_object k o ≡ key)
  pub saves :
      (s : E.State) (o : Object k)
      → (E.respond (update_status k o) s).0 ≡ none
      → stored (E.respond (update_status k o) s).1 (key_of_object k o) ≡ some o
  pub keeps :
      (s : E.State) (key : NamespacedName) (c : Call)
      → writes k c ≡ false
      → stored (E.respond c s).1 key ≡ stored s key

-- What a read returns is the stored object.
pub read_is_stored :
    {E : Env} {k : Kind} (S : Stores E k) (s : E.State) (key : NamespacedName) (i o : Object k)
    → S.stored s key ≡ some i
    → (E.respond (get_object k key) s).0 ≡ value o
    → o ≡ i
read_is_stored S s key i o here e = ground (arith, S.reads s key o e)
