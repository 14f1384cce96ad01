-- ===== src/Operator/Shipyard/Uploads.antt =====
-- When the config map of a shipyard may be written.
use keptn_gitops_operator.Operator.Shipyard.{shipyard_key}
use keptn_gitops_operator.Operator.Shipyard.{key_of}
use keptn_gitops_operator.Cluster.{config_map}
use keptn_gitops_operator.Cluster.{keptn_shipyard}
use keptn_gitops_operator.Cluster.{get_object}
use keptn_gitops_operator.Operator.Shipyard.{create_version}
use keptn_gitops_operator.Operator.Shipyard.{save_then}
use keptn_gitops_operator.Operator.Shipyard.{update_upstream}
use keptn_gitops_operator.Operator.Shipyard.{with_config_map}
use keptn_gitops_operator.Operator.Shipyard.{upload}
use keptn_gitops_operator.Operator.Shipyard.{with_object}
use keptn_gitops_operator.Operator.Shipyard.{reconcile}
use keptn_gitops_operator.Operator.Shipyard.{with_existence}
use keptn_gitops_operator.Operator.Shipyard.{with_version}
use keptn_gitops_operator.Operator.Shipyard.{with_instance}
use keptn_gitops_operator.Operator.Shipyard.{store_hash}
use keptn_gitops_operator.Base.{
  ℕ, suc, ◌+◌, ◌≤◌, String, ◌≡◌, refl, Bool, true, false, Option, none, some, arith, GoError,
  not_found, failed, Reply, value, error, Outcome, returned, ended,
}
use keptn_gitops_operator.Api.{NamespacedName, KeptnShipyard, KeptnInstance, DataObject}
use keptn_gitops_operator.Cluster.{
  of_shipyard_spec, GitRepositoryConfig, temp_dir, Env, World, continue, perform,
}
use keptn_gitops_operator.Operator.Result.{result, error_interval}
use keptn_gitops_operator.Operator.Utils.{
  get_keptn_cp_token, get_keptn_instance, check_keptn_project_exists, get_upstream_credentials,
}
use keptn_gitops_operator.Operator.Shipyard.{with_credentials}
use keptn_gitops_operator.Cluster.Trace.{count, is_update, is_pushed}
use keptn_gitops_operator.Operator.Shipyard.{head_of, check_out_git_repo, push_shipyard}

module _ (E : Env) where
  abbrev pub updates : World E → ℕ
  updates w = count is_update w.trace

  abbrev pub pushes : World E → ℕ
  pushes w = count is_pushed w.trace

  -- No updates of objects and at least as many pushes.
  abbrev Quiet : World E → World E → Type 0
  Quiet w w' = (updates w' ≡ updates w) × (pushes w ≤ pushes w')

  -- At most as many more updates as more pushes.
  abbrev Paid : World E → World E → Type 0
  Paid w w' = updates w' + pushes w ≤ updates w + pushes w'

  Quiet-head_of : (c : GitRepositoryConfig) (d : String) (w : World E) → Quiet w (head_of E c d w).1
  unfolding head_of perform
  Quiet-head_of c d w = (ground arith, ground arith)

  Quiet-check_out :
      (c : GitRepositoryConfig) (d : String) (w : World E) → Quiet w (check_out_git_repo E c d w).1
  unfolding check_out_git_repo perform head_of
  Quiet-check_out c d w = (ground arith, ground arith)

  -- A push that returned no error has been made.
  push-push_shipyard :
      (c : GitRepositoryConfig) (d s : String) (w : World E)
      → (updates (push_shipyard E c d s w).1 ≡ updates w)
        × (pushes w ≤ pushes (push_shipyard E c d s w).1)
        × ((push_shipyard E c d s w).0 ≡ returned none
            → suc (pushes w) ≡ pushes (push_shipyard E c d s w).1)
  unfolding push_shipyard perform
  push-push_shipyard c d s w = (ground arith, ground arith, λ h. ground arith)

  -- The part of the update up to the push.
  abbrev IsUpload : World E → Outcome (Option GoError) × World E → Type 0
  IsUpload w (o, w') =
      (updates w' ≡ updates w)
      × (pushes w ≤ pushes w')
      × (o ≡ returned none → suc (pushes w) ≤ pushes w')

  IsUpload-with_credentials :
      (d s : String) (r : Reply GitRepositoryConfig) (w : World E)
      → IsUpload w (with_credentials E d s r w)
  unfolding with_credentials
  IsUpload-with_credentials d s (error e) w = (refl, ground arith, λ h. absurd (ground arith))
  IsUpload-with_credentials d s (value c) w =
      go (check_out_git_repo E c d w).0 (check_out_git_repo E c d w).1 (Quiet-check_out c d w)
    where
      go :
          (o : Outcome (Reply String)) (w1 : World E)
          → Quiet w w1
          → IsUpload w (
              continue o
                (λ repo. elim repo [
                  | error err ↦ (λ v. (returned (some err), v))
                  | value _ ↦ push_shipyard E c d s
                ])
                w1)
      go (ended m) w1 q = (q.0, q.1, λ h. absurd (ground arith))
      go (returned (error e)) w1 q = (q.0, q.1, λ h. absurd (ground arith))
      go (returned (value r)) w1 q = ground (arith, push-push_shipyard c d s w1)

  Quiet-get_upstream_credentials :
      (p n : String) (w : World E) → Quiet w (get_upstream_credentials E p n w).1
  unfolding get_upstream_credentials perform
  Quiet-get_upstream_credentials p n w = (ground arith, ground arith)

  Quiet-get_keptn_instance : (n : String) (w : World E) → Quiet w (get_keptn_instance E n w).1
  unfolding get_keptn_instance perform get_keptn_cp_token
  Quiet-get_keptn_instance n w = (ground arith, ground arith)

  Quiet-check_keptn_project_exists :
      (n p : String) (w : World E) → Quiet w (check_keptn_project_exists E n p w).1
  unfolding check_keptn_project_exists perform
  Quiet-check_keptn_project_exists n p w =
      (ground (arith, Quiet-get_keptn_instance n w), ground (arith, Quiet-get_keptn_instance n w))

  IsUpload-update_upstream : (n p s : String) (w : World E) → IsUpload w (update_upstream E n p s w)
  unfolding update_upstream perform
  IsUpload-update_upstream n p s w =
      go _ _ (Quiet-get_upstream_credentials p n (perform (temp_dir "upstream_tmp_dir") w).1)
    where
      dir : String
      dir = (E.respond (temp_dir "upstream_tmp_dir") w.state).0

      go :
          (o : Outcome (Reply GitRepositoryConfig)) (w1 : World E)
          → Quiet w w1
          → IsUpload w (continue o (with_credentials E dir s) w1)
      go (ended m) w1 q = (q.0, q.1, λ h. absurd (ground arith))
      go (returned r) w1 q = ground (arith, IsUpload-with_credentials dir s r w1)

  Paid-store_hash :
      (v : DataObject) (h : String) (w : World E)
      → (updates (store_hash E v h w).1 ≤ suc (updates w))
        × (pushes (store_hash E v h w).1 ≡ pushes w)
  unfolding store_hash perform
  Paid-store_hash v h w = (ground arith, ground arith)

  Paid-upload :
      (n : String) (k : KeptnShipyard) (v : DataObject) (r : Reply String) (w : World E)
      → Paid w (upload E n k v r w).1
  unfolding upload
  Paid-upload n k v (error e) w = omega arith
  Paid-upload n k v (value s) w =
      go (update_upstream E n k.spec.project s w) (IsUpload-update_upstream n k.spec.project s w)
    where
      hash : String
      hash = E.hash (of_shipyard_spec k.spec)

      go :
          (r : Outcome (Option GoError) × World E)
          → IsUpload w r
          → Paid w
              (continue r.0
                (λ bad. elim bad [
                  | some err ↦ (λ v. (returned (result true error_interval (some err)), v))
                  | none ↦ store_hash E v hash
                ])
                r.1).1
      go (ended m, w1) u = ground (arith, u)
      go (returned (some e), w1) u = ground (arith, u)
      go (returned none, w1) u = ground (arith, u.0, u.1, u.2 refl, Paid-store_hash v hash w1)

  Paid-with_existence :
      (n : String) (k : KeptnShipyard) (v : DataObject) (b : Bool × Option GoError) (w : World E)
      → Paid w (with_existence E n k v b w).1
  unfolding with_existence perform save_then
  Paid-with_existence n k v (b, some e) w = omega arith
  Paid-with_existence n k v (false, none) w = ground arith
  Paid-with_existence n k v (true, none) w =
      ground (arith, Paid-upload n k v (E.marshal_shipyard k.spec.shipyard) w)

  Paid-with_version :
      (n : String) (k : KeptnShipyard) (v : DataObject) (w : World E)
      → Paid w (with_version E n k v w).1
  unfolding with_version
  Paid-with_version n k v w = grind (arith, Paid-with_existence, Quiet-check_keptn_project_exists)

  Paid-with_config_map :
      (n : String) (k : KeptnShipyard) (r : Reply DataObject) (w : World E)
      → Paid w (with_config_map E n k r w).1
  unfolding with_config_map create_version perform
  Paid-with_config_map n k (error (not_found m)) w = ground arith
  Paid-with_config_map n k (error (failed m)) w = ground arith
  Paid-with_config_map n k (value v) w = Paid-with_version n k v w

  Paid-with_object :
      (req : NamespacedName) (r : Reply KeptnShipyard) (w : World E)
      → Paid w (with_object E req r w).1
  unfolding with_object perform
  Paid-with_object req (error (not_found m)) w = omega arith
  Paid-with_object req (error (failed m)) w = omega arith
  Paid-with_object req (value k) w = ground (
    arith,
    Paid-with_config_map req.namespace k
        (E.respond (get_object config_map (key_of req.namespace (shipyard_key k.spec.project)))
          w.state).0
        (perform (get_object config_map (key_of req.namespace (shipyard_key k.spec.project))) w).1,
  )

  Paid-with_instance :
      (req : NamespacedName) (o : Outcome (Reply (KeptnInstance × String))) (w : World E)
      → Paid w (continue o (with_instance E req) w).1
  unfolding with_instance perform
  Paid-with_instance req (ended m) w = omega arith
  Paid-with_instance req (returned (error e)) w = omega arith
  Paid-with_instance req (returned (value i)) w = ground (
    arith,
    Paid-with_object req (E.respond (get_object keptn_shipyard req) w.state).0
        (perform (get_object keptn_shipyard req) w).1,
  )

  -- A run of Reconcile of the shipyards makes at most as many object updates as successful
  -- pushes: a run that writes the hash into the config map has pushed.
  pub updates_after_push :
      (req : NamespacedName) (w : World E)
      → updates (reconcile E req w).1 + pushes w ≤ updates w + pushes (reconcile E req w).1
  unfolding reconcile
  updates_after_push req w = ground (
    arith,
    Quiet-get_keptn_instance req.namespace w,
    Paid-with_instance req (get_keptn_instance E req.namespace w).0
        (get_keptn_instance E req.namespace w).1,
  )
