-- ===== src/Operator/Utils/Traces.antt =====
-- The helpers of pkg/utils send nothing to the Keptn API.
use keptn_gitops_operator.Base.{ℕ, String, ◌≡◌, refl, arith}
use keptn_gitops_operator.Api.{NamespacedName}
use keptn_gitops_operator.Cluster.{Kind, keptn_instance, get_object, Env, World, perform}
use keptn_gitops_operator.Operator.Utils.{key_of, get_keptn_instance, check_keptn_project_exists}
use keptn_gitops_operator.Cluster.Trace.{count, is_send, is_update, Stores}

abbrev pub sends : (E : Env) → World E → ℕ
sends E w = count is_send w.trace

abbrev pub updates : (E : Env) → World E → ℕ
updates E w = count is_update w.trace

module _ (E : Env) where
  pub sends-get_keptn_instance :
      (ns : String) (w : World E) → sends E (get_keptn_instance E ns w).1 ≡ sends E w
  unfolding get_keptn_instance perform
  sends-get_keptn_instance ns w = ground arith

  pub updates-get_keptn_instance :
      (ns : String) (w : World E) → updates E (get_keptn_instance E ns w).1 ≡ updates E w
  unfolding get_keptn_instance perform
  updates-get_keptn_instance ns w = ground arith

  pub sends-check_keptn_project_exists :
      (ns p : String) (w : World E) → sends E (check_keptn_project_exists E ns p w).1 ≡ sends E w
  unfolding check_keptn_project_exists perform
  sends-check_keptn_project_exists ns p w = grind (arith, sends-get_keptn_instance)

  -- Nor do they write an object.
  pub stored-get_keptn_instance :
      (k : Kind) (S : Stores E k) (ns : String) (w : World E) (key : NamespacedName)
      → S.stored (get_keptn_instance E ns w).1.state key ≡ S.stored w.state key
  unfolding get_keptn_instance perform
  stored-get_keptn_instance k S ns w key =
      ground (arith, S.keeps w.state key (get_object keptn_instance (key_of ns "default")) refl)
