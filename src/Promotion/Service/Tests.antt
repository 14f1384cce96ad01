-- ===== src/Promotion/Service/Tests.antt =====
-- A promotion on the small cluster pushes to the stage's branch.
use keptn_gitops_operator.Base.{◌≡◌, refl, none, some, [], ◌∷◌, value, returned, lookup}
use keptn_gitops_operator.Cluster.{World, perform}
use keptn_gitops_operator.Cluster.Sample.{sample_env, sample_world}
use keptn_gitops_operator.Promotion.Values.{end}
use keptn_gitops_operator.Promotion.Update.{ValuesYaml}
use keptn_gitops_operator.Promotion.Handler.{EventData, handle_promotion_triggered_event}
use keptn_gitops_operator.Promotion.Service.{with_git_handler, pushed, serve, success_has_pushed}
use keptn_gitops_operator.Operator.Secrets.{get_git_credentials, decrypt_secret}
use keptn_gitops_operator.Promotion.Update.{update_git_repo}
use keptn_gitops_operator.Base.Paths.{clean}

abbrev no_values : ValuesYaml
no_values = record { unmarshal_values = λ s. value (some end); marshal_values = λ m. value "{}" }

abbrev promotion : EventData
promotion = record {
  project = "podtato";
  stage = "dev";
  service = "web";
  labels = some (("version", "1.2") ∷ []);
}

abbrev start : World (with_git_handler sample_env no_values)
start = record { state = sample_world; trace = [] }

promotion_succeeds :
    (handle_promotion_triggered_event
      (with_git_handler sample_env no_values)
      (value promotion)
      start).0
    ≡ returned none
unfolding handle_promotion_triggered_event perform lookup serve get_git_credentials decrypt_secret
    update_git_repo clean
promotion_succeeds = refl

success_has_pushed_example :
    pushed sample_env no_values
      (handle_promotion_triggered_event
        (with_git_handler sample_env no_values)
        (value promotion)
        start).1
    ≡ 1
success_has_pushed_example =
    success_has_pushed sample_env no_values (value promotion) start promotion_succeeds
