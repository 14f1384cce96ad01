-- ===== src/Promotion/Handler/Tests.antt =====
-- A promotion on the small cluster, where the first attempt succeeds.
use keptn_gitops_operator.Cluster.{perform, send_started, status_succeeded}
use keptn_gitops_operator.Promotion.Handler.Finish.{finishes_once}
use keptn_gitops_operator.Operator.Secrets.{get_git_credentials, decrypt_secret}
use keptn_gitops_operator.Base.{lookup, ◌≤◌, ◌≡◌, refl, ◌∷◌, [], value, some, none, returned}
use keptn_gitops_operator.Cluster.Sample.{sample_env, sample_world}
use keptn_gitops_operator.Promotion.Handler.{EventData, handle_promotion_triggered_event}
use keptn_gitops_operator.Promotion.Handler.Attempts.{
  attempts, finishes, attempts-handle, finishes-handle, success_at_first_attempt,
}

abbrev promotion : EventData
promotion = record {
  project = "podtato";
  stage = "dev";
  service = "web";
  labels = some (("version", "1.2") ∷ []);
}

attempts-handle_example :
    attempts sample_env
      (handle_promotion_triggered_event sample_env (value promotion) sample_world).1
    ≤ 7
attempts-handle_example = attempts-handle sample_env (value promotion) sample_world

finishes-handle_example :
    finishes sample_env
      (handle_promotion_triggered_event sample_env (value promotion) sample_world).1
    ≤ 1
finishes-handle_example = finishes-handle sample_env (value promotion) sample_world

succeeds :
    (handle_promotion_triggered_event sample_env (value promotion) sample_world).0 ≡ returned none
unfolding handle_promotion_triggered_event perform lookup get_git_credentials decrypt_secret
succeeds = refl

success_at_first_attempt_example :
    attempts sample_env
      (handle_promotion_triggered_event sample_env (value promotion) sample_world).1
    ≡ 1
success_at_first_attempt_example =
    success_at_first_attempt sample_env (value promotion) sample_world succeeds

started : (sample_env.respond (send_started status_succeeded) sample_world.state).0 ≡ none
started = refl

finishes_once_example :
    finishes sample_env
      (handle_promotion_triggered_event sample_env (value promotion) sample_world).1
    ≡ 1
finishes_once_example = finishes_once sample_env promotion none sample_world started succeeds
