-- ===== src/Promotion/Handler/Finish.antt =====
-- A promotion that has been started and does not panic is finished.
use keptn_gitops_operator.Base.{
  failed, ◌+◌, String, ◌≡◌, Option, none, some, arith, GoError, Reply, value, error, returned,
}
use keptn_gitops_operator.Cluster.{
  GitRepositoryConfig, status_succeeded, send_started, update_git_repo, Env, World, Exec, perform,
}
use keptn_gitops_operator.Promotion.Handler.{
  EventData, label, send_error, fail_with, report_failure, after_update, with_credentials,
  with_version, handle_promotion_triggered_event,
}
use keptn_gitops_operator.Promotion.Handler.Attempts.{
  finishes, finishes-retry, same-get_upstream_credentials,
}

module _ (E : Env) where
  finishes_once-fail_with :
      (e : GoError) (w : World E) → finishes E (fail_with E e w).1 ≡ finishes E w + 1
  unfolding fail_with send_error perform
  finishes_once-fail_with e w = ground arith

  finishes_once-after_update :
      (c : GitRepositoryConfig) (stage service version config : String) (o : Option GoError)
      (r : Option GoError) (w : World E)
      → let again : Exec E (Option GoError) =
          perform (update_git_repo c stage service version config) in
        (after_update E again o w).0 ≡ returned r
        → finishes E (after_update E again o w).1 ≡ finishes E w + 1
  unfolding after_update report_failure send_error perform
  finishes_once-after_update c stage service version config none r w h = ground arith
  finishes_once-after_update c stage service version config (some e) r w h =
      grind (arith, finishes-retry E c stage service version config 6 e w)

  finishes_once-with_credentials :
      (d : EventData) (v cv : String) (c : Reply GitRepositoryConfig) (r : Option GoError)
      (w : World E)
      → (with_credentials E d v cv c w).0 ≡ returned r
      → finishes E (with_credentials E d v cv c w).1 ≡ finishes E w + 1
  unfolding with_credentials perform
  finishes_once-with_credentials d v cv (error e) r w h = finishes_once-fail_with e w
  finishes_once-with_credentials d v cv (value c) r w h =
      finishes_once-after_update c d.stage d.service v cv _ r _ h

  finishes_once-with_version :
      (d : EventData) (v : Option String) (r : Option GoError) (w : World E)
      → (with_version E d v w).0 ≡ returned r
      → finishes E (with_version E d v w).1 ≡ finishes E w + 1
  unfolding with_version
  finishes_once-with_version d none r w h =
      finishes_once-fail_with (failed "No version label given") w
  finishes_once-with_version d (some v) r w h =
      grind (arith, same-get_upstream_credentials E, finishes_once-with_credentials)

  -- A run of the handler on data that could be parsed, whose started event was sent without
  -- an error and which returns and does not panic, sends exactly one finished event.
  pub finishes_once :
      (d : EventData) (r : Option GoError) (w : World E)
      → (E.respond (send_started status_succeeded) w.state).0 ≡ none
      → (handle_promotion_triggered_event E (value d) w).0 ≡ returned r
      → finishes E (handle_promotion_triggered_event E (value d) w).1 ≡ finishes E w + 1
  unfolding handle_promotion_triggered_event perform
  finishes_once d r w started h = ground (
    arith,
    started,
    finishes_once-with_version d (label d.labels "version") r
        (perform (send_started status_succeeded) w).1,
  )
