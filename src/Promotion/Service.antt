-- ===== src/Promotion/Service.antt =====
-- The promotion handler with its git handler: the handler's call of UpdateGitRepo runs the function of
-- promotion-service/pkg/utils/githandler.go.
mod Tests
use keptn_gitops_operator.Base.{
  ℕ, ◌+◌, ◌-◌, String, ◌≡◌, refl, ap, ◌∙◌, Option, none, some, arith, GoError, failed, Reply, value,
  error, Outcome, returned, ended, panicking, exiting,
}
use keptn_gitops_operator.Cluster.{
  GitRepositoryConfig, status_succeeded, Call, send_started, Resp, Env, World, Exec, continue,
  perform,
}
use keptn_gitops_operator.Cluster.Calls.{update_git_repo}
use keptn_gitops_operator.Cluster.Pushing.{pushes, IsPushed}
use keptn_gitops_operator.Promotion.Update.{ValuesYaml, update_git_repo as run_update_git_repo}
use keptn_gitops_operator.Promotion.Update.Pushes.{update_git_repo-IsPushed}
use keptn_gitops_operator.Promotion.Handler.{
  EventData, label, get_upstream_credentials, send_error, fail_with, after_update, with_credentials,
  with_version, handle_promotion_triggered_event, env_based_string,
}
use keptn_gitops_operator.Promotion.Handler.Attempts.{fails-after_update}

-- The git handler returns, so the last clause is never used.
abbrev error_of : Outcome (Option GoError) → Option GoError
error_of (returned o) = o
error_of (ended (panicking message)) = some (failed message)
error_of (ended (exiting message)) = some (failed message)

module _ (E : Env) (Y : ValuesYaml) where
  -- The update runs in the world that the other calls are made in.
  unfoldable pub serve : (c : Call) → World E → Resp c × World E
  serve (update_git_repo c stage service version config_version) w =
      let r = run_update_git_repo E Y c stage service version config_version w in
      (error_of r.0, r.1)
  serve c w = ((E.respond c w.state).0, (perform c w).1)

  abbrev pub with_git_handler : Env
  with_git_handler = record E { State = World E; respond = serve }

  abbrev G : Env
  G = with_git_handler

  -- The pushes so far, in the world of the git handler.
  abbrev pub pushed : World G → ℕ
  pushed w = pushes E w.state

  module _ (c : GitRepositoryConfig) (stage s v cv : String) where
    abbrev again : Exec G (Option GoError)
    again = perform (update_git_repo c stage s v cv)

    pushed-again : (w : World G) → (again w).0 ≡ returned none → pushed (again w).1 ≡ pushed w + 1
    unfolding perform serve
    pushed-again w h =
        go (run_update_git_repo E Y c stage s v cv w.state).0
          (run_update_git_repo E Y c stage s v cv w.state).1
          (update_git_repo-IsPushed E Y c stage s v cv w.state) (ground arith)
      where
        go :
            (o : Outcome (Option GoError)) (w1 : World E)
            → IsPushed E 1 w.state o w1
            → error_of o ≡ none
            → pushes E w1 ≡ pushes E w.state + 1
        go (returned none) w1 p h = p.all refl
        go (returned (some e)) w1 p h = absurd (ground arith)
        go (ended m) w1 p h = absurd (ground arith)

    pushed-after_update :
        (o : Option GoError) (w : World G)
        → (after_update G again o w).0 ≡ returned none
        → (o ≡ none) × (pushed (after_update G again o w).1 ≡ pushed w)
    unfolding after_update perform serve
    pushed-after_update none w h = (refl, refl)
    pushed-after_update (some e) w h = absurd (fails-after_update G c stage s v cv e w h)

  pushed-with_credentials :
      (d : EventData) (v cv : String) (r : Reply GitRepositoryConfig) (w : World G)
      → (with_credentials G d v cv r w).0 ≡ returned none
      → pushed (with_credentials G d v cv r w).1 ≡ pushed w + 1
  unfolding with_credentials fail_with send_error perform
  pushed-with_credentials d v cv (error e) w h = absurd (ground arith)
  pushed-with_credentials d v cv (value c) w h =
      let (ok, same) = pushed-after_update c d.stage d.service v cv _ _ h in
      same ∙ pushed-again c d.stage d.service v cv w (ap returned ok)

  pushed-get_upstream_credentials :
      (p n : String) (w : World G) → pushed (get_upstream_credentials G p n w).1 ≡ pushed w
  unfolding get_upstream_credentials perform serve
  pushed-get_upstream_credentials p n w = ground arith

  pushed-continue :
      (d : EventData) (v cv : String) (o : Outcome (Reply GitRepositoryConfig)) (w : World G)
      → (continue o (with_credentials G d v cv) w).0 ≡ returned none
      → pushed (continue o (with_credentials G d v cv) w).1 ≡ pushed w + 1
  pushed-continue d v cv (returned r) w h = pushed-with_credentials d v cv r w h
  pushed-continue d v cv (ended m) w h = absurd (ground arith)

  pushed-with_version :
      (d : EventData) (v : Option String) (w : World G)
      → (with_version G d v w).0 ≡ returned none
      → pushed (with_version G d v w).1 ≡ pushed w + 1
  unfolding with_version fail_with send_error perform
  pushed-with_version d none w h = absurd (ground arith)
  pushed-with_version d (some v) w h =
      let n = env_based_string G "POD_NAMESPACE" "keptn" in
      let r = get_upstream_credentials G d.project n w in
      omega (arith, pushed-continue d v _ r.0 r.1 h, pushed-get_upstream_credentials d.project n w)

  -- Where the handler's call of UpdateGitRepo runs that function, a run of the handler that
  -- returns no error has pushed exactly once.
  pub success_has_pushed :
      (r : Reply EventData) (w : World with_git_handler)
      → (handle_promotion_triggered_event with_git_handler r w).0 ≡ returned none
      → pushed (handle_promotion_triggered_event with_git_handler r w).1 ≡ pushed w + 1
  unfolding handle_promotion_triggered_event perform serve
  success_has_pushed (error e) w h = absurd (ground arith)
  success_has_pushed (value d) w h = ground (
    arith,
    pushed-with_version d (label d.labels "version") (perform (send_started status_succeeded) w).1,
  )
