-- ===== src/Promotion/Handler/Attempts.antt =====
-- How often the handler updates the repository and reports the end of the task.
use keptn_gitops_operator.Base.{
  ℕ, zero, suc, ◌+◌, ◌≤◌, String, ◌≡◌, refl, Option, none, some, arith, GoError, Reply, value,
  error, returned,
}
use keptn_gitops_operator.Cluster.{
  GitRepositoryConfig, update_git_repo, send_started, status_succeeded, Env, World, Exec, perform,
}
use keptn_gitops_operator.Cluster.Trace.{count, is_attempt, is_finished}
use keptn_gitops_operator.Promotion.Handler.{
  EventData, label, get_upstream_credentials, retry, or_again, send_error, fail_with,
  report_failure, after_update, with_credentials, with_version, handle_promotion_triggered_event,
}

module _ (E : Env) where
  abbrev pub attempts : World E → ℕ
  attempts w = count is_attempt w.trace

  abbrev pub finishes : World E → ℕ
  finishes w = count is_finished w.trace

  module _ (c : GitRepositoryConfig) (stage service version config : String) where
    abbrev again : Exec E (Option GoError)
    again = perform (update_git_repo c stage service version config)

    attempts-or_again :
        (next : GoError → Exec E (Option GoError)) (n : ℕ) (o : Option GoError) (w : World E)
        → ((e : GoError) (w1 : World E) → attempts (next e w1).1 ≤ attempts w1 + n)
        → attempts (or_again E next o w).1 ≤ attempts w + n
    attempts-or_again next n none w h = omega arith
    attempts-or_again next n (some e) w h = h e w

    attempts-retry :
        (n : ℕ) (e : GoError) (w : World E) → attempts (retry E n again e w).1 ≤ attempts w + n
    unfolding retry perform
    attempts-retry zero e w = omega arith
    attempts-retry (suc n) e w = ground (
      arith,
      attempts-or_again (retry E n again) n
          (E.respond (update_git_repo c stage service version config) w.state).0 (again w).1
          (attempts-retry n),
    )

    finishes-or_again :
        (next : GoError → Exec E (Option GoError)) (n : ℕ) (o : Option GoError) (w : World E)
        → ((e : GoError) (w1 : World E) → finishes (next e w1).1 ≡ finishes w1)
        → finishes (or_again E next o w).1 ≡ finishes w
    finishes-or_again next n none w h = refl
    finishes-or_again next n (some e) w h = h e w

    pub finishes-retry :
        (n : ℕ) (e : GoError) (w : World E) → finishes (retry E n again e w).1 ≡ finishes w
    unfolding retry perform
    finishes-retry zero e w = refl
    finishes-retry (suc n) e w = ground (
      arith,
      finishes-or_again (retry E n again) n
          (E.respond (update_git_repo c stage service version config) w.state).0 (again w).1
          (finishes-retry n),
    )

    attempts-after_update :
        (o : Option GoError) (w : World E) → attempts (after_update E again o w).1 ≤ attempts w + 6
    unfolding after_update perform report_failure send_error
    attempts-after_update none w = ground arith
    attempts-after_update (some e) w = grind (arith, attempts-retry 6 e w)

    finishes-after_update :
        (o : Option GoError) (w : World E) → finishes (after_update E again o w).1 ≤ finishes w + 1
    unfolding after_update perform report_failure send_error
    finishes-after_update none w = ground arith
    finishes-after_update (some e) w = grind (arith, finishes-retry 6 e w)

    -- After a failed attempt no run ends without an error: it panics where a retry succeeds.
    pub fails-after_update :
        (e : GoError) (w : World E) → (after_update E again (some e) w).0 ≡ returned none → ⊥
    unfolding after_update perform report_failure send_error
    fails-after_update e w h = grind arith

  attempts-with_credentials :
      (d : EventData) (v cv : String) (r : Reply GitRepositoryConfig) (w : World E)
      → attempts (with_credentials E d v cv r w).1 ≤ attempts w + 7
  unfolding with_credentials perform fail_with send_error
  attempts-with_credentials d v cv (error e) w = ground arith
  attempts-with_credentials d v cv (value c) w =
      ground (arith, attempts-after_update c d.stage d.service v cv)

  finishes-with_credentials :
      (d : EventData) (v cv : String) (r : Reply GitRepositoryConfig) (w : World E)
      → finishes (with_credentials E d v cv r w).1 ≤ finishes w + 1
  unfolding with_credentials perform fail_with send_error
  finishes-with_credentials d v cv (error e) w = ground arith
  finishes-with_credentials d v cv (value c) w =
      ground (arith, finishes-after_update c d.stage d.service v cv)

  success-with_credentials :
      (d : EventData) (v cv : String) (r : Reply GitRepositoryConfig) (w : World E)
      → (with_credentials E d v cv r w).0 ≡ returned none
      → attempts (with_credentials E d v cv r w).1 ≡ attempts w + 1
  unfolding with_credentials perform fail_with send_error after_update
  success-with_credentials d v cv (error e) w h = ground arith
  success-with_credentials d v cv (value c) w h =
      go (E.respond (update_git_repo c d.stage d.service v cv) w.state).0
        (again c d.stage d.service v cv w).1 refl h
    where
      go :
          (o : Option GoError) (w1 : World E)
          → attempts w1 ≡ suc (attempts w)
          → (after_update E (again c d.stage d.service v cv) o w1).0 ≡ returned none
          → attempts (after_update E (again c d.stage d.service v cv) o w1).1 ≡ attempts w + 1
      go none w1 q h = ground (arith, q)
      go (some e) w1 q h = absurd (fails-after_update c d.stage d.service v cv e w1 h)

  pub same-get_upstream_credentials :
      (p n : String) (w : World E)
      → (attempts (get_upstream_credentials E p n w).1 ≡ attempts w)
        × (finishes (get_upstream_credentials E p n w).1 ≡ finishes w)
  unfolding get_upstream_credentials perform
  same-get_upstream_credentials p n w = (ground arith, ground arith)

  attempts-with_version :
      (d : EventData) (v : Option String) (w : World E)
      → attempts (with_version E d v w).1 ≤ attempts w + 7
  unfolding with_version fail_with send_error perform
  attempts-with_version d none w = ground arith
  attempts-with_version d (some v) w =
      grind (arith, same-get_upstream_credentials, attempts-with_credentials)

  finishes-with_version :
      (d : EventData) (v : Option String) (w : World E)
      → finishes (with_version E d v w).1 ≤ finishes w + 1
  unfolding with_version fail_with send_error perform
  finishes-with_version d none w = ground arith
  finishes-with_version d (some v) w =
      grind (arith, same-get_upstream_credentials, finishes-with_credentials)

  -- A run of the handler attempts to update the repository at most seven times.
  pub attempts-handle :
      (r : Reply EventData) (w : World E)
      → attempts (handle_promotion_triggered_event E r w).1 ≤ attempts w + 7
  unfolding handle_promotion_triggered_event perform
  attempts-handle (error e) w = omega arith
  attempts-handle (value d) w = ground (arith, attempts-with_version d (label d.labels "version"))

  -- A run of the handler sends at most one finished event.
  pub finishes-handle :
      (r : Reply EventData) (w : World E)
      → finishes (handle_promotion_triggered_event E r w).1 ≤ finishes w + 1
  unfolding handle_promotion_triggered_event perform
  finishes-handle (error e) w = omega arith
  finishes-handle (value d) w = ground (arith, finishes-with_version d (label d.labels "version"))

  success-with_version :
      (d : EventData) (v : Option String) (w : World E)
      → (with_version E d v w).0 ≡ returned none
      → attempts (with_version E d v w).1 ≡ attempts w + 1
  unfolding with_version fail_with send_error perform
  success-with_version d none w h = ground arith
  success-with_version d (some v) w h =
      grind (arith, same-get_upstream_credentials, success-with_credentials)

  -- Where the handler returns no error it has attempted to update the repository exactly
  -- once: no retry leads to a success.
  pub success_at_first_attempt :
      (r : Reply EventData) (w : World E)
      → (handle_promotion_triggered_event E r w).0 ≡ returned none
      → attempts (handle_promotion_triggered_event E r w).1 ≡ attempts w + 1
  unfolding handle_promotion_triggered_event perform
  success_at_first_attempt (error e) w h = absurd (ground arith)
  success_at_first_attempt (value d) w h = ground (
    arith,
    success-with_version d (label d.labels "version") (perform (send_started status_succeeded) w).1,
  )
