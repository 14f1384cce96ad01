-- ===== src/Gitops/Repository/Recorded.antt =====
-- A commit that has been recorded is not applied again.
use keptn_gitops_operator.Base.{
  suc, String, ◌≡◌, refl, sym, ap, ◌∙◌, Bool, true, false, Option, none, some, List, [], ◌∷◌, arith,
  ◌==◌, GoError, Reply, value, error, Outcome, returned, ended, if◌then◌else◌,
}
use keptn_gitops_operator.Api.{NamespacedName, KeptnGitRepository}
use keptn_gitops_operator.Cluster.{
  keptn_git_repository, GitRepositoryConfig, get_object, update_status, Env, Step, did, World, Exec,
  continue, perform, ◌>>=◌,
}
use keptn_gitops_operator.Operator.Result.{Result}
use keptn_gitops_operator.Cluster.Trace.{count, is_status_update, key_of_object}
use keptn_gitops_operator.Cluster.Written.{object_steps, written, statuses, Quiet}
use keptn_gitops_operator.Gitops.Apply.Creations.{IsCheck, IsCheck-check_create}
use keptn_gitops_operator.Gitops.Parts.{
  project, service, stage, sequence_, instance_, service_deployment, sequence_execution,
}
use keptn_gitops_operator.Gitops.Quiet.{written-deliver_artifacts}
use keptn_gitops_operator.Gitops.Git.{
  GoGitClient, checked_out, checkout, get_client, get_last_commit_hash,
}
use keptn_gitops_operator.Gitops.Credentials.{get_git_credentials}
use keptn_gitops_operator.Cluster.{clone, temp_dir, head}
use keptn_gitops_operator.Base.{◌<>◌}
use keptn_gitops_operator.Gitops.Manifests.{KeptnManifests}
use keptn_gitops_operator.Gitops.Manifests.Reads.{written-parse_keptn_manifests}
use keptn_gitops_operator.Gitops.Repository.{
  next_manifest, check_all, update_status_result, apply_deployments, deliver_and_apply,
  apply_manifests, with_hash, with_client, with_config, sync, with_repository, reconcile,
  with_defaults, with_commit,
}
use keptn_gitops_operator.Gitops.Repository.Unchanged.{HasCommit, written-sync}

-- The object of the latest call, if that is a status update that succeeded.
abbrev pub last_saved : List Step → Option KeptnGitRepository
last_saved (did (update_status keptn_git_repository k) none ∷ _) = some k
last_saved _ = none

-- The API server as documented for the status of git repositories: where an update of the status
-- succeeds, an object with that status is stored under the name, and a read gives the stored object.
pub record KeepsStatus (E : Env) : Type 1 where
  pub stored : E.State → NamespacedName → Option KeptnGitRepository
  pub saves_status :
      (s : E.State) (o : KeptnGitRepository)
      → (E.respond (update_status keptn_git_repository o) s).0 ≡ none
      → (o' : KeptnGitRepository) × ((stored
              (E.respond (update_status keptn_git_repository o) s).1
              (key_of_object keptn_git_repository o)
            ≡ some o')
          × (o'.status ≡ o.status))
  pub serves :
      (s : E.State) (key : NamespacedName) (o : KeptnGitRepository)
      → stored s key ≡ some o
      → (E.respond (get_object keptn_git_repository key) s).0 ≡ value o

module _ (E : Env) where
  module _ (S : KeepsStatus E) (k' : KeptnGitRepository) (h : String) where
    -- An object is stored with that commit in its status.
    abbrev IsRecorded : World E → Type 0
    IsRecorded w =
        (o : KeptnGitRepository) × ((S.stored w.state (key_of_object keptn_git_repository k')
            ≡ some o)
          × (o.status.last_commit ≡ h))

    -- If the run of `m` writes the status once, of `k'` and at last, it ends in such a world.
    abbrev Records : Exec E Result → Type 0
    Records m =
        (w : World E)
        → statuses (m w).1 ≡ suc (statuses w)
        → last_saved (m w).1.trace ≡ some k'
        → IsRecorded (m w).1

    Records-after :
        {A : Type 0} (m : Exec E A) (f : A → Exec E Result)
        → Quiet E m
        → ((a : A) → Records (f a))
        → Records (m >>= f)
    unfolding Quiet
    Records-after m f quiet hf w more saved = go (m w).0 (m w).1 (quiet w) more saved
      where
        go :
            (o : Outcome _) (w1 : World E)
            → written w1 ≡ written w
            → statuses (continue o f w1).1 ≡ suc (statuses w)
            → last_saved (continue o f w1).1.trace ≡ some k'
            → IsRecorded (continue o f w1).1
        go (returned a) w1 same more saved =
            hf a w1 (more ∙ ap (λ t. suc (count is_status_update t)) (sym same)) saved
        go (ended m) w1 same more saved =
            absurd (omega (arith, more, ap (count is_status_update) same))

    Records-next_manifest :
        (rest : Exec E Result) (w : World E) (x : Outcome (Reply Bool) × World E)
        → Records rest
        → IsCheck E w x
        → statuses (continue x.0 (next_manifest E rest) x.1).1 ≡ suc (statuses w)
        → last_saved (continue x.0 (next_manifest E rest) x.1).1.trace ≡ some k'
        → IsRecorded (continue x.0 (next_manifest E rest) x.1).1
    Records-next_manifest rest w (returned (value true), w1) hr (s, c) more saved =
        absurd (omega arith)
    Records-next_manifest rest w (returned (error e), w1) hr (s, c) more saved =
        absurd (omega arith)
    Records-next_manifest rest w (ended m, w1) hr (s, c) more saved = absurd (omega arith)
    Records-next_manifest rest w (returned (value false), w1) hr (s, c) more saved =
        hr w1 (more ∙ ap suc (sym s)) saved

    Records-check_all :
        {A : Type 0} (check : A → Exec E (Reply Bool)) (l : List A) (rest : Exec E Result)
        → ((a : A) (w : World E) → IsCheck E w (check a w))
        → Records rest
        → Records (check_all E check l rest)
    unfolding check_all
    Records-check_all check [] rest each hr w = hr w
    Records-check_all check (x ∷ l) rest each hr w =
        Records-next_manifest _ w (check x w) (Records-check_all check l rest each hr) (each x w)

    Records-update_status_result :
        (repo : KeptnGitRepository) → Records (update_status_result E repo h)
    unfolding update_status_result perform
    Records-update_status_result repo w more saved = go _ refl saved
      where
        go :
            (r : Option GoError)
            → (E.respond (update_status keptn_git_repository (with_commit repo h)) w.state).0 ≡ r
            → last_saved (did (update_status keptn_git_repository (with_commit repo h)) r ∷ w.trace)
              ≡ some k'
            → IsRecorded (update_status_result E repo h w).1
        go (some e) q s = absurd (ground arith)
        go none q s =
            let same : with_commit repo h ≡ k' = ground arith in
            let (o, (here, kept)) = S.saves_status w.state (with_commit repo h) q in
            (o, (rw (← same) here, ap (λ s. s.last_commit) kept))

    module _ (repo : KeptnGitRepository) where
      Records-apply_deployments : (m : KeptnManifests) → Records (apply_deployments E repo m h)
      unfolding apply_deployments
      Records-apply_deployments m =
          Records-check_all _ m.services _ (IsCheck-check_create E service repo) (
            Records-check_all _ m.execution _ (IsCheck-check_create E sequence_execution repo) (
              Records-check_all _ m.servicedeployments _
                (IsCheck-check_create E service_deployment repo)
                (Records-update_status_result repo)))

      Records-deliver_and_apply :
          (n d : String) (m : KeptnManifests) → Records (deliver_and_apply E repo n d m h)
      unfolding deliver_and_apply
      Records-deliver_and_apply n d m =
          Records-after _ _ (written-deliver_artifacts E n repo.spec.base_dir d)
            λ r. Records-apply_deployments m

      Records-apply_manifests :
          (n d : String) (r : Reply KeptnManifests) → Records (apply_manifests E repo n d h r)
      unfolding apply_manifests
      Records-apply_manifests n d (error e) = λ w more saved. absurd (omega arith)
      Records-apply_manifests n d (value m) =
          Records-check_all _ m.instances _ (IsCheck-check_create E instance_ repo) (
            Records-check_all _ m.sequences _ (IsCheck-check_create E sequence_ repo) (
              Records-check_all _ m.stages _ (IsCheck-check_create E stage repo) (
                Records-check_all _ m.projects _ (IsCheck-check_create E project repo)
                  (Records-deliver_and_apply n d m))))

      Records-if :
          (b : Bool) (m n : Exec E Result) → Records m → Records n → Records (if b then m else n)
      Records-if true m n hm hn = hm
      Records-if false m n hm hn = hn

      Records-with_hash : (n d : String) → Records (with_hash E repo n d (value h))
      unfolding with_hash
      Records-with_hash n d =
          Records-if (h == repo.status.last_commit) _ _ (λ w more saved. absurd (omega arith))
            (Records-after _ _ (written-parse_keptn_manifests E d repo.spec.base_dir)
              (Records-apply_manifests n d))

      IsRecorded-with_client :
          (n d : String) (gc : GoGitClient) (w : World E)
          → (E.respond (head gc.repo) w.state).0 ≡ value h
          → statuses (with_client E repo n d (value gc) w).1 ≡ suc (statuses w)
          → last_saved (with_client E repo n d (value gc) w).1.trace ≡ some k'
          → IsRecorded (with_client E repo n d (value gc) w).1
      unfolding with_client get_last_commit_hash perform object_steps
      IsRecorded-with_client n d gc w e more saved =
          rw e (Records-with_hash n d _ (rw e at more) (rw e at saved))

      IsRecorded-checked_out :
          (n d : String) (c : GitRepositoryConfig) (r : Option GoError) (w : World E)
          → (r ≡ none → (E.respond (head d) w.state).0 ≡ value h)
          → let x =
              continue
                (checked_out E c d r w).0
                (with_client E repo n d)
                (checked_out E c d r w).1 in
            statuses x.1 ≡ suc (statuses w) → last_saved x.1.trace ≡ some k' → IsRecorded x.1
      unfolding with_client
      IsRecorded-checked_out n d c (some e) w at more saved = absurd (omega arith)
      IsRecorded-checked_out n d c none w at more saved =
          IsRecorded-with_client n d (record { repo_config = c; repo = d }) w (at refl) more saved

      module _ (remote : HasCommit E repo.spec h) where
        IsRecorded-with_config :
            (n d : String) (o : Outcome (Reply GitRepositoryConfig)) (w : World E)
            → get_git_credentials E repo.spec.repository repo.spec.username repo.spec.token
                repo.spec.branch
              ≡ o
            → statuses (continue o (with_config E repo n d) w).1 ≡ suc (statuses w)
            → last_saved (continue o (with_config E repo n d) w).1.trace ≡ some k'
            → IsRecorded (continue o (with_config E repo n d) w).1
        unfolding with_config get_client checkout perform object_steps
        IsRecorded-with_config n d (ended how) w e more saved = absurd (omega arith)
        IsRecorded-with_config n d (returned (error err)) w e more saved = absurd (omega arith)
        IsRecorded-with_config n d (returned (value c)) w e more saved =
            let call = clone c ("refs/heads/" <> c.branch) d in
            IsRecorded-checked_out n d c (E.respond call w.state).0 (perform call w).1
              (λ r. remote w.state c d e r) more saved

        Records-sync : (n : String) → Records (sync E repo n)
        unfolding sync perform object_steps
        Records-sync n w more saved =
            IsRecorded-with_config n (E.respond (temp_dir "code_tmp_dir") w.state).0 _
              (perform (temp_dir "code_tmp_dir") w).1 refl more saved

    module _ (req : NamespacedName) (repo : KeptnGitRepository)
        (remote : HasCommit E (with_defaults repo).spec h) where
      IsRecorded-reconcile :
          (w : World E)
          → (E.respond (get_object keptn_git_repository req) w.state).0 ≡ value repo
          → statuses (reconcile E req w).1 ≡ suc (statuses w)
          → last_saved (reconcile E req w).1.trace ≡ some k'
          → IsRecorded (reconcile E req w).1
      unfolding reconcile perform with_repository object_steps
      IsRecorded-reconcile w found more saved = rw found (
          Records-sync (with_defaults repo) remote req.namespace _ (rw found at more)
            (rw found at saved))

      reconcile-recorded :
          (w : World E)
          → IsRecorded w
          → ((o : KeptnGitRepository)
              → S.stored w.state (key_of_object keptn_git_repository k') ≡ some o
              → o.spec ≡ repo.spec)
          → written (reconcile E (key_of_object keptn_git_repository k') w).1 ≡ written w
      unfolding reconcile perform with_repository object_steps
      reconcile-recorded w (o, (here, same)) kept =
          let key = key_of_object keptn_git_repository k' in
          let still : HasCommit E (with_defaults o).spec h = rw (kept o here) remote in
          rw (S.serves w.state key o here)
            (written-sync E (with_defaults o) h same still key.namespace _)

      -- On an API server that keeps the status of git repositories as documented: let a
      -- run of Reconcile read a git repository, whose every clone (with the defaults
      -- filled in) has, right after it was made, a given commit as its head; let the run
      -- write the status once, by its last call, which succeeds; and let the object
      -- stored afterwards have the spec that was read. Then a second run for the object
      -- that was written, started where the first ended, creates and updates no object.
      pub recorded_once :
          (w : World E)
          → (E.respond (get_object keptn_git_repository req) w.state).0 ≡ value repo
          → statuses (reconcile E req w).1 ≡ suc (statuses w)
          → last_saved (reconcile E req w).1.trace ≡ some k'
          → ((o : KeptnGitRepository)
              → S.stored (reconcile E req w).1.state (key_of_object keptn_git_repository k')
                ≡ some o
              → o.spec ≡ repo.spec)
          → written (reconcile E (key_of_object keptn_git_repository k') (reconcile E req w).1).1
            ≡ written (reconcile E req w).1
      recorded_once w found more saved kept =
          reconcile-recorded (reconcile E req w).1 (IsRecorded-reconcile w found more saved) kept
