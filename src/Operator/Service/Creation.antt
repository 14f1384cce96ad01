-- ===== src/Operator/Service/Creation.antt =====
-- What a run returns that has created a service.
use keptn_gitops_operator.Base.{
  suc, ◌≤◌, String, ◌≡◌, refl, ◌≢◌, Bool, true, false, Option, none, some, List, [], ◌∷◌, arith,
  GoError, Reply, value, error, not_found, failed, Outcome, returned, ended, if◌then◌else◌,
}
use keptn_gitops_operator.Api.{NamespacedName, KeptnService, KeptnInstance}
use keptn_gitops_operator.Cluster.{
  keptn_service, get_object, get_all_projects, ModelProject, Env, World, continue, perform,
}
use keptn_gitops_operator.Operator.Result.{Result}
use keptn_gitops_operator.Operator.Utils.{contains_string, get_keptn_instance, filter_projects}
use keptn_gitops_operator.Operator.Utils.Traces.{sends, sends-get_keptn_instance}
use keptn_gitops_operator.Cluster.{update, pure, Exec, ◌>>=◌}
use keptn_gitops_operator.Operator.Result.{result}
use keptn_gitops_operator.Operator.Service.{
  with_finalizers, finalizer, finalize, check_keptn_project, search_projects, with_projects,
  check_if_service_exists, services_found, with_existence, create_service, save_then, with_project,
  with_live, register, with_object, with_instance, reconcile,
}
use keptn_gitops_operator.Operator.Service.Sends.{sends-check_if_service_exists}

-- Each project has a stage.
abbrev pub HaveStages : List ModelProject → Type 0
HaveStages [] = Unit
HaveStages (p ∷ l) = (p.stages ≢ []) × HaveStages l

abbrev pub HasError : Outcome Result → Type 0
HasError (returned r) = r.err ≢ none
HasError (ended how) = Unit

HaveStages-filter_projects :
    (l : List ModelProject) (p : String) → HaveStages l → HaveStages (filter_projects l p)
unfolding filter_projects
HaveStages-filter_projects [] p h = tt
HaveStages-filter_projects (x ∷ l) p (h, rest) = go _ (HaveStages-filter_projects l p rest)
  where
    go :
        (b : Bool)
        → HaveStages (filter_projects l p)
        → HaveStages (if b then x ∷ filter_projects l p else filter_projects l p)
    go true h' = (h, h')
    go false h' = h'

module _ (E : Env) where
  -- A look-up that finds no service gives an error.
  abbrev Explains : Outcome (Bool × Option GoError) → Type 0
  Explains o = o ≡ returned (false, none) → ⊥

  Explains-services_found :
      (p s : String) (r : Reply (List String)) → Explains (returned (services_found E p s r))
  Explains-services_found p s r h = ground arith

  Explains-search_projects :
      (i : KeptnInstance) (t p s : String) (x : ModelProject) (l : List ModelProject) (w : World E)
      → x.stages ≢ []
      → Explains (search_projects E i t p s (x ∷ l) w).0
  unfolding search_projects perform
  Explains-search_projects i t p s x l w staged = go x.stages staged
    where
      go :
          (stages : List String)
          → stages ≢ []
          → Explains (search_projects E i t p s (record x { stages = stages } ∷ l) w).0
      go [] none_there = absurd (none_there refl)
      go (stage ∷ stages) some_there = Explains-services_found p s _

  Explains-with_projects :
      (i : KeptnInstance) (t p s : String) (r : Reply (List ModelProject)) (w : World E)
      → ((l : List ModelProject) → r ≡ value l → HaveStages l)
      → Explains (with_projects E i t p s r w).0
  unfolding with_projects
  Explains-with_projects i t p s (error e) w staged h = ground arith
  Explains-with_projects i t p s (value l) w staged h =
      go (filter_projects l p) refl (HaveStages-filter_projects l p (staged l refl)) h
    where
      go :
          (found : List ModelProject)
          → filter_projects l p ≡ found
          → HaveStages (filter_projects l p)
          → Explains (with_projects E i t p s (value l) w).0
      go [] q have h = ground (arith, q)
      go (x ∷ more) q have h =
          Explains-search_projects i t p s x more w (rw q at have).0 (rw (with_projects, q) at h)

  module _
      (staged : (s : E.State) (url token : String) (l : List ModelProject)
        → (E.respond (get_all_projects url token) s).0 ≡ value l
        → HaveStages l) where
    Explains-check_if_service_exists :
        (i : KeptnInstance) (t p s : String) (w : World E)
        → Explains (check_if_service_exists E i t p s w).0
    unfolding check_if_service_exists perform
    Explains-check_if_service_exists i t p s w =
        Explains-with_projects i t p s _ _ (λ l e. staged w.state i.spec.api_url t l e)

    -- A run that has sent a request has an error.
    abbrev Reports : World E → Outcome Result × World E → Type 0
    Reports w x = suc (sends E w) ≤ sends E x.1 → HasError x.0

    Reports-from :
        (w w1 : World E) (x : Outcome Result × World E)
        → sends E w1 ≡ sends E w
        → Reports w1 x
        → Reports w x
    Reports-from w w1 x same h more = h (omega (arith, same, more))

    Reports-looked_up :
        (i : KeptnInstance) (t : String) (svc : KeptnService) (o : Outcome (Bool × Option GoError))
        (w : World E)
        → Explains o
        → Reports w (continue o (with_existence E i t svc) w)
    unfolding with_existence create_service perform
    Reports-looked_up i t svc (ended how) w h more = tt
    Reports-looked_up i t svc (returned (true, e)) w h more = absurd (omega arith)
    Reports-looked_up i t svc (returned (false, none)) w h more = absurd (h refl)
    Reports-looked_up i t svc (returned (false, some e)) w h more = ground arith

    Reports-with_project :
        (i : KeptnInstance) (t : String) (svc : KeptnService) (b : Bool) (w : World E)
        → Reports w (with_project E i t svc b w)
    unfolding with_project save_then perform
    Reports-with_project i t svc false w more = absurd (ground arith)
    Reports-with_project i t svc true w more = go svc.project_exists more
      where
        go : (b : Bool) → Reports w (with_project E i t (record svc { project_exists = b }) true w)
        go false more = absurd (ground arith)
        go true more =
            let look = check_if_service_exists E i t svc.spec.project svc.spec.service in
            Reports-from w (look w).1
              (with_project E i t (record svc { project_exists = true }) true w)
              (sends-check_if_service_exists E i t svc.spec.project svc.spec.service w)
              (Reports-looked_up i t (record svc { project_exists = true }) (look w).0 (look w).1
                (Explains-check_if_service_exists i t svc.spec.project svc.spec.service w))
              more

    Reports-with_live :
        (ns : String) (i : KeptnInstance) (t : String) (svc : KeptnService) (w : World E)
        → Reports w (with_live E ns i t svc w)
    unfolding with_live check_keptn_project perform
    Reports-with_live ns i t svc w =
        let check = check_keptn_project E ns svc.spec.project in
        Reports-from w (check w).1 (with_live E ns i t svc w) refl
          (Reports-with_project i t svc _ (check w).1)

    Reports-if :
        (b : Bool) (m n : Exec E Result) (w : World E)
        → (b ≡ true → Reports w (m w))
        → Reports w (n w)
        → Reports w ((if b then m else n) w)
    Reports-if true m n w hm hn = hm refl
    Reports-if false m n w hm hn = hn

    -- What follows the registration of the finalizer.
    abbrev registered :
        String → KeptnInstance → String → KeptnService → Option GoError → Exec E Result
    registered ns i t svc (some e) = pure (result false 0 (some e))
    registered ns i t svc none = with_live E ns i t svc

    Reports-registered :
        (ns : String) (i : KeptnInstance) (t : String) (svc : KeptnService) (r : Option GoError)
        (w : World E)
        → Reports w (registered ns i t svc r w)
    Reports-registered ns i t svc (some e) w more = absurd (omega arith)
    Reports-registered ns i t svc none w more = Reports-with_live ns i t svc w more

    Reports-register :
        (ns : String) (i : KeptnInstance) (t : String) (svc : KeptnService) (w : World E)
        → Reports w (register E ns i t svc w)
    unfolding register perform
    Reports-register ns i t svc w =
        let svc' = with_finalizers E svc (E.add_finalizer svc.meta.finalizers finalizer) in
        let first = update keptn_service svc' in
        let added : Exec E Result = perform first >>= registered ns i t svc' in
        Reports-if (contains_string svc.meta.finalizers finalizer) (with_live E ns i t svc) added w
          (λ e. Reports-with_live ns i t svc w)
          (Reports-from w (perform first w).1 (added w) refl
            (Reports-registered ns i t svc' (E.respond first w.state).0 (perform first w).1))

    module _ (req : NamespacedName)
        (live : (s : E.State) (svc : KeptnService)
          → (E.respond (get_object keptn_service req) s).0 ≡ value svc
          → svc.meta.deleting ≡ false) where
      Reports-with_object :
          (i : KeptnInstance) (t : String) (r : Reply KeptnService) (w : World E)
          → ((svc : KeptnService) → r ≡ value svc → svc.meta.deleting ≡ false)
          → Reports w (with_object E req i t r w)
      unfolding with_object
      Reports-with_object i t (error (not_found m)) w h more = absurd (omega arith)
      Reports-with_object i t (error (failed m)) w h more = absurd (omega arith)
      Reports-with_object i t (value svc) w h more =
          Reports-if svc.meta.deleting (finalize E i t svc) (register E req.namespace i t svc) w
            (λ e. absurd (ground (arith, e, h svc refl))) (Reports-register req.namespace i t svc w)
            more

      Reports-with_instance :
          (o : Outcome (Reply (KeptnInstance × String))) (w : World E)
          → Reports w (continue o (with_instance E req) w)
      unfolding with_instance perform
      Reports-with_instance (ended m) w more = tt
      Reports-with_instance (returned (error e)) w more = absurd (omega arith)
      Reports-with_instance (returned (value (i, t))) w more =
          let get = get_object keptn_service req in
          Reports-from w (perform get w).1
            (continue (returned (value (i, t))) (with_instance E req) w) refl
            (Reports-with_object i t (E.respond get w.state).0 (perform get w).1 (live w.state))
            more

      -- Where each project that the Keptn API lists has a stage, and no read gives the
      -- service object as being deleted: a run of Reconcile of the services that sends a
      -- request which creates or deletes something in the Keptn API returns an error or
      -- does not return, also where the service has been created.
      pub creation_reports_error :
          (w : World E)
          → suc (sends E w) ≤ sends E (reconcile E req w).1
          → HasError (reconcile E req w).0
      unfolding reconcile
      creation_reports_error w =
          Reports-from w (get_keptn_instance E req.namespace w).1 (reconcile E req w)
            (sends-get_keptn_instance E req.namespace w)
            (Reports-with_instance (get_keptn_instance E req.namespace w).0
              (get_keptn_instance E req.namespace w).1)
