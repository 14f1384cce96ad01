-- ===== src/Operator/Service/Tests.antt =====
-- A service that is deleted, and one that is created.
use keptn_gitops_operator.Operator.Utils.{
  get_keptn_instance, contains_string, filter_projects, filter_services,
}
use keptn_gitops_operator.Operator.Secrets.{decrypt_secret}
use keptn_gitops_operator.Base.{false}
use keptn_gitops_operator.Base.{String, ◌≡◌, ◌≢◌, sym, ap, List, Reply, error, arith}
use keptn_gitops_operator.Cluster.{
  keptn_service, get_object, get_all_projects, Call, Resp, Env, World, ModelProject, perform,
}
use keptn_gitops_operator.Cluster.Sample.{Objects, answer, after}
use keptn_gitops_operator.Operator.Service.Creation.{HaveStages, HasError, creation_reports_error}
use keptn_gitops_operator.Base.{◌∷◌, [], ◌+◌, ◌≤◌, true, refl, value}
use keptn_gitops_operator.Api.{KeptnService}
use keptn_gitops_operator.Cluster.Trace.{count, is_answered, is_update}
use keptn_gitops_operator.Cluster.Sample.{sample_env, sample_world, meta, key, instance_}
use keptn_gitops_operator.Operator.Utils.Traces.{sends}
use keptn_gitops_operator.Operator.Service.Sends.{sends-reconcile_service}
use keptn_gitops_operator.Operator.Service.{reconcile, with_object}
use keptn_gitops_operator.Operator.Service.Deletion.{deletion_first}

abbrev gone : KeptnService
gone = record {
  meta = record (meta "web") {
    deleting = true;
    finalizers = "keptnservices.keptn.sh/finalizer" ∷ [];
  };
  spec = record {
    service = "web";
    project = "podtato";
    version = "";
    stage = "";
    deployment_event = "";
  };
  project_exists = true;
}

deletion_first_example :
    count is_update
        (with_object sample_env (key "web") instance_ "abc" (value gone) sample_world).1.trace
      + 0
    ≤ 0
      + count is_answered
          (with_object sample_env (key "web") instance_ "abc" (value gone) sample_world).1.trace
deletion_first_example =
    deletion_first sample_env (key "web") instance_ "abc" gone sample_world refl

sends-reconcile_service_example :
    sends sample_env (reconcile sample_env (key "web") sample_world).1 ≤ 1
sends-reconcile_service_example = sends-reconcile_service sample_env (key "web") sample_world

-- The cluster with a service that Keptn does not know yet.
abbrev new_service : KeptnService
new_service = record {
  meta = record (meta "api") { finalizers = "keptnservices.keptn.sh/finalizer" ∷ [] };
  spec = record gone.spec { service = "api" };
  project_exists = true;
}

abbrev answer_with_service : (c : Call) → Objects → Resp c
answer_with_service (get_object keptn_service k) s = value new_service
answer_with_service c s = answer c s

abbrev service_env : Env
service_env = record sample_env { respond = λ c s. (answer_with_service c s, after c s) }

abbrev service_world : World service_env
service_world = record { state = sample_world.state; trace = [] }

abbrev or_no_projects : Reply (List ModelProject) → List ModelProject
or_no_projects (error e) = []
or_no_projects (value l) = l

abbrev or_new_service : Reply KeptnService → KeptnService
or_new_service (error e) = new_service
or_new_service (value svc) = svc

one_stage : ◌≢◌ {A = List String} ("dev" ∷ []) []
one_stage e = ground arith

projects-HaveStages :
    (s : Objects) (url token : String) (l : List ModelProject)
    → (service_env.respond (get_all_projects url token) s).0 ≡ value l
    → HaveStages l
projects-HaveStages s url token l e =
    let same : record { project_name = "podtato"; stages = "dev" ∷ [] } ∷ [] ≡ l =
      ap or_no_projects e in
    rw (← same) (one_stage, tt)

service_is_live :
    (s : Objects) (svc : KeptnService)
    → (service_env.respond (get_object keptn_service (key "api")) s).0 ≡ value svc
    → svc.meta.deleting ≡ false
service_is_live s svc e = sym (ap (λ r. (or_new_service r).meta.deleting) e)

service_is_created : sends service_env (reconcile service_env (key "api") service_world).1 ≡ 1
unfolding reconcile perform get_keptn_instance decrypt_secret contains_string filter_projects
    filter_services
service_is_created = refl

creation_reports_error_example : HasError (reconcile service_env (key "api") service_world).0
creation_reports_error_example =
    creation_reports_error service_env projects-HaveStages (key "api") service_is_live service_world
      (rw service_is_created (omega arith))
