-- ===== src/Gitops/Apply/Tests.antt =====
-- A stage that is applied to the small cluster twice.
use keptn_gitops_operator.Base.{
  ◌≡◌, refl, Option, none, some, [], true, false, not_found, value, error, returned, arith, GoError,
}
use keptn_gitops_operator.Api.{NamespacedName, KeptnStage, KeptnGitRepository}
use keptn_gitops_operator.Cluster.{Call, keptn_stage, create, update, perform}
use keptn_gitops_operator.Cluster.Trace.{writes, key_of_object}
use keptn_gitops_operator.Cluster.Sample.{
  sample_env, sample_world, meta, Objects, stage_at, found, after,
}
use keptn_gitops_operator.Cluster.Sample.Laws.{is_key_refl, one-found}
use keptn_gitops_operator.Gitops.Parts.{stage}
use keptn_gitops_operator.Gitops.Apply.{check_create}
use keptn_gitops_operator.Gitops.Apply.Store.{KeepsAnnotations, changes}
use keptn_gitops_operator.Gitops.Apply.Again.{check_create_once, check_create-IsDone, IsDone}

stage_at-found :
    (m : Option KeptnStage) (k : NamespacedName) (o : KeptnStage)
    → found (stage_at m k) ≡ value o
    → (stage_at m k ≡ some o) × (key_of_object keptn_stage o ≡ k)
stage_at-found none k o h = absurd (ground arith)
stage_at-found (some o') k o h = one-found (λ (o : KeptnStage). o.meta) o' o k h

not-found : (m : Option KeptnStage) (e : GoError) → found m ≡ error e → m ≡ none
not-found none e h = refl
not-found (some o) e h = absurd (ground arith)

stage_KeepsAnnotations : KeepsAnnotations sample_env keptn_stage
stage_KeepsAnnotations = record {
  stored = λ s k. stage_at s.stage k;
  reads = λ s k o h. stage_at-found s.stage k o h;
  misses = λ s k m h. not-found (stage_at s.stage k) (not_found m) h;
  creates = λ s o h. (o, (rw (is_key_refl o.meta) refl, refl));
  updates = λ s o h. (o, (rw (is_key_refl o.meta) refl, refl));
  keeps = keeps;
}
  where
    keeps :
        (s : Objects) (k : NamespacedName) (c : Call)
        → writes keptn_stage c ≡ false
        → stage_at (after c s).stage k ≡ stage_at s.stage k
    keeps s k (create keptn_stage o) h = absurd (ground arith)
    keeps s k (update keptn_stage o) h = absurd (ground arith)
    keeps s k _ h = refl

abbrev repository : KeptnGitRepository
repository = record {
  meta = meta "podtato";
  spec = record {
    repository = "";
    token = "";
    username = "";
    branch = "main";
    base_dir = ".keptn";
  };
  status = record { last_commit = ""; result = "" };
}

abbrev dev : KeptnStage
dev = record { meta = meta "dev"; spec = record { project = "podtato"; sequence = [] } }

dev-created : (check_create sample_env stage repository dev sample_world).0 ≡ returned (value true)
unfolding check_create perform
dev-created = refl

check_create_once_example :
    changes sample_env
      (check_create sample_env stage repository dev
        (check_create sample_env stage repository dev sample_world).1).1
    ≡ changes sample_env (check_create sample_env stage repository dev sample_world).1
check_create_once_example =
    check_create_once sample_env stage stage_KeepsAnnotations repository dev true sample_world
      dev-created

check_create-IsDone_example :
    IsDone sample_env stage stage_KeepsAnnotations repository dev
      (check_create sample_env stage repository dev sample_world).1
check_create-IsDone_example =
    check_create-IsDone sample_env stage stage_KeepsAnnotations repository dev true sample_world
      dev-created
