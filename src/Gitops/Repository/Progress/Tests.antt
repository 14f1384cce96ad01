-- ===== src/Gitops/Repository/Progress/Tests.antt =====
-- An API server that serves stages only: one manifest is applied, and the run asks to be run again.
use keptn_gitops_operator.Base.{
  ◌<◌, ◌≡◌, refl, Bool, true, false, Option, none, some, List, [], ◌∷◌, arith, value, error, String,
  not_found, failed, Outcome, returned, if◌then◌else◌, lookup,
}
use keptn_gitops_operator.Api.{NamespacedName, KeptnStage}
use keptn_gitops_operator.Cluster.{
  Kind, Object, keptn_stage, Call, Resp, get_object, create, Env, World, perform,
}
use keptn_gitops_operator.Cluster.Trace.{key_of_object}
use keptn_gitops_operator.Cluster.Sample.{
  sample_env, sample_world, answer, is_key, found, dev, repository,
}
use keptn_gitops_operator.Cluster.Sample.Laws.{is_key_refl}
use keptn_gitops_operator.Operator.Result.{Result, result}
use keptn_gitops_operator.Base.Paths.{clean}
use keptn_gitops_operator.Gitops.Git.{for_each_tag}
use keptn_gitops_operator.Gitops.Apply.{check_create}
use keptn_gitops_operator.Gitops.Apply.Stored.{KeepsObjects}
use keptn_gitops_operator.Gitops.Manifests.{KeptnManifests, no_manifests}
use keptn_gitops_operator.Gitops.Repository.{apply_manifests}
use keptn_gitops_operator.Gitops.Repository.Progress.{apply_manifests-Progresses, missing}

abbrev stage_named : List KeptnStage → NamespacedName → Option KeptnStage
stage_named [] k = none
stage_named (o ∷ l) k = if is_key o.meta k then some o else stage_named l k

abbrev has_stage : List KeptnStage → NamespacedName → Bool
has_stage [] k = false
has_stage (o ∷ l) k = if is_key o.meta k then true else has_stage l k

abbrev has : List KeptnStage → Kind → NamespacedName → Bool
has l keptn_stage key = has_stage l key
has l _ key = false

abbrev answer_stages : (c : Call) → List KeptnStage → Resp c
answer_stages (get_object keptn_stage k) l = found (stage_named l k)
answer_stages (get_object _ k) l = error (failed "no such kind")
answer_stages (create keptn_stage o) l = none
answer_stages (create _ o) l = some (failed "no such kind")
answer_stages c l = answer c sample_world.state

abbrev stages_after : Call → List KeptnStage → List KeptnStage
stages_after (create keptn_stage o) l = o ∷ l
stages_after _ l = l

abbrev stages_env : Env
stages_env = record sample_env {
  State = List KeptnStage;
  respond = λ c l. (answer_stages c l, stages_after c l);
}

stages-found :
    (l : List KeptnStage) (k : NamespacedName) (o : KeptnStage)
    → found (stage_named l k) ≡ value o
    → has_stage l k ≡ true
stages-found [] k o h = absurd (ground arith)
stages-found (x ∷ l) k o h = go (is_key x.meta k) (stages-found l k o) h
  where
    go :
        (b : Bool)
        → (found (stage_named l k) ≡ value o → has_stage l k ≡ true)
        → found (if b then some x else stage_named l k) ≡ value o
        → (if b then true else has_stage l k) ≡ true
    go true more h = refl
    go false more h = more h

stages-absent :
    (l : List KeptnStage) (k : NamespacedName) (m : String)
    → found (stage_named l k) ≡ error (not_found m)
    → has_stage l k ≡ false
stages-absent [] k m h = refl
stages-absent (x ∷ l) k m h = go (is_key x.meta k) (stages-absent l k m) h
  where
    go :
        (b : Bool)
        → (found (stage_named l k) ≡ error (not_found m) → has_stage l k ≡ false)
        → found (if b then some x else stage_named l k) ≡ error (not_found m)
        → (if b then true else has_stage l k) ≡ false
    go true more h = absurd (ground arith)
    go false more h = more h

stages_KeepsObjects : KeepsObjects stages_env
stages_KeepsObjects = record {
  stored = has;
  found = finds;
  absent = misses;
  created = creates;
  kept = keeps;
}
  where
    finds :
        (l : List KeptnStage) (k : Kind) (key : NamespacedName) (o : Object k)
        → answer_stages (get_object k key) l ≡ value o
        → has l k key ≡ true
    finds l keptn_stage key o h = stages-found l key o h
    finds l _ key o h = absurd (ground arith)

    misses :
        (l : List KeptnStage) (k : Kind) (key : NamespacedName) (m : String)
        → answer_stages (get_object k key) l ≡ error (not_found m)
        → has l k key ≡ false
    misses l keptn_stage key m h = stages-absent l key m h
    misses l _ key m h = refl

    creates :
        (l : List KeptnStage) (k : Kind) (o : Object k)
        → answer_stages (create k o) l ≡ none
        → has (stages_after (create k o) l) k (key_of_object k o) ≡ true
    creates l keptn_stage o h = rw (is_key_refl o.meta) refl
    creates l _ o h = absurd (ground arith)

    keeps-create : (b c : Bool) → c ≡ true → (if b then true else c) ≡ true
    keeps-create true c h = refl
    keeps-create false c h = h

    keeps_stage :
        (l : List KeptnStage) (key : NamespacedName) (c : Call)
        → has_stage l key ≡ true
        → has_stage (stages_after c l) key ≡ true
    keeps_stage l key (create keptn_stage o) h =
        keeps-create (is_key o.meta key) (has_stage l key) h
    keeps_stage l key _ h = h

    keeps :
        (l : List KeptnStage) (k : Kind) (key : NamespacedName) (c : Call)
        → has l k key ≡ true
        → has (stages_after c l) k key ≡ true
    keeps l keptn_stage key c h = keeps_stage l key c h
    keeps l _ key c h = absurd (ground arith)

abbrev empty_cluster : World stages_env
empty_cluster = record { state = []; trace = [] }

abbrev one_stage : KeptnManifests
one_stage = record no_manifests { stages = dev ∷ [] }

abbrev applied : Outcome Result × World stages_env
applied =
    apply_manifests stages_env repository "keptn" "/tmp/x" "abc" (value one_stage) empty_cluster

applied_again : applied.0 ≡ returned (result true 1 none)
unfolding apply_manifests perform clean check_create lookup for_each_tag
applied_again = refl

apply_manifests-Progresses_example :
    missing stages_env stages_KeepsObjects repository one_stage applied.1
    < missing stages_env stages_KeepsObjects repository one_stage empty_cluster
apply_manifests-Progresses_example =
    apply_manifests-Progresses stages_env stages_KeepsObjects repository "keptn" "/tmp/x" "abc"
      one_stage empty_cluster (result true 1 none) applied_again refl
