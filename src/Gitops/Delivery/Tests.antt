-- ===== src/Gitops/Delivery/Tests.antt =====
-- A service whose tag is there.
use keptn_gitops_operator.Base.{◌≡◌, refl, inl, true, none, some, [], ◌∷◌, failed, value, returned}
use keptn_gitops_operator.Cluster.{
  Call, tag_objects, delete_tag_object, DirectoryData, Resp, Env, World, perform,
}
use keptn_gitops_operator.Cluster.Sample.{
  sample_env, sample_world, Objects, web_metadata, answer, after,
}
use keptn_gitops_operator.Gitops.Files.{Services}
use keptn_gitops_operator.Gitops.Git.{GoGitClient}
use keptn_gitops_operator.Gitops.Delivery.{compose_data}
use keptn_gitops_operator.Gitops.Delivery.Skips.{delivered_once, other_steps}
use keptn_gitops_operator.Gitops.Git.{tag_exists, for_each_tag}
use keptn_gitops_operator.Gitops.Delivery.{compose_each}
use keptn_gitops_operator.Gitops.Delivery.Overwrites.{flag_blocks_new_tag}

abbrev client : GoGitClient
client = record {
  repo_config = record {
    remote_uri = "https://git/podtato";
    user = "keptn";
    token = "t";
    branch = "main";
  };
  repo = "/tmp/x";
}

-- The small cluster, where the upstream repository has had the tag from the start.
abbrev tagged_answer : (c : Call) → Objects → Resp c
tagged_answer (tag_objects dir) s = value ("web-1.2-0" ∷ [], none)
tagged_answer c s = answer c s

abbrev tagged_env : Env
tagged_env = record sample_env { State = Objects; respond = λ c s. (tagged_answer c s, after c s) }

abbrev web : DirectoryData
web = record { directory_name = "web"; path = "/tmp/x/.keptn/base/web" }

abbrev services : Services
services = (web, web_metadata) ∷ []

abbrev tagged_world : World tagged_env
tagged_world = record { state = sample_world.state; trace = [] }

delivered_once_example :
    ((compose_data tagged_env client "/tmp/y" services [] tagged_world).0 ≡ returned none)
    × (other_steps (compose_data tagged_env client "/tmp/y" services [] tagged_world).1.trace ≡ [])
delivered_once_example =
    delivered_once tagged_env client "/tmp/y" [] services tagged_world
      (refl, ((λ s. ("web-1.2-0" ∷ [], (none, (refl, inl refl)))), tt))

-- The small cluster, where there is no tag to delete.
abbrev untagged_answer : (c : Call) → Objects → Resp c
untagged_answer (delete_tag_object dir tag) s = some (failed "tag not found")
untagged_answer c s = answer c s

abbrev untagged_env : Env
untagged_env = record sample_env {
  State = Objects;
  respond = λ c s. (untagged_answer c s, after c s);
}

abbrev untagged_world : World untagged_env
untagged_world = record { state = sample_world.state; trace = [] }

flag_blocks_new_tag_example :
    (compose_each untagged_env client "/tmp/y" [] services true untagged_world).0 ≡ returned none
    → ⊥
unfolding tag_exists perform for_each_tag
flag_blocks_new_tag_example =
    flag_blocks_new_tag untagged_env client web web_metadata (λ s. (failed "tag not found", refl))
      "/tmp/y" [] [] untagged_world refl
