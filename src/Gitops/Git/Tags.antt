-- ===== src/Gitops/Git/Tags.antt =====
-- What TagExists says.
use keptn_gitops_operator.Base.{
  String, ◌≡◌, refl, ◌⊎◌, inl, inr, Option, some, List, [], ◌∷◌, arith, eq_refl, GoError, value,
  returned,
}
use keptn_gitops_operator.Cluster.{tag_objects, Env, World, perform}
use keptn_gitops_operator.Gitops.Git.{GoGitClient, for_each_tag, tag_found, tag_exists}

-- Whether a tag is among some.
abbrev pub HasTag : String → List String → Type 0
HasTag tag [] = ⊥
HasTag tag (t ∷ ts) = (t ≡ tag) ⊎ HasTag tag ts

for_each_tag-HasTag :
    (tag : String) (tags : List String) (ended : Option GoError)
    → HasTag tag tags
    → for_each_tag tag tags ended ≡ some tag_found
unfolding for_each_tag
for_each_tag-HasTag tag [] ended h = absurd h
for_each_tag-HasTag tag (t ∷ ts) ended (inl e) = rw (e, eq_refl tag) refl
for_each_tag-HasTag tag (t ∷ ts) ended (inr h) = ground (arith, for_each_tag-HasTag tag ts ended h)

-- A tag that is there is found, also where the iteration would end in an error.
pub tag_exists-HasTag :
    (E : Env) (gc : GoGitClient) (tag : String) (tags : List String) (ended : Option GoError)
    (w : World E)
    → (E.respond (tag_objects gc.repo) w.state).0 ≡ value (tags, ended)
    → HasTag tag tags
    → (tag_exists E gc tag w).0 ≡ returned (some tag_found)
unfolding tag_exists perform
tag_exists-HasTag E gc tag tags ended w e h = rw (e, for_each_tag-HasTag tag tags ended h) refl

-- TagExists makes one call, which lists the tags.
pub trace-tag_exists :
    (E : Env) (gc : GoGitClient) (tag : String) (w : World E)
    → (tag_exists E gc tag w).1 ≡ (perform (tag_objects gc.repo) w).1
unfolding tag_exists perform
trace-tag_exists E gc tag w = refl
