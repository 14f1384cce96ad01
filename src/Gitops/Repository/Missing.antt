-- ===== src/Gitops/Repository/Missing.antt =====
-- How many manifests have no object in the cluster, and what a loop over the manifests of a kind
-- does to that number.
use keptn_gitops_operator.Base.{
  ℕ, ◌+◌, ◌≤◌, ◌<◌, ◌≡◌, refl, Bool, true, false, none, List, [], ◌∷◌, arith, Reply, value, error,
  Outcome, returned, ended,
}
use keptn_gitops_operator.Api.{KeptnGitRepository}
use keptn_gitops_operator.Cluster.{Env, World, Exec, continue}
use keptn_gitops_operator.Operator.Result.{Result}
use keptn_gitops_operator.Cluster.Within.{Calling, Within-pure, Within-bind}
use keptn_gitops_operator.Gitops.Parts.{Part, Resource, kind_of}
use keptn_gitops_operator.Gitops.Apply.{check_create, key_in}
use keptn_gitops_operator.Gitops.Apply.Stored.{KeepsObjects, stored-Calling, IsStored-check_create}
use keptn_gitops_operator.Gitops.Apply.Absent.{IsAbsent-check_create}
use keptn_gitops_operator.Gitops.Apply.Callings.{Calling-check_create}
use keptn_gitops_operator.Gitops.Repository.{next_manifest, check_all}

-- After a run that asks to be run again a measure has fallen, after another it is 0.
abbrev pub Progress : Bool → ℕ → ℕ → Type 0
Progress true before after = after < before
Progress false before after = after ≡ 0

pub Progress-weaken :
    (b : Bool) (n n' k k' : ℕ) → n ≤ n' → k ≡ k' → Progress b n k → Progress b n' k'
Progress-weaken true n n' k k' h e q = omega arith
Progress-weaken false n n' k k' h e q = omega arith

module _ (E : Env) (S : KeepsObjects E) (repo : KeptnGitRepository) where
  abbrev one_missing : Bool → ℕ
  one_missing true = 0
  one_missing false = 1

  -- How many of the manifests of a kind have no object.
  abbrev pub missing_of : (p : Part) → List (Resource p) → World E → ℕ
  missing_of p [] w = 0
  missing_of p (x ∷ l) w =
      one_missing (S.stored w.state (kind_of p) (key_in p repo x)) + missing_of p l w

  -- A measure that no calls raise.
  abbrev pub Falling : (World E → ℕ) → Type 1
  Falling M = (A : Type 0) (m : Exec E A) (w : World E) → Calling E m → M (m w).1 ≤ M w

  Falling-one : (b c : Bool) → (b ≡ true → c ≡ true) → one_missing c ≤ one_missing b
  Falling-one true c h = rw (h refl) (omega arith)
  Falling-one false true h = omega arith
  Falling-one false false h = omega arith

  pub Falling-missing_of : (p : Part) (l : List (Resource p)) → Falling (missing_of p l)
  Falling-missing_of p [] A m w h = omega arith
  Falling-missing_of p (x ∷ l) A m w h =
      let first =
        Falling-one (S.stored w.state (kind_of p) (key_in p repo x))
          (S.stored (m w).1.state (kind_of p) (key_in p repo x))
          (stored-Calling E S m (kind_of p) (key_in p repo x) w h) in
      omega (arith, first, Falling-missing_of p l A m w h)

  -- Code that makes progress on a measure where it ends without an error.
  abbrev pub Progresses : (World E → ℕ) → Exec E Result → Type 0
  Progresses M m =
      (w : World E) (r : Result)
      → (m w).0 ≡ returned r
      → r.err ≡ none
      → Progress r.requeue (M w) (M (m w).1)

  Calling-next_manifest :
      (rest : Exec E Result) (r : Reply Bool) → Calling E rest → Calling E (next_manifest E rest r)
  Calling-next_manifest rest (error e) h = Within-pure E _ _
  Calling-next_manifest rest (value true) h = Within-pure E _ _
  Calling-next_manifest rest (value false) h = h

  pub Calling-check_all :
      (p : Part) (l : List (Resource p)) (rest : Exec E Result)
      → Calling E rest
      → Calling E (check_all E (check_create E p repo) l rest)
  unfolding check_all
  Calling-check_all p [] rest h = h
  Calling-check_all p (x ∷ l) rest h =
      Within-bind E _ _ _ (Calling-check_create E p repo x)
        λ r. Calling-next_manifest _ r (Calling-check_all p l rest h)

  module _ (M : World E → ℕ) (falls : Falling M) (p : Part) (rest : Exec E Result)
      (calls : Calling E rest) where
    -- The measure of the manifests of a kind, and what follows.
    abbrev with_kind : List (Resource p) → World E → ℕ
    with_kind l w = missing_of p l w + M w

    -- After the check of the first manifest of a list.
    Progress-checked :
        (x : Resource p) (l : List (Resource p)) (w : World E) (o : Outcome (Reply Bool))
        (w1 : World E) (r : Result)
        → ((b : Bool)
            → o ≡ returned (value b)
            → S.stored w1.state (kind_of p) (key_in p repo x) ≡ true)
        → (o ≡ returned (value true) → S.stored w.state (kind_of p) (key_in p repo x) ≡ false)
        → missing_of p l w1 ≤ missing_of p l w
        → M w1 ≤ M w
        → Progresses (with_kind l) (check_all E (check_create E p repo) l rest)
        → (continue o (next_manifest E (check_all E (check_create E p repo) l rest)) w1).0
          ≡ returned r
        → r.err ≡ none
        → Progress r.requeue (with_kind (x ∷ l) w) (
            with_kind
              (x ∷ l)
              (continue o (next_manifest E (check_all E (check_create E p repo) l rest)) w1).1)
    Progress-checked x l w (ended m) w1 r there gone fl fm more ok fine = absurd (ground arith)
    Progress-checked x l w (returned (error e)) w1 r there gone fl fm more ok fine =
        absurd (ground arith)
    Progress-checked x l w (returned (value true)) w1 r there gone fl fm more ok fine =
        let same : r.requeue ≡ true = ground arith in
        rw (same, there true refl, gone refl) (omega (arith, fl, fm))
    Progress-checked x l w (returned (value false)) w1 r there gone fl fm more ok fine =
        let rest' = check_all E (check_create E p repo) l rest in
        let here : S.stored (rest' w1).1.state (kind_of p) (key_in p repo x) ≡ true =
          stored-Calling E S rest' (kind_of p) (key_in p repo x) w1
            (Calling-check_all p l rest calls) (there false refl) in
        rw here (
          Progress-weaken r.requeue _ _ _ _ (omega (arith, fl, fm)) (omega arith)
            (more w1 r ok fine))

    pub Progresses-check_all :
        (l : List (Resource p))
        → Progresses M rest
        → Progresses (with_kind l) (check_all E (check_create E p repo) l rest)
    unfolding check_all
    Progresses-check_all [] h w =
        λ r ok fine. Progress-weaken r.requeue _ _ _ _ (omega arith) (omega arith) (h w r ok fine)
    Progresses-check_all (x ∷ l) h w =
        let check = check_create E p repo x in
        let call = Calling-check_create E p repo x in
        λ r ok fine.
          Progress-checked x l w (check w).0 (check w).1 r
            (λ b e. IsStored-check_create E p repo S x w b e)
            (λ e. IsAbsent-check_create E p repo S x w e) (Falling-missing_of p l _ check w call)
            (falls _ check w call) (Progresses-check_all l h) ok fine
