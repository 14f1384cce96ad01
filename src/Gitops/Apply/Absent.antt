-- ===== src/Gitops/Apply/Absent.antt =====
-- Where a run of checkCreate has created an object, there was none under the manifest's name.
use keptn_gitops_operator.Base.{
  String, ◌≡◌, refl, sym, ap, ◌∙◌, Bool, true, false, Option, none, some, List, arith, GoError,
  not_found, failed, Reply, value, error, Outcome, returned, ended, if◌then◌else◌,
}
use keptn_gitops_operator.Api.{NamespacedName, KeptnGitRepository}
use keptn_gitops_operator.Cluster.{
  meta_of, Call, get_object, set_controller_reference, Env, World, pure, continue, perform, ◌>>=◌,
}
use keptn_gitops_operator.Gitops.Parts.{
  Part, kind_of, Resource, is_owned, with_meta, meta_of-with_meta,
}
use keptn_gitops_operator.Gitops.Apply.{
  reconcile, create_or_reconcile, look_up, with_owner, not_created, check_create, annotated, key_in,
}
use keptn_gitops_operator.Gitops.Apply.Stored.{KeepsObjects}

module _ (E : Env) (p : Part) (repo : KeptnGitRepository) (S : KeepsObjects E) where
  -- What holds no object after a call held none before it.
  absent-before :
      (key : NamespacedName) (c : Call) (w : World E)
      → S.stored (E.respond c w.state).1 (kind_of p) key ≡ false
      → S.stored w.state (kind_of p) key ≡ false
  absent-before key c w h = go _ refl
    where
      go :
          (b : Bool)
          → S.stored w.state (kind_of p) key ≡ b
          → S.stored w.state (kind_of p) key ≡ false
      go false e = e
      go true e = absurd (ground (arith, h, S.kept w.state (kind_of p) key c e))

  -- There is no object under the manifest's name.
  abbrev pub IsAbsent : Resource p → World E → Type 0
  IsAbsent x w = S.stored w.state (kind_of p) (key_in p repo x) ≡ false

  IsAbsent-create_or_reconcile :
      (x : Resource p) (w0 : World E) (r : Reply (Resource p)) (w : World E)
      → ((m : String) → r ≡ error (not_found m) → IsAbsent x w0)
      → (create_or_reconcile E p repo x r w).0 ≡ returned (value true)
      → IsAbsent x w0
  unfolding create_or_reconcile perform
  IsAbsent-create_or_reconcile x w0 (error (not_found m)) w gone ok = gone m refl
  IsAbsent-create_or_reconcile x w0 (error (failed m)) w gone ok = absurd (ground arith)
  IsAbsent-create_or_reconcile x w0 (value o) w gone ok =
      absurd (go (reconcile E p repo x w).0 (reconcile E p repo x w).1 ok)
    where
      go :
          (o : Outcome (Option GoError)) (w1 : World E)
          → (continue o (λ bad. pure (not_created E bad)) w1).0 ≡ returned (value true)
          → ⊥
      go (returned none) w1 h = ground arith
      go (returned (some e)) w1 h = ground arith
      go (ended m) w1 h = ground arith

  IsAbsent-look_up :
      (x : Resource p) (w : World E)
      → (look_up E p repo x w).0 ≡ returned (value true)
      → IsAbsent x w
  unfolding look_up perform
  IsAbsent-look_up x w ok =
      let k = key_in p repo x in
      IsAbsent-create_or_reconcile x w (E.respond (get_object (kind_of p) k) w.state).0 _
        (λ m e. S.absent w.state (kind_of p) k m e) ok

  IsAbsent-with_owner :
      (x : Resource p) (r : Reply (List String)) (w : World E)
      → (with_owner E p repo x r w).0 ≡ returned (value true)
      → IsAbsent x w
  unfolding with_owner
  IsAbsent-with_owner x (error e) w ok = absurd (ground arith)
  IsAbsent-with_owner x (value owners) w ok =
      let m = record (meta_of (kind_of p) x) { owners = owners } in
      let same : key_in p repo (with_meta p m x) ≡ key_in p repo x = rw meta_of-with_meta refl in
      ap (S.stored _ (kind_of p)) (sym same) ∙ IsAbsent-look_up (with_meta p m x) w ok

  IsAbsent-owned :
      (c : Bool) (x : Resource p) (w : World E)
      → ((if c
            then (perform (set_controller_reference repo.meta.name (meta_of (kind_of p) x))
                >>= with_owner E p repo x)
            else look_up E p repo x)
          w).0
        ≡ returned (value true)
      → IsAbsent x w
  unfolding perform
  IsAbsent-owned true x w ok =
      absent-before (key_in p repo x)
        (set_controller_reference repo.meta.name (meta_of (kind_of p) x)) w
        (IsAbsent-with_owner x _ _ ok)
  IsAbsent-owned false x w ok = IsAbsent-look_up x w ok

  -- Where a run of checkCreate has created an object, there was none under the manifest's name.
  pub IsAbsent-check_create :
      (x : Resource p) (w : World E)
      → (check_create E p repo x w).0 ≡ returned (value true)
      → IsAbsent x w
  unfolding check_create annotated
  IsAbsent-check_create x w ok =
      let same : key_in p repo (annotated E p repo x) ≡ key_in p repo x =
        rw meta_of-with_meta refl in
      ap (S.stored _ (kind_of p)) (sym same)
      ∙ IsAbsent-owned (is_owned p) (annotated E p repo x) w ok
