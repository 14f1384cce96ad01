-- ===== src/Cluster/Fails.antt =====
-- Code that never returns nil for its error.
use keptn_gitops_operator.Base.{
  String, ◌≡◌, Option, none, some, arith, GoError, Outcome, returned, ended,
}
use keptn_gitops_operator.Cluster.Monad.{Env, World, Exec, continue, or_fail, ◌>>=◌}

module _ (E : Env) where
  unfoldable pub Fails : Exec E (Option GoError) → Type 0
  Fails m = (w : World E) → (m w).0 ≡ returned none → ⊥

  pub Fails-after :
      {A : Type 0} (m : Exec E A) (f : A → Exec E (Option GoError))
      → ((a : A) → Fails (f a))
      → Fails (m >>= f)
  unfolding Fails
  Fails-after m f h w = go (m w).0 (m w).1
    where
      go : (o : Outcome _) (w1 : World E) → (continue o f w1).0 ≡ returned none → ⊥
      go (returned a) w1 e = h a w1 e
      go (ended s) w1 e = ground arith

  pub Fails-or_fail :
      (p : String) (o : Option GoError) (m : Exec E (Option GoError))
      → Fails m
      → Fails (or_fail p o m)
  unfolding Fails
  Fails-or_fail p none m h = h
  Fails-or_fail p (some e) m h = λ w q. ground arith
