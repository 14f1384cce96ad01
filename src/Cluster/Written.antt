-- ===== src/Cluster/Written.antt =====
-- The calls of a trace that create or update an object, the latest first.
use keptn_gitops_operator.Base.{
  ℕ, Bool, true, false, ◌≡◌, refl, ◌∙◌, List, [], ◌∷◌, arith, Outcome, returned, ended,
}
use keptn_gitops_operator.Cluster.Calls.{Call, Resp, create, update, update_status}
use keptn_gitops_operator.Cluster.Monad.{
  Env, Step, did, World, Exec, continue, perform, pure, lift, ◌>>=◌,
}
use keptn_gitops_operator.Cluster.Trace.{count, is_created, is_status_update}
use keptn_gitops_operator.Cluster.Within.{Within}

unfoldable pub object_steps : List Step → List Step
object_steps [] = []
object_steps (did (create k o) r ∷ steps) = did (create k o) r ∷ object_steps steps
object_steps (did (update k o) r ∷ steps) = did (update k o) r ∷ object_steps steps
object_steps (did (update_status k o) r ∷ steps) = did (update_status k o) r ∷ object_steps steps
object_steps (_ ∷ steps) = object_steps steps

abbrev pub written : {E : Env} → World E → List Step
written w = object_steps w.trace

-- The objects that have been created.
abbrev pub creates : {E : Env} → World E → ℕ
creates w = count is_created (object_steps w.trace)

abbrev pub statuses : {E : Env} → World E → ℕ
statuses w = count is_status_update (object_steps w.trace)

abbrev pub is_object_call : Call → Bool
is_object_call (create k o) = true
is_object_call (update k o) = true
is_object_call (update_status k o) = true
is_object_call _ = false

object_steps-did :
    (c : Call) (r : Resp c) (steps : List Step)
    → is_object_call c ≡ false
    → object_steps (did c r ∷ steps) ≡ object_steps steps
unfolding object_steps
object_steps-did (create k o) r steps h = absurd (ground arith)
object_steps-did (update k o) r steps h = absurd (ground arith)
object_steps-did (update_status k o) r steps h = absurd (ground arith)
object_steps-did _ r steps h = refl

module _ (E : Env) where
  -- Code that creates and updates no object.
  unfoldable pub Quiet : {A : Type 0} → Exec E A → Type 0
  Quiet m = (w : World E) → written (m w).1 ≡ written w

  pub Quiet-perform : (c : Call) → is_object_call c ≡ false → Quiet (perform c)
  unfolding Quiet perform
  Quiet-perform c h w = object_steps-did c (E.respond c w.state).0 w.trace h

  pub Quiet-pure : {A : Type 0} (a : A) → Quiet (pure a)
  unfolding Quiet
  Quiet-pure a w = refl

  pub written-continue :
      {A B : Type 0} (o : Outcome A) (f : A → Exec E B) (w : World E)
      → ((a : A) → Quiet (f a))
      → written (continue o f w).1 ≡ written w
  unfolding Quiet
  written-continue (returned a) f w quiet = quiet a w
  written-continue (ended m) f w quiet = refl

  pub Quiet-bind :
      {A B : Type 0} (m : Exec E A) (f : A → Exec E B)
      → Quiet m
      → ((a : A) → Quiet (f a))
      → Quiet (m >>= f)
  unfolding Quiet
  Quiet-bind m f hm hf w = written-continue (m w).0 f (m w).1 hf ∙ hm w

  -- A call that writes no object, and what follows it.
  pub Quiet-call :
      {B : Type 0} (c : Call) (f : Resp c → Exec E B)
      → is_object_call c ≡ false
      → ((r : Resp c) → Quiet (f r))
      → Quiet (perform c >>= f)
  Quiet-call c f h hf = Quiet-bind (perform c) f (Quiet-perform c h) hf

  pub Quiet-lift : {A : Type 0} (o : Outcome A) → Quiet (lift o)
  unfolding Quiet
  Quiet-lift o w = refl

  pub Quiet-Within : {A : Type 0} (m : Exec E A) → Within E is_object_call m → Quiet m
  unfolding Within Quiet perform
  Quiet-Within m h w =
      h (λ w'. written w' ≡ written w)
        (λ c w' q same. object_steps-did c (E.respond c w'.state).0 w'.trace q ∙ same) w refl
