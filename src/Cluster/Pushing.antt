-- ===== src/Cluster/Pushing.antt =====
-- Code that pushes: how many pushes have succeeded where it returns.
use keptn_gitops_operator.Base.{
  ℕ, suc, ◌+◌, ◌≤◌, String, ◌≡◌, refl, false, Option, none, some, arith, GoError, Outcome, returned,
  ended, Ending,
}
use keptn_gitops_operator.Cluster.Calls.{Call, Resp}
use keptn_gitops_operator.Cluster.Monad.{Env, World, Exec, did, continue, perform, or_fail, ◌>>=◌}
use keptn_gitops_operator.Cluster.Trace.{count, is_pushed}

module _ (E : Env) where
  abbrev pub pushes : World E → ℕ
  pushes w = count is_pushed w.trace

  -- Code that returns and pushes nothing.
  abbrev pub Silent : {A : Type 0} → Exec E A → Type 0
  Silent m = (w : World E) → (pushes (m w).1 ≡ pushes w) × ((s : Ending) → (m w).0 ≡ ended s → ⊥)

  pub Silent-call : (c : Call) → ((r : Resp c) → is_pushed (did c r) ≡ false) → Silent (perform c)
  unfolding perform
  Silent-call c h w = (rw (h (E.respond c w.state).0) refl, λ s e. absurd (ground arith))

  pub Silent-after :
      {A B : Type 0} (m : Exec E A) (f : A → Exec E B)
      → Silent m
      → ((a : A) → Silent (f a))
      → Silent (m >>= f)
  Silent-after m f quiet h w = go (m w).0 (m w).1 (quiet w)
    where
      go :
          (o : Outcome _) (w1 : World E)
          → (pushes w1 ≡ pushes w) × ((s : Ending) → o ≡ ended s → ⊥)
          → (pushes (continue o f w1).1 ≡ pushes w)
            × ((s : Ending) → (continue o f w1).0 ≡ ended s → ⊥)
      go (returned a) w1 (same, _) = (omega (arith, same, (h a w1).0), (h a w1).1)
      go (ended s) w1 (same, never) = absurd (never s refl)

  module _ (n : ℕ) where
    -- Without an error `n` pushes were made, with an error fewer, and it returns.
    pub record IsPushed (w : World E) (o : Outcome (Option GoError)) (w' : World E) : Type 0 where
      pub all : o ≡ returned none → pushes w' ≡ pushes w + n
      pub fewer : (e : GoError) → o ≡ returned (some e) → suc (pushes w') ≤ pushes w + n
      pub returns : (s : Ending) → o ≡ ended s → ⊥

    pub IsPushed-failed :
        (w w' : World E) (e : GoError)
        → suc (pushes w') ≤ pushes w + n
        → IsPushed w (returned (some e)) w'
    IsPushed-failed w w' e h = record {
      all = λ q. absurd (ground arith);
      fewer = λ e' q. h;
      returns = λ s q. ground arith;
    }

    pub IsPushed-from :
        (w w1 w' : World E) (o : Outcome (Option GoError))
        → pushes w1 ≡ pushes w
        → IsPushed w1 o w'
        → IsPushed w o w'
    IsPushed-from w w1 w' o same h = record {
      all = λ e. omega (arith, same, h.all e);
      fewer = λ err e. omega (arith, same, h.fewer err e);
      returns = h.returns;
    }

    -- Code that ends in this way.
    abbrev pub Pushing : Exec E (Option GoError) → Type 0
    Pushing m = (w : World E) → IsPushed w (m w).0 (m w).1

    pub Pushing-or_fail :
        (p : String) (o : Option GoError) (m : Exec E (Option GoError))
        → 1 ≤ n
        → Pushing m
        → Pushing (or_fail p o m)
    Pushing-or_fail p none m some_pushes h = h
    Pushing-or_fail p (some e) m some_pushes h = λ w. IsPushed-failed w w _ (omega arith)

    pub Pushing-after :
        {A : Type 0} (m : Exec E A) (f : A → Exec E (Option GoError))
        → Silent m
        → ((a : A) → Pushing (f a))
        → Pushing (m >>= f)
    Pushing-after m f quiet h w = go (m w).0 (m w).1 (quiet w)
      where
        go :
            (o : Outcome _) (w1 : World E)
            → (pushes w1 ≡ pushes w) × ((s : Ending) → o ≡ ended s → ⊥)
            → IsPushed w (continue o f w1).0 (continue o f w1).1
        go (returned a) w1 (same, _) = IsPushed-from w w1 _ _ same (h a w1)
        go (ended s) w1 (same, never) = absurd (never s refl)
