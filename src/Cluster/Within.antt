-- ===== src/Cluster/Within.antt =====
-- Code that makes only some of the calls keeps what these calls keep.
use keptn_gitops_operator.Base.{
  String, ◌≡◌, refl, Bool, true, false, Option, none, some, GoError, Outcome, returned, ended,
  if◌then◌else◌,
}
use keptn_gitops_operator.Cluster.Calls.{Call, Resp}
use keptn_gitops_operator.Cluster.Monad.{
  Env, World, Exec, continue, perform, pure, panic, lift, or_fail, ◌>>=◌,
}

module _ (E : Env) (p : Call → Bool) where
  -- Code that makes no calls but those for which `p` is false: what these keep, it keeps.
  unfoldable pub Within : {A : Type 0} → Exec E A → Type 1
  Within m =
      (I : World E → Type 0)
      → ((c : Call) (w : World E) → p c ≡ false → I w → I (perform c w).1)
      → (w : World E) → I w
      → I (m w).1

  pub Within-perform : (c : Call) → p c ≡ false → Within (perform c)
  unfolding Within
  Within-perform c h I keep w i = keep c w h i

  pub Within-pure : {A : Type 0} (a : A) → Within (pure a)
  unfolding Within
  Within-pure a I keep w i = i

  pub Within-panic : (A : Type 0) (s : String) → Within (panic {A = A} s)
  unfolding Within
  Within-panic A s I keep w i = i

  pub Within-lift : {A : Type 0} (o : Outcome A) → Within (lift o)
  unfolding Within
  Within-lift o I keep w i = i

  pub Within-bind :
      {A B : Type 0} (m : Exec E A) (f : A → Exec E B)
      → Within m
      → ((a : A) → Within (f a))
      → Within (m >>= f)
  unfolding Within
  Within-bind m f hm hf I keep w i = go (m w).0 (m w).1 (hm I keep w i)
    where
      go : (o : Outcome _) (w1 : World E) → I w1 → I (continue o f w1).1
      go (returned a) w1 i = hf a I keep w1 i
      go (ended s) w1 i = i

  -- A call, and what follows it.
  pub Within-call :
      {B : Type 0} (c : Call) (f : Resp c → Exec E B)
      → p c ≡ false
      → ((r : Resp c) → Within (f r))
      → Within (perform c >>= f)
  Within-call c f h hf = Within-bind (perform c) f (Within-perform c h) hf

  pub Within-or_fail :
      (s : String) (o : Option GoError) (m : Exec E (Option GoError))
      → Within m
      → Within (or_fail s o m)
  Within-or_fail s none m h = h
  Within-or_fail s (some e) m h = Within-pure _

  pub Within-if :
      {A : Type 0} (b : Bool) (m n : Exec E A) → Within m → Within n → Within (if b then m else n)
  Within-if true m n hm hn = hm
  Within-if false m n hm hn = hn

module _ (E : Env) where
  -- Code that makes calls, whatever they are.
  abbrev pub Calling : {A : Type 0} → Exec E A → Type 1
  Calling m = Within E (λ c. false) m

  pub Calling-Within : (p : Call → Bool) {A : Type 0} (m : Exec E A) → Within E p m → Calling m
  unfolding Within
  Calling-Within p m h I keep = h I (λ c w q. keep c w refl)
