-- ===== src/Operator/SequenceExecution/Once.antt =====
-- A sequence execution is triggered once for each change of its spec.
use keptn_gitops_operator.Base.{
  ◌+◌, String, ◌≡◌, refl, ◌∙◌, ◌≢◌, inl, inr, Bool, true, false, Option, none, some, List, ◌∷◌,
  arith, ◌==◌, eq_iff, eq_refl, GoError, not_found, failed, Reply, value, error, Outcome, returned,
  ended, if◌then◌else◌, Bool-cases,
}
use keptn_gitops_operator.Api.{NamespacedName, KeptnInstance, KeptnSequenceExecution}
use keptn_gitops_operator.Cluster.{
  keptn_sequence_execution, of_sequence_execution, get_object, update_status, Env, Step, did, World,
  Exec, continue, perform, ◌>>=◌,
}
use keptn_gitops_operator.Operator.Result.{Result}
use keptn_gitops_operator.Operator.Utils.{get_keptn_instance}
use keptn_gitops_operator.Cluster.Trace.{Stores, key_of_object}
use keptn_gitops_operator.Operator.SequenceExecution.{
  check_keptn_project, check_if_service_exists, trigger_task, is_due, applied, finish, apply,
  with_service, with_project, with_object, with_instance, reconcile,
}
use keptn_gitops_operator.Operator.SequenceExecution.Sends.{sends-check_if_service_exists}
use keptn_gitops_operator.Operator.Utils.Traces.{
  sends, sends-get_keptn_instance, stored-get_keptn_instance,
}

-- The object of the latest call, if that is a status update that succeeded.
abbrev pub last_saved : List Step → Option KeptnSequenceExecution
last_saved (did (update_status keptn_sequence_execution k) none ∷ _) = some k
last_saved _ = none

module _ (E : Env) where
  module _ (i : KeptnInstance) (t : String) (k : KeptnSequenceExecution)
      (idle : is_due E k ≡ false) where
    idle-apply : (w : World E) → sends E (apply E i t k w).1 ≡ sends E w
    unfolding apply
    idle-apply w = rw idle refl

    idle-with_service : (b : Bool) (w : World E) → sends E (with_service E i t k b w).1 ≡ sends E w
    unfolding with_service perform
    idle-with_service false w = ground arith
    idle-with_service true w = ground (arith, idle-apply w)

    idle-with_project : (b : Bool) (w : World E) → sends E (with_project E i t k b w).1 ≡ sends E w
    unfolding with_project perform
    idle-with_project false w = ground arith
    idle-with_project true w = grind (arith, idle-with_service, sends-check_if_service_exists E)

    idle-with_object :
        (req : NamespacedName) (w : World E)
        → sends E (with_object E req i t (value k) w).1 ≡ sends E w
    unfolding with_object perform check_keptn_project
    idle-with_object req w = grind (arith, idle-with_project)

  module _ (S : Stores E keptn_sequence_execution) (req : NamespacedName)
      (k : KeptnSequenceExecution) (idle : is_due E k ≡ false) where
    idle-found :
        (i : KeptnInstance) (t : String) (r : Reply KeptnSequenceExecution) (w : World E)
        → ((k' : KeptnSequenceExecution) → r ≡ value k' → k' ≡ k)
        → sends E (with_object E req i t r w).1 ≡ sends E w
    unfolding with_object
    idle-found i t (error (not_found m)) w same = refl
    idle-found i t (error (failed m)) w same = refl
    idle-found i t (value k') w same = rw (same k' refl) (idle-with_object i t k idle req w)

    idle-with_instance :
        (o : Outcome (Reply (KeptnInstance × String))) (w : World E)
        → S.stored w.state req ≡ some k
        → sends E (continue o (with_instance E req) w).1 ≡ sends E w
    unfolding with_instance perform
    idle-with_instance (ended m) w here = refl
    idle-with_instance (returned (error e)) w here = refl
    idle-with_instance (returned (value (i, t))) w here =
        idle-found i t _ _ (λ k' e. cc ((S.reads w.state req k' e).0))

    -- On an API server that stores sequence executions as documented, a run for a stored
    -- object that is not due (it has a context, its hash is that of its spec and no update
    -- is pending) sends no event.
    pub idle-reconcile :
        (w : World E) → S.stored w.state req ≡ some k → sends E (reconcile E req w).1 ≡ sends E w
    unfolding reconcile
    idle-reconcile w here =
        idle-with_instance (get_keptn_instance E req.namespace w).0
          (get_keptn_instance E req.namespace w).1
          (stored-get_keptn_instance E keptn_sequence_execution S req.namespace w req ∙ here)
        ∙ sends-get_keptn_instance E req.namespace w

  is_due-applied : (k : KeptnSequenceExecution) (c : String) → is_due E (applied E k c) ≡ (c == "")
  unfolding is_due applied
  is_due-applied k c = ground (arith, eq_refl (E.hash (of_sequence_execution k.spec)))

  module _ (S : Stores E keptn_sequence_execution) (req : NamespacedName)
      (k' : KeptnSequenceExecution) where
    -- In `w` the object has been stored as it was saved last, and is due only for want of a context.
    record IsSettled (w : World E) : Type 0 where
      here : S.stored w.state req ≡ some k'
      due : is_due E k' ≡ (k'.status.keptn_context == "")

    -- If the run of `m` posts and then saves `k'`, it ends in a settled world.
    abbrev Settles : Exec E Result → Type 0
    Settles m =
        (w : World E)
        → sends E (m w).1 ≡ sends E w + 1
        → last_saved (m w).1.trace ≡ some k'
        → IsSettled (m w).1

    Settles-quiet : (m : Exec E Result) → ((w : World E) → sends E (m w).1 ≡ sends E w) → Settles m
    Settles-quiet m quiet w more saved = absurd (omega (arith, quiet w))

    Settles-if :
        (b : Bool) (m n : Exec E Result) → Settles m → Settles n → Settles (if b then m else n)
    Settles-if true m n hm hn = hm
    Settles-if false m n hm hn = hn

    Settles-bind :
        {A : Type 0} (m : Exec E A) (f : A → Exec E Result)
        → ((w : World E) → sends E (m w).1 ≡ sends E w)
        → ((a : A) → Settles (f a))
        → Settles (m >>= f)
    Settles-bind m f quiet hf w more saved = go (m w).0 (m w).1 (quiet w) more saved
      where
        go :
            (o : Outcome _) (w1 : World E)
            → sends E w1 ≡ sends E w
            → sends E (continue o f w1).1 ≡ sends E w + 1
            → last_saved (continue o f w1).1.trace ≡ some k'
            → IsSettled (continue o f w1).1
        go (returned a) w1 q more saved = hf a w1 (omega arith) saved
        go (ended m) w1 q more saved = absurd (omega arith)

    module _ (i : KeptnInstance) (t : String) (k : KeptnSequenceExecution)
        (named : key_of_object keptn_sequence_execution k ≡ req) where
      IsSettled-saved :
          (c : String) (w : World E)
          → (E.respond (update_status keptn_sequence_execution (applied E k c)) w.state).0 ≡ none
          → applied E k c ≡ k'
          → IsSettled (finish E k (value c) w).1
      unfolding finish perform
      IsSettled-saved c w q e = record {
        here = rw (← named, ← e) (S.saves w.state (applied E k c) q);
        due = rw (← e) (is_due-applied k c);
      }

      IsSettled-finish :
          (r : Reply String) (w : World E)
          → last_saved w.trace ≡ none
          → last_saved (finish E k r w).1.trace ≡ some k'
          → IsSettled (finish E k r w).1
      unfolding finish perform
      IsSettled-finish (error e) w unsaved saved = cc
      IsSettled-finish (value c) w unsaved saved = go _ refl saved
        where
          go :
              (r : Option GoError)
              → (E.respond (update_status keptn_sequence_execution (applied E k c)) w.state).0 ≡ r
              → last_saved
                  (did (update_status keptn_sequence_execution (applied E k c)) r ∷ w.trace)
                ≡ some k'
              → IsSettled (finish E k (value c) w).1
          go (some e) q s = cc
          go none q s = IsSettled-saved c w q (cc)

      IsSettled-continue :
          (o : Outcome (Reply String)) (w : World E)
          → last_saved w.trace ≡ none
          → last_saved (continue o (finish E k) w).1.trace ≡ some k'
          → IsSettled (continue o (finish E k) w).1
      IsSettled-continue (returned r) w unsaved saved = IsSettled-finish r w unsaved saved
      IsSettled-continue (ended m) w unsaved saved = cc

      last_saved-trigger_task :
          (w : World E) → last_saved (trigger_task E i t k.spec w).1.trace ≡ none
      unfolding trigger_task perform
      last_saved-trigger_task w = ground arith

      apply-due :
          is_due E k ≡ true
          → (w : World E)
          → apply E i t k w
            ≡ continue (trigger_task E i t k.spec w).0 (finish E k) (trigger_task E i t k.spec w).1
      unfolding apply
      apply-due due w = rw due refl

      settled-apply : Settles (apply E i t k)
      settled-apply w more saved = elim (Bool-cases (is_due E k)) [
        | inl due ↦
            rw (apply-due due w)
              (IsSettled-continue _ _ (last_saved-trigger_task w) (rw (apply-due due w) at saved))
        | inr idle ↦ absurd (omega (arith, idle-apply i t k idle w))
      ]

      settled-with_service : (b : Bool) → Settles (with_service E i t k b)
      unfolding with_service perform
      settled-with_service false = λ w more saved. absurd (ground arith)
      settled-with_service true =
          Settles-if k.status.service_exists _ _ settled-apply
            (λ w more saved. absurd (ground arith))

      settled-with_project : (b : Bool) → Settles (with_project E i t k b)
      unfolding with_project perform
      settled-with_project false = λ w more saved. absurd (ground arith)
      settled-with_project true =
          Settles-if k.status.project_exists _ _
            (Settles-bind (check_if_service_exists E i t k.spec.project k.spec.service) _
              (λ w. sends-check_if_service_exists E i t k.spec.project k.spec.service w)
              (λ s. settled-with_service s.0))
            (λ w more saved. absurd (ground arith))

      settled-with_object : Settles (with_object E req i t (value k))
      unfolding with_object check_keptn_project perform
      settled-with_object =
          Settles-bind (check_keptn_project E req.namespace k.spec.project) (with_project E i t k)
            (λ w. refl) settled-with_project

    settled-with_instance : (r : Reply (KeptnInstance × String)) → Settles (with_instance E req r)
    unfolding with_instance with_object perform
    settled-with_instance (error e) w = λ more saved. absurd (omega arith)
    settled-with_instance (value (i, t)) w = go _ refl
      where
        go :
            (r : Reply KeptnSequenceExecution)
            → (E.respond (get_object keptn_sequence_execution req) w.state).0 ≡ r
            → let w1 : World E = record {
              state = (E.respond (get_object keptn_sequence_execution req) w.state).1;
              trace =
                  did
                    (get_object keptn_sequence_execution req)
                    (E.respond (get_object keptn_sequence_execution req) w.state).0
                  ∷ w.trace;
            } in
              sends E (with_object E req i t r w1).1 ≡ sends E w + 1
              → last_saved (with_object E req i t r w1).1.trace ≡ some k'
              → IsSettled (with_object E req i t r w1).1
        go (value k) q = settled-with_object i t k (S.reads w.state req k q).1 _
        go (error (not_found m)) q = λ more saved. absurd (omega arith)
        go (error (failed m)) q = λ more saved. absurd (omega arith)

    settled-reconcile : Settles (reconcile E req)
    unfolding reconcile
    settled-reconcile =
        Settles-bind (get_keptn_instance E req.namespace) (with_instance E req)
          (sends-get_keptn_instance E req.namespace) settled-with_instance

    -- If a run of Reconcile on an API server that stores sequence executions as documented
    -- sends an event, and its last call is a successful status update that saves an object
    -- with a context that is not empty, then a second run, started where the first ended,
    -- sends no event.
    pub reconcile_once :
        (w : World E)
        → sends E (reconcile E req w).1 ≡ sends E w + 1
        → last_saved (reconcile E req w).1.trace ≡ some k'
        → k'.status.keptn_context ≢ ""
        → sends E (reconcile E req (reconcile E req w).1).1 ≡ sends E (reconcile E req w).1
    reconcile_once w more saved named =
        let s = settled-reconcile w more saved in
        idle-reconcile S req k' (s.due ∙ ground (arith, eq_iff k'.status.keptn_context "")) _ s.here
