-- ===== src/Cluster/Sample/Laws.antt =====
-- The small cluster stores its objects as the API server is documented to.
use keptn_gitops_operator.Cluster.Trace.{key_of_object}
use keptn_gitops_operator.Base.{◌≡◌, refl, Bool, true, false, some, arith, eq_iff, eq_refl, value}
use keptn_gitops_operator.Api.{KeptnSequenceExecution, NamespacedName, ObjectMeta}
use keptn_gitops_operator.Cluster.Calls.{
  Call, keptn_sequence_execution, keptn_scheduled_exec, keptn_instance, update_status,
}
use keptn_gitops_operator.Cluster.Trace.{Stores, writes}
use keptn_gitops_operator.Cluster.Sample.{
  Objects, is_key, one, found, after, sample_env, sample_world, key, scheduled, instance_,
}

is_key-same :
    (m : ObjectMeta) (k : NamespacedName)
    → is_key m k ≡ true
    → record { name = m.name; namespace = m.namespace } ≡ k
is_key-same m k h = ground (arith, eq_iff m.name k.name, eq_iff m.namespace k.namespace)

pub is_key_refl :
    (m : ObjectMeta) → is_key m (record { name = m.name; namespace = m.namespace }) ≡ true
is_key_refl m = rw (eq_refl m.name, eq_refl m.namespace) refl

found-one : {A : Type 0} (b : Bool) (a o : A) → found (one b a) ≡ value o → (b ≡ true) × (a ≡ o)
found-one true a o h = (refl, ground arith)
found-one false a o h = absurd (ground arith)

pub one-found :
    {A : Type 0} (m : A → ObjectMeta) (a o : A) (k : NamespacedName)
    → found (one (is_key (m a) k) a) ≡ value o
    → (one (is_key (m a) k) a ≡ some o)
      × (record { name = (m o).name; namespace = (m o).namespace } ≡ k)
one-found m a o k h =
    let (matches, same) = found-one (is_key (m a) k) a o h in
    let key : is_key (m o) k ≡ true = rw (← same) matches in
    (rw (matches, same) refl, is_key-same (m o) k key)

pub execution_Stores : Stores sample_env keptn_sequence_execution
execution_Stores = record {
  stored = λ s k. one (is_key s.execution.meta k) s.execution;
  reads = λ s k o h. one-found (λ o. o.meta) s.execution o k h;
  saves = λ s o h. rw (is_key_refl o.meta) refl;
  keeps = keeps;
}
  where
    keeps :
        (s : Objects) (k : NamespacedName) (c : Call)
        → writes keptn_sequence_execution c ≡ false
        → one (is_key (after c s).execution.meta k) (after c s).execution
          ≡ one (is_key s.execution.meta k) s.execution
    keeps s k (update_status keptn_sequence_execution o) h = absurd (ground arith)
    keeps s k _ h = refl

pub scheduled_Stores : Stores sample_env keptn_scheduled_exec
scheduled_Stores = record {
  stored = λ s k. one (is_key s.scheduled.meta k) s.scheduled;
  reads = λ s k o h. one-found (λ o. o.meta) s.scheduled o k h;
  saves = λ s o h. rw (is_key_refl o.meta) refl;
  keeps = keeps;
}
  where
    keeps :
        (s : Objects) (k : NamespacedName) (c : Call)
        → writes keptn_scheduled_exec c ≡ false
        → one (is_key (after c s).scheduled.meta k) (after c s).scheduled
          ≡ one (is_key s.scheduled.meta k) s.scheduled
    keeps s k (update_status keptn_scheduled_exec o) h = absurd (ground arith)
    keeps s k _ h = refl

pub instance_Stores : Stores sample_env keptn_instance
instance_Stores = record {
  stored = λ s k. one (is_key s.instance_.meta k) s.instance_;
  reads = λ s k o h. one-found (λ o. o.meta) s.instance_ o k h;
  saves = λ s o h. rw (is_key_refl o.meta) refl;
  keeps = keeps;
}
  where
    keeps :
        (s : Objects) (k : NamespacedName) (c : Call)
        → writes keptn_instance c ≡ false
        → one (is_key (after c s).instance_.meta k) (after c s).instance_
          ≡ one (is_key s.instance_.meta k) s.instance_
    keeps s k (update_status keptn_instance o) h = absurd (ground arith)
    keeps s k _ h = refl

pub scheduled_is_stored :
    scheduled_Stores.stored sample_world.state (key "nightly") ≡ some scheduled
unfolding scheduled_Stores
scheduled_is_stored = refl

pub instance_is_stored : instance_Stores.stored sample_world.state (key "default") ≡ some instance_
unfolding instance_Stores
instance_is_stored = refl

pub execution_is_stored :
    (o : KeptnSequenceExecution)
    → execution_Stores.stored
        (record sample_world.state { execution = o })
        (key_of_object keptn_sequence_execution o)
      ≡ some o
unfolding execution_Stores
execution_is_stored o = rw (is_key_refl o.meta) refl
