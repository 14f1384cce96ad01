-- ===== src/Operator/Result.antt =====
-- ctrl.Result with the error that a Reconcile returns beside it; intervals in seconds.
use keptn_gitops_operator.Base.{ℕ, Bool, Option, GoError}

pub record Result : Type 0 where
  pub requeue : Bool
  pub after : ℕ
  pub err : Option GoError

abbrev pub error_interval : ℕ
error_interval = 10

abbrev pub success_interval : ℕ
success_interval = 120

-- ctrl.Result{Requeue: requeue, RequeueAfter: after}, err
abbrev pub result : Bool → ℕ → Option GoError → Result
result requeue after err = record { requeue = requeue; after = after; err = err }
