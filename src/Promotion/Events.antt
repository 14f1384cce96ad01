-- ===== src/Promotion/Events.antt =====
-- promotion-service/main.go: which events are handled, one at a time.
use keptn_gitops_operator.Base.{
  String, ◌<>◌, Option, none, some, ◌==◌, GoError, failed, error_text, Reply, Outcome, returned,
  ended, panicking, exiting, if◌then◌else◌,
}
use keptn_gitops_operator.Cluster.{Env, World, Exec, pure}
use keptn_gitops_operator.Promotion.Handler.{EventData, handle_promotion_triggered_event}

-- keptnv2.GetTriggeredEventType("promotion")
abbrev pub promotion_triggered : String
promotion_triggered = "sh.keptn.event.promotion.triggered"

-- A cloud event: its type, and its data as far as it can be parsed.
pub record CloudEvent : Type 0 where
  pub type : String
  pub data_ : Reply EventData

-- The service can take an event, has its mutex locked by a call that has ended, or has exited.
pub data Condition : Type 0 where
  ready stuck gone : Condition

-- What a call that takes the mutex comes to: it waits for the mutex for ever where nothing that runs
-- will release it, and is not made where the process has exited.
pub data Processed : Type 0 where
  unserved : Processed
  waits : Processed
  processed : Outcome (Option GoError) → Processed

module _ (E : Env) where
  -- From what NewKeptn gives.
  unfoldable pub dispatch_event : CloudEvent → Option GoError → Exec E (Option GoError)
  unfolding handle_promotion_triggered_event
  dispatch_event ev (some err) =
      pure (some (failed ("Could not create Keptn Handler: " <> error_text err)))
  dispatch_event ev none =
      if ev.type == promotion_triggered
      then handle_promotion_triggered_event E ev.data_
      else pure (some (failed ("Unhandled Keptn Cloud Event: " <> ev.type)))

  -- Unlock is not deferred, so a panic skips it; log.Fatal ends the process.
  abbrev pub condition_after : Outcome (Option GoError) → Condition
  condition_after (returned err) = ready
  condition_after (ended (panicking message)) = stuck
  condition_after (ended (exiting message)) = gone

  unfoldable pub process_event :
      CloudEvent → Option GoError → Condition → World E → Processed × (Condition × World E)
  unfolding dispatch_event
  process_event ev no_keptn gone w = (unserved, (gone, w))
  process_event ev no_keptn stuck w = (waits, (stuck, w))
  process_event ev no_keptn ready w =
      let (o, w') = dispatch_event ev no_keptn w in (processed o, (condition_after o, w'))
