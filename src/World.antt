-- ===== src/World.antt =====
-- What the alert pipeline and the response subsystem exchange with the world outside the process:
-- the shell commands they run, the rows they write, the clock and `uuid4`. A `Trace` holds what has happened, the newest
-- event first, and an `Env` answers from it; so every answer may depend on the whole history.
-- Also the data that these exchanges carry: `ResponderAction` of responders/base.py and the state
-- dictionary of utils/persistence_health.py.
pub mod Audit
use sentinel_pi.Prelude.{ℕ, ◌≡◌, refl, ◌⊎◌, inl, inr, String, Bool, Option, List}
use sentinel_pi.Models.{Datetime, Alert, AlertStatus}

abbrev pub Argv : Type 0
Argv = List String

-- The lifecycle constants of responders/base.py.
pub data Status : Type 0 where
  planned pending executing executed failed rejected expiring expired expiration_failed : Status

-- `proc.returncode`: an exit status, or the signal that killed the process.
pub data ReturnCode : Type 0 where
  exit_status : ℕ → ReturnCode
  killed_by : ℕ → ReturnCode

-- What calling a `CommandRunner` does: it returns, or raises with a message.
pub data RunResult : Type 0 where
  returned : ReturnCode → String → RunResult
  run_raised : String → RunResult

-- Reading the sinkhole file, its folder made first: its text (empty if there is no file), or an
-- `OSError`, or another exception.
pub data FileRead : Type 0 where
  file_text : String → FileRead
  os_error : String → FileRead
  read_raised : String → FileRead

-- `ResponderAction.error`: which message, with the values that the source formats into it.
pub data ActionError : Type 0 where
  no_error plan_not_persisted pending_not_persisted intent_not_persisted : ActionError
  command_raised : Argv → String → ActionError
  command_failed : Argv → ReturnCode → String → ActionError
  no_handle : String → ActionError
  no_expiry : String → ActionError
  hosts_write_failed : String → ActionError
  exception_text : String → ActionError

pub record ResponderAction : Type 0 where
  pub responder : String
  pub target : String
  pub description : String
  pub commands : List Argv
  pub action_id : String
  pub created_at : Datetime
  pub status : Status
  pub dry_run : Bool
  pub executed : Bool
  pub success : Bool
  pub error : ActionError
  pub alert_id : String
  pub rollback_commands : List Argv
  pub duration_seconds : ℕ
  pub expires_at : Option Datetime
  pub expired_at : Option Datetime

-- `DurablePersistenceHealth._state`
pub record HealthState : Type 0 where
  pub degraded : Bool
  pub consecutive_failures : ℕ
  pub failed_at : Option Datetime
  pub last_error : String
  pub recovered_at : Option Datetime

pub data Event : Type 0 where
  -- `save_response_action` committed the row, or raised
  saved : ResponderAction → Event
  save_failed : ResponderAction → Event
  -- `set_app_state` was called with a health record
  stored_health : HealthState → Event
  -- a command was handed to the runner
  ran : Argv → Event
  -- the sinkhole file was opened to append the line of a domain
  sinkholed : String → Event
  -- `plan` returned an action; the pending notifier and the activity callback were called
  proposed : ResponderAction → Event
  notified : String → Event
  observed : String → Event
  -- `save_alert` committed an alert, or raised
  alert_saved : Alert → Event
  alert_save_failed : Alert → Event
  -- `mark_device_suspicious` was called, with hundredths; `record_suspicion_point` was called
  scored : String → ℕ → Event
  score_recorded : String → ℕ → Datetime → Event
  -- a notifier's `send` was called
  sent : String → Alert → Event
  -- `update_alert_status` changed the status of the alert with an id
  status_updated : String → AlertStatus → Event

abbrev pub Trace : Type 0
Trace = List Event

-- A call that returns, or raises with a message.
pub data Result {ℓ} (A : Type ℓ) : Type ℓ where
  ok : A → Result A
  raised : String → Result A

pub Result-cases {ℓ} :
    {A : Type ℓ} (r : Result A)
    → ((message : String) × (r ≡ raised message)) ⊎ ((a : A) × (r ≡ ok a))
Result-cases (raised message) = inl (message, refl)
Result-cases (ok a) = inr (a, refl)

-- `some message` is an exception.
pub record Env : Type 0 where
  pub runner : Trace → Argv → RunResult
  pub hosts_text : Trace → FileRead
  pub hosts_error : Trace → String → Option String
  pub save_error : Trace → ResponderAction → Option String
  pub store_error : Trace → HealthState → Option String
  pub activity_error : Trace → String → Option String
  pub clock : Trace → Datetime
  pub uuid : Trace → String
  -- the alert pipeline: `save_alert`, `get_recent_dedup_keys` for the cutoff that lies some seconds
  -- before a time, `mark_device_suspicious` (a float score is some number of its own), `send`,
  -- `update_alert_status`, `get_alert`, `datetime.now().hour`, and the look-ups of utils/geo.py and utils/asn.py
  pub save_alert_error : Trace → Alert → Option String
  pub recent_dedup_keys : Trace → Datetime → ℕ → Result (List String)
  pub mark_suspicious : Trace → String → ℕ → Result (Option ℕ)
  pub send_error : Trace → String → Alert → Option String
  pub status_error : Trace → String → AlertStatus → Option String
  pub get_alert : Trace → String → Result (Option Alert)
  pub hour : Trace → ℕ
  pub country : String → String
  pub country_name : String → String
  pub asn : String → Option ℕ × String
