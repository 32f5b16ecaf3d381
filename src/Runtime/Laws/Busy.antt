-- ===== src/Runtime/Laws/Busy.antt =====
-- What a second call meets while an operation is in flight (orchestrator.go, busy.go).
use rknno_vpn.Prelude.{ℕ, ◌≡◌, refl, some, arith, ◌↔◌, ◌≢◌, eq_iff}
use rknno_vpn.Runtime.Types.{OperationStatus, reset, DesiredState}
use rknno_vpn.Runtime.State.{
  Env, Orchestrator, log_stuck, snapshot, busy, new_runtime_busy_error, clone_active,
}
use rknno_vpn.Runtime.Commands.{
  Reply, refused, busy_error, if_idle, refuse, start, restart, launch, stop, handle_network_change,
  run_operation,
}
use rknno_vpn.Runtime.Commands
use rknno_vpn.Runtime.Updates.{apply_desired_state, validate_desired_state}
use rknno_vpn.Runtime.System.{
  Command, command, start as call_start, stop as call_stop, restart as call_restart,
  reset as call_reset, network_change, operation,
}

-- The error that a call gets: the code says whether a reset is in flight, and the operation in
-- flight comes with it.
pub busy_in_flight :
    (o : Orchestrator) (now : ℕ) (a : OperationStatus)
    → o.active ≡ some a
    → busy o now ≡ some (new_runtime_busy_error (clone_active o now a))
unfolding busy
busy_in_flight o now a e = ground arith

refused_in_flight :
    (env : Env) (o : Orchestrator) (a : OperationStatus) (rest : Orchestrator × Reply)
    → o.active ≡ some a
    → if_idle env o (busy o env.now) rest ≡ (
      log_stuck env o,
      refused (snapshot env o) (busy_error (new_runtime_busy_error (clone_active o env.now a))),
    )
unfolding if_idle refuse
refused_in_flight env o a rest e = rw (busy_in_flight o env.now a e)

command_busy :
    (env : Env) (c : Command) (o : Orchestrator) (a : OperationStatus)
    → o.active ≡ some a
    → command env c o ≡ (
      log_stuck env o,
      refused (snapshot env o) (busy_error (new_runtime_busy_error (clone_active o env.now a))),
    )
unfolding command start stop restart Commands.reset handle_network_change run_operation launch
command_busy env call_start o a e = refused_in_flight env o a _ e
command_busy env call_stop o a e = refused_in_flight env o a _ e
command_busy env call_restart o a e = refused_in_flight env o a _ e
command_busy env call_reset o a e = refused_in_flight env o a _ e
command_busy env network_change o a e = refused_in_flight env o a _ e
command_busy env (operation kind phase fn) o a e = refused_in_flight env o a _ e

-- `statusLocked` writes to the log and to its mark alone.
pub record LogsOnly (o o' : Orchestrator) : Type 0 where
  pub desired : o'.desired ≡ o.desired
  pub applied : o'.applied ≡ o.applied
  pub health : o'.health ≡ o.health
  pub active : o'.active ≡ o.active
  pub last : o'.last ≡ o.last
  pub op_seq : o'.op_seq ≡ o.op_seq
  pub observed : o'.observed ≡ o.observed
  pub backends : o'.backends ≡ o.backends
  pub compatibility : o'.compatibility ≡ o.compatibility
  pub watchdog_after : o'.watchdog_after ≡ o.watchdog_after
  pub has_logger : o'.has_logger ≡ o.has_logger
  pub has_observer : o'.has_observer ≡ o.has_observer

pub log_stuck-LogsOnly : (env : Env) (o : Orchestrator) → LogsOnly o (log_stuck env o)
unfolding log_stuck
log_stuck-LogsOnly env o = ground arith

-- While an operation is in flight every method that could submit one is refused with the busy
-- error of that operation; of the state only the log and the mark of a stuck operation can change.
pub command_refused :
    (env : Env) (c : Command) (o : Orchestrator) (a : OperationStatus)
    → o.active ≡ some a
    → ((command env c o).1
        ≡ refused (snapshot env o) (busy_error (new_runtime_busy_error (clone_active o env.now a))))
      × LogsOnly o (command env c o).0
command_refused env c o a e = rw (command_busy env c o a e) (refl, log_stuck-LogsOnly env o)

-- The code of the busy error is RESET_IN_PROGRESS exactly when the operation in flight is a reset,
-- and RUNTIME_BUSY exactly when it is not; the error holds that operation.
pub busy_code :
    (a : OperationStatus)
    → (((new_runtime_busy_error a).code ≡ "RESET_IN_PROGRESS") ↔ (a.kind ≡ reset))
      × (((new_runtime_busy_error a).code ≡ "RUNTIME_BUSY") ↔ (a.kind ≢ reset))
      × ((new_runtime_busy_error a).active ≡ some a)
unfolding new_runtime_busy_error
busy_code a =
    let other = eq_iff "RUNTIME_BUSY" "RESET_IN_PROGRESS" in
    (
      (λ h. ground (arith, other), λ h. ground arith),
      (λ h k. ground (arith, other), λ h. ground arith),
      ground arith,
    )

-- `ApplyDesiredState` and `ValidateDesiredState` while an operation is in flight.
pub desired_busy :
    (env : Env) (desired : DesiredState) (o : Orchestrator) (a : OperationStatus)
    → o.active ≡ some a
    → let err = busy_error (new_runtime_busy_error (clone_active o env.now a)) in
      (apply_desired_state env desired o ≡ (o, some err))
      × (validate_desired_state env desired o ≡ some err)
unfolding apply_desired_state validate_desired_state
desired_busy env desired o a e = (
  rw (busy_in_flight o env.now a e, apply_desired_state),
  rw (busy_in_flight o env.now a e, validate_desired_state),
)
