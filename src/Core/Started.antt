-- ===== src/Core/Started.antt =====
-- `Start` of the manager as a whole (manager.go).
use rknno_vpn.Prelude.{◌≡◌, refl, ap, Bool, true, false, Option, none, some, if◌then◌else◌}
use rknno_vpn.Recovery.Health.{starting}
use rknno_vpn.Core.State.{
  CoreManager, NodeProfile, World, CoreRun, Outcome, continued, failed, cleared_core,
}
use rknno_vpn.Core.Launch.{
  StartError, already, start_failed, is_up, start_result, begin_start, start_stages, start,
}
use rknno_vpn.Core.Quiet.{rules_asked, early_signal}
use rknno_vpn.Core.Ends.{forget_reports, Post}
use rknno_vpn.Core.Starting.{StartFailed, Launched, start_stages-Post}

-- A manager that has nothing of a runtime.
abbrev pub IsClear : CoreManager → Type 0
IsClear m = m ≡ cleared_core m.state m

-- A start that is refused changes nothing.
abbrev pub StartEnd : World → NodeProfile → CoreRun → CoreRun × Option StartError → Type 0
StartEnd w profile r (out, none) = Launched w r.core (early_signal r.calls) profile out
StartEnd w profile r (out, some (already s)) = (out ≡ r) × (s ≡ r.core.state) × (is_up s ≡ true)
StartEnd w profile r (out, some (start_failed e)) =
    StartFailed w r.core (early_signal r.calls) out e × (is_up r.core.state ≡ false)

end_cases :
    (w : World) (profile : NodeProfile) (r : CoreRun) (up : Bool) (out : Outcome)
    → is_up r.core.state ≡ up
    → Post
        (Launched w r.core (early_signal r.calls) profile)
        (StartFailed w r.core (early_signal r.calls))
        out
    → StartEnd w profile r (if up then (r, some (already r.core.state)) else start_result out)
end_cases w profile r true out e h = (refl, refl, e)
end_cases w profile r false (continued r') e h = h.holds
end_cases w profile r false (failed r' x) e h = (h.holds, e)

-- A start over a manager that has nothing of a runtime, with no rules applied since the last cleanup, is
-- refused with no change where the state is running or starting, ends with the profile served and the
-- rules applied, or ends with an error that leaves the manager stopped and cleared, the cleanup of the
-- rules called if they were applied, and the report of the error in both reports. On none of these is a
-- process told to end between a call that applies the rules and one of the cleanup. What the cleanup
-- answers is not asked: where it fails, rules may be left in.
pub start_lem :
    (w : World) (profile : NodeProfile) (r : CoreRun)
    → IsClear r.core
    → rules_asked r.calls ≡ false
    → StartEnd w profile r (start w profile r)
unfolding start begin_start cleared_core
start_lem w profile r clear out =
    end_cases w profile r (is_up r.core.state) (start_stages w profile (begin_start w profile r))
      refl
      (start_stages-Post w r.core (early_signal r.calls) profile (begin_start w profile r)
        (ap (λ (m : CoreManager). forget_reports (record m { state = starting })) clear, out, refl))
