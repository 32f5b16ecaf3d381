-- ===== src/Update/Steps.antt =====
-- What one call or step of an installation changes (install_transaction.go, install_state.go).
use rknno_vpn.Prelude.{
  ◌≡◌, refl, sym, ap, ◌∙◌, inl, inr, String, Bool, true, false, List, [], ◌∷◌, ◌++◌, Option, none,
  some, Bool-cases, Option-cases,
}
use mathlib.Core.List.{append-nil}
use rknno_vpn.Update.State.{
  InstallCall, sets_step, stops_runtime, restores_runtime, exits_self, installs_module,
  installs_apk, removes_downloads, Tracker, Clock, write_state, status_after, track_step,
}
use rknno_vpn.Update.Install.{
  InstallError, cancelled, record_failed, module_failed, apk_failed, cleanup_failed,
  runtime_stop_failed, InstallTransaction, Answers, InstallRun, and_then, stage, call, check,
  mark_step,
}

-- The calls but for the notes of steps.
unfoldable pub actions : List InstallCall → List InstallCall
actions [] = []
actions (sets_step n s c d ∷ calls) = actions calls
actions (stops_runtime ∷ calls) = stops_runtime ∷ actions calls
actions (restores_runtime ∷ calls) = restores_runtime ∷ actions calls
actions (exits_self ∷ calls) = exits_self ∷ actions calls
actions (installs_module ∷ calls) = installs_module ∷ actions calls
actions (installs_apk ∷ calls) = installs_apk ∷ actions calls
actions (removes_downloads ∷ calls) = removes_downloads ∷ actions calls

actions-append : (xs ys : List InstallCall) → actions (xs ++ ys) ≡ actions xs ++ actions ys
unfolding actions
actions-append [] ys = refl
actions-append (sets_step n s c d ∷ xs) ys = actions-append xs ys
actions-append (stops_runtime ∷ xs) ys = rw (actions-append xs ys) refl
actions-append (restores_runtime ∷ xs) ys = rw (actions-append xs ys) refl
actions-append (exits_self ∷ xs) ys = rw (actions-append xs ys) refl
actions-append (installs_module ∷ xs) ys = rw (actions-append xs ys) refl
actions-append (installs_apk ∷ xs) ys = rw (actions-append xs ys) refl
actions-append (removes_downloads ∷ xs) ys = rw (actions-append xs ys) refl

-- What the properties speak of: the status, the two marks, and the actions.
pub record At (status : String) (module_in apk_in : Bool) (done : List InstallCall) (t : Tracker)
    : Type 0 where
  pub status_is : t.state.status ≡ status
  pub module_is : t.state.module_installed ≡ module_in
  pub updated_is : t.module_updated ≡ module_in
  pub apk_is : t.state.apk_installed ≡ apk_in
  pub actions_are : actions t.calls ≡ done

pub write_state-At :
    (w : Clock) (status : String) (mi ai : Bool) (done : List InstallCall) (t : Tracker)
    → At status mi ai done t
    → At status mi ai done (write_state w t).0
unfolding write_state
write_state-At w status mi ai done t h = elim (Option-cases (w.write_error t.writes)) [
  | inl e ↦
      rw (write_state, e)
        (record {
          status_is = h.status_is;
          module_is = h.module_is;
          updated_is = h.updated_is;
          apk_is = h.apk_is;
          actions_are = h.actions_are;
        })
  | inr (x, e) ↦
      rw (write_state, e)
        (record {
          status_is = h.status_is;
          module_is = h.module_is;
          updated_is = h.updated_is;
          apk_is = h.apk_is;
          actions_are = h.actions_are;
        })
]

-- A step of the tracker changes the status only.
pub track_step-At :
    (w : Clock) (name st code detail status : String) (mi ai : Bool) (done : List InstallCall)
    (t : Tracker)
    → At status mi ai done t
    → At (status_after st status) mi ai done (track_step w name st code detail t)
unfolding track_step
track_step-At w name st code detail status mi ai done t h =
    write_state-At w _ mi ai done
      (record t {
        state = record t.state {
          step = name;
          step_status = st;
          code = code;
          detail = detail;
          status = status_after st t.state.status;
        };
      })
      (record {
        status_is = ap (status_after st) h.status_is;
        module_is = h.module_is;
        updated_is = h.updated_is;
        apk_is = h.apk_is;
        actions_are = h.actions_are;
      })

pub call-At :
    (c : InstallCall) (status : String) (mi ai : Bool) (done : List InstallCall) (t : Tracker)
    → At status mi ai done t
    → At status mi ai (done ++ actions (c ∷ [])) (call c t)
call-At c status mi ai done t h = record {
  status_is = h.status_is;
  module_is = h.module_is;
  updated_is = h.updated_is;
  apk_is = h.apk_is;
  actions_are =
      actions-append t.calls (c ∷ [])
      ∙ ap (λ (d : List InstallCall). d ++ actions (c ∷ [])) h.actions_are;
}

-- The status that an end has.
unfoldable pub final_status : Option InstallError → String
final_status none = "completed"
final_status (some (cancelled e)) = "running"
final_status (some (record_failed e)) = "running"
final_status (some (module_failed e)) = "failed"
final_status (some (apk_failed e)) = "failed"
final_status (some (cleanup_failed e)) = "failed"
final_status (some (runtime_stop_failed e)) = "failed"

pub final_status_stays :
    (e : Option InstallError) → status_after "ok" (final_status e) ≡ final_status e
unfolding status_after final_status
final_status_stays none = refl
final_status_stays (some (cancelled e)) = refl
final_status_stays (some (record_failed e)) = refl
final_status_stays (some (module_failed e)) = refl
final_status_stays (some (apk_failed e)) = refl
final_status_stays (some (cleanup_failed e)) = refl
final_status_stays (some (runtime_stop_failed e)) = refl

-- Where an error ends the run: the status is that of the error, and the two marks agree.
abbrev pub Ends : InstallError → Tracker → Type 0
Ends e t = (t.state.status ≡ final_status (some e)) × (t.state.module_installed ≡ t.module_updated)

abbrev pub Post : (Tracker → Type 0) → InstallRun → Type 0
Post P (t, none) = P t
Post P (t, some e) = Ends e t

pub and_then-Post :
    (P Q : Tracker → Type 0) (run : InstallRun) (k : Tracker → InstallRun)
    → Post P run
    → ((t : Tracker) → P t → Post Q (k t))
    → Post Q (and_then run k)
and_then-Post P Q (t, none) k h f = f t h
and_then-Post P Q (t, some e) k h f = h

pub stage-Post :
    (on : Bool) (answer : Option String) (f : Tracker → InstallRun) (P Q : Bool → Tracker → Type 0)
    (t : Tracker)
    → P on t
    → ((u : Tracker) → P true u → Post (P true) (check answer u))
    → ((u : Tracker) → P true u → Post (Q true) (f u))
    → ((u : Tracker) → P false u → Q false u)
    → Post (Q on) (stage on answer f t)
stage-Post true answer f P Q t h c k off =
    and_then-Post (P true) (Q true) (check answer t) f (c t h) k
stage-Post false answer f P Q t h c k off = off t h

pub At-Ends :
    (e : InstallError) (status : String) (mi ai : Bool) (done : List InstallCall) (t : Tracker)
    → At status mi ai done t
    → status ≡ final_status (some e)
    → Ends e t
At-Ends e status mi ai done t h q = (h.status_is ∙ q, h.module_is ∙ sym h.updated_is)

pub check-Post :
    (answer : Option String) (mi ai : Bool) (done : List InstallCall) (t : Tracker)
    → At "running" mi ai done t
    → Post (At "running" mi ai done) (check answer t)
unfolding final_status
check-Post none mi ai done t h = h
check-Post (some e) mi ai done t h = At-Ends (cancelled e) "running" mi ai done t h refl

module _ (w : Clock) (tx : InstallTransaction) (a : Answers) where
  pub mark_step-At :
      (name st code detail status : String) (mi ai : Bool) (done : List InstallCall) (t : Tracker)
      → At status mi ai done t
      → At (status_after st status) mi ai done (mark_step w tx a name st code detail t)
  unfolding mark_step actions
  mark_step-At name st code detail status mi ai done t h =
      elim (Bool-cases tx.sets_operation_step) [
        | inr e ↦ rw e (track_step-At w name st code detail status mi ai done t h)
        | inl e ↦
            let noted = call-At (sets_step name st code detail) status mi ai done t h in
            rw e (track_step-At w name st code detail status mi ai done _ (rw append-nil at noted))
      ]
