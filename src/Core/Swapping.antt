-- ===== src/Core/Swapping.antt =====
-- What a hot swap leaves (`HotSwap` of manager.go): the new runtime, the one before, or none.
use rknno_vpn.Prelude.{◌≡◌, Bool, Option, some}
use rknno_vpn.Recovery.Health.{running}
use rknno_vpn.Core.State.{
  and_then, CoreConfig, CoreManager, NodeProfile, swap_config, removes, World, RuntimeError,
  CoreRun, Outcome, continued, failed, tell, clone_config_for_runtime,
}
use rknno_vpn.Core.Launch.{address_of}
use rknno_vpn.Core.Swap.{
  swap_xray_config, swap_rendered, swap_stop, swap_xray, swap_spawn, swap_listeners, swap_commit,
  begin_swap,
}
use rknno_vpn.Core.Quiet.{rules_asked, Quiet}
use rknno_vpn.Core.Ends.{IsTracked}
use rknno_vpn.Core.Falling.{SwapRefused, SwapFell, Before, Middle}

module _ (w : World) (m₀ : CoreManager) (b : Bool) (cfg : Option CoreConfig)
    (old : Option NodeProfile) (profile : NodeProfile) where
  abbrev Refused : CoreRun → RuntimeError → Type 0
  Refused = SwapRefused w m₀ b cfg old

  abbrev Failure : CoreRun → RuntimeError → Type 0
  Failure = SwapFell w m₀ b cfg old

  abbrev Untouched : CoreRun → Type 0
  Untouched = Before w m₀ b cfg old

  abbrev Halfway : CoreRun → Type 0
  Halfway = Middle w m₀ b cfg old

  abbrev Serving : CoreRun → Type 0
  Serving r = Halfway r × IsTracked r.core

  -- The runtime of the new profile.
  pub record Swapped (out : CoreRun) : Type 0 where
    pub state_is : out.core.state ≡ running
    pub config_is : out.core.config ≡ m₀.config
    pub process_is : IsTracked out.core
    pub active_is : out.core.active_profile ≡ address_of profile
    pub running_config_is : out.core.running_config ≡ clone_config_for_runtime w (some m₀.config)
    pub running_profile_is : out.core.running_profile ≡ some profile
    pub rules_are : rules_asked out.calls ≡ b
    pub status_is : out.core.last_runtime_report.status ≡ "ok"

  -- The part of a hot swap behind the end of the old process.
  abbrev behind_stop : CoreRun → Outcome
  behind_stop r = and_then (swap_xray w cfg old profile r) (λ r3.
      and_then (swap_spawn w cfg old profile r3)
        (λ r4. and_then (swap_listeners w cfg old profile r4) (swap_commit w cfg old profile)))

  -- The part of a hot swap up to the end of the old process: the configurations, then that end.
  abbrev pub up_to_stop : CoreRun → Outcome
  up_to_stop r = and_then (swap_xray_config w cfg old profile r) (λ r1.
      and_then (swap_rendered w cfg old profile (tell (removes swap_config) r1))
        (swap_stop w cfg old profile))

  -- How a swap ends, by what became of that part.
  abbrev pub EndsBy : Outcome → Outcome → Type 0
  EndsBy (failed x e) (failed out e') = Refused out e'
  EndsBy (failed x e) (continued out) = ⊥
  EndsBy (continued x) (continued out) = Swapped out
  EndsBy (continued x) (failed out e') = Failure out e'

-- How a hot swap ends, by whether its part up to the end of the old process went through.
abbrev pub SwapEnd : World → NodeProfile → CoreRun → Outcome → Type 0
SwapEnd w profile r out =
    let cfg = clone_config_for_runtime w r.core.running_config in
    let old = r.core.running_profile in
    EndsBy w r.core (rules_asked r.calls) cfg old profile
      (up_to_stop w r.core (rules_asked r.calls) cfg old profile (begin_swap w r)) out
