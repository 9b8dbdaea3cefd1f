-- ===== src/App/Wiring.antt =====
-- src/main.cpp: the invariants of the popup and of the manager, in every state that the connected
-- application can reach.
use Prim.Native.String.{String}
use stylus_popup.Prelude.{ℕ, Bool, true, false, if_elim, List, ◌∷◌, [], ◌++◌, ℤ, ◌≡◌}
use stylus_popup.Pen.{StylusState}
use stylus_popup.Platform.{Platform}
use stylus_popup.Popup.Events.{
  Event, state_changed, attempt_started, paired, pairing_failed, connect_fires, dismiss_fires,
  error_fires, frame_fires, theme_changed, handle, run,
}
use stylus_popup.Popup.Handlers.{Signal, connect_timed_out, show_state}
use stylus_popup.Popup.Timers.{IsTimed, handle-IsTimed, run-IsTimed}
use stylus_popup.Popup.Swap.{IsStaged, handle-IsStaged, run-IsStaged}
use stylus_popup.Popup.Moving.{IsLively, handle-IsLively, run-IsLively}
use stylus_popup.Bluez.{
  BluezManager, Output, calls, stop_discovery, attempt_started as started, paired as was_paired,
  pairing_failed as failed,
}
use stylus_popup.Bluez.Attempts.{
  Step as ManagerStep, request, drop, IsAlive, Step-IsAlive, Reach-IsAlive, start,
}
use stylus_popup.App
use stylus_popup.App.{
  App, asks, still_requested, on_state_changed, on_signals, on_popup_event, deliver,
}

-- The events of the popup's own timers, and the change of the theme's file.
abbrev pub IsTimer : Event → Type 0
IsTimer (state_changed s) = ⊥
IsTimer attempt_started = ⊥
IsTimer paired = ⊥
IsTimer pairing_failed = ⊥
IsTimer connect_fires = Unit
IsTimer dismiss_fires = Unit
IsTimer error_fires = Unit
IsTimer frame_fires = Unit
IsTimer (theme_changed taken) = Unit

-- One step: a report of the driver, a timer of the popup, an event of the manager, or the delivery
-- of the oldest of its signals that is still queued.
pub data Step (platform : Platform) (same_address : String → String → Bool)
    : App platform.Real → App platform.Real → Type 0 where
  reported :
      (is_valid : String → Bool) (ns : ℤ) (s : StylusState) (app : App platform.Real)
      → Step platform same_address app (on_state_changed platform is_valid ns s app)
  timed :
      (is_valid : String → Bool) (ns : ℤ) (e : Event) (app : App platform.Real)
      → IsTimer e
      → Step platform same_address app (on_popup_event platform is_valid ns e app)
  answered :
      (b : BluezManager) (app : App platform.Real)
      → ManagerStep same_address app.bluez b
      → Step platform same_address app (record app { bluez = b })
  received :
      (is_valid : String → Bool) (ns : ℤ) (newer : List Output) (o : Output)
      (app : App platform.Real)
      → app.bluez.outputs ≡ newer ++ o ∷ app.delivered
      → Step platform same_address app (deliver platform is_valid ns o app)

pub data Reach (platform : Platform) (same_address : String → String → Bool)
    : App platform.Real → Type 0 where
  built :
      (timeout : ℤ) (screen_w interval : ℕ)
      → Reach platform same_address (App.initial platform timeout screen_w interval)
  next :
      {a b : App platform.Real}
      → Reach platform same_address a
      → Step platform same_address a b
      → Reach platform same_address b

pub record IsWired (platform : Platform) (app : App platform.Real) : Type 0 where
  pub timed : IsTimed app.popup
  pub staged : IsStaged app.popup
  pub lively : IsLively platform app.popup
  pub alive : IsAlive app.bluez

module _ (platform : Platform) (is_valid : String → Bool) (ns : ℤ) where
  open platform use {Real}

  on_signals-IsAlive :
      (signals : List Signal) (b : BluezManager)
      → IsAlive b
      → IsAlive (on_signals platform is_valid ns signals b)
  unfolding on_signals
  on_signals-IsAlive [] b v = v
  on_signals-IsAlive (connect_timed_out ∷ signals) b v =
      on_signals-IsAlive signals _ (Step-IsAlive {same_address = λ x y. false} (drop is_valid b) v)

  on_popup_event-IsWired :
      (e : Event) (app : App Real)
      → IsWired platform app
      → IsWired platform (on_popup_event platform is_valid ns e app)
  unfolding on_popup_event
  on_popup_event-IsWired e app v = record {
    timed = handle-IsTimed platform ns e app.popup v.timed;
    staged = handle-IsStaged platform ns e app.popup v.staged;
    lively = handle-IsLively platform ns e app.popup v.lively;
    alive = on_signals-IsAlive _ app.bluez v.alive;
  }

  received-IsWired :
      (o : Output) (app : App Real)
      → IsWired platform app
      → IsWired platform (record app { delivered = o ∷ app.delivered })
  received-IsWired o app v = record {
    timed = v.timed;
    staged = v.staged;
    lively = v.lively;
    alive = v.alive;
  }

  deliver-IsWired :
      (o : Output) (app : App Real)
      → IsWired platform app
      → IsWired platform (deliver platform is_valid ns o app)
  unfolding deliver
  deliver-IsWired (calls c) app v = received-IsWired _ app v
  deliver-IsWired (stop_discovery path) app v = received-IsWired _ app v
  deliver-IsWired started app v =
      on_popup_event-IsWired attempt_started _ (received-IsWired _ app v)
  deliver-IsWired (was_paired mac) app v =
      on_popup_event-IsWired paired _ (received-IsWired _ app v)
  deliver-IsWired (failed mac message) app v =
      on_popup_event-IsWired pairing_failed _ (received-IsWired _ app v)

  shown-IsWired :
      (s : StylusState) (requested : Bool) (b : BluezManager) (app : App Real)
      → IsWired platform app
      → IsAlive b
      → IsWired platform (record app {
        popup = show_state platform ns s app.popup;
        bluez = b;
        pairing_requested = requested;
      })
  unfolding handle
  shown-IsWired s requested b app v alive = record {
    timed = handle-IsTimed platform ns (state_changed s) app.popup v.timed;
    staged = handle-IsStaged platform ns (state_changed s) app.popup v.staged;
    lively = handle-IsLively platform ns (state_changed s) app.popup v.lively;
    alive = alive;
  }

  on_state_changed-IsWired :
      (s : StylusState) (app : App Real)
      → IsWired platform app
      → IsWired platform (on_state_changed platform is_valid ns s app)
  unfolding on_state_changed
  on_state_changed-IsWired s app v =
      if_elim (IsWired platform)
        (asks platform is_valid ns (still_requested platform is_valid ns app.pairing_requested s) s)
        (λ _. shown-IsWired s true _ app v (
          Step-IsAlive {same_address = λ x y. false} (request is_valid s.mac_address app.bluez)
            v.alive))
        (λ _. shown-IsWired s _ app.bluez app v v.alive)

Step-IsWired :
    {platform : Platform} {same_address : String → String → Bool} {a b : App platform.Real}
    → Step platform same_address a b
    → IsWired platform a
    → IsWired platform b
Step-IsWired {platform} (reported is_valid ns s app) v =
    on_state_changed-IsWired platform is_valid ns s app v
Step-IsWired {platform} (timed is_valid ns e app own) v =
    on_popup_event-IsWired platform is_valid ns e app v
Step-IsWired (answered b app s) v = record {
  timed = v.timed;
  staged = v.staged;
  lively = v.lively;
  alive = Step-IsAlive s v.alive;
}
Step-IsWired {platform} (received is_valid ns newer o app queued) v =
    deliver-IsWired platform is_valid ns o app v

-- In every state that the connected application can reach, with the driver's reports, the popup's
-- timers, the manager's replies and the delivery of its queued signals in any order: the popup's
-- timers are in order, its content is that of its mode or of the swap to it, nothing moves without
-- a frame loop, and a pending pairing attempt has a reply or its timer to wait for.
pub Reach-IsWired :
    {platform : Platform} {same_address : String → String → Bool} {app : App platform.Real}
    → Reach platform same_address app
    → IsWired platform app
Reach-IsWired {platform} {same_address} (built timeout screen_w interval) =
    unfold App.initial run in
    record {
      timed = run-IsTimed platform timeout screen_w interval [];
      staged = run-IsStaged platform timeout screen_w interval [];
      lively = run-IsLively platform timeout screen_w interval [];
      alive = Reach-IsAlive {same_address = same_address} start;
    }
Reach-IsWired (next r s) = Step-IsWired s (Reach-IsWired r)
