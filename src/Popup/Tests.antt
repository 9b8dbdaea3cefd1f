-- ===== src/Popup/Tests.antt =====
-- The popup at concrete states, on the fixed-point platform, with a screen of 1920 pixels, a frame
-- every 16 ms and a connect timeout of 15 s.
use stylus_popup.Prelude.{true, false, [], ◌∷◌, List, ℤ, pos, ◌≡◌, refl, arith}
use stylus_popup.Pen.{StylusState, default_state, attaching}
use stylus_popup.Platform.Fixed.{fixed}
use stylus_popup.Popup.{Popup, initial, hidden, expanded, failing}
use stylus_popup.Popup.Handlers.{show_state}
use stylus_popup.Popup.Events.{
  Event, state_changed, attempt_started, paired, dismiss_fires, frame_fires, handle, run,
}
use stylus_popup.Popup.Timers.{IsTimed, run-IsTimed}
use stylus_popup.Popup.Swap.{IsStaged, run-IsStaged}
use stylus_popup.Popup.Moving.{IsLively, run-IsLively}
use stylus_popup.Popup.Verdicts.{unpaired_dismissed}

abbrev arriving : StylusState
arriving = record default_state { attached = true; phase = attaching }

abbrev seated : StylusState
seated = record default_state { attached = true; capacity = 80; mac_valid = true }

abbrev history : List (ℤ × Event)
history =
    (pos 0, state_changed arriving)
    ∷ (pos 16000000, frame_fires)
    ∷ (pos 20000000, attempt_started)
    ∷ (pos 40000000, state_changed seated)
    ∷ (pos 90000000, paired)
    ∷ (pos 99000000, dismiss_fires)
    ∷ []

run-IsTimed_example : IsTimed (run fixed (initial fixed (pos 15000) 1920 16) history)
run-IsTimed_example = run-IsTimed fixed (pos 15000) 1920 16 history

run-IsStaged_example : IsStaged (run fixed (initial fixed (pos 15000) 1920 16) history)
run-IsStaged_example = run-IsStaged fixed (pos 15000) 1920 16 history

run-IsLively_example : IsLively fixed (run fixed (initial fixed (pos 15000) 1920 16) history)
run-IsLively_example = run-IsLively fixed (pos 15000) 1920 16 history

-- A shown island that waits for its pen.
abbrev waiting : Popup ℤ
waiting = record (initial fixed (pos 15000) 1920 16) {
  state = seated;
  mode = expanded;
  layer_visible = true;
  dismiss_active = true;
  connect_active = true;
}

waiting-IsTimed : IsTimed waiting
unfolding initial
waiting-IsTimed = ground arith

-- An island that shows why it gave up.
abbrev given_up : Popup ℤ
given_up = record (initial fixed (pos 15000) 1920 16) {
  state = seated;
  mode = failing;
  layer_visible = true;
  error_active = true;
  gave_up = true;
}

given_up-IsTimed : IsTimed given_up
unfolding initial
given_up-IsTimed = ground arith

unpaired_dismissed_example :
    let q = show_state fixed (pos 5) seated (initial fixed (pos 15000) 1920 16) in
    let (r, signals) = handle fixed (pos 5) dismiss_fires q in
    (q.mode ≡ expanded)
    × (q.dismiss_active ≡ true)
    × (q.connect_active ≡ true)
    × (r.mode ≡ hidden)
    × (r.connect_active ≡ false)
    × (r.gave_up ≡ false)
    × (signals ≡ [])
unfolding initial
unpaired_dismissed_example =
    unpaired_dismissed fixed (pos 5) seated (initial fixed (pos 15000) 1920 16) refl refl refl
      (omega arith) refl refl
