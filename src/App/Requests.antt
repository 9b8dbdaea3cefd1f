-- ===== src/App/Requests.antt =====
-- src/main.cpp: when the pairing of the pen is asked for, and what a timeout drops.
use Prim.Native.String.{String}
use stylus_popup.Prelude.{
  Bool, true, false, Option, none, some, List, [], ◌∷◌, ℤ, ◌≡◌, refl, ap, ◌∙◌, arith, if◌then◌else◌,
  Bool-cases, inl, inr,
}
use stylus_popup.Pen.{StylusState, complete}
use stylus_popup.Platform.{Platform}
use stylus_popup.Popup.{failing}
use stylus_popup.Popup.Strings.{is_empty}
use stylus_popup.Popup.Handlers.{Signal, connect_timed_out}
use stylus_popup.Popup.Events.{connect_fires}
use stylus_popup.Popup.Timers.{IsTimed}
use stylus_popup.Popup.Verdicts.{connect_fires_verdict}
use stylus_popup.Bluez.{BluezManager, Call, Answer, finish, ensure_paired, cancel, on_reply}
use stylus_popup.Bluez.Stale.{idle_unchanged}
use stylus_popup.App.{App, asks, still_requested, on_state_changed, on_signals, on_popup_event}

-- Reports of an attached pen in the phase `complete`.
abbrev pub AllSeated : List (ℤ × StylusState) → Type 0
AllSeated [] = Unit
AllSeated ((ns, s) ∷ reports) = (s.attached ≡ true) × (s.phase ≡ complete) × AllSeated reports

module _ (platform : Platform) (is_valid : String → Bool) where
  open platform use {Real}

  -- Reports of the driver, one after another, each at its clock reading.
  unfoldable pub reports_run : App Real → List (ℤ × StylusState) → App Real
  reports_run app [] = app
  reports_run app ((ns, s) ∷ reports) =
      reports_run (on_state_changed platform is_valid ns s app) reports

  seated_asks_not :
      (ns : ℤ) (s : StylusState) (app : App Real)
      → s.attached ≡ true
      → s.phase ≡ complete
      → app.pairing_requested ≡ true
      → let next = on_state_changed platform is_valid ns s app in
        (next.bluez ≡ app.bluez) × (next.pairing_requested ≡ true)
  unfolding on_state_changed still_requested asks
  seated_asks_not ns s app a c r = ground arith

  -- Once the pairing was asked for, it is not asked for again while the pen stays attached and
  -- complete: whatever such reports say, the manager is left alone.
  asked_once :
      (reports : List (ℤ × StylusState)) (app : App Real)
      → AllSeated reports
      → app.pairing_requested ≡ true
      → let last = reports_run app reports in
        (last.bluez ≡ app.bluez) × (last.pairing_requested ≡ true)
  unfolding reports_run
  asked_once [] app seated r = (refl, r)
  asked_once ((ns, s) ∷ reports) app (a, c, seated) r =
      let (kept, asked) = seated_asks_not ns s app a c r in
      let (same, still) =
        asked_once reports (on_state_changed platform is_valid ns s app) seated asked in
      (same ∙ kept, still)

  first_asks :
      (ns : ℤ) (s : StylusState) (app : App Real)
      → s.attached ≡ true
      → s.phase ≡ complete
      → app.pairing_requested ≡ false
      → let next = on_state_changed platform is_valid ns s app in
        (next.pairing_requested ≡ s.mac_valid)
        × (s.mac_valid ≡ true → next.bluez ≡ ensure_paired is_valid s.mac_address app.bluez)
        × (s.mac_valid ≡ false → next.bluez ≡ app.bluez)
  unfolding on_state_changed still_requested asks
  first_asks ns s app a c r = ground arith

  -- The address of the first report that has a valid one.
  unfoldable pub first_address : List (ℤ × StylusState) → Option String
  first_address [] = none
  first_address ((ns, s) ∷ reports) =
      let rest = first_address reports in if s.mac_valid then some s.mac_address else rest

  -- The manager after a request for a pen, where there is one.
  abbrev pub requested_for : Option String → BluezManager → BluezManager
  requested_for none b = b
  requested_for (some mac) b = ensure_paired is_valid mac b

  -- However many reports of an attached and complete pen come one after another, where no pairing was
  -- asked for before: it is asked for once, for the address of the first report that has a valid one,
  -- and not at all where none has; the manager is as that one request leaves it.
  pub asked_once_for_first :
      (reports : List (ℤ × StylusState)) (app : App Real)
      → AllSeated reports
      → app.pairing_requested ≡ false
      → (reports_run app reports).bluez ≡ requested_for (first_address reports) app.bluez
  unfolding reports_run first_address
  asked_once_for_first [] app seated r = refl
  asked_once_for_first ((ns, s) ∷ reports) app (a, c, seated) r =
      let next = on_state_changed platform is_valid ns s app in
      let (asked, one, unasked) = first_asks ns s app a c r in
      elim (Bool-cases s.mac_valid) [
        | inl known ↦ simp (known) ((asked_once reports next seated (asked ∙ known)).0 ∙ one known)
        | inr unknown ↦
            let rest = asked_once_for_first reports next seated (asked ∙ unknown) in
            simp (unknown) (rest ∙ ap (requested_for (first_address reports)) (unasked unknown))
      ]

  finish_idle : (b : BluezManager) → is_empty (finish is_valid b).pending_mac ≡ true
  unfolding finish
  finish_idle b = refl

  cancel_idle : (b : BluezManager) → is_empty (cancel is_valid b).pending_mac ≡ true
  unfolding cancel
  cancel_idle b = ground (arith, finish_idle b)

  dropped :
      (ns : ℤ) (signals : List Signal) (b : BluezManager)
      → signals ≡ connect_timed_out ∷ []
      → is_empty (on_signals platform is_valid ns signals b).pending_mac ≡ true
  unfolding on_signals
  dropped ns signals b e = rw (e) (cancel_idle b)

  -- The replies to some calls of the manager, one after another.
  unfoldable pub replies_run :
      (same_address : String → String → Bool) → List (Call × Answer) → BluezManager → BluezManager
  replies_run same_address [] b = b
  replies_run same_address ((c, answer) ∷ replies) b =
      replies_run same_address replies (on_reply same_address is_valid c answer b)

  replies_unchanged :
      (same_address : String → String → Bool) (replies : List (Call × Answer)) (b : BluezManager)
      → is_empty b.pending_mac ≡ true
      → replies_run same_address replies b ≡ b
  unfolding replies_run
  replies_unchanged same_address [] b idle = refl
  replies_unchanged same_address ((c, answer) ∷ replies) b idle =
      let same = (idle_unchanged same_address is_valid c answer "" none b idle).0 in
      rw same (replies_unchanged same_address replies b idle)

  -- When the connect timer fires, with the popup's timers in order, the popup has given up and shows
  -- its error, and the attempt behind it is dropped: the manager is idle, and the replies that come
  -- next, however many and to whatever calls, leave it unchanged as long as nothing else happens to it.
  pub timeout_drops :
      (same_address : String → String → Bool) (ns : ℤ) (replies : List (Call × Answer))
      (app : App Real)
      → IsTimed app.popup
      → app.popup.connect_active ≡ true
      → let next = on_popup_event platform is_valid ns connect_fires app in
        (next.popup.gave_up ≡ true)
        × (next.popup.mode ≡ failing)
        × (is_empty next.bluez.pending_mac ≡ true)
        × (replies_run same_address replies next.bluez ≡ next.bluez)
  unfolding on_popup_event
  timeout_drops same_address ns replies app v on =
      let (emitted, mode, text, held, over, gave_up) =
        connect_fires_verdict platform ns app.popup v on in
      let idle = dropped ns _ app.bluez emitted in
      (gave_up, mode, idle, replies_unchanged same_address replies _ idle)
