-- ===== src/App/Pairing.antt =====
-- src/main.cpp: the whole way of a pen that BlueZ lists, from the driver's report over the attempt of the
-- manager to the island.
mod Tests
use Prim.Native.String.{String}
use stylus_popup.Prelude.{
  Bool, true, false, Option, some, List, [], ◌∷◌, ◌++◌, ℤ, ◌≡◌, ◌∙◌, refl, ap, sym, arith,
}
use stylus_popup.Pen.{StylusState, complete}
use stylus_popup.Platform.{Platform}
use stylus_popup.Popup.{Popup, expanded}
use stylus_popup.Popup.Strings.{is_empty}
use stylus_popup.Popup.Bonded.{shown-state, started-state, paired_shows}
use stylus_popup.Popup.Handlers.{
  show_state, show_attached, open_stage, present, refresh, wait_or_leave, arm_connect_timer,
  collapse, end_waiting, on_connect_attempt_started, on_bt_paired, show_paired,
}
use stylus_popup.Popup.Events.{attempt_started, paired, handle}
use stylus_popup.Bluez
use stylus_popup.Bluez.{
  BluezManager, ManagedObject, Output, calls, pair, connect, done, get_managed_objects,
  pair_and_connect_device, on_pair_reply, on_connect_reply, managed, search_objects, halt_discovery,
  finish, ensure_paired, act_on, settle_device, on_managed_objects_reply, on_reply,
}
use stylus_popup.App.{
  App, asks, still_requested, on_state_changed, on_signals, on_popup_event, deliver,
}

-- The calls that pair a pen, the newest first: none for a pen that BlueZ lists as paired.
abbrev pub pairing_calls : Bool → String → List Output
pairing_calls true path = []
pairing_calls false path = calls (connect path) ∷ calls (pair path) ∷ []

-- The signals of an attempt that ends well, from its start to the pairing, the newest first.
abbrev pub attempt_signals : Bool → String → String → List Output
attempt_signals known mac path =
    Bluez.paired mac ∷ pairing_calls known path
    ++ calls get_managed_objects ∷ Bluez.attempt_started ∷ []

module _ (same_address : String → String → Bool) (is_valid : String → Bool) where
  -- The manager once all its calls were answered without an error, the first with those objects.
  unfoldable pub all_answered : Bool → String → List ManagedObject → BluezManager → BluezManager
  all_answered true path os b = on_reply same_address is_valid get_managed_objects (managed os) b
  all_answered false path os b = on_reply same_address is_valid (connect path) done (
      on_reply same_address is_valid (pair path) done
        (on_reply same_address is_valid get_managed_objects (managed os) b))

  all_answered_lem :
      (known : Bool) (mac path : String) (os : List ManagedObject) (b : BluezManager)
      → is_empty mac ≡ false
      → is_empty b.pending_mac ≡ true
      → b.discovering ≡ false
      → is_valid "/" ≡ true
      → is_valid path ≡ true
      → (search_objects same_address mac "" os).match ≡ some (path, known)
      → let c = all_answered known path os (ensure_paired is_valid mac b) in
        (is_empty c.pending_mac ≡ true)
        × (c.outputs
            ≡ Bluez.paired mac ∷ pairing_calls known path
              ++ calls get_managed_objects ∷ Bluez.attempt_started ∷ b.outputs)
  unfolding all_answered on_reply on_managed_objects_reply ensure_paired act_on settle_device finish
      halt_discovery pair_and_connect_device on_pair_reply on_connect_reply
  all_answered_lem true mac path os b some_mac idle calm bus valid found = ground arith
  all_answered_lem false mac path os b some_mac idle calm bus valid found = ground arith

module _ (platform : Platform) (is_valid : String → Bool) where
  open platform use {Real}

  -- Some queued signals, the newest first, reach their slots.
  unfoldable pub deliver_all : ℤ → List Output → App Real → App Real
  deliver_all ns [] app = app
  deliver_all ns (o ∷ os) app = deliver platform is_valid ns o (deliver_all ns os app)

  asked_for :
      (ns : ℤ) (s : StylusState) (app : App Real)
      → s.attached ≡ true
      → s.phase ≡ complete
      → s.mac_valid ≡ true
      → app.pairing_requested ≡ false
      → on_state_changed platform is_valid ns s app ≡ record app {
        popup = show_state platform ns s app.popup;
        bluez = ensure_paired is_valid s.mac_address app.bluez;
        pairing_requested = true;
      }
  unfolding on_state_changed still_requested asks
  asked_for ns s app a c m r = ground arith

  -- The calls among the signals reach no slot.
  told :
      (ns : ℤ) (known : Bool) (mac path : String) (app : App Real)
      → let last = deliver_all ns (attempt_signals known mac path) app in
        (last.popup
          ≡ (handle platform ns paired (handle platform ns attempt_started app.popup).0).0)
        × (last.bluez ≡ app.bluez)
        × (last.pairing_requested ≡ app.pairing_requested)
        × (last.delivered
            ≡ Bluez.paired mac ∷ pairing_calls known path
              ++ calls get_managed_objects ∷ Bluez.attempt_started ∷ app.delivered)
  unfolding deliver_all deliver on_popup_event handle on_signals
  told ns true mac path app = (refl, refl, refl, refl)
  told ns false mac path app = (refl, refl, refl, refl)

  -- The driver reports a pen attached, complete and with its address, after no pairing was asked for
  -- since it was attached, to an idle manager that is not discovering and whose signals were all
  -- delivered, while BlueZ and the pen's object are in reach and the objects list the pen, paired or
  -- not: once the calls of the manager were answered without an error and its queued signals were
  -- delivered, the island is expanded, knows that the pen is paired, waits for nothing but its
  -- dismissal and has not given up; the manager is idle again and no signal is left.
  pub listed_pen_pairs :
      (same_address : String → String → Bool) (ns ns' : ℤ) (known : Bool) (s : StylusState)
      (path : String) (os : List ManagedObject) (app : App Real)
      → s.attached ≡ true
      → s.phase ≡ complete
      → s.mac_valid ≡ true
      → is_empty s.mac_address ≡ false
      → app.pairing_requested ≡ false
      → is_empty app.bluez.pending_mac ≡ true
      → app.bluez.discovering ≡ false
      → app.delivered ≡ app.bluez.outputs
      → is_valid "/" ≡ true
      → is_valid path ≡ true
      → (search_objects same_address s.mac_address "" os).match ≡ some (path, known)
      → let asked = on_state_changed platform is_valid ns s app in
        let replied = record asked {
          bluez = all_answered same_address is_valid known path os asked.bluez;
        } in
        let last = deliver_all ns' (attempt_signals known s.mac_address path) replied in
        (last.popup.mode ≡ expanded)
        × (last.popup.bt_paired ≡ true)
        × (last.popup.gave_up ≡ false)
        × (last.popup.connect_active ≡ false)
        × (last.popup.dismiss_active ≡ true)
        × (is_empty last.bluez.pending_mac ≡ true)
        × (last.pairing_requested ≡ true)
        × (last.delivered ≡ last.bluez.outputs)
  listed_pen_pairs same_address ns ns' known s path os app a c m some_mac r idle calm queue bus
        valid found =
      let kept = started-state platform ns' _ ∙ shown-state platform ns s app.popup a in
      let (still_idle, outs) =
        all_answered_lem same_address is_valid known s.mac_address path os app.bluez some_mac idle
          calm bus valid found in
      let (heard, same, asked, delivered) = told ns' known s.mac_address path (record app {
        popup = show_state platform ns s app.popup;
        bluez =
            all_answered same_address is_valid known path os
              (ensure_paired is_valid s.mac_address app.bluez);
        pairing_requested = true;
      }) in
      let (state, mode, bonded, gave_up, waits, leaves) =
        paired_shows platform ns'
          (handle platform ns' attempt_started (show_state platform ns s app.popup)).0
          (ap (λ t. t.attached) kept ∙ a) (ap (λ t. t.phase) kept ∙ c) in
      rw (asked_for ns s app a c m r, heard)
        (
          mode,
          bonded,
          gave_up,
          waits,
          leaves,
          ap (λ b. is_empty b.pending_mac) same ∙ still_idle,
          asked,
          delivered
              ∙ ap
                  (λ os.
                    Bluez.paired s.mac_address ∷ pairing_calls known path
                    ++ calls get_managed_objects ∷ Bluez.attempt_started ∷ os)
                  queue
              ∙ sym outs
              ∙ ap (λ b. b.outputs) (sym same),
        )
