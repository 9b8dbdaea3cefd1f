-- ===== src/Popup/Handlers.antt =====
-- src/popupwidget.cpp: the state machine of the island, the handler of each event and its helpers.
use Prim.Native.String.{String}
use stylus_popup.Prelude.{
  Bool, true, false, not, ◌&&◌, ◌||◌, List, ◌∷◌, [], ℤ, pos, leb_ℤ, if◌then◌else◌,
}
use stylus_popup.Pen.{StylusState, StylusPhase, attaching, complete}
use stylus_popup.Platform.{Platform}
use stylus_popup.Popup.{
  Popup, IslandMode, hidden, compact, expanded, failing, battery, same_mode, same_content, is_shown,
  with_velocity, start_frames, set_mode,
}
use stylus_popup.Popup.Strings

abbrev pub same_phase : StylusPhase → StylusPhase → Bool
same_phase attaching attaching = true
same_phase complete complete = true
same_phase _ _ = false

abbrev pub same_bool : Bool → Bool → Bool
same_bool true b = b
same_bool false b = not b

abbrev pub is_seated_state : StylusState → Bool
is_seated_state s = s.attached && same_phase s.phase complete

abbrev pub seated_mode : StylusState → IslandMode
seated_mode s = if is_seated_state s then expanded else compact

pub data Signal : Type 0 where
  connect_timed_out : Signal

module _ (platform : Platform) (ns : ℤ) where
  open platform use {Real, lit, add}

  unfoldable pub arm_connect_timer : Popup Real → Popup Real
  arm_connect_timer p =
      if leb_ℤ p.connect_timeout_ms (pos 0) then p else record p { connect_active = true }

  unfoldable pub present : Popup Real → Popup Real
  present p =
      let q = set_mode platform ns (seated_mode p.state) p in
      if q.bt_paired
      then record q { connect_active = false; dismiss_active = true }
      else arm_connect_timer q

  unfoldable pub collapse : Popup Real → Popup Real
  collapse p =
      set_mode platform ns hidden
        (record p { dismiss_active = false; error_active = false; connect_active = false })

  unfoldable pub show_error : String → Popup Real → Popup Real
  show_error message p =
      let q =
        set_mode platform ns failing (record p { error_text = message; dismiss_active = false }) in
      record q { error_active = true }

  unfoldable pub end_waiting : Bool → String → Popup Real → Popup Real
  end_waiting gave_up reason p =
      let q = record p { gave_up = gave_up; connect_active = false } in
      if not (is_shown q)
      then q
      else if not (Strings.is_empty reason) && not q.bt_paired
      then show_error reason q
      else collapse q

  -- The timers of an island that is already shown, in `showState`.
  unfoldable pub wait_or_leave : Popup Real → Popup Real
  wait_or_leave p =
      let q = record p { dismiss_active = false } in
      if q.bt_paired
      then record q { connect_active = false; dismiss_active = true }
      else if not q.connect_active
      then arm_connect_timer q
      else q

  -- The kick of the pulse at a change of the charging state.
  unfoldable pub kick : Bool → Popup Real → Popup Real
  kick was_charging p =
      if same_content p.content battery && not (same_bool p.state.charging was_charging)
      then record p { pulse = with_velocity (add p.pulse.velocity (lit 16 10)) p.pulse }
      else p

  -- The end of `showState`, for an island that is already shown.
  unfoldable pub refresh : Bool → Popup Real → Popup Real
  refresh was_charging p =
      start_frames platform ns
        (kick was_charging (wait_or_leave (set_mode platform ns (seated_mode p.state) p)))

  -- An `Attaching` report opens a new stage.
  unfoldable pub open_stage : Popup Real → Popup Real
  open_stage p =
      if same_phase p.state.phase attaching
      then record p { bt_paired = false; gave_up = false }
      else p

  -- `showState` of an attached pen, once the stage is opened.
  unfoldable pub show_attached : Bool → Popup Real → Popup Real
  show_attached was_charging p =
      if p.gave_up
      then p
      else if not (is_shown p) || same_mode p.mode failing
      then present p
      else refresh was_charging p

  unfoldable pub show_state : StylusState → Popup Real → Popup Real
  show_state state p =
      let q = record p { state = state; dismiss_active = false } in
      if not state.attached
      then end_waiting false "" (record q { bt_paired = false })
      else show_attached p.state.charging (open_stage q)

  unfoldable pub on_connect_attempt_started : Popup Real → Popup Real
  on_connect_attempt_started p =
      let q = record p { gave_up = false } in
      if not p.state.attached
      then p
      else if not (is_shown q) || same_mode q.mode failing
      then present q
      else if not q.bt_paired && not q.connect_active
      then arm_connect_timer q
      else q

  -- The pill, where the driver reports, and its dismissal, where the island is shown.
  unfoldable pub show_paired : Popup Real → Popup Real
  show_paired p =
      let q = if is_seated_state p.state then set_mode platform ns expanded p else p in
      if is_shown q then record q { dismiss_active = true } else q

  unfoldable pub on_bt_paired : Popup Real → Popup Real
  on_bt_paired p =
      let q = record p { bt_paired = true; gave_up = false; connect_active = false } in
      if not p.state.attached then p else start_frames platform ns (show_paired q)

  unfoldable pub on_bt_connection_failed : Popup Real → Popup Real
  on_bt_connection_failed p = end_waiting true (Strings.connect_failed platform) p

  -- The signal is emitted before the wait ends.
  unfoldable pub on_connect_timeout : Popup Real → Popup Real × List Signal
  on_connect_timeout p =
      let reason = if p.bt_paired then "" else Strings.connect_timed_out platform in
      (end_waiting true reason p, connect_timed_out ∷ [])
