-- ===== src/Popup/Shown.antt =====
-- src/popupwidget.cpp: the calls on the layer surface in order, over the handlers of the state machine.
use Prim.Native.String.{String}
use stylus_popup.Prelude.{
  Bool, true, false, not, ◌&&◌, ◌||◌, List, [], ◌∷◌, Option, none, some, if◌then◌else◌, ℤ, pos,
  leb_ℤ, ◌≡◌, arith, refl, if_elim,
}
use stylus_popup.Pen.{StylusState, attaching}
use stylus_popup.Platform.{Platform}
use stylus_popup.Popup.{
  Popup, IslandMode, hidden, failing, expanded, battery, same_content, same_mode, is_shown,
  set_mode, start_frames, assign_mode, appear, approach, begin_swap, LayerCall, set_visible_height,
  render_frame, hide,
}
use stylus_popup.Popup.Handlers.{
  show_state, show_attached, open_stage, refresh, present, collapse, show_error, end_waiting,
  on_connect_attempt_started, on_bt_paired, arm_connect_timer, seated_mode, same_phase, kick,
  wait_or_leave, show_paired, same_bool, is_seated_state,
}
use stylus_popup.Popup.Strings.{is_empty}

-- Whether the surface is shown after some calls, the newest first; `none` where a call is out of
-- order: a height is given to a hidden surface, and a frame or its end to a shown one.
unfoldable pub shown_after : List LayerCall → Option Bool
shown_after [] = some false
shown_after (set_visible_height h ∷ calls) = elim (shown_after calls) [
  | none ↦ none
  | some shown ↦ if shown then none else some true
]
shown_after (render_frame ∷ calls) = elim (shown_after calls) [
  | none ↦ none
  | some shown ↦ if shown then some true else none
]
shown_after (hide ∷ calls) = elim (shown_after calls) [
  | none ↦ none
  | some shown ↦ if shown then some false else none
]

-- The calls are in order and come to what the island believes, and only a shown one has frames.
abbrev pub IsDrawn : {R : Type 0} → Popup R → Type 0
IsDrawn p =
    (shown_after p.layer_calls ≡ some p.layer_visible)
    × (p.frame_active ≡ true → p.layer_visible ≡ true)

module _ (platform : Platform) (ns : ℤ) where
  open platform use {Real, lit, lt}

  start_frames-IsDrawn : (p : Popup Real) → IsDrawn p → IsDrawn (start_frames platform ns p)
  unfolding start_frames
  start_frames-IsDrawn p v = ground (arith, v)

  appear-IsDrawn : (p : Popup Real) → IsDrawn p → IsDrawn (appear platform p)
  unfolding appear shown_after
  appear-IsDrawn p v =
      if_elim IsDrawn p.layer_visible (λ _. v) (λ off. (ground (arith, off, v), λ _. refl))

  approach-IsDrawn : (m : IslandMode) (p : Popup Real) → IsDrawn p → IsDrawn (approach platform m p)
  unfolding approach
  approach-IsDrawn m p v = if_elim IsDrawn (same_mode m hidden) (λ _. v) (λ _. v)

  set_mode-IsDrawn :
      (m : IslandMode) (p : Popup Real) → IsDrawn p → IsDrawn (set_mode platform ns m p)
  unfolding set_mode assign_mode begin_swap
  set_mode-IsDrawn m p v =
      if_elim IsDrawn (same_mode m p.mode) (λ _. v)
        (λ _.
          if_elim IsDrawn (same_mode m hidden && not p.layer_visible) (λ _. v)
            (λ _.
              start_frames-IsDrawn _ (approach-IsDrawn m _ (appear-IsDrawn (assign_mode m p) v))))

  arm_connect_timer-IsDrawn :
      (p : Popup Real) → IsDrawn p → IsDrawn (arm_connect_timer platform ns p)
  unfolding arm_connect_timer
  arm_connect_timer-IsDrawn p v =
      if_elim (IsDrawn) (leb_ℤ p.connect_timeout_ms (pos 0)) (λ _. v) (λ _. v)

  present-IsDrawn : (p : Popup Real) → IsDrawn p → IsDrawn (present platform ns p)
  unfolding present
  present-IsDrawn p v =
      if_elim (IsDrawn) (set_mode platform ns (seated_mode p.state) p).bt_paired
        (λ _. set_mode-IsDrawn (seated_mode p.state) p v)
        (λ _. arm_connect_timer-IsDrawn _ (set_mode-IsDrawn (seated_mode p.state) p v))

  wait_or_leave-IsDrawn : (p : Popup Real) → IsDrawn p → IsDrawn (wait_or_leave platform ns p)
  unfolding wait_or_leave
  wait_or_leave-IsDrawn p v =
      if_elim IsDrawn p.bt_paired (λ _. v)
        (λ _. if_elim IsDrawn (not p.connect_active) (λ _. arm_connect_timer-IsDrawn _ v) (λ _. v))

  kick-IsDrawn :
      (charging : Bool) (p : Popup Real) → IsDrawn p → IsDrawn (kick platform ns charging p)
  unfolding kick
  kick-IsDrawn charging p v =
      if_elim IsDrawn (same_content p.content battery && not (same_bool p.state.charging charging))
        (λ _. v) (λ _. v)

  refresh-IsDrawn :
      (charging : Bool) (p : Popup Real) → IsDrawn p → IsDrawn (refresh platform ns charging p)
  unfolding refresh
  refresh-IsDrawn charging p v = start_frames-IsDrawn _ (
      kick-IsDrawn charging _
        (wait_or_leave-IsDrawn _ (set_mode-IsDrawn (seated_mode p.state) p v)))

  pub collapse-IsDrawn : (p : Popup Real) → IsDrawn p → IsDrawn (collapse platform ns p)
  unfolding collapse
  collapse-IsDrawn p v = set_mode-IsDrawn hidden _ v

  show_error-IsDrawn :
      (message : String) (p : Popup Real) → IsDrawn p → IsDrawn (show_error platform ns message p)
  unfolding show_error
  show_error-IsDrawn message p v =
      set_mode-IsDrawn failing (record p { error_text = message; dismiss_active = false }) v

  pub end_waiting-IsDrawn :
      (gave_up : Bool) (reason : String) (p : Popup Real)
      → IsDrawn p
      → IsDrawn (end_waiting platform ns gave_up reason p)
  unfolding end_waiting
  end_waiting-IsDrawn gave_up reason p v =
      if_elim (IsDrawn) (not (is_shown p)) (λ _. w)
        (λ _.
          if_elim (IsDrawn) (not (is_empty reason) && not p.bt_paired)
            (λ _. show_error-IsDrawn reason _ w) (λ _. collapse-IsDrawn _ w))
    where
      w : IsDrawn (record p { gave_up = gave_up; connect_active = false })
      w = v

  open_stage-IsDrawn : (p : Popup Real) → IsDrawn p → IsDrawn (open_stage platform ns p)
  unfolding open_stage
  open_stage-IsDrawn p v = if_elim (IsDrawn) (same_phase p.state.phase attaching) (λ _. v) (λ _. v)

  show_attached-IsDrawn :
      (charging : Bool) (p : Popup Real)
      → IsDrawn p
      → IsDrawn (show_attached platform ns charging p)
  unfolding show_attached
  show_attached-IsDrawn charging p v =
      if_elim (IsDrawn) p.gave_up (λ _. v)
        (λ _.
          if_elim (IsDrawn) (not (is_shown p) || same_mode p.mode failing)
            (λ _. present-IsDrawn p v) (λ _. refresh-IsDrawn charging p v))

  pub show_state-IsDrawn :
      (s : StylusState) (p : Popup Real) → IsDrawn p → IsDrawn (show_state platform ns s p)
  unfolding show_state
  show_state-IsDrawn s p v =
      if_elim (IsDrawn) (not s.attached) (λ _. end_waiting-IsDrawn false "" _ v)
        (λ _. show_attached-IsDrawn _ _ (open_stage-IsDrawn _ v))

  pub on_connect_attempt_started-IsDrawn :
      (p : Popup Real) → IsDrawn p → IsDrawn (on_connect_attempt_started platform ns p)
  unfolding on_connect_attempt_started
  on_connect_attempt_started-IsDrawn p v =
      if_elim (IsDrawn) (not p.state.attached) (λ _. v)
        (λ _.
          if_elim (IsDrawn) (not (is_shown p) || same_mode p.mode failing)
            (λ _. present-IsDrawn _ v)
            (λ _.
              if_elim (IsDrawn) (not p.bt_paired && not p.connect_active)
                (λ _. arm_connect_timer-IsDrawn _ v) (λ _. v)))

  show_paired-IsDrawn : (p : Popup Real) → IsDrawn p → IsDrawn (show_paired platform ns p)
  unfolding show_paired
  show_paired-IsDrawn p v =
      let q = if is_seated_state p.state then set_mode platform ns expanded p else p in
      let w =
        if_elim IsDrawn (is_seated_state p.state) (λ _. set_mode-IsDrawn expanded p v) (λ _. v) in
      if_elim IsDrawn (is_shown q) (λ _. w) (λ _. w)

  pub on_bt_paired-IsDrawn : (p : Popup Real) → IsDrawn p → IsDrawn (on_bt_paired platform ns p)
  unfolding on_bt_paired
  on_bt_paired-IsDrawn p v =
      if_elim IsDrawn (not p.state.attached) (λ _. v)
        (λ _. start_frames-IsDrawn _ (show_paired-IsDrawn _ v))
