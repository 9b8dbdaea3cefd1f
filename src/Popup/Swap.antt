-- ===== src/Popup/Swap.antt =====
-- src/popupwidget.cpp: the content follows the mode. It lags behind while it is swapped, and the
-- surface is taken down only for a hidden island.
use Prim.Native.String.{String}
use stylus_popup.Prelude.{ℕ, Bool, true, false, not, ◌&&◌, List, ℤ, ◌≡◌, ◌≢◌, arith, if_elim}
use stylus_popup.Pen.{StylusState}
use stylus_popup.Platform.{Platform}
use stylus_popup.Popup.{
  Popup, Content, IslandMode, hidden, expanded, failing, nothing, content_for, same_mode, is_shown,
  set_mode, start_frames, appear, approach, begin_swap, assign_mode, initial,
}
use stylus_popup.Popup.Frames.{
  on_frame, apply_shape_for, swap_content, reveal, vanish, follow_capacity, move_springs,
  finish_frame, finish_hide, redraw,
}
use stylus_popup.Popup.Handlers.{
  Signal, show_state, show_attached, open_stage, refresh, kick, wait_or_leave, present, collapse,
  show_error, end_waiting, on_connect_attempt_started, show_paired, on_bt_paired,
  on_bt_connection_failed, on_connect_timeout, arm_connect_timer, seated_mode,
}
use stylus_popup.Popup.Strings.{is_empty}
use stylus_popup.Popup.Events.{
  Event, state_changed, attempt_started, paired, pairing_failed, connect_fires, dismiss_fires,
  error_fires, frame_fires, theme_changed, handle, run, run_inv,
}

-- On the mode, whether the surface is visible, whether the shape collapses, what is pending, the
-- content and the next content.
pub record AreStaged (m : IslandMode) (visible collapsing swap reveal : Bool) (c n : Content)
    : Type 0 where
  pub shown_visible : m ≢ hidden → visible ≡ true
  pub collapsing_hidden : collapsing ≡ true → m ≡ hidden
  pub collapsing_swapped : collapsing ≡ true → swap ≡ false
  pub next_of_mode : swap ≡ true → n ≡ content_for m
  pub content_of_mode : swap ≡ false → c ≡ content_for m
  pub swap_then_reveal : reveal ≡ true → swap ≡ false
  pub gone_empty : visible ≡ false → (c ≡ nothing) × (swap ≡ false)

pub record IsStaged {R : Type 0} (p : Popup R) : Type 0 where
  pub staged :
      AreStaged p.mode p.layer_visible p.collapsing p.swap_pending p.reveal_pending p.content
        p.next_content
  pub open staged use *

module _ (platform : Platform) (ns : ℤ) where
  open platform use {Real}

  start_frames-IsStaged : (p : Popup Real) → IsStaged p → IsStaged (start_frames platform ns p)
  unfolding start_frames
  start_frames-IsStaged p v = ground arith

  -- The last part of `set_mode`, where nothing collapses any more.
  begin_swap-IsStaged :
      (m : IslandMode) (p : Popup Real)
      → p.layer_visible ≡ true
      → p.mode ≡ m
      → p.collapsing ≡ false
      → IsStaged (begin_swap platform m p)
  unfolding begin_swap
  begin_swap-IsStaged m p v e c = ground arith

  -- The parts before it leave a visible surface, on which nothing collapses.
  approached :
      (m : IslandMode) (p : Popup Real)
      → (p.collapsing ≡ true → p.mode ≡ hidden)
      → same_mode m p.mode ≡ false
      → let q = approach platform m (appear platform (assign_mode m p)) in
        (q.layer_visible ≡ true) × (q.mode ≡ m) × (q.collapsing ≡ false)
  unfolding approach appear assign_mode
  approached m p c other = ground arith

  set_mode-IsStaged :
      (m : IslandMode) (p : Popup Real) → IsStaged p → IsStaged (set_mode platform ns m p)
  unfolding set_mode
  set_mode-IsStaged m p v =
      if_elim IsStaged (same_mode m p.mode) (λ _. record { staged = v.staged })
        (λ other.
          if_elim IsStaged (same_mode m hidden && not p.layer_visible)
            (λ gone. unfold assign_mode in ground arith)
            (λ _.
              let (visible, there, open_shape) = approached m p v.collapsing_hidden other in
              start_frames-IsStaged _ (begin_swap-IsStaged m _ visible there open_shape)))

  kick-IsStaged :
      (charging : Bool) (p : Popup Real) → IsStaged p → IsStaged (kick platform ns charging p)
  unfolding kick
  kick-IsStaged charging p v = ground arith

  arm_connect_timer-IsStaged :
      (p : Popup Real) → IsStaged p → IsStaged (arm_connect_timer platform ns p)
  unfolding arm_connect_timer
  arm_connect_timer-IsStaged p v = ground arith

  present-IsStaged : (p : Popup Real) → IsStaged p → IsStaged (present platform ns p)
  unfolding present arm_connect_timer
  present-IsStaged p v = ground (arith, set_mode-IsStaged (seated_mode p.state) p)

  wait_or_leave-IsStaged : (p : Popup Real) → IsStaged p → IsStaged (wait_or_leave platform ns p)
  unfolding wait_or_leave arm_connect_timer
  wait_or_leave-IsStaged p v = ground arith

  refresh-IsStaged :
      (charging : Bool) (p : Popup Real) → IsStaged p → IsStaged (refresh platform ns charging p)
  unfolding refresh
  refresh-IsStaged charging p v =
      start_frames-IsStaged _
        (kick-IsStaged charging _ (wait_or_leave-IsStaged _ (set_mode-IsStaged _ p v)))

  show_error-IsStaged :
      (message : String) (p : Popup Real) → IsStaged p → IsStaged (show_error platform ns message p)
  unfolding show_error
  show_error-IsStaged message p v = record {
    staged =
        (set_mode-IsStaged failing (record p { error_text = message; dismiss_active = false })
          (record { staged = v.staged })).staged;
  }

  collapse-IsStaged : (p : Popup Real) → IsStaged p → IsStaged (collapse platform ns p)
  unfolding collapse
  collapse-IsStaged p v = set_mode-IsStaged hidden _ (record { staged = v.staged })

  end_waiting-IsStaged :
      (gave_up : Bool) (reason : String) (p : Popup Real)
      → IsStaged p
      → IsStaged (end_waiting platform ns gave_up reason p)
  unfolding end_waiting
  end_waiting-IsStaged gave_up reason p v =
      if_elim IsStaged (not (is_shown p)) (λ _. w)
        (λ _.
          if_elim IsStaged (not (is_empty reason) && not p.bt_paired)
            (λ _. show_error-IsStaged reason _ w) (λ _. collapse-IsStaged _ w))
    where
      w : IsStaged (record p { gave_up = gave_up; connect_active = false })
      w = record { staged = v.staged }

  open_stage-IsStaged : (p : Popup Real) → IsStaged p → IsStaged (open_stage platform ns p)
  unfolding open_stage
  open_stage-IsStaged p v = ground arith

  show_attached-IsStaged :
      (charging : Bool) (p : Popup Real)
      → IsStaged p
      → IsStaged (show_attached platform ns charging p)
  unfolding show_attached
  show_attached-IsStaged charging p v =
      ground (arith, present-IsStaged p, refresh-IsStaged charging p)

  show_state-IsStaged :
      (s : StylusState) (p : Popup Real) → IsStaged p → IsStaged (show_state platform ns s p)
  unfolding show_state
  show_state-IsStaged s p v =
      if_elim IsStaged (not s.attached)
        (λ _. end_waiting-IsStaged false "" _ (record { staged = v.staged }))
        (λ _. show_attached-IsStaged _ _ (open_stage-IsStaged _ (record { staged = v.staged })))

  on_connect_attempt_started-IsStaged :
      (p : Popup Real) → IsStaged p → IsStaged (on_connect_attempt_started platform ns p)
  unfolding on_connect_attempt_started arm_connect_timer
  on_connect_attempt_started-IsStaged p v =
      ground (arith, present-IsStaged (record p { gave_up = false }))

  show_paired-IsStaged : (p : Popup Real) → IsStaged p → IsStaged (show_paired platform ns p)
  unfolding show_paired
  show_paired-IsStaged p v = ground (arith, set_mode-IsStaged expanded p)

  on_bt_paired-IsStaged : (p : Popup Real) → IsStaged p → IsStaged (on_bt_paired platform ns p)
  unfolding on_bt_paired
  on_bt_paired-IsStaged p v =
      if_elim IsStaged (not p.state.attached) (λ _. v)
        (λ _. start_frames-IsStaged _ (show_paired-IsStaged _ (record { staged = v.staged })))

  -- A frame swaps the content once the old one has faded, and takes the surface down once a
  -- collapsing island has vanished.
  swap_content-IsStaged : (p : Popup Real) → IsStaged p → IsStaged (swap_content platform p)
  unfolding swap_content apply_shape_for
  swap_content-IsStaged p v = ground arith

  reveal-IsStaged : (p : Popup Real) → IsStaged p → IsStaged (reveal platform p)
  unfolding reveal
  reveal-IsStaged p v = ground arith

  vanish-IsStaged : (p : Popup Real) → IsStaged p → IsStaged (vanish platform p)
  unfolding vanish
  vanish-IsStaged p v = ground arith

  follow_capacity-IsStaged : (p : Popup Real) → IsStaged p → IsStaged (follow_capacity platform p)
  unfolding follow_capacity
  follow_capacity-IsStaged p v = ground arith

  redraw-IsStaged : (p : Popup Real) → IsStaged p → IsStaged (redraw platform p)
  unfolding redraw
  redraw-IsStaged p v = ground arith

  finish_frame-IsStaged : (p : Popup Real) → IsStaged p → IsStaged (finish_frame platform p)
  unfolding finish_frame finish_hide redraw
  finish_frame-IsStaged p v = ground arith

  on_frame-IsStaged : (p : Popup Real) → IsStaged p → IsStaged (on_frame platform ns p)
  unfolding on_frame move_springs
  on_frame-IsStaged p v = finish_frame-IsStaged _ (record {
    staged =
        (follow_capacity-IsStaged _ (
          vanish-IsStaged _
            (reveal-IsStaged _ (swap_content-IsStaged _ (record { staged = v.staged }))))).staged;
  })

  pub handle-IsStaged :
      (e : Event) (p : Popup Real) → IsStaged p → IsStaged (handle platform ns e p).0
  unfolding handle on_bt_connection_failed on_connect_timeout
  handle-IsStaged (state_changed s) p v = show_state-IsStaged s p v
  handle-IsStaged attempt_started p v = on_connect_attempt_started-IsStaged p v
  handle-IsStaged paired p v = on_bt_paired-IsStaged p v
  handle-IsStaged pairing_failed p v = end_waiting-IsStaged true _ p v
  handle-IsStaged connect_fires p v =
      if_elim (λ (r : Popup Real × List Signal). IsStaged r.0) p.connect_active
        (λ _. end_waiting-IsStaged true _ _ (record { staged = v.staged })) (λ _. v)
  handle-IsStaged dismiss_fires p v =
      if_elim IsStaged p.dismiss_active (λ _. collapse-IsStaged _ (record { staged = v.staged }))
        (λ _. v)
  handle-IsStaged error_fires p v =
      if_elim IsStaged p.error_active (λ _. collapse-IsStaged _ (record { staged = v.staged }))
        (λ _. v)
  handle-IsStaged frame_fires p v =
      if_elim IsStaged p.frame_active (λ _. on_frame-IsStaged p v) (λ _. v)
  handle-IsStaged (theme_changed taken) p v =
      if_elim IsStaged taken (λ _. redraw-IsStaged p v) (λ _. v)

-- From the constructor on, whatever happens: a shown island has its surface visible; only a hidden
-- one collapses; while a swap is pending the next content is that of the mode, and otherwise the
-- content painted is; the content is revealed only after its swap; and a surface that is taken down
-- is empty, with no swap pending.
pub run-IsStaged :
    (platform : Platform) (timeout : ℤ) (screen_w interval : ℕ) (es : List (ℤ × Event))
    → IsStaged (run platform (initial platform timeout screen_w interval) es)
run-IsStaged platform timeout screen_w interval es =
    run_inv platform IsStaged (λ ns e p. handle-IsStaged platform ns e p) _ es start
  where
    start : IsStaged (initial platform timeout screen_w interval)
    start = unfold initial in ground arith
