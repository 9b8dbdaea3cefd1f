-- ===== src/Popup/Kept.antt =====
-- src/popupwidget.cpp: what the choreography leaves alone of the state machine, and what a change of
-- the mode does to it.
use stylus_popup.Prelude.{
  Bool, true, false, ◌&&◌, ◌||◌, ℤ, ◌≡◌, arith, if◌then◌else◌, not, Bool-cases, inl, inr,
}
use stylus_popup.Platform.{Platform}
use stylus_popup.Popup.{
  Popup, Content, IslandMode, same_mode, hidden, expanded, failing, set_mode, start_frames, appear,
  approach, begin_swap, assign_mode,
}
use stylus_popup.Popup.Frames.{
  on_frame, apply_shape_for, swap_content, reveal, vanish, follow_capacity, move_springs,
  finish_frame, finish_hide, redraw,
}
use stylus_popup.Popup.Handlers.{kick}

-- What a change of the mode does to the rest of the state machine.
pub record IsMoved {R : Type 0} (m : IslandMode) (p q : Popup R) : Type 0 where
  pub mode_set : q.mode ≡ m
  pub error_moved :
      q.error_active
      ≡ (if same_mode m p.mode then p.error_active else p.error_active && same_mode m failing)
  pub dismiss_moved :
      q.dismiss_active
      ≡ (if same_mode m p.mode then p.dismiss_active else p.dismiss_active || same_mode m expanded)
  pub connect_kept : q.connect_active ≡ p.connect_active
  pub paired_kept : q.bt_paired ≡ p.bt_paired
  pub gave_up_kept : q.gave_up ≡ p.gave_up
  pub state_kept : q.state ≡ p.state
  pub timeout_kept : q.connect_timeout_ms ≡ p.connect_timeout_ms
  pub text_kept : q.error_text ≡ p.error_text

-- The fields that only the choreography leaves alone.
pub record IsKept {R : Type 0} (p q : Popup R) : Type 0 where
  pub mode_kept : q.mode ≡ p.mode
  pub error_kept : q.error_active ≡ p.error_active
  pub dismiss_kept : q.dismiss_active ≡ p.dismiss_active
  pub connect_kept : q.connect_active ≡ p.connect_active
  pub paired_kept : q.bt_paired ≡ p.bt_paired
  pub gave_up_kept : q.gave_up ≡ p.gave_up
  pub state_kept : q.state ≡ p.state
  pub timeout_kept : q.connect_timeout_ms ≡ p.connect_timeout_ms
  pub text_kept : q.error_text ≡ p.error_text

pub IsKept-trans : {R : Type 0} {p q r : Popup R} → IsKept p q → IsKept q r → IsKept p r
IsKept-trans h k = ground arith

module _ (platform : Platform) (ns : ℤ) where
  open platform use {Real}

  pub start_frames-IsKept : (p : Popup Real) → IsKept p (start_frames platform ns p)
  unfolding start_frames
  start_frames-IsKept p = ground arith

  appear-IsKept : (p : Popup Real) → IsKept p (appear platform p)
  unfolding appear
  appear-IsKept p = ground arith

  approach-IsKept : (m : IslandMode) (p : Popup Real) → IsKept p (approach platform m p)
  unfolding approach
  approach-IsKept m p = ground arith

  begin_swap-IsKept : (m : IslandMode) (p : Popup Real) → IsKept p (begin_swap platform m p)
  unfolding begin_swap
  begin_swap-IsKept m p = ground arith

  swapped-IsKept :
      (m : IslandMode) (p : Popup Real)
      → IsKept p (
          start_frames platform ns
            (begin_swap platform m (approach platform m (appear platform p))))
  swapped-IsKept m p = IsKept-trans (appear-IsKept p) (
      IsKept-trans (approach-IsKept m _)
        (IsKept-trans (begin_swap-IsKept m _) (start_frames-IsKept _)))

  assign_mode-IsMoved :
      (m : IslandMode) (p q : Popup Real)
      → same_mode m p.mode ≡ false
      → IsKept (assign_mode m p) q
      → IsMoved m p q
  unfolding assign_mode
  assign_mode-IsMoved m p q other k = ground arith

  unmoved-IsMoved : (m : IslandMode) (p : Popup Real) → same_mode m p.mode ≡ true → IsMoved m p p
  unmoved-IsMoved m p same = ground arith

  pub set_mode-IsMoved : (m : IslandMode) (p : Popup Real) → IsMoved m p (set_mode platform ns m p)
  set_mode-IsMoved m p = elim (Bool-cases (same_mode m p.mode)) [
    | inl same ↦ unfold set_mode in rw same (unmoved-IsMoved m p same)
    | inr other ↦
        unfold set_mode in
        rw other (elim (Bool-cases (same_mode m hidden && not p.layer_visible)) [
          | inl gone ↦
              rw gone (assign_mode-IsMoved m p _ other (unfold assign_mode in ground arith))
          | inr there ↦ rw there (assign_mode-IsMoved m p _ other (swapped-IsKept m _))
        ])
  ]

  pub kick-IsKept : (charging : Bool) (p : Popup Real) → IsKept p (kick platform ns charging p)
  unfolding kick
  kick-IsKept charging p = ground arith

  shape-IsKept : (c : Content) (p : Popup Real) → IsKept p (apply_shape_for platform c p)
  unfolding apply_shape_for
  shape-IsKept c p = ground arith

  swap_content-IsKept : (p : Popup Real) → IsKept p (swap_content platform p)
  unfolding swap_content
  swap_content-IsKept p = ground (
    arith,
    shape-IsKept p.next_content (record p { swap_pending = false; content = p.next_content }),
  )

  reveal-IsKept : (p : Popup Real) → IsKept p (reveal platform p)
  unfolding reveal
  reveal-IsKept p = ground arith

  vanish-IsKept : (p : Popup Real) → IsKept p (vanish platform p)
  unfolding vanish
  vanish-IsKept p = ground arith

  follow_capacity-IsKept : (p : Popup Real) → IsKept p (follow_capacity platform p)
  unfolding follow_capacity
  follow_capacity-IsKept p = ground arith

  move_springs-IsKept : (dt : Real) (p : Popup Real) → IsKept p (move_springs platform dt p)
  unfolding move_springs
  move_springs-IsKept dt p = ground arith

  finish_frame-IsKept : (p : Popup Real) → IsKept p (finish_frame platform p)
  unfolding finish_frame finish_hide redraw
  finish_frame-IsKept p = ground arith

  pub redraw-IsKept : (p : Popup Real) → IsKept p (redraw platform p)
  unfolding redraw
  redraw-IsKept p = ground arith

  pub on_frame-IsKept : (p : Popup Real) → IsKept p (on_frame platform ns p)
  unfolding on_frame
  on_frame-IsKept p = IsKept-trans start (
      IsKept-trans (IsKept-trans (swap_content-IsKept _) (reveal-IsKept _)) (
        IsKept-trans (IsKept-trans (vanish-IsKept _) (follow_capacity-IsKept _))
          (IsKept-trans (move_springs-IsKept _ _) (finish_frame-IsKept _))))
    where
      start : IsKept p (record p { last_frame_ns = ns })
      start = ground arith
