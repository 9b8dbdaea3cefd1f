-- ===== src/Popup.antt =====
-- src/popupwidget.h and src/popupwidget.cpp: the data of the island and the part of its choreography
-- that every change of its mode goes through. A timer is the Boolean `isActive`; a handler returns
-- the new record. The calls of the layer surface are logged, the newest first.
-- The clock reading `ns` is that of `m_clock.nsecsElapsed()` in the event that is handled.
pub mod Strings
pub mod Handlers
pub mod Frames
pub mod Events
pub mod Kept
pub mod Timers
pub mod Swap
pub mod Moving
pub mod Shown
pub mod Screen
pub mod Paint
pub mod Start
pub mod Reasons
pub mod Verdicts
pub mod Bonded
mod Tests
use Prim.Native.String.{String}
use stylus_popup.Prelude.{
  ℕ, ◌*◌, Bool, true, false, not, ◌&&◌, ◌||◌, List, ◌∷◌, [], ℤ, pos, ◌-ℤ◌, if◌then◌else◌,
}
use stylus_popup.Pen.{StylusState, default_state}
use stylus_popup.Platform.{Platform}
use stylus_popup.Spring
use stylus_popup.Spring.{Spring}

pub data IslandMode : Type 0 where
  hidden compact expanded failing : IslandMode

pub data Content : Type 0 where
  nothing connecting battery failure : Content

abbrev pub same_mode : IslandMode → IslandMode → Bool
same_mode hidden hidden = true
same_mode compact compact = true
same_mode expanded expanded = true
same_mode failing failing = true
same_mode _ _ = false

abbrev pub same_content : Content → Content → Bool
same_content nothing nothing = true
same_content connecting connecting = true
same_content battery battery = true
same_content failure failure = true
same_content _ _ = false

abbrev pub content_for : IslandMode → Content
content_for compact = connecting
content_for expanded = battery
content_for failing = failure
content_for hidden = nothing

pub data LayerCall : Type 0 where
  set_visible_height : ℕ → LayerCall
  hide : LayerCall
  render_frame : LayerCall  -- `renderFrame`, which commits a frame where the surface is ready

abbrev pub surface_height : ℕ
surface_height = 104

abbrev pub minimal_size : ℕ
minimal_size = 36

pub record Popup (R : Type 0) : Type 0 where
  pub state : StylusState
  pub bt_paired : Bool
  pub gave_up : Bool
  pub connect_timeout_ms : ℤ
  pub screen_w : ℕ
  pub frame_active : Bool
  pub dismiss_active : Bool
  pub connect_active : Bool
  pub error_active : Bool
  pub frame_interval : ℕ
  pub mode : IslandMode
  pub content : Content
  pub next_content : Content
  pub swap_pending : Bool
  pub reveal_pending : Bool
  pub collapsing : Bool
  pub layer_visible : Bool
  pub error_text : String
  pub width : Spring R
  pub height : Spring R
  pub presence : Spring R
  pub content_alpha : Spring R
  pub shake : Spring R
  pub pulse : Spring R
  pub ring : Spring R  -- m_battery, the displayed capacity
  pub from_w : R
  pub from_h : R
  pub last_frame_ns : ℤ
  pub layer_calls : List LayerCall

abbrev pub is_shown : {R : Type 0} → Popup R → Bool
is_shown p = not (same_mode p.mode hidden)

abbrev pub with_target : {R : Type 0} → R → Spring R → Spring R
with_target v s = record s { target = v }

abbrev pub with_velocity : {R : Type 0} → R → Spring R → Spring R
with_velocity v s = record s { velocity = v }

-- The interval of the frame timer is at least 1 ms and follows from the refresh rate of the screen.
abbrev pub ns_per_ms : ℕ
ns_per_ms = 1000000

module _ (platform : Platform) where
  open platform use {Real, lit}

  -- The spring presets: stiffness and damping.
  abbrev pub morph : Spring Real → Spring Real
  morph = Spring.configure platform (lit 380 1) (lit 26 1)

  abbrev pub settle : Spring Real → Spring Real
  settle = Spring.configure platform (lit 420 1) (lit 41 1)

  abbrev spring_with : ℕ → ℕ → ℕ → ℕ → Spring Real
  spring_with k c n d =
      record (Spring.configure platform (lit k 1) (lit c 1) (Spring.fresh_spring platform)) {
        epsilon = lit n d;
      }

  -- The popup that the constructor builds on a screen of that width and frame interval.
  unfoldable pub initial : ℤ → ℕ → ℕ → Popup Real
  initial timeout screen_w interval = record {
    state = default_state;
    bt_paired = false;
    gave_up = false;
    connect_timeout_ms = timeout;
    screen_w = screen_w;
    frame_active = false;
    dismiss_active = false;
    connect_active = false;
    error_active = false;
    frame_interval = interval;
    mode = hidden;
    content = nothing;
    next_content = nothing;
    swap_pending = false;
    reveal_pending = false;
    collapsing = false;
    layer_visible = false;
    error_text = "";
    width = spring_with 380 26 3 10;
    height = spring_with 380 26 3 10;
    presence = record (Spring.fresh_spring platform) { epsilon = lit 5 1000 };
    content_alpha = spring_with 600 49 5 1000;
    shake = spring_with 900 12 2 10;
    pulse = spring_with 500 22 1 1000;
    ring = spring_with 120 22 2 10;
    from_w = lit 0 1;
    from_h = lit 0 1;
    last_frame_ns = pos 0;
    layer_calls = [];
  }

  -- The block of `setMode` for a surface that is not visible: the island starts as a dot.
  unfoldable pub appear : Popup Real → Popup Real
  appear p = if p.layer_visible then p else record p {
    layer_visible = true;
    layer_calls = set_visible_height surface_height ∷ p.layer_calls;
    width = Spring.snap platform (lit minimal_size 1) p.width;
    height = Spring.snap platform (lit minimal_size 1) p.height;
    presence = Spring.snap platform (lit 0 1) p.presence;
    content_alpha = Spring.snap platform (lit 0 1) p.content_alpha;
    shake = Spring.snap platform (lit 0 1) p.shake;
    pulse = Spring.snap platform (lit 0 1) p.pulse;
    content = nothing;
  }

  -- The block of `setMode` for a mode that is not hidden.
  unfoldable pub approach : IslandMode → Popup Real → Popup Real
  approach mode p =
      if same_mode mode hidden
      then p
      else record p { collapsing = false; presence = with_target (lit 1 1) (morph p.presence) }

  -- The last block of `setMode`: the old content fades first.
  unfoldable pub begin_swap : IslandMode → Popup Real → Popup Real
  begin_swap mode p = record p {
    next_content = content_for mode;
    swap_pending = true;
    reveal_pending = false;
    content_alpha = with_target (lit 0 1) p.content_alpha;
  }

-- The first assignments of `setMode`, with the timers that a mode stops and starts.
unfoldable pub assign_mode : {R : Type 0} → IslandMode → Popup R → Popup R
assign_mode mode p = record p {
  mode = mode;
  error_active = p.error_active && same_mode mode failing;
  dismiss_active = p.dismiss_active || same_mode mode expanded;
}

module _ (platform : Platform) (ns : ℤ) where
  open platform use {Real, lit}

  unfoldable pub start_frames : Popup Real → Popup Real
  start_frames p = if not p.layer_visible || p.frame_active then p else record p {
    last_frame_ns = ns -ℤ pos (p.frame_interval * ns_per_ms);
    frame_active = true;
  }

  unfoldable pub set_mode : IslandMode → Popup Real → Popup Real
  set_mode mode p =
      if same_mode mode p.mode
      then p
      else if same_mode mode hidden && not p.layer_visible
      then assign_mode mode p
      else start_frames
          (begin_swap platform mode (approach platform mode (appear platform (assign_mode mode p))))
