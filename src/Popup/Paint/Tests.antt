-- ===== src/Popup/Paint/Tests.antt =====
-- The painting of an island at concrete states, with fixed-point numbers, and names for the colours.
use Prim.Native.String.{String}
use stylus_popup.Prelude.{
  ℕ, ◌≤◌, List, false, ◌&&◌, ◌++◌, if◌then◌else◌, true, none, [], ◌∷◌, ◌≡◌, refl, ℤ, pos,
}
use stylus_popup.Pen.{default_state, attaching}
use stylus_popup.Platform.Fixed.{fixed}
use stylus_popup.Spring
use stylus_popup.Popup.{Popup, initial, battery, failure, same_content}
use stylus_popup.Popup.Strings
use stylus_popup.Popup.Paint.{status_text, percentage_text, title_font, sub_font, compact_font}
use stylus_popup.Popup.Paint.Island.{paint_island, capsule, opacity, alpha_of}
use stylus_popup.Popup.Paint.Painter.{Painter, paint}
use stylus_popup.Popup.Paint.Restored.{IsAbove}
use stylus_popup.Popup.Paint.Clipped.{is_visible, after_body, paint_island-clips}
use stylus_popup.Popup.Paint.Said.{run-words}
use stylus_popup.Popup.Events.{Event, state_changed, pairing_failed, frame_fires, run}
use stylus_popup.Popup.Strings.{is_empty}
use stylus_popup.Popup.Paint.Texts.{is_legible, words, labels, paint_island-words}
use stylus_popup.Popup.Paint.Paper.{paper, colours, Box}

-- A charging pen with a limit, on an island that is fully there.
abbrev charging_island : Popup ℤ
charging_island = record (initial fixed (pos 15000) 1920 16) {
  state = record default_state { attached = true; charging = true; capacity = 80; limit = 90 };
  content = battery;
  presence = Spring.snap fixed (pos 1000) (Spring.fresh_spring fixed);
  content_alpha = Spring.snap fixed (pos 1000) (Spring.fresh_spring fixed);
  ring = Spring.snap fixed (pos 80000) (Spring.fresh_spring fixed);
}

abbrev fresh : Painter ℤ Box String
fresh = record {
  settings = record {
    pen = none;
    brush = none;
    font = compact_font;
    opacity = pos 1000;
    clip = none;
    moves = [];
  };
  saved = [];
  marks = [];
}

paint_island-clips_example :
    IsAbove
      (pos 1000)
      (capsule fixed paper colours charging_island)
      (after_body fixed paper colours charging_island fresh).marks
      (paint (paint_island fixed paper colours none charging_island) fresh).marks
unfolding opacity Spring.snap alpha_of
paint_island-clips_example = paint_island-clips fixed paper colours none charging_island fresh refl

charging_island_says :
    words (paint (paint_island fixed paper colours none charging_island) fresh).marks
    ≡ (sub_font, "Charging · Limit %1%") ∷ (title_font, "%1%") ∷ []
unfolding opacity Spring.snap alpha_of labels status_text percentage_text words Strings.charging
    Strings.charge_limit
charging_island_says = paint_island-words fixed paper colours none charging_island fresh

-- The pairing of a pen fails, and a frame takes the reason up.
abbrev history : List (ℤ × Event)
history =
    (pos 0, state_changed (record default_state { attached = true; phase = attaching }))
    ∷ (pos 20000000, pairing_failed)
    ∷ (pos 36000000, frame_fires)
    ∷ []

run-words_example :
    let p = run fixed (initial fixed (pos 15000) 1920 16) history in
    (words (paint (paint_island fixed paper colours none p) fresh).marks
      ≡ (if is_visible fixed paper colours p && is_legible fixed paper colours p
          then labels fixed paper colours p.content p
          else [])
        ++ words fresh.marks)
    × (same_content p.content failure && is_empty p.error_text ≡ false)
    × ((n : ℕ) × (percentage_text fixed paper p.ring.value ≡ paper.arg "%1%" (pos n)) × (n ≤ 100))
run-words_example = run-words fixed paper colours (pos 15000) 1920 16 history none fresh
