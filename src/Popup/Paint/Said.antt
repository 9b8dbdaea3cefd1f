-- ===== src/Popup/Paint/Said.antt =====
-- src/popupwidget.cpp: what the island says over its life.
use stylus_popup.Prelude.{
  ap, pos, pos_part, ◌≤◌, ℕ, false, ◌&&◌, Option, List, [], ◌++◌, ℤ, ◌≡◌, arith, if◌then◌else◌,
}
use stylus_popup.Platform.{Platform}
use stylus_popup.Theme.{Theme}
use stylus_popup.Popup.{Popup, failure, same_content, initial}
use stylus_popup.Popup.Strings.{is_empty}
use stylus_popup.Popup.Events.{Event, run}
use stylus_popup.Popup.Reasons.{HasReason, run-HasReason}
use stylus_popup.Popup.Paint.{Canvas, percentage_text}
use stylus_popup.Config.{clamp}
use stylus_popup.Popup.Paint.Island.{paint_island}
use stylus_popup.Popup.Paint.Painter.{Painter, paint}
use stylus_popup.Popup.Paint.Clipped.{is_visible}
use stylus_popup.Popup.Paint.Texts.{words, labels, is_legible, paint_island-words}

reason_given :
    {R : Type 0} (p : Popup R)
    → HasReason p
    → same_content p.content failure && is_empty p.error_text ≡ false
reason_given p v = ground (arith, v.said)

-- `qBound(0, n, 100)`.
abbrev percentage : ℤ → ℤ
percentage n = clamp (pos 0) n (pos 100)

percentage-pos : (n : ℤ) → percentage n ≡ pos (pos_part (percentage n))
percentage-pos n = ground arith

percentage-le : (n : ℤ) → pos_part (percentage n) ≤ 100
percentage-le n = ground arith

-- The percentage that is written is a number from 0 to 100.
percentage-bounds :
    (platform : Platform) {C : Type 0} (canvas : Canvas platform.Real C) (x : platform.Real)
    → (n : ℕ) × (percentage_text platform canvas x ≡ canvas.arg "%1%" (pos n)) × (n ≤ 100)
unfolding percentage_text
percentage-bounds platform canvas x = (
  pos_part (percentage (canvas.round x)),
  ap (canvas.arg "%1%") (percentage-pos (canvas.round x)),
  percentage-le (canvas.round x),
)

-- From the constructor on, whatever happens, and on any painter: a visible island whose content shows
-- says the words of its content, each in its font, and any other says nothing; where the content is a
-- failure, its text is not empty; and the percentage of a battery is a number from 0 to 100.
pub run-words :
    (platform : Platform) {C : Type 0} (canvas : Canvas platform.Real C) (theme : Theme C)
    (timeout : ℤ) (screen_w interval : ℕ) (es : List (ℤ × Event)) (elapsed : Option ℤ)
    (q : Painter platform.Real canvas.Rect C)
    → let p = run platform (initial platform timeout screen_w interval) es in
      (words (paint (paint_island platform canvas theme elapsed p) q).marks
        ≡ (if is_visible platform canvas theme p && is_legible platform canvas theme p
            then labels platform canvas theme p.content p
            else [])
          ++ words q.marks)
      × (same_content p.content failure && is_empty p.error_text ≡ false)
      × ((n : ℕ) × (percentage_text platform canvas p.ring.value ≡ canvas.arg "%1%" (pos n))
          × (n ≤ 100))
run-words platform canvas theme timeout screen_w interval es elapsed q =
    let p = run platform (initial platform timeout screen_w interval) es in
    (
      paint_island-words platform canvas theme elapsed p q,
      reason_given p (run-HasReason platform timeout screen_w interval es),
      percentage-bounds platform canvas p.ring.value,
    )
