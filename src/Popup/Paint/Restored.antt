-- ===== src/Popup/Paint/Restored.antt =====
-- src/popupwidget.cpp: the calls that leave the opacity and the clip path of a painter alone, and that
-- restore what they save.
use stylus_popup.Prelude.{
  ℕ, zero, suc, Bool, true, false, some, List, [], ◌∷◌, ◌++◌, ◌≡◌, refl, ◌∙◌, arith,
}
use stylus_popup.Popup.Paint.{
  Segment, Command, save, restore, move, set_pen, set_brush, set_font, set_opacity, set_clip_path,
  draw,
}
use stylus_popup.Popup.Paint.Painter.{Settings, Mark, Painter, restored, obey, paint}

-- `depth` is how many settings are saved.
unfoldable pub is_tame : {R Rect C : Type 0} → ℕ → List (Command R Rect C) → Bool
is_tame zero [] = true
is_tame (suc depth) [] = false
is_tame depth (save ∷ cs) = is_tame (suc depth) cs
is_tame zero (restore ∷ cs) = false
is_tame (suc depth) (restore ∷ cs) = is_tame depth cs
is_tame depth (set_opacity o ∷ cs) = false
is_tame depth (set_clip_path p ∷ cs) = false
is_tame depth (move m ∷ cs) = is_tame depth cs
is_tame depth (set_pen pen ∷ cs) = is_tame depth cs
is_tame depth (set_brush brush ∷ cs) = is_tame depth cs
is_tame depth (set_font font ∷ cs) = is_tame depth cs
is_tame depth (draw figure ∷ cs) = is_tame depth cs

module _ {R Rect C : Type 0} (o : R) (c : List (Segment R Rect)) where
  -- Settings of that opacity and that clip path.
  pub record IsUnder (s : Settings R Rect C) : Type 0 where
    pub opacity_set : s.opacity ≡ o
    pub clip_set : s.clip ≡ some c

  -- Marks on top of those of `base`, each drawn under that opacity and that clip path.
  pub data IsAbove (base : List (Mark R Rect C)) : List (Mark R Rect C) → Type 0 where
    start : IsAbove base base
    drawn :
        {m : Mark R Rect C} {ms : List (Mark R Rect C)}
        → IsUnder m.settings
        → IsAbove base ms
        → IsAbove base (m ∷ ms)

  unfoldable pub AreSaved : ℕ → List (Settings R Rect C) → List (Settings R Rect C) → Type 0
  AreSaved zero saved stack = stack ≡ saved
  AreSaved (suc depth) saved [] = true ≡ false
  AreSaved (suc depth) saved (s ∷ stack) = IsUnder s × AreSaved depth saved stack

  pub record IsWithin (saved : List (Settings R Rect C)) (base : List (Mark R Rect C)) (depth : ℕ)
      (q : Painter R Rect C) : Type 0 where
    pub under : IsUnder q.settings
    pub stacked : AreSaved depth saved q.saved
    pub above : IsAbove base q.marks

  kept-IsUnder :
      {s t : Settings R Rect C} → t.opacity ≡ s.opacity → t.clip ≡ s.clip → IsUnder s → IsUnder t
  kept-IsUnder o_kept c_kept v = record {
    opacity_set = o_kept ∙ v.opacity_set;
    clip_set = c_kept ∙ v.clip_set;
  }

  restored-IsWithin :
      (saved : List (Settings R Rect C)) (base : List (Mark R Rect C)) (depth : ℕ)
      (stack : List (Settings R Rect C)) (q : Painter R Rect C)
      → AreSaved (suc depth) saved stack
      → IsAbove base q.marks
      → IsWithin saved base depth (restored stack q)
  unfolding AreSaved restored
  restored-IsWithin saved base depth [] q e above = ground (arith, e)
  restored-IsWithin saved base depth (s ∷ stack) q e above = record {
    under = e.0;
    stacked = e.1;
    above = above;
  }

  -- Tame calls draw under the opacity and the clip path that they find, and leave both as they are.
  pub paint-IsWithin :
      (saved : List (Settings R Rect C)) (base : List (Mark R Rect C)) (depth : ℕ)
      (cs : List (Command R Rect C)) (q : Painter R Rect C)
      → is_tame depth cs ≡ true
      → IsWithin saved base depth q
      → IsWithin saved base 0 (paint cs q)
  unfolding paint obey is_tame AreSaved
  paint-IsWithin saved base zero [] q e v = v
  paint-IsWithin saved base (suc depth) [] q e v = ground (arith, e)
  paint-IsWithin saved base depth (save ∷ cs) q e v =
      paint-IsWithin saved base (suc depth) cs (obey save q) e
        (record { under = v.under; stacked = (v.under, v.stacked); above = v.above })
  paint-IsWithin saved base zero (restore ∷ cs) q e v = ground (arith, e)
  paint-IsWithin saved base (suc depth) (restore ∷ cs) q e v =
      paint-IsWithin saved base depth cs (obey restore q) e
        (restored-IsWithin saved base depth q.saved q v.stacked v.above)
  paint-IsWithin saved base depth (set_opacity p ∷ cs) q e v = ground (arith, e)
  paint-IsWithin saved base depth (set_clip_path p ∷ cs) q e v = ground (arith, e)
  paint-IsWithin saved base depth (move m ∷ cs) q e v =
      paint-IsWithin saved base depth cs (obey (move m) q) e
        (record { under = kept-IsUnder refl refl v.under; stacked = v.stacked; above = v.above })
  paint-IsWithin saved base depth (set_pen pen ∷ cs) q e v =
      paint-IsWithin saved base depth cs (obey (set_pen pen) q) e
        (record { under = kept-IsUnder refl refl v.under; stacked = v.stacked; above = v.above })
  paint-IsWithin saved base depth (set_brush brush ∷ cs) q e v =
      paint-IsWithin saved base depth cs (obey (set_brush brush) q) e
        (record { under = kept-IsUnder refl refl v.under; stacked = v.stacked; above = v.above })
  paint-IsWithin saved base depth (set_font font ∷ cs) q e v =
      paint-IsWithin saved base depth cs (obey (set_font font) q) e
        (record { under = kept-IsUnder refl refl v.under; stacked = v.stacked; above = v.above })
  paint-IsWithin saved base depth (draw figure ∷ cs) q e v =
      paint-IsWithin saved base depth cs (obey (draw figure) q) e
        (record { under = v.under; stacked = v.stacked; above = drawn v.under v.above })

pub is_tame-++ :
    {R Rect C : Type 0} (depth : ℕ) (cs ds : List (Command R Rect C))
    → is_tame depth cs ≡ true
    → is_tame 0 ds ≡ true
    → is_tame depth (cs ++ ds) ≡ true
unfolding is_tame
is_tame-++ zero [] ds e f = f
is_tame-++ (suc depth) [] ds e f = ground (arith, e)
is_tame-++ depth (save ∷ cs) ds e f = is_tame-++ (suc depth) cs ds e f
is_tame-++ zero (restore ∷ cs) ds e f = ground (arith, e)
is_tame-++ (suc depth) (restore ∷ cs) ds e f = is_tame-++ depth cs ds e f
is_tame-++ depth (set_opacity p ∷ cs) ds e f = ground (arith, e)
is_tame-++ depth (set_clip_path p ∷ cs) ds e f = ground (arith, e)
is_tame-++ depth (move m ∷ cs) ds e f = is_tame-++ depth cs ds e f
is_tame-++ depth (set_pen pen ∷ cs) ds e f = is_tame-++ depth cs ds e f
is_tame-++ depth (set_brush brush ∷ cs) ds e f = is_tame-++ depth cs ds e f
is_tame-++ depth (set_font font ∷ cs) ds e f = is_tame-++ depth cs ds e f
is_tame-++ depth (draw figure ∷ cs) ds e f = is_tame-++ depth cs ds e f
