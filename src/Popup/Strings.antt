-- ===== src/Popup/Strings.antt =====
-- src/islandstrings.cpp: the words that the island shows.

use Prim.Native.String.{String}
use stylus_popup.Prelude.{Bool, true, false, ℤ, ◌≡◌, refl}
use stylus_popup.Platform.{Platform}

abbrev pub is_empty : String → Bool
is_empty String.[] = true
is_empty (String.◌∷◌ c s) = false

abbrev pick : Bool → String → String → String
pick true zh en = zh
pick false zh en = en

module _ (platform : Platform) where
  open platform use {is_chinese}

  pub connecting : String
  connecting = pick is_chinese "连接中…" "Connecting…"

  unfoldable pub paired : String
  paired = pick is_chinese "已配对" "Paired"

  unfoldable pub not_paired : String
  not_paired = pick is_chinese "未配对" "Not paired"

  unfoldable pub charging : String
  charging = pick is_chinese "正在充电" "Charging"

  pub connect_failed : String
  connect_failed = pick is_chinese "连接失败" "Connection failed"

  pub connect_timed_out : String
  connect_timed_out = pick is_chinese "连接超时" "Timed out"

  -- `arg` is QString's.
  unfoldable pub charge_limit : (String → ℤ → String) → ℤ → String
  charge_limit arg percent = arg (pick is_chinese "上限 %1%" "Limit %1%") percent

pick-not_empty :
    (b : Bool) (zh en : String)
    → is_empty zh ≡ false
    → is_empty en ≡ false
    → is_empty (pick b zh en) ≡ false
pick-not_empty true zh en h k = h
pick-not_empty false zh en h k = k

-- The two reasons that the island gives are never the empty text.
pub connect_failed-not_empty : (platform : Platform) → is_empty (connect_failed platform) ≡ false
unfolding connect_failed
connect_failed-not_empty platform = pick-not_empty platform.is_chinese _ _ refl refl

pub connect_timed_out-not_empty :
    (platform : Platform) → is_empty (connect_timed_out platform) ≡ false
unfolding connect_timed_out
connect_timed_out-not_empty platform = pick-not_empty platform.is_chinese _ _ refl refl
