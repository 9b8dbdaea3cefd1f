-- ===== src/Config/Reload.antt =====
-- src/appconfig.cpp: the default file that is written reads back as the configuration that was in
-- effect when it was written. How QSettings reads a text is stated as laws.

use Prim.Native.String.{String}
use Prim.Native.Char.{Char, code}
use text.Mathlib.Text.{◌==◌ as str_eq}
use stylus_popup.Prelude.{
  Bool, true, false, not, ◌&&◌, ◌||◌, none, some, List, [], ◌∷◌, ℤ, pos, negsuc, ◌≤ℤ◌, ◌≡◌, refl,
  arith, leb, ◌==◌, if◌then◌else◌,
}
use stylus_popup.Config.{
  default_buttons, Environment, Qt, Settings, many, ini_text, ini_milliseconds, ini_bool,
  read_buttons, read_connect_timeout, default_entries, write_default_config, load,
}

-- A character that an ini file holds as it is: a letter, a digit, a space or a dash.
abbrev is_plain_char : Char → Bool
is_plain_char c =
    (leb b'a' (code c) && leb (code c) b'z')
    || (leb b'0' (code c) && leb (code c) b'9')
    || code c == b' '
    || code c == b'-'

abbrev all_plain : String → Bool
all_plain String.[] = true
all_plain (String.◌∷◌ c s) = is_plain_char c && all_plain s

abbrev is_space : Char → Bool
is_space c = code c == b' '

abbrev ends_in_space : Char → String → Bool
ends_in_space c String.[] = is_space c
ends_in_space c (String.◌∷◌ d s) = ends_in_space d s

-- No space at either end, which QSettings would drop.
abbrev is_trimmed : String → Bool
is_trimmed String.[] = true
is_trimmed (String.◌∷◌ c s) = not (is_space c) && not (ends_in_space c s)

abbrev pub is_plain : String → Bool
is_plain s = all_plain s && is_trimmed s

-- What QSettings makes of a text in a file, as far as the default file needs it: a text of plain
-- characters without spaces around it is that text, and no list; a decimal number that an int holds is
-- that number; and the two words are the Booleans.
pub record IniLaws (qt : Qt) : Type 0 where
  pub value_of : String → qt.Variant
  pub plain_text : (s : String) → is_plain s ≡ true → qt.to_text (value_of s) ≡ s
  pub plain_single : (s : String) → is_plain s ≡ true → many (qt.to_list (value_of s)) ≡ false
  pub decimal_int :
      (n : ℤ)
      → negsuc 2147483647 ≤ℤ n
      → n ≤ℤ pos 2147483647
      → qt.to_int (value_of (qt.decimal n)) ≡ some n
  pub true_word : qt.to_bool (value_of "true") ≡ true
  pub false_word : qt.to_bool (value_of "false") ≡ false

module _ (qt : Qt) (laws : IniLaws qt) where
  open laws use {value_of, plain_text, plain_single, decimal_int, true_word, false_word}

  -- The settings of a file with these entries.
  abbrev pub settings_of : List (String × String × String) → Settings qt
  settings_of [] group key = none
  settings_of ((g, k, text) ∷ entries) group key =
      if str_eq g group && str_eq k key then some (value_of text) else settings_of entries group key

  text_back :
      (settings : Settings qt) (key fallback s : String)
      → settings "buttons" key ≡ some (value_of s)
      → is_plain s ≡ true
      → ini_text qt settings "buttons" key fallback ≡ s
  unfolding ini_text
  text_back settings key fallback s found plain =
      simp (ini_text, found, plain_single s plain, plain_text s plain)

  number_back :
      (settings : Settings qt) (group key : String) (fallback low n high : ℤ)
      → settings group key ≡ some (value_of (qt.decimal n))
      → (low ≤ℤ n) × (n ≤ℤ high)
      → (pos 0 ≤ℤ low) × (high ≤ℤ pos 2147483647)
      → ini_milliseconds qt settings group key fallback low high ≡ n
  unfolding ini_milliseconds
  number_back settings group key fallback low n high found range bounds =
      simp (ini_milliseconds, found, decimal_int n (ground arith) (ground arith)) (ground arith)

  read_buttons_lem :
      read_buttons qt (settings_of (default_entries qt default_buttons)) ≡ default_buttons
  unfolding read_buttons default_entries ini_bool
  read_buttons_lem =
      let file = settings_of (default_entries qt default_buttons) in
      let text =
        λ (key s : String) (found : file "buttons" key ≡ some (value_of s)) (p : is_plain s ≡ true).
          text_back file key s s found p in
      let b = default_buttons in
      simp (
        true_word,
        false_word,
        number_back file "buttons" "double-click-ms" (pos 300) (pos 50) (pos 300) (pos 10000) refl
            (omega arith) (omega arith),
        number_back file "buttons" "long-press-ms" (pos 500) (pos 50) (pos 500) (pos 10000) refl
            (omega arith) (omega arith),
        text "primary" b.primary_command refl refl,
        text "primary-double-click" b.primary_double refl refl,
        text "primary-long-press" b.primary_long refl refl,
        text "secondary" b.secondary_command refl refl,
        text "secondary-double-click" b.secondary_double refl refl,
        text "secondary-long-press" b.secondary_long refl refl,
      )

  -- The first start writes a default file, taken as the entries of its lines. Where QSettings reads back a text of letters, digits, dashes
  -- and inner spaces, a number that an int holds and the words for the Booleans as what they are, a
  -- later start that finds the entries of this file has the same configuration, whatever it may create
  -- itself, and writes nothing.
  pub load-load :
      (can_make_folder can_open : Bool) (environment : Environment) (path : String)
      → let first = load qt true true environment path none in
        (entries : List (String × String × String)) × (first.1 ≡ some entries)
        × (load qt can_make_folder can_open environment path (some (settings_of entries))
            ≡ (first.0, none))
  unfolding load write_default_config read_connect_timeout default_entries
  load-load can_make_folder can_open environment path =
      let entries = default_entries qt default_buttons in
      let timeout =
        number_back (settings_of entries) "popup" "connect-timeout-ms" (pos 15000) (pos 0)
          (pos 15000) (pos 600000) refl (omega arith) (omega arith) in
      (entries, refl, simp (read_buttons_lem, timeout))
