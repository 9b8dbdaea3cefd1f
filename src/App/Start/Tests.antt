-- ===== src/App/Start/Tests.antt =====
-- `main` with a file that has a threshold out of range, no argument, and no screen.
use stylus_popup.Prelude.{true, Option, none, some, [], ◌∷◌, ℤ, pos, if◌then◌else◌}
use stylus_popup.Platform.Fixed.{fixed}
use stylus_popup.Config.{Environment, Qt, Settings, load}
use stylus_popup.App.Start.{start, IsBounded, start-IsBounded}
use text.Mathlib.Text.{◌==◌ as str_eq}

abbrev integers : Qt
integers = record {
  Variant = Option ℤ;
  to_int = λ v. v;
  to_bool = λ v. true;
  to_text = λ v. "";
  to_list = λ v. "" ∷ [];
  decimal = λ n. "0";
}

abbrev written : Settings integers
written group key = if str_eq key "long-press-ms" then some (some (pos 90000)) else none

abbrev environment : Environment
environment = record { override = ""; folder = ""; home = "/home/pen" }

start-IsBounded_example :
    IsBounded fixed
      (λ a. a)
      (start fixed (λ a. a) (load integers true true environment "" (some written)).0 [] none)
start-IsBounded_example =
    start-IsBounded fixed (λ a. a) integers true true environment "" (some written) [] none
