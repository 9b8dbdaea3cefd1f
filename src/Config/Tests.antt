-- ===== src/Config/Tests.antt =====
-- The default file, as it is written and read again.
use text.Mathlib.Text.{◌==◌ as str_eq}
use Prim.Native.String.{String}
use Prim.Native.Char.{code}
use stylus_popup.Prelude.{
  true, false, none, some, List, [], ◌∷◌, ℕ, zero, suc, ℤ, pos, negsuc, ◌≡◌, refl, ap, ◌==◌,
  if◌then◌else◌,
}
use stylus_popup.Config.{Environment, Qt, load}
use stylus_popup.Config.Reload.{IniLaws, settings_of, load-load}

abbrev default_environment : Environment
default_environment = record { override = ""; folder = ""; home = "/home/pen" }

-- A file whose values are texts. A number is written in unary, with a dash for a negative one.
abbrev ones : ℕ → String
ones zero = ""
ones (suc n) = String.◌∷◌ "1" (ones n)

abbrev unary : ℤ → String
unary (pos n) = ones n
unary (negsuc n) = String.◌∷◌ "-" (ones n)

abbrev count : String → ℕ
count String.[] = 0
count (String.◌∷◌ c s) = suc (count s)

abbrev of_unary : String → ℤ
of_unary String.[] = pos 0
of_unary (String.◌∷◌ c s) = if code c == b'-' then negsuc (count s) else pos (suc (count s))

abbrev texts : Qt
texts = record {
  Variant = String;
  to_int = λ v. some (of_unary v);
  to_bool = λ v. str_eq v "true";
  to_text = λ v. v;
  to_list = λ v. v ∷ [];
  decimal = unary;
}

count-ones : (n : ℕ) → count (ones n) ≡ n
count-ones zero = refl
count-ones (suc n) = ap suc (count-ones n)

of_unary-unary : (n : ℤ) → some (of_unary (unary n)) ≡ some n
of_unary-unary (pos zero) = refl
of_unary-unary (pos (suc n)) = ap (λ k. some (pos (suc k))) (count-ones n)
of_unary-unary (negsuc n) = ap (λ k. some (negsuc k)) (count-ones n)

abbrev texts_laws : IniLaws texts
texts_laws = record {
  value_of = λ s. s;
  plain_text = λ s p. refl;
  plain_single = λ s p. refl;
  decimal_int = λ n low high. of_unary-unary n;
  true_word = refl;
  false_word = refl;
}

load-load_example :
    let first = load texts true true default_environment "" none in
    (entries : List (String × String × String)) × (first.1 ≡ some entries)
    × (load texts false false default_environment "" (some (settings_of texts texts_laws entries))
        ≡ (first.0, none))
load-load_example = load-load texts texts_laws false false default_environment ""
