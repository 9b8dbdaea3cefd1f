-- ===== src/Buttons/Queries/Names.antt =====
-- src/stylusbuttons.cpp: the nodes that are looked at are those that are named "event" and a number.
use stylus_popup.Prelude.{
  ℕ, ◌<◌, true, Option, none, some, List, [], ◌∷◌, ◌++◌, ◌≡◌, ◌↔◌, refl, arith, length, All, ap,
  ◌∙◌,
}
use stylus_popup.Buttons.Queries.{
  after_prefix, is_digit, are_digits, event_prefix, is_number, is_event_name,
}

after_prefix-some :
    (prefix name rest : List ℕ) → after_prefix prefix name ≡ some rest → name ≡ prefix ++ rest
unfolding after_prefix
after_prefix-some [] name rest e = ground (arith, e)
after_prefix-some (c ∷ cs) [] rest e = ground (arith, e)
after_prefix-some (c ∷ cs) (d ∷ name) rest e = ground (arith, e, after_prefix-some cs name rest)

after_prefix-append : (prefix rest : List ℕ) → after_prefix prefix (prefix ++ rest) ≡ some rest
unfolding after_prefix
after_prefix-append [] rest = refl
after_prefix-append (c ∷ cs) rest = ground (arith, after_prefix-append cs rest)

are_digits-All : (cs : List ℕ) → are_digits cs ≡ true → All (λ c. is_digit c ≡ true) cs
unfolding are_digits
are_digits-All [] e = tt
are_digits-All (c ∷ cs) e = ground (arith, e, are_digits-All cs)

All-are_digits : (cs : List ℕ) → All (λ c. is_digit c ≡ true) cs → are_digits cs ≡ true
unfolding are_digits
All-are_digits [] v = refl
All-are_digits (c ∷ cs) v = rw (v.0) (All-are_digits cs v.1)

-- The rest of the name of a node.
pub record IsNumbered (name digits : List ℕ) : Type 0 where
  pub prefixed : name ≡ event_prefix ++ digits
  pub some_digit : 0 < length digits
  pub digits_only : All (λ c. is_digit c ≡ true) digits

is_number-IsNumbered :
    (name : List ℕ) (rest : Option (List ℕ))
    → after_prefix event_prefix name ≡ rest
    → is_number rest ≡ true
    → (digits : List ℕ) × IsNumbered name digits
unfolding is_number
is_number-IsNumbered name none e number = ground (arith, number)
is_number-IsNumbered name (some []) e number = ground (arith, number)
is_number-IsNumbered name (some (c ∷ cs)) e number = (
  c ∷ cs,
  record {
    prefixed = after_prefix-some event_prefix name (c ∷ cs) e;
    some_digit = omega arith;
    digits_only = are_digits-All (c ∷ cs) number;
  },
)

is_number_of :
    (digits : List ℕ)
    → 0 < length digits
    → All (λ c. is_digit c ≡ true) digits
    → is_number (some digits) ≡ true
unfolding is_number
is_number_of [] b v = ground (arith, b)
is_number_of (c ∷ cs) b v = All-are_digits (c ∷ cs) v

-- An entry is taken for an event node where its name is "event" with at least one digit and nothing
-- else after it, and for no other.
pub is_event_name_iff :
    (name : List ℕ) → (is_event_name name ≡ true) ↔ ((digits : List ℕ) × IsNumbered name digits)
unfolding is_event_name
is_event_name_iff name =
    (is_number-IsNumbered name (after_prefix event_prefix name) refl, λ (d, v). named d v)
  where
    named : (d : List ℕ) → IsNumbered name d → is_event_name name ≡ true
    named d v =
        ap is_event_name v.prefixed
        ∙ ap is_number (after_prefix-append event_prefix d)
        ∙ is_number_of d v.some_digit v.digits_only
