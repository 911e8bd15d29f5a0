-- ===== src/Text/Decimal.antt =====
-- std::to_string and std::stoi. `none` is an exception (invalid_argument or out_of_range); `int`
-- and `long` have 32 bits, as in the project's Win32 build.
use clientprefs_redis.Base.{
  ℕ, zero, suc, ◌+◌, ◌-◌, ◌*◌, ◌/◌, ◌%◌, ◌^◌, ◌≤◌, ◌<◌, ◌≡◌, refl, ap, [], ◌∷◌, Bool, ◌&&◌, ◌||◌,
  Option, none, some, arith, ltb, leb, ◌==◌, if◌then◌else◌, ℤ, pos, negsuc, ◌++◌, true, Bool-cases,
  le→leb, inl, inr, ◌∙◌,
}
use native.Mathlib.Numerals.{add-one}
use clientprefs_redis.Text.{Text}

-- The decimal digits of `n` in front of `acc`; `n < fuel` is enough fuel.
digits : ℕ → ℕ → Text → Text
digits zero n acc = acc
digits (suc fuel) n acc =
    let d = 48 + n % 10 in
    let more = digits fuel (n / 10) (d ∷ acc) in if ltb n 10 then d ∷ acc else more

unfoldable pub text_of_ℕ : ℕ → Text
unfolding digits
text_of_ℕ n = digits (suc n) n []

unfoldable pub to_string : ℤ → Text
unfolding text_of_ℕ
to_string (pos n) = text_of_ℕ n
to_string (negsuc n) = b'-' ∷ text_of_ℕ (n + 1)

unfoldable pub is_digit : ℕ → Bool
is_digit c = leb 48 c && leb c 57

-- The number that the leading digits of the text continue.
leading : ℕ → Text → ℕ
unfolding is_digit
leading n [] = n
leading n (c ∷ t) = let rest = leading (n * 10 + (c - 48)) t in if is_digit c then rest else n

starts_with_digit : Text → Bool
unfolding is_digit
starts_with_digit [] = Bool.false
starts_with_digit (c ∷ t) = is_digit c

is_space : ℕ → Bool
is_space c = c == 32 || (leb 9 c && leb c 13)

skip_spaces : Text → Text
unfolding is_space
skip_spaces [] = []
skip_spaces (c ∷ t) = let rest = skip_spaces t in if is_space c then rest else c ∷ t

abbrev pub int_max : ℕ
int_max = 2 ^ 31 - 1

positive : Text → Option ℤ
unfolding leading starts_with_digit
positive t =
    if starts_with_digit t
    then (if leb (leading 0 t) int_max then some (pos (leading 0 t)) else none)
    else none

-- -(n + 1) for a positive n + 1; "-0" is 0.
minus : ℕ → ℤ
minus zero = pos zero
minus (suc n) = negsuc n

negative : Text → Option ℤ
unfolding leading starts_with_digit minus
negative t =
    if starts_with_digit t
    then (if leb (leading 0 t) (int_max + 1) then some (minus (leading 0 t)) else none)
    else none

signed : Text → Option ℤ
unfolding positive negative
signed [] = none
signed (c ∷ t) =
    if c == b'-' then negative t else if c == b'+' then positive t else positive (c ∷ t)

unfoldable pub stoi : Text → Option ℤ
unfolding skip_spaces signed
stoi t = signed (skip_spaces t)

-- The values of a 32-bit `int`.
abbrev pub IsInt : ℤ → Type 0
IsInt (pos n) = n ≤ int_max
IsInt (negsuc n) = n ≤ int_max

is_digit-mod : (n : ℕ) → is_digit (48 + n % 10) ≡ true
unfolding is_digit
is_digit-mod n = ground arith

leading_next : (q n : ℕ) (acc : Text) → q ≡ n / 10 → leading q ((48 + n % 10) ∷ acc) ≡ leading n acc
unfolding leading
leading_next q n acc e = rw (is_digit-mod n) (ap (λ k. leading k acc) (omega (arith, e)))

-- The number that a printed number continues: its digits are read back.
leading-digits :
    (fuel n : ℕ) (acc : Text) → n < fuel → leading 0 (digits fuel n acc) ≡ leading n acc
unfolding leading digits
leading-digits zero n acc h = absurd (omega arith)
leading-digits (suc fuel) n acc h = elim (Bool-cases (ltb n 10)) [
  | inl last ↦ rw last (leading_next 0 n acc (ground arith))
  | inr more ↦ rw more (
      leading-digits fuel (n / 10) ((48 + n % 10) ∷ acc) (ground arith)
      ∙ leading_next (n / 10) n acc (omega arith))
]

-- A printed number begins with a digit, which is no space and no sign.
digits_head : (fuel n : ℕ) (acc : Text) → n < fuel → starts_with_digit (digits fuel n acc) ≡ true
unfolding digits starts_with_digit
digits_head zero n acc h = absurd (omega arith)
digits_head (suc fuel) n acc h = elim (Bool-cases (ltb n 10)) [
  | inl last ↦ rw last (ground arith)
  | inr more ↦ rw more (digits_head fuel (n / 10) _ (ground arith))
]

leading-text_of_ℕ : (n : ℕ) → leading 0 (text_of_ℕ n) ≡ n
unfolding text_of_ℕ leading
leading-text_of_ℕ n = leading-digits (suc n) n [] (omega arith)

text_of_ℕ_head : (n : ℕ) → starts_with_digit (text_of_ℕ n) ≡ true
unfolding text_of_ℕ
text_of_ℕ_head n = digits_head (suc n) n [] (omega arith)

-- Neither a space nor a sign.
stoi_digit : (t : Text) → starts_with_digit t ≡ true → stoi t ≡ positive t
unfolding stoi starts_with_digit
stoi_digit [] h = cc
stoi_digit (c ∷ t) h = ground arith

positive-text_of_ℕ : (n : ℕ) → n ≤ int_max → positive (text_of_ℕ n) ≡ some (pos n)
unfolding positive
positive-text_of_ℕ n h = rw (text_of_ℕ_head n, leading-text_of_ℕ n, le→leb n int_max h)

negative-text_of_ℕ : (n : ℕ) → n ≤ int_max → negative (text_of_ℕ (n + 1)) ≡ some (negsuc n)
unfolding negative
negative-text_of_ℕ n h = rw (
  text_of_ℕ_head (n + 1),
  leading-text_of_ℕ (n + 1),
  le→leb (n + 1) (int_max + 1) (omega arith),
  add-one,
)

-- std::stoi reads back what std::to_string prints, for every `int`.
pub stoi-to_string : (z : ℤ) → IsInt z → stoi (to_string z) ≡ some z
unfolding to_string
stoi-to_string (pos n) h = stoi_digit (text_of_ℕ n) (text_of_ℕ_head n) ∙ positive-text_of_ℕ n h
stoi-to_string (negsuc n) h = unfold stoi in negative-text_of_ℕ n h

digits-append :
    (fuel n : ℕ) (acc rest : Text) → digits fuel n acc ++ rest ≡ digits fuel n (acc ++ rest)
unfolding digits
digits-append zero n acc rest = refl
digits-append (suc fuel) n acc rest = elim (Bool-cases (ltb n 10)) [
  | inl last ↦ rw last
  | inr more ↦ rw more (digits-append fuel (n / 10) _ rest)
]

-- A reader that takes the digits of a number from the left continues, after a printed number, with
-- that number.
module _ {ℓ} {A : Type ℓ} (read : ℕ → Text → A)
    (steps : (n c : ℕ) (t : Text)
      → is_digit c ≡ true
      → read n (c ∷ t) ≡ read (n * 10 + (c - 48)) t) where
  read-digits : (fuel n : ℕ) (acc : Text) → n < fuel → read 0 (digits fuel n acc) ≡ read n acc
  unfolding digits
  read-digits zero n acc h = absurd (omega arith)
  read-digits (suc fuel) n acc h = elim (Bool-cases (ltb n 10)) [
    | inl last ↦
        rw (last, steps 0 (48 + n % 10) acc (is_digit-mod n)) (ap (λ k. read k acc) (ground arith))
    | inr more ↦ rw more (
        read-digits fuel (n / 10) ((48 + n % 10) ∷ acc) (ground arith)
        ∙ steps (n / 10) (48 + n % 10) acc (is_digit-mod n)
        ∙ ap (λ k. read k acc) (omega arith))
  ]

  pub read-text_of_ℕ : (n : ℕ) (rest : Text) → read 0 (text_of_ℕ n ++ rest) ≡ read n rest
  unfolding text_of_ℕ
  read-text_of_ℕ n rest =
      rw (digits-append (suc n) n [] rest) (read-digits (suc n) n rest (omega arith))
