-- ===== src/Text/Strncpy.antt =====
-- UTIL_strncpy of extension.cpp, on the bytes of the destination. A write past its end is a fault,
-- `none`; `size_t` has 32 bits, as in the project's Win32 build.
use mathlib.Core.Option
use clientprefs_redis.Base.{
  ℕ, zero, suc, ◌+◌, ◌-◌, ◌%◌, ◌^◌, ◌≤◌, ◌<◌, ◌≡◌, refl, ap, sym, take-all, false, List, [], ◌∷◌,
  Option, none, some, arith, length, take, drop, leb, ◌==◌, if◌then◌else◌, Bool-cases, inl, inr,
}
use clientprefs_redis.Text.{Text, IsText, clip}

abbrev pub size_max : ℕ
size_max = 2 ^ 32 - 1

write_at : List ℕ → ℕ → ℕ → Option (List ℕ)
write_at [] i v = none
write_at (d ∷ dest) zero v = some (v ∷ dest)
write_at (d ∷ dest) (suc i) v = Option.map (◌∷◌ d) (write_at dest i v)

-- The C library's strncpy: exactly `n` bytes are written, NUL after the end of the source.
strncpy : List ℕ → Text → ℕ → Option (List ℕ)
strncpy dest source zero = some dest
strncpy [] source (suc n) = none
strncpy (d ∷ dest) [] (suc n) = Option.map (◌∷◌ 0) (strncpy dest [] n)
strncpy (d ∷ dest) (c ∷ source) (suc n) = Option.map (◌∷◌ c) (strncpy dest source n)

copy_text : List ℕ → Text → ℕ → Option (List ℕ)
copy_text destination source req = elim (strncpy destination source req) [
  | none ↦ none
  | some written ↦ write_at written req 0
]

-- What a reader of the buffer finds before the first NUL; `none` where he runs off its end.
pub c_str : List ℕ → Option Text
c_str [] = none
c_str (c ∷ buffer) =
    let rest = Option.map (◌∷◌ c) (c_str buffer) in if c == 0 then some [] else rest

pub util_strncpy : List ℕ → Option Text → ℕ → Option (List ℕ)
util_strncpy destination none num = write_at destination 0 0
util_strncpy destination (some source) num =
    let req = length source in
    if req == 0
    then write_at destination 0 0
    else if leb num req
    then copy_text destination source ((num + size_max) % (size_max + 1))
    else copy_text destination source req

-- The buffer `b` holds `t`, and beyond its first `num` bytes it is `old`, of the same length.
pub record Holds (t : Text) (num : ℕ) (old b : List ℕ) : Type 0 where
  pub reads : c_str b ≡ some t
  pub size : length b ≡ length old
  pub beyond : drop num b ≡ drop num old

strncpy_lem :
    (dest : List ℕ) (source : Text) (n : ℕ)
    → n ≤ length source
    → n < length dest
    → IsText source
    → (b w : List ℕ) × (strncpy dest source n ≡ some w)
      × (write_at w n 0 ≡ some b)
      × (c_str b ≡ some (take n source))
      × (length b ≡ length dest)
      × (drop (suc n) b ≡ drop (suc n) dest)
unfolding strncpy write_at c_str
strncpy_lem [] source n h k t = absurd (omega arith)
strncpy_lem (d ∷ dest) source zero h k t = (0 ∷ dest, d ∷ dest, refl, refl, refl, refl, refl)
strncpy_lem (d ∷ dest) [] (suc n) h k t = absurd (omega arith)
strncpy_lem (d ∷ dest) (c ∷ source) (suc n) h k t =
    let (b, w, copied, ended, reads, size, beyond) =
      strncpy_lem dest source n (omega arith) (omega arith) t.1 in
    (c ∷ b, c ∷ w, rw copied, rw ended, rw reads (ground (arith, t.0)), ap suc size, beyond)

drop_past : (m n : ℕ) (ys : List ℕ) → m ≤ n → drop m ys ≡ [] → drop n ys ≡ []
drop_past zero zero ys h e = e
drop_past zero (suc n) [] h e = refl
drop_past zero (suc n) (y ∷ ys) h e = cc
drop_past (suc m) zero ys h e = absurd (omega arith)
drop_past (suc m) (suc n) [] h e = refl
drop_past (suc m) (suc n) (y ∷ ys) h e = drop_past m n ys (omega arith) e

drop_later : (m n : ℕ) (xs ys : List ℕ) → m ≤ n → drop m xs ≡ drop m ys → drop n xs ≡ drop n ys
drop_later zero n xs ys h e = ap (drop n) e
drop_later (suc m) zero xs ys h e = absurd (omega arith)
drop_later (suc m) (suc n) [] [] h e = refl
drop_later (suc m) (suc n) [] (y ∷ ys) h e = sym (drop_past m n ys (omega arith) (sym e))
drop_later (suc m) (suc n) (x ∷ xs) [] h e = drop_past m n xs (omega arith) e
drop_later (suc m) (suc n) (x ∷ xs) (y ∷ ys) h e = drop_later m n xs ys (omega arith) e

copy_text-Holds :
    (num : ℕ) (dest : List ℕ) (source : Text) (n : ℕ)
    → n ≤ length source
    → n < num
    → num ≤ length dest
    → IsText source
    → (b : List ℕ) × (copy_text dest source n ≡ some b) × Holds (take n source) num dest b
unfolding copy_text
copy_text-Holds num dest source n h k m t =
    let (b, w, copied, ended, reads, size, beyond) = strncpy_lem dest source n h (omega arith) t in
    (
      b,
      rw (copied, copy_text) ended,
      record { reads = reads; size = size; beyond = drop_later (suc n) num b dest k beyond },
    )

clear_Holds :
    (num : ℕ) (dest : List ℕ)
    → 0 < num
    → num ≤ length dest
    → (b : List ℕ) × (write_at dest 0 0 ≡ some b) × Holds [] num dest b
unfolding write_at c_str
clear_Holds num [] h k = absurd (omega arith)
clear_Holds zero (d ∷ dest) h k = absurd (omega arith)
clear_Holds (suc num) (d ∷ dest) h k =
    (0 ∷ dest, refl, record { reads = refl; size = refl; beyond = refl })

some_text : (n : ℕ) → (suc n == 0) ≡ false
some_text n = ground arith

-- `num - 1` does not wrap.
wrapped : (num : ℕ) → 0 < num → num ≤ size_max → (num + size_max) % (size_max + 1) ≡ num - 1
wrapped num p q = omega arith

abbrev pub IsSource : Option Text → Type 0
IsSource none = Unit
IsSource (some t) = IsText t

-- `req` after the tests of the code.
copied_Holds :
    (num : ℕ) (dest : List ℕ) (source : Text)
    → 0 < num
    → num ≤ size_max
    → num ≤ length dest
    → IsText source
    → (b : List ℕ) × (util_strncpy dest (some source) num ≡ some b)
      × Holds (clip num (some source)) num dest b
unfolding util_strncpy clip
copied_Holds num dest [] p q r t =
    rw (take-all {A = ℕ} (num - 1) [] (omega arith)) (clear_Holds num dest p r)
copied_Holds num dest (c ∷ source) p q r t = elim (Bool-cases (leb num (length (c ∷ source)))) [
  | inl cut ↦
      rw (some_text (length source), cut, wrapped num p q)
        (copy_text-Holds num dest (c ∷ source) (num - 1) (ground arith) (omega arith) r t)
  | inr fits ↦
      let short : suc (length source) ≤ num - 1 = ground arith in
      rw (some_text (length source), fits, take-all (num - 1) (c ∷ source) short)
        (rw (take-all {A = ℕ} (length (c ∷ source)) (c ∷ source) (omega arith)) at (
          copy_text-Holds num dest (c ∷ source) (length (c ∷ source)) (omega arith) (omega arith) r
            t))
]

-- For a destination of at least `num` bytes the copy stays within its first `num` bytes, leaves the
-- others alone and ends in a NUL: a reader then finds the first `num - 1` bytes of the source, or
-- the empty text where the source is NULL.
pub util_strncpy-clip :
    (num : ℕ) (dest : List ℕ) (source : Option Text)
    → 0 < num
    → num ≤ size_max
    → num ≤ length dest
    → IsSource source
    → (b : List ℕ) × (util_strncpy dest source num ≡ some b) × Holds (clip num source) num dest b
unfolding util_strncpy clip
util_strncpy-clip num dest none p q r t = clear_Holds num dest p r
util_strncpy-clip num dest (some source) p q r t = copied_Holds num dest source p q r t
