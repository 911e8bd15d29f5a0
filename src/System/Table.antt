-- ===== src/System/Table.antt =====
-- The values of the heap as a table by cookie and client, and SetCookieValue, GetCookieValue and
-- GetCookieTime (cookie.cpp) on it.
use clientprefs_redis.Base.{
  ℕ, ◌≡◌, refl, ap, sym, ◌∙◌, inl, inr, List, [], ◌∷◌, Option, none, some, Bool, true, false, ◌&&◌,
  ◌==◌, arith, if◌then◌else◌, Bool-cases, Option-cases,
}
use clientprefs_redis.Text.{Text, clip}
use clientprefs_redis.State.{Cookie, CookieData, World, max_value_length}

-- What is stored for a client and a cookie.
pub record Stored : Type 0 where
  pub value : Text
  pub changed : Bool
  pub timestamp : ℕ

abbrev pub Table : Type 0
Table = ℕ → ℕ → Option Stored

abbrev pub put : Table → ℕ → ℕ → Stored → Table
put t p c s q e = if q == p && e == c then some s else t q e

abbrev pub stored_of : Option CookieData → Option Stored
stored_of none = none
stored_of (some x) = some (record { value = x.value; changed = x.changed; timestamp = x.timestamp })

-- The address in the array of a cookie.
abbrev pub slot_of : Option Cookie → ℕ → Option ℕ
slot_of none c = none
slot_of (some k) c = k.data_at c

abbrev pub value_at : World → Option ℕ → Option Stored
value_at w none = none
value_at w (some d) = stored_of (w.datums d)

-- The heap as a table.
abbrev pub table_of : World → Table
table_of w p c = value_at w (slot_of (w.cookies p) c)

-- A value is written to the object of one slot, which no other slot shares.
pub table_of-write :
    (w v : World) (p c d : ℕ) (x : CookieData)
    → ((q e : ℕ)
        → slot_of (v.cookies q) e ≡ (if q == p && e == c then some d else slot_of (w.cookies q) e))
    → ((e : ℕ) → v.datums e ≡ (if d == e then some x else w.datums e))
    → ((q e : ℕ)
        → (q == p && e == c) ≡ false
        → (d' : ℕ) → slot_of (w.cookies q) e ≡ some d'
        → (d == d') ≡ false)
    → (q e : ℕ)
    → table_of v q e
      ≡ put
          (table_of w)
          p
          c
          (record { value = x.value; changed = x.changed; timestamp = x.timestamp })
          q
          e
table_of-write w v p c d x slots datums apart q e = elim (Bool-cases (q == p && e == c)) [
  | inl here ↦
      let at : slot_of (v.cookies q) e ≡ some d =
        slots q e ∙ ap (λ t. if t then some d else slot_of (w.cookies q) e) here in
      let found : v.datums d ≡ some x = datums d ∙ (ground arith) in
      ap (value_at v) at ∙ ap stored_of found ∙ (rw here refl)
  | inr other ↦
      let at : slot_of (v.cookies q) e ≡ slot_of (w.cookies q) e =
        slots q e ∙ ap (λ t. if t then some d else slot_of (w.cookies q) e) other in
      elim (Option-cases (slot_of (w.cookies q) e)) [
        | inl empty ↦ ap (value_at v) (at ∙ empty) ∙ sym (rw other (ap (value_at w) empty))
        | inr (d', there) ↦
            let same : v.datums d' ≡ w.datums d' =
              datums d' ∙ ap (λ t. if t then some x else w.datums d') (apart q e other d' there) in
            ap (value_at v) (at ∙ there)
            ∙ ap stored_of same
            ∙ sym (rw other (ap (value_at w) there))
      ]
]

-- The calls that read and write values: a cookie, a client, and a text.
pub data Request : Type 0 where
  set : ℕ → ℕ → Text → Request
  get time : ℕ → ℕ → Request

pub data Answer : Type 0 where
  done : Bool → Answer
  text : Text → Answer
  timed : Option ℕ → Answer

-- A value that was never set is read as the empty one.
abbrev pub entry : Option Stored → Stored
entry none = record { value = []; changed = false; timestamp = 0 }
entry (some s) = s

abbrev pub time_in : Option Stored → Option ℕ
time_in none = none
time_in (some s) = some s.timestamp

-- What a request does to a table at the time `now`.
abbrev pub on_table : ℕ → Request → Table → Answer × Table
on_table now (set p c value) t = (
  done true,
  put t p c
      (record { value = clip max_value_length (some value); changed = true; timestamp = now }),
)
on_table now (get p c) t = (text (entry (t p c)).value, put t p c (entry (t p c)))
on_table now (time p c) t = (timed (time_in (t p c)), t)

-- The requests one after the other, each at its time.
abbrev pub all_on_table : List (ℕ × Request) → Table → List Answer × Table
all_on_table [] t = ([], t)
all_on_table ((now, r) ∷ rs) t =
    let (a, t1) = on_table now r t in let (answers, t2) = all_on_table rs t1 in (a ∷ answers, t2)
