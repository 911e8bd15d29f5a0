-- ===== src/Redis/Client/Batch.antt =====
-- The batches that the worker of client.cpp sends and answers.
use clientprefs_redis.Base.{
  ℕ, zero, suc, ◌≡◌, ◌⊎◌, inl, inr, refl, ap, sym, ◌∙◌, List, [], ◌∷◌, ◌++◌, append_assoc,
  append-nil, length, Option, none, some, Bool, true, false, Bool-cases,
}
use clientprefs_redis.Text.{Text}
use clientprefs_redis.Redis.Reply.{RawReply, Reply, reply_of}
use clientprefs_redis.Redis.Client.{
  Hiredis, CommandRequest, append_all, call_of, reply_all, send_batch,
}

-- What is relied on of hiredis: the commands that were appended and not answered yet are answered
-- in their order, each by its own answer, until the connection fails, after which no call succeeds.
pub record Answers {C : Type 0} (h : Hiredis C) : Type 0 where
  pub waiting : C → List Text
  pub failed : C → Bool
  pub answer : Text → RawReply
  pub appended_ok :
      (c : C) (t : Text)
      → (h.append_formatted_command c t).0 ≡ true
      → waiting (h.append_formatted_command c t).1 ≡ waiting c ++ t ∷ []
  pub appended_not :
      (c : C) (t : Text)
      → (h.append_formatted_command c t).0 ≡ false
      → waiting (h.append_formatted_command c t).1 ≡ waiting c
  pub append_failed : (c : C) (t : Text) → failed (h.append_formatted_command c t).1 ≡ failed c
  pub get_failed :
      (c : C) → failed c ≡ true → ((h.get_reply c).0 ≡ none) × (failed (h.get_reply c).1 ≡ true)
  pub get_next :
      (c : C) (t : Text) (ts : List Text)
      → failed c ≡ false
      → waiting c ≡ t ∷ ts
      → (((h.get_reply c).0 ≡ some (answer t))
          × (failed (h.get_reply c).1 ≡ false)
          × (waiting (h.get_reply c).1 ≡ ts))
        ⊎ (((h.get_reply c).0 ≡ none) × (failed (h.get_reply c).1 ≡ true))

-- The commands that were appended.
abbrev pub sent : List CommandRequest → List Bool → List Text
sent [] flags = []
sent (r ∷ rs) [] = []
sent (r ∷ rs) (true ∷ flags) = r.command ∷ sent rs flags
sent (r ∷ rs) (false ∷ flags) = sent rs flags

abbrev pub call : CommandRequest → Option Reply → List (ℕ × Option Reply) → List (ℕ × Option Reply)
call r reply' rest = elim r.callback [ none ↦ rest | some f ↦ (f, reply') ∷ rest ]

-- The calls where the connection answers the first `n` appended commands and then fails.
abbrev pub expected :
    (Text → RawReply) → ℕ → List CommandRequest → List Bool → List (ℕ × Option Reply)
expected answer n [] flags = []
expected answer n (r ∷ rs) [] = []
expected answer n (r ∷ rs) (false ∷ flags) = call r none (expected answer n rs flags)
expected answer zero (r ∷ rs) (true ∷ flags) = call r none (expected answer zero rs flags)
expected answer (suc n) (r ∷ rs) (true ∷ flags) =
    call r (some (reply_of (answer r.command))) (expected answer n rs flags)

module _ {C : Type 0} (h : Hiredis C) (law : Answers h) where
  reply_failed :
      (reqs : List CommandRequest) (flags : List Bool) (c : C)
      → law.failed c ≡ true
      → ((reply_all h reqs flags c).0 ≡ expected law.answer zero reqs flags)
        × (law.failed (reply_all h reqs flags c).1 ≡ true)
  unfolding reply_all call_of
  reply_failed [] flags c bad = (refl, bad)
  reply_failed (r ∷ rs) [] c bad = (refl, bad)
  reply_failed (r ∷ rs) (false ∷ flags) c bad =
      let (e, bad') = reply_failed rs flags c bad in (rw e, bad')
  reply_failed (r ∷ rs) (true ∷ flags) c bad =
      let (null, next) = law.get_failed c bad in
      let (e, bad') = reply_failed rs flags (h.get_reply c).1 next in (rw (null, e), bad')

  reply_expected :
      (reqs : List CommandRequest) (flags : List Bool) (c : C)
      → law.failed c ≡ false
      → law.waiting c ≡ sent reqs flags
      → (n : ℕ) × ((reply_all h reqs flags c).0 ≡ expected law.answer n reqs flags)
        × ((law.failed (reply_all h reqs flags c).1 ≡ true) ⊎ (n ≡ length (sent reqs flags)))
  unfolding reply_all call_of
  reply_expected [] flags c good queue = (0, refl, inr refl)
  reply_expected (r ∷ rs) [] c good queue = (0, refl, inr refl)
  reply_expected (r ∷ rs) (false ∷ flags) c good queue =
      let (n, e, fine) = reply_expected rs flags c good queue in (n, rw e, fine)
  reply_expected (r ∷ rs) (true ∷ flags) c good queue =
      elim (law.get_next c r.command (sent rs flags) good queue) [
        | inl (got, good', queue') ↦
            let (n, e, fine) = reply_expected rs flags (h.get_reply c).1 good' queue' in
            (suc n, rw (got, e), elim fine [ inl bad ↦ inl bad | inr all ↦ inr (ap suc all) ])
        | inr (null, bad) ↦
            let (e, bad') = reply_failed rs flags (h.get_reply c).1 bad in
            (zero, rw (null, e), inl bad')
      ]

  append_all-sent :
      (reqs : List CommandRequest) (c : C)
      → (law.waiting (append_all h reqs c).1 ≡ law.waiting c ++ sent reqs (append_all h reqs c).0)
        × (law.failed (append_all h reqs c).1 ≡ law.failed c)
  unfolding append_all
  append_all-sent [] c = (sym (append-nil (law.waiting c)), refl)
  append_all-sent (r ∷ rs) c =
      let (e, f) = append_all-sent rs (h.append_formatted_command c r.command).1 in
      let f' = f ∙ law.append_failed c r.command in
      let next = (h.append_formatted_command c r.command).1 in
      let later = sent rs (append_all h rs next).0 in
      elim (Bool-cases (h.append_formatted_command c r.command).0) [
        | inl ok ↦ (
          rw ok (
              e
              ∙ ap (λ ts. ts ++ later) (law.appended_ok c r.command ok)
              ∙ append_assoc (law.waiting c) (r.command ∷ []) later),
          f',
        )
        | inr not_ok ↦
            (rw not_ok (e ∙ ap (λ ts. ts ++ later) (law.appended_not c r.command not_ok)), f')
      ]

-- A batch on a connection that has not failed and waits for no answer: the callbacks of the
-- requests are called once each, in the order of the requests; for some number of commands that were appended
-- the callback is given that command's own answer, and each other callback, of the later commands and
-- of the commands that were not appended, is given a null pointer. If the connection did not
-- fail, the number is that of all appended commands.
pub send_batch-expected :
    {C : Type 0} (h : Hiredis C) (law : Answers h) (reqs : List CommandRequest) (c : C)
    → law.failed c ≡ false
    → law.waiting c ≡ []
    → (n : ℕ) × ((send_batch h reqs c).0 ≡ expected law.answer n reqs (append_all h reqs c).0)
      × ((law.failed (send_batch h reqs c).1 ≡ true)
          ⊎ (n ≡ length (sent reqs (append_all h reqs c).0)))
unfolding send_batch
send_batch-expected h law reqs c good empty =
    let (e, f) = append_all-sent h law reqs c in
    reply_expected h law reqs (append_all h reqs c).0 (append_all h reqs c).1 (f ∙ good)
      (e ∙ ap (λ ts. ts ++ sent reqs (append_all h reqs c).0) empty)
