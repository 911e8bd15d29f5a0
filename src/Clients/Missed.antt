-- ===== src/Clients/Missed.antt =====
-- Which clients are missed, and what it means that they are caught: an independent description of
-- CatchLateLoadClients of extension.cpp.
use clientprefs_redis.Base.{
  ℕ, zero, suc, ◌≤◌, ◌<◌, ◌≡◌, refl, sym, ◌≢◌, ap, ◌∙◌, inl, inr, List, [], ◌∷◌, ◌++◌, Option, none,
  some, Bool, true, false, ◌&&◌, ◌||◌, not, arith, leb, ◌==◌, if◌then◌else◌, append-nil,
  append_assoc, Bool-cases, ==_iff,
}
use clientprefs_redis.Base.Fault.{update}
use native.Mathlib.Decide.{dec_lt}
use clientprefs_redis.Sdk.{Server, GamePlayer}
use clientprefs_redis.State.{QueryOp, World}
use clientprefs_redis.Clients.{select_op}

-- A player that the extension is to ask for: authorized and no bot.
abbrev pub is_wanted : Option GamePlayer → Bool
is_wanted none = false
is_wanted (some player) = player.authorized && not player.fake

abbrev pub is_human : Option GamePlayer → Bool
is_human none = false
is_human (some player) = not player.fake

abbrev pub is_missed : Server → World → ℕ → Bool
is_missed server w i = not (w.stats_pending i || w.stats_loaded i) && is_wanted (server.player i)

abbrev pub select_of : Option GamePlayer → List QueryOp
select_of none = []
select_of (some player) = select_op player ∷ []

-- The queries for the missed clients from 1 to `n`, in their order.
abbrev pub missed_ops : Server → World → ℕ → List QueryOp
missed_ops server w zero = []
missed_ops server w (suc n) =
    missed_ops server w n
    ++ (if is_missed server w (suc n) then select_of (server.player (suc n)) else [])

abbrev pub is_caught : Server → World → ℕ → ℕ → Bool
is_caught server w n i = leb 1 i && leb i n && is_missed server w i

-- `v` is `w` after the missed clients from 1 to `n` are connected and pending, and asked for.
pub record Caught (server : Server) (n : ℕ) (w v : World) : Type 0 where
  pub pending : (i : ℕ) → v.stats_pending i ≡ (w.stats_pending i || is_caught server w n i)
  pub connected : (i : ℕ) → v.connected i ≡ (w.connected i || is_caught server w n i)
  pub queued : v.query_queue ≡ w.query_queue ++ missed_ops server w n
  pub rest : v ≡ record w {
    connected = v.connected;
    stats_pending = v.stats_pending;
    query_queue = v.query_queue;
  }

-- The world with the client connected and pending.
unfoldable pub marked : World → ℕ → World
marked w i = record w {
  connected = update w.connected i true;
  stats_pending = update w.stats_pending i true;
}

-- No client above `k` is missed.
abbrev pub NoneAbove : Server → ℕ → World → Type 0
NoneAbove server k w = (i : ℕ) → k < i → i ≤ server.max_clients → is_missed server w i ≡ false

module _ (server : Server) where
  -- What is caught is not missed any more.
  Caught-not_missed :
      (n : ℕ) (w v : World) (i : ℕ)
      → Caught server n w v
      → 0 < i
      → i ≤ n
      → is_missed server v i ≡ false
  Caught-not_missed n w v i c h k =
      ground (arith, c.pending i, ap (λ (u : World). u.stats_loaded i) c.rest)

  missed_ops-marked :
      (w : World) (i n : ℕ) → n < i → missed_ops server (marked w i) n ≡ missed_ops server w n
  unfolding marked
  missed_ops-marked w i zero h = refl
  missed_ops-marked w i (suc n) h = ground (arith, missed_ops-marked w i n)

  is_missed-marked_ne :
      (w : World) (i j : ℕ) → i ≢ j → is_missed server (marked w i) j ≡ is_missed server w j
  unfolding marked
  is_missed-marked_ne w i j h = ground arith

  is_missed-marked_self : (w : World) (i : ℕ) → is_missed server (marked w i) i ≡ false
  unfolding marked
  is_missed-marked_self w i = ground arith

  is_caught_skip :
      (n : ℕ) (w : World) (i : ℕ)
      → is_missed server w (suc n) ≡ false
      → is_caught server w (suc n) i ≡ is_caught server w n i
  is_caught_skip n w i e = elim (dec_lt n i) [
    | yes above ↦ elim (Bool-cases (i == suc n)) [
      | inl here ↦ rw (ap (is_missed server w) ((==_iff i (suc n)).0 here) ∙ e) (ground arith)
      | inr past ↦ ground arith
    ]
    | no below ↦ ground arith
  ]

  is_caught_take :
      (n : ℕ) (w : World) (i : ℕ) (b : Bool)
      → is_missed server w (suc n) ≡ true
      → (update (λ j. b) (suc n) true i || is_caught server (marked w (suc n)) n i)
        ≡ (b || is_caught server w (suc n) i)
  unfolding marked
  is_caught_take n w i b e = elim (Bool-cases (i == suc n)) [
    | inl here ↦ rw (ap (is_missed server w) ((==_iff i (suc n)).0 here) ∙ e) (ground arith)
    | inr past ↦ ground arith
  ]

  pub Caught-skip :
      (n : ℕ) (w v : World)
      → is_missed server w (suc n) ≡ false
      → Caught server n w v
      → Caught server (suc n) w v
  Caught-skip n w v e c = record {
    pending = λ i. c.pending i ∙ ap (λ b. w.stats_pending i || b) (sym (is_caught_skip n w i e));
    connected = λ i. c.connected i ∙ ap (λ b. w.connected i || b) (sym (is_caught_skip n w i e));
    queued = rw (e, append-nil) c.queued;
    rest = c.rest;
  }

  -- The missed client `suc n` is taken: the others first, then its own query.
  pub Caught-take :
      (n : ℕ) (w v : World)
      → is_missed server w (suc n) ≡ true
      → Caught server n (marked w (suc n)) v
      → Caught server
          (suc n)
          w
          (record v { query_queue = v.query_queue ++ select_of (server.player (suc n)) })
  unfolding marked
  Caught-take n w v e c = record {
    pending = λ i. c.pending i ∙ is_caught_take n w i (w.stats_pending i) e;
    connected = λ i. c.connected i ∙ is_caught_take n w i (w.connected i) e;
    queued =
        rw (e, c.queued, missed_ops-marked w (suc n) n (omega arith))
          (append_assoc w.query_queue (missed_ops server w n) (select_of (server.player (suc n))));
    rest = ground (arith, c.rest);
  }

  pub not_missed_below :
      (k : ℕ) (w : World)
      → is_missed server w (suc k) ≡ false
      → NoneAbove server (suc k) w
      → NoneAbove server k w
  not_missed_below k w e none_above i h m = elim (dec_lt (suc k) i) [
    | yes above ↦ none_above i above m
    | no here ↦ let same : i ≡ suc k = omega arith in ap (is_missed server w) same ∙ e
  ]

  pub none_marked :
      (k : ℕ) (w : World) → NoneAbove server (suc k) w → NoneAbove server k (marked w (suc k))
  none_marked k w none_above i h m = elim (dec_lt (suc k) i) [
    | yes above ↦ is_missed-marked_ne w (suc k) i (λ e. absurd (omega arith)) ∙ none_above i above m
    | no here ↦
        let same : i ≡ suc k = omega arith in
        ap (is_missed server (marked w (suc k))) same ∙ is_missed-marked_self w (suc k)
  ]

  pub Caught-zero : (w : World) → Caught server zero w w
  Caught-zero w = record {
    pending = λ i. ground arith;
    connected = λ i. ground arith;
    queued = sym (append-nil w.query_queue);
    rest = refl;
  }

  -- What was caught below `k`, with none missed above it, leaves no client missed.
  pub none_left :
      (k : ℕ) (w v : World) → Caught server k w v → NoneAbove server k w → NoneAbove server zero v
  none_left k w v c none_above i h m = elim (dec_lt k i) [
    | yes above ↦
        ground
          (arith, none_above i above m, c.pending i, ap (λ (u : World). u.stats_loaded i) c.rest)
    | no below ↦ Caught-not_missed k w v i c h (omega arith)
  ]

  pub NoneAbove-all : (w : World) → NoneAbove server server.max_clients w
  NoneAbove-all w i h m = absurd (omega arith)
