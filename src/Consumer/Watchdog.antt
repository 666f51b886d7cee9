-- ===== src/Consumer/Watchdog.antt =====
-- ws_client.py, `WebSocketConsumer._watchdog`. The heartbeats and `stop` come from other tasks: the
-- time of the last heartbeat, and whether stopping is set, are functions of the time. A sleep lasts
-- half the timeout, or longer by its delay. All times are on one clock.
use mathlib.Core.Path.{subst}
use native.Mathlib.Nat.{suc-mul}
use crypto_market_platform.Base.{
  ℕ, ◌+◌, ◌-◌, ◌*◌, ◌≤◌, ◌<◌, ◌≡◌, refl, Bool, true, false, Option, none, some, List, [], ◌∷◌, ltb,
  leb, leb→le, if◌then◌else◌, All, length, arith, inl, inr, Bool-cases,
}

-- How a watch ends: it raises ConnectionError, it returns as stopping is set, or it still runs.
pub data Watch : Type 0 where
  stalled : ℕ → Watch
  stopped : ℕ → Watch
  watching : ℕ → Watch

module _ (half_timeout : ℕ) (last_heartbeat_at : ℕ → Option ℕ) (stopping : ℕ → Bool) where
  -- Whether `silence_s > timeout` at a time; with no heartbeat yet, `continue`.
  abbrev pub is_stalled : ℕ → Option ℕ → Bool
  is_stalled now none = false
  is_stalled now (some last) = ltb (half_timeout + half_timeout) (now - last)

  -- The loop from a time on, through sleeps with these delays.
  unfoldable pub watchdog : ℕ → List ℕ → Watch
  watchdog now [] = watching now
  watchdog now (delay ∷ delays) =
      let woken = now + (half_timeout + delay) in
      let rest = watchdog woken delays in
      if stopping now
      then stopped now
      else if is_stalled woken (last_heartbeat_at woken)
      then stalled woken
      else rest

  -- What an alarm says of its time: the last heartbeat is longer ago than the timeout.
  abbrev pub IsStall : Watch → Type 0
  IsStall (stalled now) =
      (last : ℕ) × (last_heartbeat_at now ≡ some last)
      × (last + (half_timeout + half_timeout) < now)
  IsStall (stopped now) = stopping now ≡ true
  IsStall (watching now) = Unit

  is_stalled_lem :
      (now : ℕ) (last : Option ℕ)
      → last_heartbeat_at now ≡ last
      → is_stalled now last ≡ true
      → IsStall (stalled now)
  is_stalled_lem now none e h = cc
  is_stalled_lem now (some last) e h = (last, e, ground arith)

  -- No false alarm: the watchdog raises only at a time when the last heartbeat is longer ago than
  -- the timeout, never before the first heartbeat, and returns only once stopping is set.
  pub watchdog-IsStall : (delays : List ℕ) (now : ℕ) → IsStall (watchdog now delays)
  unfolding watchdog
  watchdog-IsStall [] now = tt
  watchdog-IsStall (delay ∷ delays) now =
      let woken = now + (half_timeout + delay) in
      elim (Bool-cases (stopping now)) [
        | inl stop ↦ rw stop stop
        | inr on ↦ rw on (elim (Bool-cases (is_stalled woken (last_heartbeat_at woken))) [
          | inl stall ↦ rw stall (is_stalled_lem woken (last_heartbeat_at woken) refl stall)
          | inr alive ↦ rw alive (watchdog-IsStall delays woken)
        ])
      ]

  -- The alarm comes by a time.
  abbrev pub RaisesWithin : ℕ → Watch → Type 0
  RaisesWithin latest (stalled now) = now ≤ latest
  RaisesWithin latest (stopped now) = ⊥
  RaisesWithin latest (watching now) = ⊥

  module _ (last most_delay : ℕ) (silent : (t : ℕ) → last ≤ t → last_heartbeat_at t ≡ some last)
      (running : (t : ℕ) → stopping t ≡ false) where
    not_yet :
        (woken : ℕ)
        → is_stalled woken (last_heartbeat_at woken) ≡ false
        → woken ≤ last + (half_timeout + half_timeout)
    not_yet woken quiet = elim (Bool-cases (leb last woken)) [
      | inl after ↦
          let heard = silent woken (leb→le last woken after) in
          let rested : is_stalled woken (some last) ≡ false =
            subst (λ h. is_stalled woken h ≡ false) heard quiet in
          ground (arith, rested)
      | inr before ↦ ground (arith, before)
    ]

    -- If no heartbeat follows the one at `last` and nothing stops the consumer, a watch that runs
    -- on after `last` for longer than the timeout raises, at most half a timeout and one delay
    -- beyond it.
    pub watchdog-RaisesWithin :
        (delays : List ℕ) (now : ℕ)
        → now ≤ last + (half_timeout + half_timeout)
        → All (λ delay. delay ≤ most_delay) delays
        → last + (half_timeout + half_timeout) < now + length delays * half_timeout
        → RaisesWithin
            (last + (half_timeout + half_timeout) + half_timeout + most_delay)
            (watchdog now delays)
    unfolding watchdog
    watchdog-RaisesWithin [] now early small long = absurd (omega arith)
    watchdog-RaisesWithin (delay ∷ delays) now early small long =
        let woken = now + (half_timeout + delay) in
        rw (running now) (elim (Bool-cases (is_stalled woken (last_heartbeat_at woken))) [
          | inl over ↦ rw over (omega (arith, early, small.0))
          | inr quiet ↦ rw quiet (
              watchdog-RaisesWithin delays woken (not_yet woken quiet) small.1
                (omega (arith, long, suc-mul (length delays) half_timeout)))
        ])
