-- ===== src/Consumer/Backoff.antt =====
-- ws_client.py, `WebSocketConsumer.run`: the backoff and the sleeps between the attempts.
use Prim.Native.Nat.{min}
use native.Mathlib.Nat.{
  mul-le-mul, mul-le-mul_left, mul_assoc, mul-one, pow-succ', one-le-pow, min-eq_left, min-eq_right,
  le_trans,
}
use crypto_market_platform.Base.{
  ℕ, suc, ◌+◌, ◌*◌, ◌^◌, ◌≤◌, ◌≡◌, refl, ap, sym, ◌∙◌, length, false, Option, none, some, List, [],
  ◌∷◌, leb, All, arith, inl, inr, Bool-cases, leb→le,
}
use crypto_market_platform.Base.Result.{Exception, Result, ok, raise}
use crypto_market_platform.SortedContainers.{SortedContainers}
use crypto_market_platform.Publisher.{Publisher}
use crypto_market_platform.Consumer.{
  open_socket, Config, Attempt, Consumer, Incoming, frame, signal, failure, receive, consume,
  connect, recover, turn, wait, disconnect, run, resume, stop,
}

module _ (sc : SortedContainers) {P : Type 0} (publisher : Publisher P) (config : Config) where
  consume_backoff :
      (incoming : List Incoming) (s : Consumer sc publisher)
      → (consume sc publisher incoming s).1.backoff ≡ s.backoff
  unfolding consume stop receive
  consume_backoff [] s = refl
  consume_backoff (signal ∷ rest) s = consume_backoff rest (stop sc publisher s)
  consume_backoff (failure e ∷ rest) s = refl
  consume_backoff (frame raw t ∷ rest) s =
      ground (arith, consume_backoff rest (receive sc publisher raw t s).1)

  -- A backoff between the initial one and the most.
  record Within (s : Consumer sc publisher) : Type 0 where
    above : config.backoff_initial ≤ s.backoff
    below : s.backoff ≤ config.backoff_max

  -- A sleep is at least half the initial backoff and at most one and a half times the most.
  abbrev pub IsPaced : ℕ → Type 0
  IsPaced sleep = (config.backoff_initial * 500 ≤ sleep) × (sleep ≤ config.backoff_max * 1500)

  abbrev Paced : Option ℕ × Consumer sc publisher → Type 0
  Paced (none, s) = Unit
  Paced (some sleep, s) = IsPaced sleep × Within s

  connect-Within :
      (a : Attempt) (s : Consumer sc publisher)
      → config.backoff_initial ≤ config.backoff_max
      → Within s
      → Within (connect sc publisher config a s).1
  unfolding connect stop
  connect-Within a s h w =
      ground (arith, consume_backoff a.incoming (record s { backoff = config.backoff_initial }))

  wait-Paced :
      (a : Attempt) (s : Consumer sc publisher)
      → a.random ≤ 1000
      → Within s
      → Paced (wait sc publisher config a s)
  unfolding wait
  wait-Paced a s r w = elim (Bool-cases s.stopping) [
    | inl stopped ↦ rw stopped tt
    | inr on ↦ rw on (
      (mul-le-mul w.above (omega arith), mul-le-mul w.below (omega (arith, r))),
      record { above = omega (arith, w.above, w.below); below = omega arith },
    )
  ]

  disconnect-Within : (s : Consumer sc publisher) → Within s → Within (disconnect sc publisher s)
  unfolding disconnect
  disconnect-Within s w = record { above = w.above; below = w.below }

  recover-Paced :
      (a : Attempt) (r : Result (Unit {0})) (s : Consumer sc publisher)
      → a.random ≤ 1000
      → Within s
      → Paced (recover sc publisher config a r s)
  unfolding recover
  recover-Paced a (ok done) s r w = wait-Paced a _ r (disconnect-Within s w)
  recover-Paced a (raise e) s r w = elim (Bool-cases s.stopping) [
    | inl stopped ↦ rw stopped tt
    | inr on ↦ simp on (wait-Paced a (disconnect sc publisher s) r (disconnect-Within s w))
  ]

  turn-Paced :
      (a : Attempt) (s : Consumer sc publisher)
      → config.backoff_initial ≤ config.backoff_max
      → a.random ≤ 1000
      → Within s
      → Paced (turn sc publisher config a s)
  unfolding turn
  turn-Paced a s h r w = recover-Paced a _ _ r (connect-Within a s h w)

  resume-Paced :
      (again : Consumer sc publisher → List ℕ × Consumer sc publisher)
      (t : Option ℕ × Consumer sc publisher)
      → Paced t
      → ((s : Consumer sc publisher) → Within s → All IsPaced (again s).0)
      → All IsPaced (resume sc publisher again t).0
  resume-Paced again (none, s) p more = tt
  resume-Paced again (some sleep, s) p more = (p.0, more s p.1)

  run-Paced :
      (attempts : List Attempt) (s : Consumer sc publisher)
      → config.backoff_initial ≤ config.backoff_max
      → All (λ (a : Attempt). a.random ≤ 1000) attempts
      → Within s
      → All IsPaced (run sc publisher config attempts s).0
  unfolding run
  run-Paced [] s h r w = tt
  run-Paced (a ∷ attempts) s h r w = elim (Bool-cases s.stopping) [
    | inl stopped ↦ rw stopped tt
    | inr on ↦ simp on (
        resume-Paced (run sc publisher config attempts) (turn sc publisher config a s)
          (turn-Paced a s h r.0 w) (λ s' w'. run-Paced attempts s' h r.1 w'))
  ]

  -- Whatever happens on the network, if the initial backoff is not above the most, each sleep of
  -- a consumer that starts with the initial backoff is at least half the initial backoff and at
  -- most one and a half times the most (sleeps in microseconds, backoffs in milliseconds).
  pub run-IsPaced :
      (attempts : List Attempt) (s : Consumer sc publisher)
      → config.backoff_initial ≤ config.backoff_max
      → All (λ (a : Attempt). a.random ≤ 1000) attempts
      → s.backoff ≡ config.backoff_initial
      → All IsPaced (run sc publisher config attempts s).0
  run-IsPaced attempts s h r start =
      run-Paced attempts s h r
        (record { above = omega (arith, start); below = omega (arith, start, h) })

  -- An attempt that is refused, with no call of `stop` meanwhile.
  abbrev pub Refused : Attempt → Type 0
  Refused a =
      (e : Exception) × (open_socket config a ≡ raise e)
      × (a.signalled ≡ false)
      × (a.signalled_asleep ≡ false)

  turn-Refused :
      (a : Attempt) (s : Consumer sc publisher)
      → s.stopping ≡ false
      → Refused a
      → let (o, s') = turn sc publisher config a s in
        (o ≡ some (s.backoff * (500 + a.random)))
        × (s'.stopping ≡ false)
        × (s'.backoff ≡ min (s.backoff * 2) config.backoff_max)
  unfolding turn connect recover wait disconnect stop
  turn-Refused a s on (e, refused, quiet, asleep) = ground (arith, on, refused, quiet, asleep)

  grows : (x n : ℕ) → x ≤ x * 2 ^ n
  grows x n = omega (arith, mul-le-mul_left x (one-le-pow n 2 (omega arith)))

  power : (b n : ℕ) → b * 2 * 2 ^ n ≡ b * 2 ^ suc n
  power b n = mul_assoc b 2 (2 ^ n) ∙ ap (λ (k : ℕ). b * k) (sym (pow-succ' 2 n))

  doubling : (b n most : ℕ) → min (min (b * 2) most * 2 ^ n) most ≡ min (b * 2 ^ suc n) most
  doubling b n most = elim (Bool-cases (leb (b * 2) most)) [
    | inl fits ↦
        ap (λ (k : ℕ). min (k * 2 ^ n) most) (min-eq_left (leb→le (b * 2) most fits))
        ∙ ap (λ (k : ℕ). min k most) (power b n)
    | inr over ↦
        let above : most ≤ b * 2 = ground (arith, over) in
        ap (λ (k : ℕ). min (k * 2 ^ n) most) (min-eq_right above)
        ∙ min-eq_right (grows most n)
        ∙ sym
            (min-eq_right (le_trans above (le_trans (grows (b * 2) n) (omega (arith, power b n)))))
  ]

  -- After so many refusals in a row, with no call of `stop`, the backoff has doubled each time,
  -- capped at the most: a consumer that is running goes on with the backoff times the power of two.
  pub run-Refused :
      (attempts : List Attempt) (s : Consumer sc publisher)
      → s.stopping ≡ false
      → s.backoff ≤ config.backoff_max
      → All Refused attempts
      → let s' = (run sc publisher config attempts s).1 in
        (s'.stopping ≡ false)
        × (s'.backoff ≡ min (s.backoff * 2 ^ length attempts) config.backoff_max)
  unfolding run
  run-Refused [] s on low r =
      (on, sym (ap (λ (k : ℕ). min k config.backoff_max) (mul-one s.backoff) ∙ min-eq_left low))
  run-Refused (a ∷ attempts) s on low r =
      let (slept, still, doubled) = turn-Refused a s on r.0 in
      let later =
        run-Refused attempts (turn sc publisher config a s).1 still (omega (arith, doubled)) r.1 in
      let backoff =
        later.1
        ∙ ap (λ (k : ℕ). min (k * 2 ^ length attempts) config.backoff_max) doubled
        ∙ doubling s.backoff (length attempts) config.backoff_max in
      simp on (ground (arith, slept, later.0, backoff))
