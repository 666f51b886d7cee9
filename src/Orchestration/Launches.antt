-- ===== src/Orchestration/Launches.antt =====
-- sensors.py: the runs that the freshness sensor launches over its lifetime.
use crypto_market_platform.Base.{
  ℕ, zero, suc, refl, ◌+◌, ◌≤◌, ◌<◌, ◌≡◌, String, Bool, true, false, ◌||◌, Option, none, some, List,
  [], ◌∷◌, ltb, ◌==◌, str_eq, if◌then◌else◌, length, arith, inl, inr, Bool-cases,
}
use mathlib.Core.Path.{subst}
use crypto_market_platform.Base.Dict.{str_eq_refl}
use crypto_market_platform.Datetime.{str_of_number}
use crypto_market_platform.Orchestration.{
  Evaluation, skip_reason, sensor_result, run_key, decide, staleness_of, feed_freshness_sensor,
  freshness_limit_minutes,
}

abbrev pub seen : String → List String → Bool
seen key [] = false
seen key (k ∷ keys) = str_eq k key || seen key keys

abbrev fresh_keys : List String
fresh_keys = "fresh-0" ∷ "fresh-1" ∷ "fresh-2" ∷ "fresh-3" ∷ "fresh-4" ∷ "fresh-5" ∷ []

-- Keys of the six, each once.
abbrev pub IsOnce : List String → Type 0
IsOnce [] = Unit
IsOnce (key ∷ keys) = (seen key fresh_keys ≡ true) × (seen key keys ≡ false) × IsOnce keys

-- Dagster launches a run for a key, given the keys of the runs that it has launched for this sensor.
module _ (launches : List String → String → Bool) where
  -- The keys after the run requests of one evaluation.
  unfoldable pub launch : List String → List String → List String
  launch past [] = past
  launch past (key ∷ keys) = launch (if launches past key then key ∷ past else past) keys

  abbrev pub act : List String → Evaluation → List String
  act past (skip_reason text) = past
  act past (sensor_result keys) = launch past keys

  -- The keys of the runs launched after these evaluations of the sensor, the last first.
  unfoldable pub launched : List (List (Option ℕ)) → List String → List String
  launched [] past = past
  launched (rows ∷ evaluations) past = launched evaluations (act past (feed_freshness_sensor rows))

  -- The keys of these numbers of minutes that have not been used.
  unfoldable left : List ℕ → List String → ℕ
  left [] past = 0
  left (m ∷ minutes) past = (if seen (run_key m) past then 0 else 1) + left minutes past

  left_shrinks :
      (key : String) (minutes : List ℕ) (past : List String)
      → left minutes (key ∷ past) ≤ left minutes past
  unfolding left
  left_shrinks key [] past = omega arith
  left_shrinks key (m ∷ minutes) past = ground (arith, left_shrinks key minutes past)

  abbrev among : ℕ → List ℕ → Bool
  among m [] = false
  among m (k ∷ minutes) = k == m || among m minutes

  left_drops_here :
      (m : ℕ) (minutes : List ℕ) (past : List String)
      → seen (run_key m) past ≡ false
      → left (m ∷ minutes) (run_key m ∷ past) < left (m ∷ minutes) past
  unfolding left
  left_drops_here m minutes past new =
      ground (arith, str_eq_refl (run_key m), new, left_shrinks (run_key m) minutes past)

  left_drops :
      (m : ℕ) (minutes : List ℕ) (past : List String)
      → among m minutes ≡ true
      → seen (run_key m) past ≡ false
      → left minutes (run_key m ∷ past) < left minutes past
  unfolding left
  left_drops m [] past a new = cc
  left_drops m (k ∷ minutes) past a new = elim (Bool-cases (k == m)) [
    | inl same ↦
        subst (λ i. left (i ∷ minutes) (run_key m ∷ past) < left (i ∷ minutes) past)
          (ground (arith, same)) (left_drops_here m minutes past new)
    | inr other ↦ ground (arith, left_drops m minutes past (ground (arith, a, other)) new)
  ]

  abbrev minutes : List ℕ
  minutes = 0 ∷ 1 ∷ 2 ∷ 3 ∷ 4 ∷ 5 ∷ []

  module _
      (once : (past : List String) (key : String)
        → seen key past ≡ true
        → launches past key ≡ false) where
    new_key : (past : List String) (key : String) → launches past key ≡ true → seen key past ≡ false
    new_key past key new = elim (Bool-cases (seen key past)) [
      | inl old ↦ ground (arith, once past key old, new)
      | inr unseen ↦ unseen
    ]

    launch_uses :
        (m : ℕ) (past : List String)
        → among m minutes ≡ true
        → length (launch past (run_key m ∷ [])) + left minutes (launch past (run_key m ∷ []))
          ≤ length past + left minutes past
    unfolding launch
    launch_uses m past a = elim (Bool-cases (launches past (run_key m))) [
      | inl new ↦ rw new (omega (arith, left_drops m minutes past a (new_key past (run_key m) new)))
      | inr old ↦ rw old (omega arith)
    ]

    decide_uses :
        (staleness : Option ℕ) (past : List String)
        → length (act past (decide staleness)) + left minutes (act past (decide staleness))
          ≤ length past + left minutes past
    decide_uses none past = omega arith
    decide_uses (some m) past = elim (Bool-cases (ltb freshness_limit_minutes m)) [
      | inl stale ↦ rw stale (omega arith)
      | inr fresh ↦ rw fresh (launch_uses m past (ground (arith, fresh)))
    ]

    launched_uses :
        (evaluations : List (List (Option ℕ))) (past : List String)
        → length (launched evaluations past) + left minutes (launched evaluations past)
          ≤ length past + left minutes past
    unfolding launched feed_freshness_sensor
    launched_uses [] past = omega arith
    launched_uses (rows ∷ evaluations) past = omega (
      arith,
      launched_uses evaluations (act past (decide (staleness_of rows))),
      decide_uses (staleness_of rows) past,
    )

    run_key-fresh : (m : ℕ) → among m minutes ≡ true → seen (run_key m) fresh_keys ≡ true
    unfolding run_key str_of_number
    run_key-fresh zero a = refl
    run_key-fresh (suc zero) a = refl
    run_key-fresh (suc (suc zero)) a = refl
    run_key-fresh (suc (suc (suc zero))) a = refl
    run_key-fresh (suc (suc (suc (suc zero)))) a = refl
    run_key-fresh (suc (suc (suc (suc (suc zero))))) a = refl
    run_key-fresh (suc (suc (suc (suc (suc (suc m)))))) a = absurd (ground (arith, a))

    launch-IsOnce :
        (m : ℕ) (past : List String)
        → among m minutes ≡ true
        → IsOnce past
        → IsOnce (launch past (run_key m ∷ []))
    unfolding launch
    launch-IsOnce m past a o = elim (Bool-cases (launches past (run_key m))) [
      | inl new ↦ rw new (run_key-fresh m a, new_key past (run_key m) new, o)
      | inr old ↦ rw old o
    ]

    decide-IsOnce :
        (staleness : Option ℕ) (past : List String)
        → IsOnce past
        → IsOnce (act past (decide staleness))
    decide-IsOnce none past o = o
    decide-IsOnce (some m) past o = elim (Bool-cases (ltb freshness_limit_minutes m)) [
      | inl stale ↦ rw stale o
      | inr fresh ↦ rw fresh (launch-IsOnce m past (ground (arith, fresh)) o)
    ]

    launched-IsOnce :
        (evaluations : List (List (Option ℕ))) (past : List String)
        → IsOnce past
        → IsOnce (launched evaluations past)
    unfolding launched feed_freshness_sensor
    launched-IsOnce [] past o = o
    launched-IsOnce (rows ∷ evaluations) past o =
        launched-IsOnce evaluations _ (decide-IsOnce (staleness_of rows) past o)

    -- If Dagster launches at most one run for a key, as it documents, then however often the
    -- sensor is evaluated and whatever it finds, it launches at most six runs in its lifetime: the
    -- key of each is one of "fresh-0" to "fresh-5", and none of them is launched again.
    pub launched_bounded :
        (evaluations : List (List (Option ℕ)))
        → (length (launched evaluations []) ≤ 6) × IsOnce (launched evaluations [])
    unfolding left
    launched_bounded evaluations =
        (omega (arith, launched_uses evaluations []), launched-IsOnce evaluations [] tt)
