-- ===== src/Backfill/Complete.antt =====
-- scripts/backfill_trades.py: the loop of `main` ends, and what it has collected then.
use crypto_market_platform.Base.{
  ℕ, zero, suc, ◌≤◌, ◌<◌, ◌≡◌, ◌∙◌, ◌⊎◌, inl, inr, refl, String, true, false, Option, none, some,
  List, [], ◌∷◌, leb, ltb, if◌then◌else◌, All, arith, Option-cases, Bool-cases, ◌≢◌,
}
use crypto_market_platform.Base.Result.{Result, ok, raise, Result-cases}
use crypto_market_platform.Base.Exec.{Exec}
use crypto_market_platform.Backfill.{
  Url, RestTrade, Collected, lookup, wanted, missing, keep, min_of, read_page, walk, collect, turn,
  unless_done,
}
use crypto_market_platform.Backfill.Collecting.{
  in_range, mem-wanted, Genuine, lookup-Genuine, lookup-keep, least, min_of-below, missing-nil,
  either, Once, keep-Once,
}

module _ {W : Type 0} (urlopen : Url → Exec W (List RestTrade)) (product : String)
    (after before : ℕ) (history : ℕ → Option RestTrade) where
  -- The API's contract: a page for a cursor has trades of the exchange's history with ids below
  -- it, every one from the least id of the page on, and it is empty only if there are none.
  pub record Paginates : Type 0 where
    pub genuine :
        (cursor : ℕ) (w : W) (page : List (ℕ × RestTrade))
        → (read_page urlopen product after before cursor w).0 ≡ ok page
        → All (Genuine history cursor) page
    pub gapless :
        (cursor : ℕ) (w : W) (page : List (ℕ × RestTrade)) (i : ℕ)
        → (read_page urlopen product after before cursor w).0 ≡ ok page
        → least page ≤ i
        → i < cursor
        → lookup i page ≡ history i

  -- The exchange's trades of the wanted ids, and no others.
  abbrev pub Filled : Collected → Type 0
  Filled c = (i : ℕ) → lookup i c ≡ (if in_range after before i then history i else none)

  -- The ids from the cursor on are settled.
  record Settled (cursor : ℕ) (c : Collected) : Type 0 where
    once : Once c
    outside : (i : ℕ) → in_range after before i ≡ false → lookup i c ≡ none
    inside :
        (i : ℕ) → in_range after before i ≡ true → (lookup i c ≡ none) ⊎ (lookup i c ≡ history i)
    above : (i : ℕ) → in_range after before i ≡ true → cursor ≤ i → lookup i c ≡ history i

  module _ (cursor : ℕ) (page : List (ℕ × RestTrade)) (c : Collected)
      (genuine : All (Genuine history cursor) page) where
    keep_outside :
        (i : ℕ)
        → in_range after before i ≡ false
        → lookup i (keep (wanted after before) page c) ≡ lookup i c
    keep_outside i out = ground (
      arith,
      lookup-keep history cursor (wanted after before) page c i genuine,
      mem-wanted i after before,
    )

    keep_inside :
        (i : ℕ)
        → in_range after before i ≡ true
        → lookup i (keep (wanted after before) page c) ≡ either (lookup i page) (lookup i c)
    keep_inside i within = ground (
      arith,
      lookup-keep history cursor (wanted after before) page c i genuine,
      mem-wanted i after before,
    )

    keep_either :
        (i : ℕ)
        → (lookup i c ≡ none) ⊎ (lookup i c ≡ history i)
        → (either (lookup i page) (lookup i c) ≡ none)
          ⊎ (either (lookup i page) (lookup i c) ≡ history i)
    keep_either i old = elim (Option-cases (lookup i page)) [
      | inl new ↦ rw new old
      | inr (t, new) ↦
          rw new (inr (ground (arith, (lookup-Genuine history cursor page i t genuine new).1)))
    ]

    keep_seen :
        (i : ℕ)
        → (lookup i c ≡ none) ⊎ (lookup i c ≡ history i)
        → (lookup i page ≡ history i) ⊎ (lookup i c ≡ history i)
        → either (lookup i page) (lookup i c) ≡ history i
    keep_seen i old seen = elim (Option-cases (lookup i page)) [
      | inl new ↦ rw new (ground (arith, new, old, seen))
      | inr (t, new) ↦
          rw new (ground (arith, (lookup-Genuine history cursor page i t genuine new).1))
    ]

  keep-Settled :
      (cursor next : ℕ) (page : List (ℕ × RestTrade)) (c : Collected)
      → All (Genuine history cursor) page
      → ((i : ℕ) → next ≤ i → i < cursor → lookup i page ≡ history i)
      → Settled cursor c
      → Settled next (keep (wanted after before) page c)
  keep-Settled cursor next page c genuine gapless s = record {
    once = keep-Once (wanted after before) page c s.once;
    outside = λ i out. keep_outside cursor page c genuine i out ∙ s.outside i out;
    inside = λ i within.
        rw (keep_inside cursor page c genuine i within)
          (keep_either cursor page c genuine i (s.inside i within));
    above = λ i within late.
        keep_inside cursor page c genuine i within
        ∙ keep_seen cursor page c genuine i (s.inside i within) (elim (Bool-cases (ltb i cursor)) [
          | inl below ↦ inl (gapless i late (ground (arith, below)))
          | inr beyond ↦ inr (s.above i within (ground (arith, beyond)))
        ]);
  }

  -- When the loop stops, what it has is complete.
  Settled-Filled :
      (cursor : ℕ) (c : Collected)
      → Settled cursor c
      → ((i : ℕ) → in_range after before i ≡ true → (cursor ≤ i) ⊎ (lookup i c ≢ none))
      → Filled c × Once c
  Settled-Filled cursor c s stop = (
    λ i. elim (Bool-cases (in_range after before i)) [
      | inr out ↦ rw out (s.outside i out)
      | inl within ↦ rw within (elim (stop i within) [
        | inl late ↦ s.above i within late
        | inr held ↦ ground (arith, s.inside i within, held)
      ])
    ],
    s.once,
  )

  -- How the loop may end: with the range filled, or with an exception that a page raised.
  abbrev pub Ends : Result (Option Collected) → Type 0
  Ends (ok none) = ⊥
  Ends (ok (some c)) = Filled c × Once c
  Ends (raise e) =
      (cursor : ℕ) × (w : W) × ((read_page urlopen product after before cursor w).0 ≡ raise e)

  module _ (api : Paginates) where
    turn-Ends :
        (next : ℕ → Collected → Exec W (Option Collected)) (cursor : ℕ)
        (page : List (ℕ × RestTrade)) (c : Collected) (w : W)
        → All (Genuine history cursor) page
        → ((i : ℕ) → least page ≤ i → i < cursor → lookup i page ≡ history i)
        → Settled cursor c
        → ((cursor' : ℕ) (c' : Collected)
            → cursor' < cursor
            → Settled cursor' c'
            → Ends (next cursor' c' w).0)
        → Ends (turn urlopen product after before next c page w).0
    unfolding keep
    turn-Ends next cursor [] c w genuine gapless s later =
        Settled-Filled 0 c (keep-Settled cursor 0 [] c genuine gapless s)
          (λ i within. inl (omega arith))
    turn-Ends next cursor ((i, t) ∷ page) c w genuine gapless s later =
        let settled = keep-Settled cursor (min_of i page) ((i, t) ∷ page) c genuine gapless s in
        elim (Bool-cases (leb (min_of i page) after)) [
          | inl passed ↦
              rw passed (Settled-Filled (min_of i page) _ settled (λ j within. inl (ground arith)))
          | inr more ↦ rw more (
              later (min_of i page) _ (min_of-below history cursor i page genuine.0.0 genuine.1)
                settled)
        ]

    unless_done-Ends :
        (ids : List ℕ) (cursor : ℕ) (c : Collected) (more : Exec W (Option Collected)) (w : W)
        → missing (wanted after before) c ≡ ids
        → Settled cursor c
        → Ends (more w).0
        → Ends (unless_done urlopen product after before ids c more w).0
    unless_done-Ends [] cursor c more w e s m = Settled-Filled cursor c s (λ i within.
        inr (missing-nil (wanted after before) c i e (mem-wanted i after before ∙ within)))
    unless_done-Ends (i ∷ ids) cursor c more w e s m = m

    walk-Ends :
        (fuel cursor : ℕ) (c : Collected) (w : W)
        → cursor < fuel
        → Settled cursor c
        → Ends (walk urlopen product after before fuel cursor c w).0
    unfolding walk
    walk-Ends zero cursor c w below s = absurd (omega arith)
    walk-Ends (suc fuel) cursor c w below s =
        unless_done-Ends _ cursor c _ w refl s
          (elim (Result-cases (read_page urlopen product after before cursor w).0) [
            | inr (e, bad) ↦ rw bad (cursor, w, bad)
            | inl (page, good) ↦ rw good (
                turn-Ends (walk urlopen product after before fuel) cursor page c _
                  (api.genuine cursor w page good) (λ i. api.gapless cursor w page i good) s
                  (λ next c' lower settled.
                    walk-Ends fuel next c' _ (omega (arith, lower, below)) settled))
          ])

    -- The loop always ends: it stops with exactly the trades that the exchange has of the ids
    -- strictly between `after` and `before`, no id twice, or with an exception that a page raised, if the API
    -- paginates the exchange's history as it documents.
    pub collect-Ends : (w : W) → Ends (collect urlopen product after before w).0
    unfolding collect lookup
    collect-Ends w = walk-Ends _ _ [] w (omega arith) (record {
      once = tt;
      outside = λ i out. refl;
      inside = λ i within. inl refl;
      above = λ i within late. absurd (ground arith);
    })
