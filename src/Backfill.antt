-- ===== src/Backfill.antt =====
-- scripts/backfill_trades.py: the pages of the REST API that `main` walks to fill a range of ids.
-- `urlopen` with the decoding of its JSON is a parameter, over the state of the world.
pub mod Collecting
pub mod Payload
pub mod Types
pub mod Times
pub mod Script
pub mod Ascending
pub mod Recorder
pub mod Rows
pub mod Replay
pub mod Complete
mod Tests
use crypto_market_platform.Base.{
  ℕ, zero, suc, ◌+◌, ◌-◌, String, Bool, true, false, not, ◌&&◌, ◌||◌, Option, none, some, List, [],
  ◌∷◌, map, leb, ltb, ◌==◌, if◌then◌else◌,
}
use crypto_market_platform.Base.Result
use crypto_market_platform.Base.Result.{Result, ok, raise}
use crypto_market_platform.Base.Exec.{Exec, pure, lift, ◌>>=◌}
use crypto_market_platform.Handler.Messages.{Scalar, required, int_of}

-- A trade as the API returns it, with the keys that the script reads.
pub record RestTrade : Type 0 where
  pub trade_id : Option Scalar
  pub time : Option String
  pub price : Option Scalar
  pub size : Option Scalar
  pub side : Option Scalar

abbrev pub page_size : ℕ
page_size = 1000

-- The URL of a page, with its parts kept unprinted: `limit` and, as `after`, the id below which
-- the trades of the page are to be.
pub record Url : Type 0 where
  pub product : String
  pub limit : ℕ
  pub after : Option ℕ

abbrev pub page_url : String → Option ℕ → Url
page_url product before_id = record { product = product; limit = page_size; after = before_id }

-- The trades collected by id, a dict of the script.
abbrev pub Collected : Type 0
Collected = List (ℕ × RestTrade)

unfoldable pub lookup : ℕ → Collected → Option RestTrade
lookup i [] = none
lookup i ((j, t) ∷ c) = if j == i then some t else lookup i c

unfoldable pub store : ℕ → RestTrade → Collected → Collected
store i t [] = (i, t) ∷ []
store i t ((j, u) ∷ c) = if j == i then (j, t) ∷ c else (j, u) ∷ store i t c

-- `range(start, start + n)`
unfoldable pub span : ℕ → ℕ → List ℕ
span start zero = []
span start (suc n) = start ∷ span (start + 1) n

-- `set(range(after + 1, before))`
unfoldable pub wanted : ℕ → ℕ → List ℕ
unfolding span
wanted after before = span (after + 1) (before - (after + 1))

unfoldable pub mem : ℕ → List ℕ → Bool
mem i [] = false
mem i (j ∷ js) = j == i || mem i js

-- `wanted - set(collected)`
unfoldable pub missing : List ℕ → Collected → List ℕ
missing [] c = []
missing (i ∷ is) c =
    let rest = missing is c in elim (lookup i c) [ none ↦ i ∷ rest | some _ ↦ rest ]

-- `[int(t["trade_id"]) for t in page]`, each id with its trade.
unfoldable pub numbered : List RestTrade → Result (List (ℕ × RestTrade))
numbered [] = ok []
numbered (t ∷ page) =
    Result.◌>>=◌ (required t.trade_id)
      λ raw. Result.◌>>=◌ (int_of raw) λ i. Result.◌>>=◌ (numbered page) λ rest. ok ((i, t) ∷ rest)

-- `for trade in page: if tid in wanted: collected[tid] = trade`
unfoldable pub keep : List ℕ → List (ℕ × RestTrade) → Collected → Collected
unfolding store mem
keep ids [] c = c
keep ids ((i, t) ∷ page) c = keep ids page (if mem i ids then store i t c else c)

-- `min(ids)`
unfoldable pub min_of : ℕ → List (ℕ × RestTrade) → ℕ
min_of i [] = i
min_of i ((j, t) ∷ page) = min_of (if ltb j i then j else i) page

module _ {W : Type 0} (urlopen : Url → Exec W (List RestTrade)) where
  unfoldable pub fetch_page : String → Option ℕ → Exec W (List RestTrade)
  fetch_page product before_id = urlopen (page_url product before_id)

  module _ (product : String) (after before : ℕ) where
    -- One page with its ids.
    unfoldable pub read_page : ℕ → Exec W (List (ℕ × RestTrade))
    unfolding fetch_page
    read_page cursor = do page ← fetch_page product (some cursor); lift (numbered page)

    -- The rest of the loop's body, with the next turn as a function.
    abbrev pub turn :
        (ℕ → Collected → Exec W (Option Collected))
        → Collected
        → List (ℕ × RestTrade)
        → Exec W (Option Collected)
    turn next c [] = pure (some c)
    turn next c ((i, t) ∷ page) =
        let c' = keep (wanted after before) ((i, t) ∷ page) c in
        let cursor = min_of i page in if leb cursor after then pure (some c') else next cursor c'

    abbrev pub unless_done :
        List ℕ → Collected → Exec W (Option Collected) → Exec W (Option Collected)
    unless_done [] c more = pure (some c)
    unless_done (i ∷ is) c more = more

    -- `while wanted - set(collected)`: `none` when the fuel runs out.
    unfoldable pub walk : ℕ → ℕ → Collected → Exec W (Option Collected)
    unfolding read_page missing wanted keep min_of
    walk zero cursor c = pure none
    walk (suc fuel) cursor c =
        unless_done (missing (wanted after before) c) c
          (do page ← read_page cursor; turn (walk fuel) c page)

    -- The loop from its start, with as much fuel as the cursor can step down.
    unfoldable pub collect : Exec W (Option Collected)
    unfolding walk
    collect = walk (before + page_size + 1) (before + page_size) []
