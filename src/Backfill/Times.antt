-- ===== src/Backfill/Times.antt =====
-- scripts/backfill_trades.py, `to_topic_payload`: the time of a trade as the API writes it.
use Prim.Native.Char.{Char, char, code}
use Prim.Native.String.{◌++◌ as append}
use package.text.Mathlib.Text.{starts_with}
use package.text.Mathlib.TextLemmas.{cons-append}
use package.text.Mathlib.TextEquality.{starts_with_iff}
use mathlib.Core.Path.{sym, ap, ◌∙◌}
use crypto_market_platform.Base.{
  ℕ, ◌≡◌, refl, String, Bool, true, false, ◌==◌, if◌then◌else◌, arith, inl, inr, Bool-cases,
}
use crypto_market_platform.Backfill.Payload.{replace_offset}

-- A time in UTC: no offset is written with a plus sign, and a Z ends it.
unfoldable pub has_no_plus : String → Bool
has_no_plus String.[] = true
has_no_plus (String.◌∷◌ c s) = let rest = has_no_plus s in if code c == b'+' then false else rest

first_code : String → ℕ
first_code String.[] = 0
first_code (String.◌∷◌ c s) = code c

starts_plus : (c : Char) (s r : String) → append "+00:00" r ≡ String.◌∷◌ c s → code c ≡ b'+'
unfolding first_code
starts_plus c s r e = ap first_code (sym e ∙ cons-append (char 43 tt) "00:00" r)

no_offset :
    (c : Char) (s : String)
    → (code c == b'+') ≡ false
    → starts_with (String.◌∷◌ c s) "+00:00" ≡ false
no_offset c s other = elim (Bool-cases (starts_with (String.◌∷◌ c s) "+00:00")) [
  | inl starts ↦
      let (r, e) = (starts_with_iff (String.◌∷◌ c s) "+00:00").0 starts in
      let plus = starts_plus c s r e in absurd (ground (arith, plus, other))
  | inr starts_not ↦ starts_not
]

pub replace_offset_lem : (s : String) → has_no_plus s ≡ true → replace_offset 0 s ≡ s
unfolding has_no_plus replace_offset
replace_offset_lem String.[] plain = refl
replace_offset_lem (String.◌∷◌ c s) plain = elim (Bool-cases (code c == b'+')) [
  | inl is_plus ↦ absurd (ground (arith, is_plus, plain))
  | inr other ↦
      rw (no_offset c s other) (ap (String.◌∷◌ c) (replace_offset_lem s (rw other at plain)))
]
