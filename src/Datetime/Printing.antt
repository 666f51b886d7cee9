-- ===== src/Datetime/Printing.antt =====
-- ws_client.py, `_iso`: the characters of a printed time, as codes.
use Prim.Native.String.{◌++◌ as append}
use Prim.Native.Char.{code}
use package.text.Mathlib.TextLemmas.{nil-append, cons-append, append_assoc}
use crypto_market_platform.Base.{
  ℕ, ◌+◌, ◌/◌, ◌%◌, ◌≡◌, ◌∙◌, refl, ap, String, List, [], ◌∷◌, ◌++◌, Bool, true, false, arith,
  if◌then◌else◌,
}
use crypto_market_platform.Decimal.Text.{codes}
use crypto_market_platform.Datetime.{digit, pad2, pad3, iso_text}

-- The digits of a number before some codes.
abbrev pub one : ℕ → List ℕ → List ℕ
one n s = (b'0' + n % 10) ∷ s

abbrev pub two : ℕ → List ℕ → List ℕ
two n s = one (n / 10) (one n s)

abbrev pub three : ℕ → List ℕ → List ℕ
three n s = one (n / 100) (two n s)

abbrev pub four : ℕ → List ℕ → List ℕ
four n s = one (n / 1000) (three n s)

codes-append : (a b : String) → codes (append a b) ≡ codes a ++ codes b
codes-append String.[] b = rw (nil-append b) refl
codes-append (String.◌∷◌ c a) b = rw (cons-append c a b) (ap (λ l. code c ∷ l) (codes-append a b))

codes_if : (b : Bool) (s t : String) → codes (if b then s else t) ≡ (if b then codes s else codes t)
codes_if true s t = refl
codes_if false s t = refl

codes-digit : (n : ℕ) → codes (digit n) ≡ one n []
unfolding digit
codes-digit n = simp codes_if (ground arith)

-- The codes of what `_iso` prints.
abbrev pub printed : ℕ → ℕ → ℕ → ℕ → ℕ → ℕ → ℕ → List ℕ → List ℕ
printed y m d h mi sec ms zone = four y (
    b'-'
    ∷ two m (b'-' ∷ two d (b'T' ∷ two h (b':' ∷ two mi (b':' ∷ two sec (b'.' ∷ three ms zone))))))

codes-digit_before : (n : ℕ) (rest : String) → codes (append (digit n) rest) ≡ one n (codes rest)
codes-digit_before n rest = codes-append (digit n) rest ∙ ap (λ l. l ++ codes rest) (codes-digit n)

codes-pad2 : (n : ℕ) (rest : String) → codes (append (pad2 n) rest) ≡ two n (codes rest)
unfolding pad2
codes-pad2 n rest =
    ap codes (append_assoc (digit (n / 10)) (digit n) rest)
    ∙ codes-digit_before (n / 10) (append (digit n) rest)
    ∙ ap (one (n / 10)) (codes-digit_before n rest)

codes-pad3 : (n : ℕ) (rest : String) → codes (append (pad3 n) rest) ≡ three n (codes rest)
unfolding pad3
codes-pad3 n rest =
    ap codes (append_assoc (digit (n / 100)) (pad2 n) rest)
    ∙ codes-digit_before (n / 100) (append (pad2 n) rest)
    ∙ ap (one (n / 100)) (codes-pad2 n rest)

codes-field :
    (n : ℕ) (sign rest : String) (l : List ℕ)
    → codes rest ≡ l
    → codes (append (pad2 n) (append sign rest)) ≡ two n (codes sign ++ l)
codes-field n sign rest l e =
    codes-pad2 n (append sign rest)
    ∙ ap (two n) (codes-append sign rest ∙ ap (λ k. codes sign ++ k) e)

-- The codes of a printed time.
pub codes-iso_text :
    (y m d h mi sec ms : ℕ)
    → codes (iso_text y m d h mi sec ms) ≡ printed y m d h mi sec ms (b'Z' ∷ [])
unfolding iso_text
codes-iso_text y m d h mi sec ms =
    let millis = codes-pad3 ms "Z" in
    let time = codes-field h ":" _ _ (codes-field mi ":" _ _ (codes-field sec "." _ _ millis)) in
    let date = codes-field m "-" _ _ (codes-field d "T" _ _ time) in
    codes-digit_before (y / 1000) _
    ∙ ap (one (y / 1000))
        (codes-pad3 y _ ∙ ap (three y) (codes-append "-" _ ∙ ap (λ l. b'-' ∷ l) date))
