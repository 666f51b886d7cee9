-- ===== src/Datetime/Zone.antt =====
-- ws_client.py, `parse_time`: the replacement of the zone in a printed time.
use crypto_market_platform.Base.{ℕ, ◌/◌, ◌≡◌, ◌∙◌, refl, ap, List, [], ◌∷◌, false, arith, ◌==◌}
use crypto_market_platform.Datetime.{replace_z}
use crypto_market_platform.Datetime.Printing.{one, two, three, four, printed}

abbrev pub utc : List ℕ
utc = b'+' ∷ b'0' ∷ b'0' ∷ b':' ∷ b'0' ∷ b'0' ∷ []

replace_z-one : (n : ℕ) (s : List ℕ) → replace_z (one n s) ≡ one n (replace_z s)
unfolding replace_z
replace_z-one n s = ground arith

replace_z-two : (n : ℕ) (s : List ℕ) → replace_z (two n s) ≡ two n (replace_z s)
replace_z-two n s = replace_z-one (n / 10) (one n s) ∙ ap (one (n / 10)) (replace_z-one n s)

replace_z-three : (n : ℕ) (s : List ℕ) → replace_z (three n s) ≡ three n (replace_z s)
replace_z-three n s = replace_z-one (n / 100) (two n s) ∙ ap (one (n / 100)) (replace_z-two n s)

replace_z-four : (n : ℕ) (s : List ℕ) → replace_z (four n s) ≡ four n (replace_z s)
replace_z-four n s =
    replace_z-one (n / 1000) (three n s) ∙ ap (one (n / 1000)) (replace_z-three n s)

replace_z-skip :
    (c : ℕ) (s t : List ℕ) → (c == b'Z') ≡ false → replace_z s ≡ t → replace_z (c ∷ s) ≡ c ∷ t
unfolding replace_z
replace_z-skip c s t other e = rw (other, e) refl

-- Two digits and a sign, followed by codes that are known.
replace_z-field :
    (n c : ℕ) (s t : List ℕ)
    → (c == b'Z') ≡ false
    → replace_z s ≡ t
    → replace_z (two n (c ∷ s)) ≡ two n (c ∷ t)
replace_z-field n c s t other e =
    replace_z-two n (c ∷ s) ∙ ap (two n) (replace_z-skip c s t other e)

replace_z-zone : replace_z (b'Z' ∷ []) ≡ utc
unfolding replace_z
replace_z-zone = refl

pub replace_z-printed :
    (y m d h mi sec ms : ℕ)
    → replace_z (printed y m d h mi sec ms (b'Z' ∷ [])) ≡ printed y m d h mi sec ms utc
replace_z-printed y m d h mi sec ms =
    let millis = replace_z-three ms (b'Z' ∷ []) ∙ ap (three ms) replace_z-zone in
    let time =
      replace_z-field h b':' _ _ refl
        (replace_z-field mi b':' _ _ refl (replace_z-field sec b'.' _ _ refl millis)) in
    let date = replace_z-field m b'-' _ _ refl (replace_z-field d b'T' _ _ refl time) in
    replace_z-four y (
      b'-'
      ∷ two m (
          b'-'
          ∷ two d (b'T' ∷ two h (b':' ∷ two mi (b':' ∷ two sec (b'.' ∷ three ms (b'Z' ∷ [])))))))
    ∙ ap (four y) (replace_z-skip b'-' _ _ refl date)
