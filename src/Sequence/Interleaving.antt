-- ===== src/Sequence/Interleaving.antt =====
-- sequence.py: the products of one stream do not disturb each other.
use crypto_market_platform.Base.{
  ℕ, ◌≡◌, ◌∙◌, refl, String, true, false, List, [], ◌∷◌, arith, eq_iff, str_eq, if◌then◌else◌, inl,
  inr, Bool-cases,
}
use crypto_market_platform.Sequence.{
  Observation, ContinuityTracker, observe, observe_all, last_seen,
}
use crypto_market_platform.Sequence.Verdict.{last_seen-observe}

-- The messages, or the observations, of one product.
abbrev pub only : String → List (String × ℕ) → List (String × ℕ)
only p [] = []
only p ((q, v) ∷ ms) = let rest = only p ms in if str_eq q p then (q, v) ∷ rest else rest

abbrev pub about : String → List Observation → List Observation
about p [] = []
about p (o ∷ os) = let rest = about p os in if str_eq o.product_id p then o ∷ rest else rest

-- A verdict depends on the baseline of its product alone.
observe-same :
    (t t' : ContinuityTracker) (p : String) (v : ℕ)
    → last_seen t p ≡ last_seen t' p
    → (observe t p v).1 ≡ (observe t' p v).1
unfolding last_seen observe
observe-same t t' p v same = ground (arith, same)

product_id-observe : (t : ContinuityTracker) (p : String) (v : ℕ) → (observe t p v).1.product_id ≡ p
unfolding observe
product_id-observe t p v = ground arith

last_seen-same :
    (t t' : ContinuityTracker) (q : String) (v : ℕ) (p : String)
    → last_seen t p ≡ last_seen t' p
    → str_eq q p ≡ true
    → last_seen (observe t q v).0 p ≡ last_seen (observe t' q v).0 p
last_seen-same t t' q v p same e =
    ground (arith, last_seen-observe t q v p, last_seen-observe t' q v p, same, e, eq_iff q p)

last_seen-other :
    (t : ContinuityTracker) (q : String) (v : ℕ) (p : String)
    → str_eq q p ≡ false
    → last_seen (observe t q v).0 p ≡ last_seen t p
last_seen-other t q v p e = ground (arith, last_seen-observe t q v p, e)

-- However the products' messages are interleaved, the verdicts on a product are those that its
-- own messages alone would get, from any tracker with the same baseline for it.
pub about-observe_all :
    (ms : List (String × ℕ)) (t t' : ContinuityTracker) (p : String)
    → last_seen t p ≡ last_seen t' p
    → about p (observe_all t ms).1 ≡ (observe_all t' (only p ms)).1
unfolding observe_all
about-observe_all [] t t' p same = refl
about-observe_all ((q, v) ∷ ms) t t' p same = elim (Bool-cases (str_eq q p)) [
  | inr other ↦
      let rest =
        about-observe_all ms (observe t q v).0 t' p (last_seen-other t q v p other ∙ same) in
      let id = product_id-observe t q v in ground (arith, rest, id, other)
  | inl own ↦
      let rest =
        about-observe_all ms (observe t q v).0 (observe t' q v).0 p
          (last_seen-same t t' q v p same own) in
      let id = product_id-observe t q v in
      let verdict = observe-same t t' q v (ground (arith, same, eq_iff q p, own)) in
      ground (arith, rest, id, own, verdict)
]
