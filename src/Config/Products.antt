-- ===== src/Config/Products.antt =====
-- config.py, `_env_list`: the items that it makes of a text, and the text of a list of items.
use Prim.Native.Char.{Char, char, code}
use Prim.Native.String.{◌++◌ as append}
use text.Mathlib.TextLemmas.{nil-append, cons-append}
use crypto_market_platform.Base.{
  ◌≡◌, ◌∙◌, refl, ap, String, Bool, true, false, not, ◌||◌, List, [], ◌∷◌, ◌==◌, All, arith,
  Bool-cases, inl, inr,
}
use crypto_market_platform.Base.Dict
use crypto_market_platform.Base.Dict.{str_eq_refl, get-put}
use crypto_market_platform.Config.{Environ, env_list, stripped, getenv, or_default}
use crypto_market_platform.Config.Items.{
  is_empty, is_space, trim, strip_left, strip_right, strip, onto, split,
}

abbrev pub has_comma : String → Bool
has_comma String.[] = false
has_comma (String.◌∷◌ c s) = code c == b',' || has_comma s

-- What an item of a list is: not empty, with no comma in it and no space around it.
pub record Clean (item : String) : Type 0 where
  pub filled : is_empty item ≡ false
  pub whole : has_comma item ≡ false
  pub trimmed : strip item ≡ item

has_comma-strip_left : (s : String) → has_comma s ≡ false → has_comma (strip_left s) ≡ false
unfolding strip_left
has_comma-strip_left String.[] h = refl
has_comma-strip_left (String.◌∷◌ c s) h = ground (arith, has_comma-strip_left s)

has_comma-trim :
    (c : Char) (s : String) → (code c == b',' || has_comma s) ≡ false → has_comma (trim c s) ≡ false
has_comma-trim c String.[] h = elim (Bool-cases (is_space c)) [
  | inl space ↦ rw space refl
  | inr other ↦ rw other h
]
has_comma-trim c (String.◌∷◌ d s) h = h

has_comma-strip_right : (s : String) → has_comma s ≡ false → has_comma (strip_right s) ≡ false
unfolding strip_right
has_comma-strip_right String.[] h = refl
has_comma-strip_right (String.◌∷◌ c s) h =
    has_comma-trim c (strip_right s) (ground (arith, has_comma-strip_right s))

strip_right-trim : (c : Char) (s : String) → strip_right s ≡ s → strip_right (trim c s) ≡ trim c s
unfolding strip_right
strip_right-trim c String.[] h = elim (Bool-cases (is_space c)) [
  | inl space ↦ rw space refl
  | inr other ↦ rw (other, other) refl
]
strip_right-trim c (String.◌∷◌ d s) h = ap (trim c) h

strip_right_idem : (s : String) → strip_right (strip_right s) ≡ strip_right s
unfolding strip_right
strip_right_idem String.[] = refl
strip_right_idem (String.◌∷◌ c s) = strip_right-trim c (strip_right s) (strip_right_idem s)

-- The text does not begin with a space.
abbrev begins : String → Bool
begins String.[] = true
begins (String.◌∷◌ c s) = not (is_space c)

begins-strip_left : (s : String) → begins (strip_left s) ≡ true
unfolding strip_left
begins-strip_left String.[] = refl
begins-strip_left (String.◌∷◌ c s) = ground (arith, begins-strip_left s)

begins-trim : (c : Char) (s : String) → is_space c ≡ false → begins (trim c s) ≡ true
begins-trim c String.[] h = ground arith
begins-trim c (String.◌∷◌ d s) h = ground arith

begins-strip_right : (s : String) → begins s ≡ true → begins (strip_right s) ≡ true
unfolding strip_right
begins-strip_right String.[] h = refl
begins-strip_right (String.◌∷◌ c s) h = begins-trim c (strip_right s) (ground arith)

strip_left-begins : (s : String) → begins s ≡ true → strip_left s ≡ s
unfolding strip_left
strip_left-begins String.[] h = refl
strip_left-begins (String.◌∷◌ c s) h = ground arith

strip_idem : (s : String) → strip (strip s) ≡ strip s
unfolding strip
strip_idem s =
    ap strip_right (
      strip_left-begins (strip_right (strip_left s))
        (begins-strip_right (strip_left s) (begins-strip_left s)))
    ∙ strip_right_idem (strip_left s)

onto-All :
    (c : Char) (parts : List String)
    → (code c == b',') ≡ false
    → All (λ part. has_comma part ≡ false) parts
    → All (λ part. has_comma part ≡ false) (onto c parts)
onto-All c [] n a = (ground arith, tt)
onto-All c (part ∷ parts) n a = (ground (arith, a.0), a.1)

-- A part of a split holds no comma.
split-All : (s : String) → All (λ part. has_comma part ≡ false) (split s)
unfolding split
split-All String.[] = (refl, tt)
split-All (String.◌∷◌ c s) = elim (Bool-cases (code c == b',')) [
  | inl cut ↦ rw cut (refl, split-All s)
  | inr on ↦ rw on (onto-All c (split s) on (split-All s))
]

stripped-Clean :
    (items : List String) → All (λ part. has_comma part ≡ false) items → All Clean (stripped items)
unfolding stripped
stripped-Clean [] a = tt
stripped-Clean (item ∷ items) a = elim (Bool-cases (is_empty (strip item))) [
  | inl blank ↦ rw blank (stripped-Clean items a.1)
  | inr filled ↦ rw filled (
    record {
      filled = filled;
      whole =
          unfold strip in has_comma-strip_right (strip_left item) (has_comma-strip_left item a.0);
      trimmed = strip_idem item;
    },
    stripped-Clean items a.1,
  )
]

or_default-Clean :
    (items default : List String)
    → All Clean items
    → All Clean default
    → All Clean (or_default items default)
or_default-Clean [] default a d = d
or_default-Clean (item ∷ items) default a d = a

-- Whatever the environment holds, each item of a list read from it is not empty, has no comma in
-- it and no space around it, if the items of the default are so.
pub env_list-Clean :
    (environ : Environ) (name : String) (default : List String)
    → All Clean default
    → All Clean (env_list environ name default)
unfolding env_list
env_list-Clean environ name default d =
    or_default-Clean (stripped (split (getenv environ name ""))) default
      (stripped-Clean (split (getenv environ name "")) (split-All (getenv environ name ""))) d

-- `",".join(items)`
unfoldable pub join : List String → String
join [] = ""
join (item ∷ []) = item
join (item ∷ next ∷ items) = append item (append "," (join (next ∷ items)))

split-whole : (s : String) → has_comma s ≡ false → split s ≡ s ∷ []
unfolding split
split-whole String.[] h = refl
split-whole (String.◌∷◌ c s) h = ground (arith, split-whole s)

split-append :
    (item s : String) → has_comma item ≡ false → split (append item (append "," s)) ≡ item ∷ split s
unfolding split
split-append String.[] s h =
    rw (nil-append (append "," s), cons-append (char 44 tt) "" s, nil-append s) refl
split-append (String.◌∷◌ c item) s h =
    let rest = split-append item s (ground (arith, h)) in
    rw (cons-append c item (append "," s)) (ground (arith, rest, h))

stripped-All : (items : List String) → All Clean items → stripped items ≡ items
unfolding stripped
stripped-All [] a = refl
stripped-All (item ∷ items) a =
    rw (a.0.trimmed, a.0.filled) (ap (λ (rest : List String). item ∷ rest) (stripped-All items a.1))

split-join :
    (item : String) (items : List String)
    → All Clean (item ∷ items)
    → split (join (item ∷ items)) ≡ item ∷ items
unfolding join
split-join item [] a = split-whole item a.0.whole
split-join item (next ∷ items) a =
    split-append item (join (next ∷ items)) a.0.whole
    ∙ ap (λ (rest : List String). item ∷ rest) (split-join next items a.1)

-- Items that are not empty, have no comma in them and no space around them, come back from the
-- text that joins them with commas, whatever the default and the rest of the environment.
pub env_list-join :
    (item : String) (items default : List String) (environ : Environ) (name : String)
    → All Clean (item ∷ items)
    → env_list (Dict.put name (join (item ∷ items)) environ) name default ≡ item ∷ items
unfolding env_list
env_list-join item items default environ name a =
    let text = get-put name name (join (item ∷ items)) environ in
    rw (text, str_eq_refl name, split-join item items a, stripped-All (item ∷ items) a) refl
