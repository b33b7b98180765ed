-- ===== src/Strings/Laws.antt =====
-- The tests on C strings, against their meaning.
use ungula_lib_net.Base.{
  ℕ, ◌≡◌, ◌↔◌, refl, ◌∙◌, ap, true, List, [], ◌∷◌, ◌++◌, arith, Bool-cases, inl, inr,
}
use ungula_lib_net.Strings.{has_prefix, has_substring}

-- `prefix` and `rest` make up `text`.
abbrev pub StartsWith : List ℕ → List ℕ → Type 0
StartsWith text prefix = (rest : List ℕ) × (text ≡ prefix ++ rest)

pub has_prefix-StartsWith :
    (text prefix : List ℕ) → has_prefix text prefix ≡ true → StartsWith text prefix
unfolding has_prefix
has_prefix-StartsWith text [] h = (text, refl)
has_prefix-StartsWith [] (p ∷ ps) h = cc
has_prefix-StartsWith (c ∷ cs) (p ∷ ps) h =
    let (rest, e) = has_prefix-StartsWith cs ps (ground arith) in
    let same : c ≡ p = ground arith in (rest, ap (λ n. n ∷ cs) same ∙ ap (λ xs. p ∷ xs) e)

has_prefix_nil : (text : List ℕ) → has_prefix text [] ≡ true
unfolding has_prefix
has_prefix_nil text = refl

pub prefix_found : (prefix rest : List ℕ) → has_prefix (prefix ++ rest) prefix ≡ true
unfolding has_prefix
prefix_found [] rest = has_prefix_nil rest
prefix_found (p ∷ ps) rest = ground (arith, prefix_found ps rest)

-- `needle` stands somewhere in `text`.
abbrev pub Occurs : List ℕ → List ℕ → Type 0
Occurs needle text = (before : List ℕ) × (after : List ℕ) × (text ≡ before ++ (needle ++ after))

substring_sound : (text needle : List ℕ) → has_substring text needle ≡ true → Occurs needle text
unfolding has_substring
substring_sound [] needle h = let (rest, e) = has_prefix-StartsWith [] needle h in ([], rest, e)
substring_sound (c ∷ cs) needle h = elim (Bool-cases (has_prefix (c ∷ cs) needle)) [
  | inl here ↦ let (rest, e) = has_prefix-StartsWith (c ∷ cs) needle here in ([], rest, e)
  | inr later ↦
      let (before, after, e) = substring_sound cs needle (ground arith) in
      (c ∷ before, after, ap (λ xs. c ∷ xs) e)
]

prefix-substring :
    (text needle : List ℕ) → has_prefix text needle ≡ true → has_substring text needle ≡ true
unfolding has_substring
prefix-substring [] needle h = h
prefix-substring (c ∷ cs) needle h = ground arith

substring_found :
    (before needle after : List ℕ) → has_substring (before ++ (needle ++ after)) needle ≡ true
unfolding has_substring
substring_found [] needle after =
    prefix-substring (needle ++ after) needle (prefix_found needle after)
substring_found (c ∷ cs) needle after = ground (arith, substring_found cs needle after)

pub has_substring-Occurs :
    (text needle : List ℕ) → (has_substring text needle ≡ true) ↔ Occurs needle text
has_substring-Occurs text needle = (
  substring_sound text needle,
  λ (before, after, e). ap (λ t. has_substring t needle) e ∙ substring_found before needle after,
)
