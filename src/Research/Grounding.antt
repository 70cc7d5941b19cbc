-- ===== src/Research/Grounding.antt =====
-- The test of generated claims against their evidence in app/research/service.py: the tokens that it
-- compares, what supports a claim, and what contradicts evidence. `str.casefold` is a parameter.
use marketview.Base.Texts.{Text, codes}
use marketview.Base.{
  [], ◌∷◌, true, false, none, some, ◌!=◌, ◌&&◌, ◌*◌, ◌++◌, ◌==◌, Bool, List, all, any, eqb, keep,
  leb, length, ltb, map, not, ◌||◌, ℕ, if◌then◌else◌, List-Eq, ℕ-Eq,
}
use marketview.Base.Dict.{lookup}

-- `[a-z0-9]`
abbrev pub is_token_character : ℕ → Bool
is_token_character c = (leb 97 c && leb c 122) || (leb 48 c && leb c 57)

-- A match that is not empty.
abbrev pub match_onto : Text → List Text → List Text
match_onto [] rest = rest
match_onto (c ∷ s) rest = (c ∷ s) ∷ rest

-- The run that the text starts with, and the runs after it.
unfoldable pub split_runs : Text → Text × List Text
split_runs [] = ([], [])
split_runs (c ∷ s) =
    let (run, rest) = split_runs s in
    if is_token_character c then (c ∷ run, rest) else ([], match_onto run rest)

-- `_LEXICAL_TOKEN.findall`
unfoldable pub find_tokens : Text → List Text
unfolding split_runs
find_tokens s = let (run, rest) = split_runs s in match_onto run rest

abbrev pub stop_words : List Text
stop_words = map codes (
    "a" ∷ "an" ∷ "and" ∷ "are" ∷ "as" ∷ "at" ∷ "be" ∷ "been" ∷ "by" ∷ "can" ∷ "could" ∷ "did"
    ∷ "does" ∷ "during" ∷ "for" ∷ "from" ∷ "has" ∷ "have" ∷ "in" ∷ "is" ∷ "it" ∷ "may" ∷ "might"
    ∷ "of" ∷ "on" ∷ "period" ∷ "reported" ∷ "that" ∷ "the" ∷ "this" ∷ "to" ∷ "was" ∷ "were" ∷ "will"
    ∷ "with" ∷ "would" ∷ [])

abbrev pub negation : Text
negation = codes "negation"

abbrev pub all_to : Text → List Text → List (Text × Text)
all_to to [] = []
all_to to (word ∷ words) = (word, to) ∷ all_to to words

-- `_LEXICAL_EQUIVALENTS`, by what the words stand for.
abbrev pub equivalents : List (Text × Text)
equivalents =
    all_to (codes "limit")
      (map codes ("constrain" ∷ "constrained" ∷ "constrains" ∷ "limited" ∷ "limits" ∷ []))
    ++ all_to (codes "shortage") (map codes ("scarcity" ∷ "scarce" ∷ "shortages" ∷ []))
    ++ all_to (codes "decrease") (
        map codes (
          "decline" ∷ "declined" ∷ "declines" ∷ "decreased" ∷ "decreases" ∷ "fall" ∷ "fell"
          ∷ "falls" ∷ []))
    ++ all_to (codes "increase") (
        map codes (
          "grew" ∷ "grow" ∷ "growing" ∷ "increased" ∷ "increases" ∷ "rise" ∷ "rises" ∷ "rose" ∷ []))
    ++ all_to negation (map codes ("not" ∷ "no" ∷ "never" ∷ "without" ∷ []))

abbrev pub polarity_pairs : List (List Text)
polarity_pairs =
    (codes "increase" ∷ codes "decrease" ∷ [])
    ∷ (codes "gain" ∷ codes "loss" ∷ [])
    ∷ (codes "profit" ∷ codes "loss" ∷ [])
    ∷ []

-- `_POLARITY_TOKENS | {_NEGATION_MARKER}`
abbrev pub non_subject_tokens : List Text
non_subject_tokens =
    map codes ("increase" ∷ "decrease" ∷ "gain" ∷ "loss" ∷ "profit" ∷ "negation" ∷ [])

-- `token in tokens`
abbrev pub holds : List Text → Text → Bool
holds tokens t = any (λ x. x == t) tokens

-- `tuple(dict.fromkeys(tokens))`
unfoldable pub unique : List Text → List Text
unique [] = []
unique (t ∷ ts) = t ∷ keep (λ x. x != t) (unique ts)

-- `token[:-1] if token.endswith("s") else token`
unfoldable pub without_s : Text → Text
without_s [] = []
without_s (c ∷ []) = if eqb c 115 then [] else c ∷ []
without_s (c ∷ c' ∷ s) = c ∷ without_s (c' ∷ s)

unfoldable pub normal_token : Text → Text
normal_token t = elim (lookup t equivalents) [ none ↦ without_s t | some word ↦ word ]

-- `set(tokens) & pair`, in the order of the pair.
abbrev pub on_pair : List Text → List Text → List Text
on_pair tokens pair = keep (holds tokens) pair

abbrev pub differ : Bool → Bool → Bool
differ true b = not b
differ false b = b

abbrev pub is_empty {ℓ} : {A : Type ℓ} → List A → Bool
is_empty [] = true
is_empty (x ∷ xs) = false

-- `token.isdecimal()`, on a token of ASCII.
abbrev pub is_decimal_token : Text → Bool
is_decimal_token t = not (is_empty t) && all (λ c. leb 48 c && leb c 57) t

unfoldable pub subject_count : List Text → List Text → ℕ
subject_count left right =
    length (keep (λ t. holds right t && not (holds non_subject_tokens t)) left)

-- The test of the inner loop.
unfoldable pub contradicts : List Text → List Text → Bool
contradicts left right =
    not (ltb (subject_count left right) 2)
    && (differ (holds left negation) (holds right negation)
        || any
            (λ pair.
              not (is_empty (on_pair left pair))
              && not (is_empty (on_pair right pair))
              && on_pair left pair != on_pair right pair)
            polarity_pairs)

unfoldable pub has_conflict : List (List Text) → Bool
has_conflict [] = false
has_conflict (left ∷ rest) = any (contradicts left) rest || has_conflict rest

module _ (casefold : Text → Text) where
  -- `_support_tokens`
  unfoldable pub support_tokens : Text → List Text
  support_tokens text =
      unique (map normal_token (keep (λ t. not (holds stop_words t)) (find_tokens (casefold text))))

  unfoldable pub quote_tokens_of : List Text → List Text
  quote_tokens_of [] = []
  quote_tokens_of (q ∷ qs) = support_tokens q ++ quote_tokens_of qs

  -- The tests of `_claim_has_lexical_support` on the tokens.
  unfoldable pub is_supported : List Text → List Text → Bool
  is_supported claim quote =
      not (ltb (length claim) 2)
      && (not (is_empty quote)
          && (all (holds quote) (keep is_decimal_token claim)
              && (not (differ (holds claim negation) (holds quote negation))
                  && (not (any (λ pair. on_pair claim pair != on_pair quote pair) polarity_pairs)
                      && leb (length claim * 3) (length (keep (holds quote) claim) * 4)))))

  unfoldable pub claim_has_lexical_support : Text → List Text → Bool
  claim_has_lexical_support claim quotes =
      is_supported (support_tokens claim) (quote_tokens_of quotes)

  unfoldable pub evidence_has_direct_conflict : List Text → Bool
  evidence_has_direct_conflict texts = has_conflict (map support_tokens texts)
