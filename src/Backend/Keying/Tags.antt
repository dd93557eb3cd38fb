-- ===== src/Backend/Keying/Tags.antt =====
-- What hash tags survive: a longer key keeps its tag, and a built key has the tag it was built with.
use rate_limit_patterns.Prelude.{
  ℕ, ◌≡◌, ◌≢◌, refl, none, some, [], ◌∷◌, ◌++◌, ◌==◌, arith, Bool-cases, Option-cases, inl, inr,
}
use mathlib.Core.List.{reverse, reverse-cons}
use rate_limit_patterns.Prelude.Text.{Text, is_empty}
use rate_limit_patterns.Prelude.Lists.{All, All-append}
use rate_limit_patterns.Backend.Keying.{
  until_close, search_hash_tag, extract_hash_tag, lstrip_colon, rstrip_colon,
  build_redis_cluster_key,
}

until_close-append :
    (cs rest tag : Text) → until_close cs ≡ some tag → until_close (cs ++ rest) ≡ some tag
unfolding until_close
until_close-append [] rest tag h = cc
until_close-append (c ∷ cs) rest tag h = elim (Option-cases (until_close cs)) [
  | inl open_end ↦ ground arith
  | inr (t, closed) ↦ ground (arith, until_close-append cs rest t closed)
]

-- Without a closing brace there is no tag.
search_hash_tag-none : (cs : Text) → until_close cs ≡ none → search_hash_tag cs ≡ none
unfolding until_close search_hash_tag
search_hash_tag-none [] h = refl
search_hash_tag-none (c ∷ cs) h = elim (Option-cases (until_close cs)) [
  | inl open_end ↦ ground (arith, search_hash_tag-none cs open_end)
  | inr (t, closed) ↦ absurd (ground arith)
]

-- A key keeps its hash tag when text is appended: the key and its sequence key share one.
pub extract_hash_tag-append :
    (key rest tag : Text)
    → extract_hash_tag key ≡ some tag
    → extract_hash_tag (key ++ rest) ≡ some tag
unfolding extract_hash_tag search_hash_tag
extract_hash_tag-append [] rest tag h = cc
extract_hash_tag-append (c ∷ cs) rest tag h = elim (Option-cases (until_close cs)) [
  | inl open_end ↦ absurd (ground (arith, search_hash_tag-none cs open_end))
  | inr ([], closed) ↦
      ground (arith, until_close-append cs rest [] closed, extract_hash_tag-append cs rest tag)
  | inr (x ∷ t, closed) ↦
      ground (arith, until_close-append cs rest (x ∷ t) closed, extract_hash_tag-append cs rest tag)
]

until_close-tag :
    (tag rest : Text) → All (λ c. c ≢ b'}') tag → until_close (tag ++ b'}' ∷ rest) ≡ some tag
unfolding until_close
until_close-tag [] rest h = refl
until_close-tag (c ∷ tag) rest h = ground (arith, until_close-tag tag rest h.1)

search_hash_tag-prefix :
    (prefix rest : Text)
    → All (λ c. c ≢ b'{') prefix
    → search_hash_tag (prefix ++ rest) ≡ search_hash_tag rest
unfolding search_hash_tag
search_hash_tag-prefix [] rest h = refl
search_hash_tag-prefix (c ∷ prefix) rest h = ground (arith, search_hash_tag-prefix prefix rest h.1)

search_hash_tag-tagged :
    (tag rest : Text)
    → tag ≢ []
    → All (λ c. c ≢ b'}') tag
    → search_hash_tag (b'{' ∷ (tag ++ b'}' ∷ rest)) ≡ some tag
unfolding search_hash_tag
search_hash_tag-tagged [] rest ne h = absurd (ne refl)
search_hash_tag-tagged (c ∷ tag) rest ne h = rw (until_close-tag (c ∷ tag) rest h) refl

All-reverse : (P : ℕ → Type 0) (cs : Text) → All P cs → All P (reverse cs)
All-reverse P [] h = tt
All-reverse P (c ∷ cs) h =
    rw reverse-cons (All-append P (reverse cs) (c ∷ []) (All-reverse P cs h.1) (h.0, tt))

All-lstrip_colon : (P : ℕ → Type 0) (cs : Text) → All P cs → All P (lstrip_colon cs)
unfolding lstrip_colon
All-lstrip_colon P [] h = tt
All-lstrip_colon P (c ∷ cs) h = elim (Bool-cases (c == b':')) [
  | inl e ↦ rw e (All-lstrip_colon P cs h.1)
  | inr e ↦ rw e h
]

All-rstrip_colon : (P : ℕ → Type 0) (cs : Text) → All P cs → All P (rstrip_colon cs)
unfolding rstrip_colon
All-rstrip_colon P cs h =
    All-reverse P (lstrip_colon (reverse cs)) (All-lstrip_colon P (reverse cs) (All-reverse P cs h))

-- The tag of a built key is the tag that it was built with, where the tag is not empty and holds no
-- closing brace and the prefix holds no opening brace.
pub extract_hash_tag-build :
    (tag suffix prefix : Text)
    → tag ≢ []
    → All (λ c. c ≢ b'}') tag
    → All (λ c. c ≢ b'{') prefix
    → extract_hash_tag (build_redis_cluster_key tag suffix prefix) ≡ some tag
unfolding extract_hash_tag build_redis_cluster_key
extract_hash_tag-build tag suffix prefix ne closed opened =
    let tagged = search_hash_tag-tagged tag (b':' ∷ lstrip_colon suffix) ne closed in
    elim (Bool-cases (is_empty (rstrip_colon prefix))) [
      | inl e ↦ rw e tagged
      | inr e ↦
          rw
            (
              e,
              search_hash_tag-prefix (rstrip_colon prefix) _
                  (All-rstrip_colon (λ c. c ≢ b'{') prefix opened),
              search_hash_tag-prefix (b':' ∷ []) _ (omega arith, tt),
            )
            tagged
    ]
