-- ===== src/Backend/Redis/Cluster.antt =====
-- The cluster mode of `RedisBackend`: the two keys of a sliding window carry one tag, as the
-- pattern of backend/keying.py finds it. Redis itself reads the tag of a key like "{}{tag}" in
-- another way, so that this alone does not put such keys in one slot.
use mathlib.Core.List.{append_assoc}
use rate_limit_patterns.Prelude.{
  ◌≡◌, refl, sym, true, false, not, Option, none, some, [], ◌∷◌, ◌++◌,
}
use rate_limit_patterns.Prelude.Int.{ℤ}
use rate_limit_patterns.Prelude.Text.{Text, codes}
use rate_limit_patterns.Models.{RateLimitConfig, ok, raise_if, backend_configuration}
use rate_limit_patterns.Backend.Keying.{search_hash_tag, has_hash_tag, extract_hash_tag}
use rate_limit_patterns.Backend.Keying.Tags.{extract_hash_tag-append}
use rate_limit_patterns.Backend.RedisShared.{window_call}
use rate_limit_patterns.Backend.Redis.{apply_prefix, validate_cluster_key, validate_call}

apply_prefix-append :
    (prefix key rest : Text) → apply_prefix prefix (key ++ rest) ≡ apply_prefix prefix key ++ rest
unfolding apply_prefix
apply_prefix-append [] key rest = refl
apply_prefix-append (c ∷ cs) key rest = sym (append_assoc (c ∷ cs) key rest)

-- A key that passes has a tag.
validate_cluster_key-tagged :
    (key : Text)
    → validate_cluster_key key ≡ ok tt
    → (tag : Text) × (extract_hash_tag key ≡ some tag)
unfolding validate_cluster_key has_hash_tag extract_hash_tag
validate_cluster_key-tagged key h = go (search_hash_tag key) h
  where
    go :
        (found : Option Text)
        → raise_if (not (elim found [ none ↦ false | some _ ↦ true ])) backend_configuration ≡ ok tt
        → (tag : Text) × (found ≡ some tag)
    go none e = cc
    go (some tag) e = (tag, refl)

-- In cluster mode, a call of the sliding window's script that is not refused has two keys that carry
-- the same hash tag.
pub validate_call-same_tag :
    (key : Text) (config : RateLimitConfig) (now : Option ℤ) (prefix : Text)
    → validate_call true (window_call key config now (apply_prefix prefix)) ≡ ok tt
    → (tag first second : Text) × ((window_call key config now (apply_prefix prefix)).keys
        ≡ first ∷ second ∷ [])
      × (extract_hash_tag first ≡ some tag)
      × (extract_hash_tag second ≡ some tag)
unfolding validate_call window_call
validate_call-same_tag key config now prefix h =
    let (tag, found) = validate_cluster_key-tagged (apply_prefix prefix key) h in
    (
      tag,
      apply_prefix prefix key,
      apply_prefix prefix (key ++ codes ":seq"),
      refl,
      found,
      rw (apply_prefix-append prefix key (codes ":seq"))
          (extract_hash_tag-append (apply_prefix prefix key) (codes ":seq") tag found),
    )
