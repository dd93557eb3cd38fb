-- ===== src/Backend/Keying.antt =====
-- src/rate_limit_patterns/backend/keying.py: Redis Cluster hash tags.
pub mod Tags
use rate_limit_patterns.Prelude.{
  Bool, true, false, Option, none, some, [], ◌∷◌, ◌++◌, ◌==◌, if◌then◌else◌,
}
use mathlib.Core.Option
use mathlib.Core.List.{reverse}
use rate_limit_patterns.Prelude.Text.{Text, is_empty}

-- `[^}]+\}` behind an opening brace: the text before the first closing brace.
unfoldable pub until_close : Text → Option Text
until_close [] = none
until_close (c ∷ cs) =
    let rest = until_close cs in if c == b'}' then some [] else Option.map (◌∷◌ c) rest

-- A match needs at least one character before the closing brace.
abbrev pub nonempty_or : Option Text → Option Text → Option Text
nonempty_or none rest = rest
nonempty_or (some []) rest = rest
nonempty_or (some (c ∷ cs)) rest = some (c ∷ cs)

-- `HASH_TAG_PATTERN.search(key)`: the leftmost match of `\{[^}]+\}`, without its braces.
unfoldable pub search_hash_tag : Text → Option Text
search_hash_tag [] = none
search_hash_tag (c ∷ cs) =
    let rest = search_hash_tag cs in if c == b'{' then nonempty_or (until_close cs) rest else rest

unfoldable pub has_hash_tag : Text → Bool
has_hash_tag key = elim (search_hash_tag key) [ none ↦ false | some _ ↦ true ]

-- `match.group(0)[1:-1]` is the match without its braces.
unfoldable pub extract_hash_tag : Text → Option Text
extract_hash_tag key = search_hash_tag key

-- `text.lstrip(":")`
unfoldable pub lstrip_colon : Text → Text
lstrip_colon [] = []
lstrip_colon (c ∷ cs) = let rest = lstrip_colon cs in if c == b':' then rest else c ∷ cs

-- `text.rstrip(":")`
unfoldable pub rstrip_colon : Text → Text
rstrip_colon cs = reverse (lstrip_colon (reverse cs))

unfoldable pub build_redis_cluster_key : Text → Text → Text → Text
build_redis_cluster_key tag suffix prefix =
    let normalized_prefix = rstrip_colon prefix in
    let normalized_suffix = lstrip_colon suffix in
    let tagged = b'{' ∷ (tag ++ b'}' ∷ b':' ∷ normalized_suffix) in
    if is_empty normalized_prefix then tagged else normalized_prefix ++ b':' ∷ tagged
