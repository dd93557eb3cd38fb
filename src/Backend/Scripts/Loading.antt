-- ===== src/Backend/Scripts/Loading.antt =====
-- What loading the scripts achieves on a server that is up.
use rate_limit_patterns.Prelude.{
  ◌≡◌, refl, ◌∙◌, inl, inr, true, false, Bool-cases, Option, none, some, List, [], ◌∷◌,
  if◌then◌else◌,
}
use rate_limit_patterns.Prelude.Lists.{All}
use rate_limit_patterns.Prelude.Text.{Text, text_eq, text_eq_refl}
use rate_limit_patterns.Prelude.Dict.{Dict, get, insert, get-insert}
use rate_limit_patterns.Models.{
  AlgorithmType, token_bucket, sliding_window, leaky_bucket, unsupported, ok,
}
use rate_limit_patterns.Backend.RedisShared.{algorithm_name, lua_scripts, is_missing, missing_from}
use rate_limit_patterns.Backend.Scripts.{RedisProtocol, load_scripts}
use rate_limit_patterns.Backend.Scripts.Retry.{
  Serving, IsSupported, load_scripts_step, load_scripts-nil,
}
use rate_limit_patterns.Backend.Redis.{is_among}

-- A name with a SHA.
abbrev pub Known : Dict Text → Text → Type 0
Known shas name = (sha : Text) × (get name shas ≡ some sha)

Known-insert :
    (name sha other : Text) (shas : Dict Text)
    → Known shas other
    → Known (insert name sha shas) other
Known-insert name sha other shas (old, found) = elim (Bool-cases (text_eq name other)) [
  | inl same ↦ (sha, rw (get-insert name other sha shas, same) refl)
  | inr differs ↦ (old, rw (get-insert name other sha shas, differs) found)
]

Known-insert_self : (name sha : Text) (shas : Dict Text) → Known (insert name sha shas) name
Known-insert_self name sha shas = (sha, rw (get-insert name name sha shas, text_eq_refl name) refl)

module _ {W : Type 0} (client : RedisProtocol W) (holds : W → Text → Type 0)
    (up : Serving client holds) where
  -- Loading succeeds, keeps what is known, and makes every listed script known.
  pub load_scripts-Known :
      (names : List (Text × Text)) (shas : Dict Text) (w : W)
      → (shas' : Dict Text) × (x : W) × (load_scripts client names shas w ≡ (ok tt, shas', x))
        × ((name : Text) → Known shas name → Known shas' name)
        × All (λ (script : Text × Text). Known shas' script.0) names
  load_scripts-Known [] shas w = (shas, w, load_scripts-nil client shas w, λ name h. h, tt)
  load_scripts-Known ((name, content) ∷ rest) shas w =
      let (sha, w', loaded, _, _) = up.loads w content in
      let (shas', x, done, keeps, listed) = load_scripts-Known rest (insert name sha shas) w' in
      (
        shas',
        x,
        load_scripts_step client name content sha rest shas w w' loaded ∙ done,
        λ other h. keeps other (Known-insert name sha other shas h),
        (keeps name (Known-insert_self name sha shas), listed),
      )

pub missing_from-Known :
    (load_lua_script : Text → Text) (shas shas' : Dict Text) (names : List Text)
    → ((name : Text) → Known shas name → Known shas' name)
    → All (λ (script : Text × Text). Known shas' script.0) (missing_from load_lua_script shas names)
    → All (Known shas') names
unfolding missing_from is_missing
missing_from-Known load_lua_script shas shas' [] keeps h = tt
missing_from-Known load_lua_script shas shas' (name ∷ names) keeps h =
    go (get name shas) refl h (missing_from-Known load_lua_script shas shas' names keeps)
  where
    go :
        (found : Option Text)
        → get name shas ≡ found
        → All
            (λ (script : Text × Text). Known shas' script.0)
            (if (elim found [ none ↦ true | some sha ↦ false ])
              then (name, load_lua_script name) ∷ missing_from load_lua_script shas names
              else missing_from load_lua_script shas names)
        → (All
              (λ (script : Text × Text). Known shas' script.0)
              (missing_from load_lua_script shas names)
            → All (Known shas') names)
        → Known shas' name × All (Known shas') names
    go none e k rest = (k.0, rest k.1)
    go (some sha) e k rest = (keeps name (sha, e), rest k)

pub supported_among :
    (a : AlgorithmType) → IsSupported a → is_among (algorithm_name a) lua_scripts ≡ true
unfolding algorithm_name text_eq
supported_among token_bucket h = refl
supported_among sliding_window h = refl
supported_among leaky_bucket h = refl
supported_among (unsupported name) h = absurd h

pub supported_Known :
    (shas : Dict Text) (a : AlgorithmType)
    → IsSupported a
    → All (Known shas) lua_scripts
    → Known shas (algorithm_name a)
unfolding algorithm_name
supported_Known shas token_bucket h k = k.0
supported_Known shas sliding_window h k = k.1.0
supported_Known shas leaky_bucket h k = k.1.1.0
supported_Known shas (unsupported name) h k = absurd h
