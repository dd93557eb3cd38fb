-- ===== src/Backend/Scripts/Retry.antt =====
-- What `_evalsha_with_retry` achieves on a server that is up, and how loading may end.
use mathlib.Core.Path.{subst}
use rate_limit_patterns.Prelude.{◌≡◌, refl, ap, sym, ◌∙◌, ◌⊎◌, inl, inr, some, List, [], ◌∷◌}
use rate_limit_patterns.Prelude.Int.{ℤ}
use rate_limit_patterns.Prelude.Text.{Text, codes, text_eq}
use rate_limit_patterns.Prelude.Dict.{Dict, get, insert}
use rate_limit_patterns.Models.{
  AlgorithmType, token_bucket, sliding_window, leaky_bucket, unsupported, no_script, other_failure,
  backend_unavailable, redis_error, Result, ok, raise,
}
use rate_limit_patterns.Backend.RedisShared.{
  Arg, algorithm_name, missing_from, iter_missing_scripts, is_missing,
}
use rate_limit_patterns.Backend.Scripts.{
  Reply, reply, fails, RedisProtocol, load_scripts, evalsha_again, reload_scripts, after_no_script,
  after_reload, evalsha_with_retry,
}

-- A server that is up: SCRIPT LOAD answers with a SHA under which the script is then held, and
-- keeps the others; EVALSHA runs a script that is held, and otherwise may miss it.
pub record Serving {W : Type 0} (client : RedisProtocol W) (holds : W → Text → Type 0)
    : Type 0 where
  pub loads :
      (w : W) (content : Text)
      → (sha : Text) × (w' : W) × (client.script_load w content ≡ (reply sha, w'))
        × holds w' sha
        × ((other : Text) → holds w other → holds w' other)
  pub runs :
      (w : W) (sha : Text) (keys : List Text) (args : List Arg)
      → holds w sha
      → (xs : List ℤ) × ((client.evalsha w sha keys args).0 ≡ reply xs)
  pub misses :
      (w : W) (sha : Text) (keys : List Text) (args : List Arg)
      → ((xs : List ℤ) × ((client.evalsha w sha keys args).0 ≡ reply xs))
        ⊎ ((client.evalsha w sha keys args).0 ≡ fails no_script)

module _ {W : Type 0} (client : RedisProtocol W) where
  pub load_scripts_step :
      (name content sha : Text) (rest : List (Text × Text)) (shas : Dict Text) (w w' : W)
      → client.script_load w content ≡ (reply sha, w')
      → load_scripts client ((name, content) ∷ rest) shas w
        ≡ load_scripts client rest (insert name sha shas) w'
  unfolding load_scripts
  load_scripts_step name content sha rest shas w w' e =
      ap
        (λ (loaded : Reply Text × W). elim loaded.0 [
          | reply sha ↦ load_scripts client rest (insert name sha shas) loaded.1
          | fails e ↦ (raise backend_unavailable, shas, loaded.1)
        ])
        e

  pub load_scripts-nil :
      (shas : Dict Text) (w : W) → load_scripts client [] shas w ≡ (ok tt, shas, w)
  unfolding load_scripts
  load_scripts-nil shas w = refl

  -- The scripts were loaded, or the server was found to be unavailable.
  abbrev pub LoadEnds : Result (Unit {0}) × Dict Text × W → Type 0
  LoadEnds (ended, shas, w) = (ended ≡ ok tt) ⊎ (ended ≡ raise backend_unavailable)

  -- Loading raises nothing but the error of the library.
  pub load_scripts-LoadEnds :
      (names : List (Text × Text)) (shas : Dict Text) (w : W)
      → LoadEnds (load_scripts client names shas w)
  unfolding load_scripts
  load_scripts-LoadEnds [] shas w = inl refl
  load_scripts-LoadEnds ((name, content) ∷ rest) shas w =
      go (client.script_load w content)
        (λ sha w'. load_scripts-LoadEnds rest (insert name sha shas) w')
    where
      go :
          (loaded : Reply Text × W)
          → ((sha : Text) (w' : W) → LoadEnds (load_scripts client rest (insert name sha shas) w'))
          → LoadEnds (elim loaded.0 [
            | reply sha ↦ load_scripts client rest (insert name sha shas) loaded.1
            | fails e ↦ (raise backend_unavailable, shas, loaded.1)
          ])
      go (reply sha, w') h = h sha w'
      go (fails e, w') h = inr refl

abbrev three_loaded : Text → Text → Text → Dict Text
three_loaded a b c =
    (codes "token_bucket", a) ∷ (codes "sliding_window", b) ∷ (codes "leaky_bucket", c) ∷ []

module _ {W : Type 0} (client : RedisProtocol W) (load_lua_script : Text → Text) where
  abbrev all_scripts : List (Text × Text)
  all_scripts =
      (codes "token_bucket", load_lua_script (codes "token_bucket"))
      ∷ (codes "sliding_window", load_lua_script (codes "sliding_window"))
      ∷ (codes "leaky_bucket", load_lua_script (codes "leaky_bucket"))
      ∷ []

  iter_missing_scripts-all : iter_missing_scripts load_lua_script [] ≡ all_scripts
  unfolding iter_missing_scripts missing_from is_missing get
  iter_missing_scripts-all = refl

  insert-three :
      (a b c : Text)
      → insert
          (codes "leaky_bucket")
          c
          (insert (codes "sliding_window") b (insert (codes "token_bucket") a []))
        ≡ three_loaded a b c
  unfolding insert text_eq
  insert-three a b c = refl

  load_all :
      (a b c : Text) (w u v x : W)
      → client.script_load w (load_lua_script (codes "token_bucket")) ≡ (reply a, u)
      → client.script_load u (load_lua_script (codes "sliding_window")) ≡ (reply b, v)
      → client.script_load v (load_lua_script (codes "leaky_bucket")) ≡ (reply c, x)
      → reload_scripts client load_lua_script w ≡ (ok tt, three_loaded a b c, x)
  unfolding reload_scripts
  load_all a b c w u v x ea eb ec =
      let second = insert (codes "token_bucket") a [] in
      let third = insert (codes "sliding_window") b second in
      ap (λ names. load_scripts client names [] w) iter_missing_scripts-all
      ∙ load_scripts_step client (codes "token_bucket") (load_lua_script (codes "token_bucket")) a
          ((codes "sliding_window", load_lua_script (codes "sliding_window"))
            ∷ (codes "leaky_bucket", load_lua_script (codes "leaky_bucket"))
            ∷ [])
          [] w u ea
      ∙ load_scripts_step client (codes "sliding_window") (load_lua_script (codes "sliding_window"))
          b ((codes "leaky_bucket", load_lua_script (codes "leaky_bucket")) ∷ []) second u v eb
      ∙ load_scripts_step client (codes "leaky_bucket") (load_lua_script (codes "leaky_bucket")) c
          [] third v x ec
      ∙ load_scripts-nil client (insert (codes "leaky_bucket") c third) x
      ∙ ap (λ (shas : Dict Text). (ok tt, shas, x)) (insert-three a b c)

-- The algorithms that the library has scripts for.
abbrev pub IsSupported : AlgorithmType → Type 0
IsSupported token_bucket = Unit
IsSupported sliding_window = Unit
IsSupported leaky_bucket = Unit
IsSupported (unsupported name) = ⊥

get-three :
    (P : Text → Type 0) (algorithm : AlgorithmType) (a b c : Text)
    → IsSupported algorithm
    → P a
    → P b
    → P c
    → (sha : Text) × (get (algorithm_name algorithm) (three_loaded a b c) ≡ some sha) × P sha
unfolding get text_eq algorithm_name
get-three P token_bucket a b c h pa pb pc = (a, refl, pa)
get-three P sliding_window a b c h pa pb pc = (b, refl, pb)
get-three P leaky_bucket a b c h pa pb pc = (c, refl, pc)
get-three P (unsupported name) a b c h pa pb pc = absurd h

module _ {W : Type 0} (client : RedisProtocol W) (load_lua_script : Text → Text)
    (holds : W → Text → Type 0) (up : Serving client holds) (algorithm : AlgorithmType)
    (supported : IsSupported algorithm) (keys : List Text) (args : List Arg) where
  -- The outcome is the reply to a call of these keys and arguments, the last that is sent.
  abbrev pub Replied : Result (List ℤ) × Dict Text × W → Type 0
  Replied (outcome, shas, w') =
      (w : W) × (sha : Text) × (xs : List ℤ) × (client.evalsha w sha keys args ≡ (reply xs, w'))
      × (outcome ≡ ok xs)

  again-Replied :
      (sha : Text) (shas : Dict Text) (w : W) (xs : List ℤ)
      → (client.evalsha w sha keys args).0 ≡ reply xs
      → Replied (evalsha_again client sha keys args shas w)
  unfolding evalsha_again
  again-Replied sha shas w xs e =
      subst
        (λ (answered : Reply (List ℤ)). Replied (elim answered [
          | reply xs ↦ (ok xs, shas, (client.evalsha w sha keys args).1)
          | fails e ↦ (raise (redis_error e), shas, (client.evalsha w sha keys args).1)
        ]))
        (sym e)
        (w, sha, xs, ap (λ answered. (answered, (client.evalsha w sha keys args).1)) e, refl)

  after_no_script_loaded :
      (w x : W) (sha : Text) (shas : Dict Text)
      → reload_scripts client load_lua_script w ≡ (ok tt, shas, x)
      → get (algorithm_name algorithm) shas ≡ some sha
      → after_no_script client load_lua_script algorithm keys args w
        ≡ evalsha_again client sha keys args shas x
  unfolding after_no_script after_reload
  after_no_script_loaded w x sha shas loaded found =
      ap (after_reload client algorithm keys args) loaded ∙ rw (found, after_reload) refl

  after_no_script-Replied :
      (w : W) → Replied (after_no_script client load_lua_script algorithm keys args w)
  after_no_script-Replied w =
      let (a, u, ea, ha, ka) = up.loads w (load_lua_script (codes "token_bucket")) in
      let (b, v, eb, hb, kb) = up.loads u (load_lua_script (codes "sliding_window")) in
      let (c, x, ec, hc, kc) = up.loads v (load_lua_script (codes "leaky_bucket")) in
      let (sha, found, held) =
        get-three (holds x) algorithm a b c supported (kc a (kb a ha)) (kc b hb) hc in
      let (xs, answered) = up.runs x sha keys args held in
      subst Replied
        (sym (
          after_no_script_loaded w x sha (three_loaded a b c)
            (load_all client load_lua_script a b c w u v x ea eb ec) found))
        (again-Replied sha (three_loaded a b c) x xs answered)

  -- The end of a call whose first attempt got this reply.
  abbrev ending : Dict Text → W → Reply (List ℤ) → Result (List ℤ) × Dict Text × W
  ending shas w (reply xs) = (ok xs, shas, w)
  ending shas w (fails no_script) = after_no_script client load_lua_script algorithm keys args w
  ending shas w (fails other_failure) = (raise backend_unavailable, shas, w)

  evalsha_with_retry-ending :
      (sha : Text) (shas : Dict Text) (w : W)
      → evalsha_with_retry client load_lua_script sha algorithm keys args shas w
        ≡ ending shas (client.evalsha w sha keys args).1 (client.evalsha w sha keys args).0
  unfolding evalsha_with_retry
  evalsha_with_retry-ending sha shas w =
      go (client.evalsha w sha keys args).0 (client.evalsha w sha keys args).1
    where
      go :
          (answered : Reply (List ℤ)) (w' : W)
          → (let ended : Result (List ℤ) × Dict Text × W = elim answered [
            | reply xs ↦ (ok xs, shas, w')
            | fails e ↦ elim e [
              | no_script ↦ after_no_script client load_lua_script algorithm keys args w'
              | other_failure ↦ (raise backend_unavailable, shas, w')
            ]
          ] in
              ended)
            ≡ ending shas w' answered
      go (reply xs) w' = refl
      go (fails no_script) w' = refl
      go (fails other_failure) w' = refl

  -- What answers a script call is the server's reply to it.
  pub evalsha_with_retry-Replied :
      (sha : Text) (shas : Dict Text) (w : W)
      → Replied (evalsha_with_retry client load_lua_script sha algorithm keys args shas w)
  evalsha_with_retry-Replied sha shas w =
      let w' = (client.evalsha w sha keys args).1 in
      rw (evalsha_with_retry-ending sha shas w) (elim (up.misses w sha keys args) [
        | inl (xs, answered) ↦
            subst (λ answered. Replied (ending shas w' answered)) (sym answered)
              (w, sha, xs, ap (λ answered. (answered, w')) answered, refl)
        | inr missed ↦
            subst (λ answered. Replied (ending shas w' answered)) (sym missed)
              (after_no_script-Replied w')
      ])

  -- On a server that is up, a script call is answered whatever SHA is known and whatever the server
  -- has forgotten: a NOSCRIPT error is made good by loading the scripts again.
  pub evalsha_with_retry-serves :
      (sha : Text) (shas : Dict Text) (w : W)
      → (xs : List ℤ) × ((evalsha_with_retry client load_lua_script sha algorithm keys args shas
            w).0
          ≡ ok xs)
  evalsha_with_retry-serves sha shas w =
      let (last, with_sha, xs, replied, answered) = evalsha_with_retry-Replied sha shas w in
      (xs, answered)
