-- ===== src/Backend/Core/Cleanup.antt =====
-- `_cleanup_expired` of the local backends (backend/local.py and backend/sync.py): a sweep over a
-- snapshot of the keys, and a run of checks with sweeps, resets and reads in between.
use rate_limit_patterns.Prelude.{◌≡◌, ◌∙◌, refl, ap, Bool, List, [], ◌∷◌, arith}
use rate_limit_patterns.Prelude.Int.{ℤ, ◌≤ℤ◌}
use rate_limit_patterns.Prelude.Text.{Text}
use rate_limit_patterns.Models.{RateLimitConfig, Scale, Result, ok, raise}
use rate_limit_patterns.Algorithms.Base.{Metadata}
use rate_limit_patterns.Algorithms.Protocol.{RateLimitAlgorithm}
use rate_limit_patterns.Backend.Core.{
  LocalStateCore, snapshot_keys, drop_if_expired, metrics_snapshot, apply,
}
use rate_limit_patterns.Backend.Core.Live.{
  SameLive, SameLive-drop_if_expired, SameLive-metrics_snapshot, SameOutcome, apply-SameOutcome,
}

-- The loop over the snapshot.
unfoldable pub drop_keys : LocalStateCore → List Text → ℤ → LocalStateCore
drop_keys core [] now_mono = core
drop_keys core (key ∷ rest) now_mono = drop_keys (drop_if_expired core key now_mono) rest now_mono

unfoldable pub cleanup_expired : LocalStateCore → ℤ → LocalStateCore
cleanup_expired core now_mono = drop_keys core (snapshot_keys core) now_mono

SameLive-drop_keys :
    (core : LocalStateCore) (keys : List Text) (now : ℤ)
    → SameLive now (drop_keys core keys now) core
unfolding drop_keys
SameLive-drop_keys core [] now key t le = refl
SameLive-drop_keys core (k ∷ keys) now key t le =
    SameLive-drop_keys (drop_if_expired core k now) keys now key t le
    ∙ SameLive-drop_if_expired core k now key t le

-- A sweep hides nothing that a later call would see.
pub SameLive-cleanup_expired :
    (core : LocalStateCore) (now : ℤ) → SameLive now (cleanup_expired core now) core
unfolding cleanup_expired
SameLive-cleanup_expired core now = SameLive-drop_keys core (snapshot_keys core) now

-- What happens to a store: a check, a sweep of the cleanup task, or a read of the metrics.
pub data Event : Type 0 where
  check : RateLimitAlgorithm → Text → RateLimitConfig → ℤ → Event
  sweep : ℤ → Event
  read : Text → ℤ → Event

abbrev pub time_of : Event → ℤ
time_of (check algorithm key config t) = t
time_of (sweep t) = t
time_of (read key t) = t

-- The events come in the order of the clock.
abbrev pub InOrder : ℤ → List Event → Type 0
InOrder start [] = Unit
InOrder start (e ∷ es) = (start ≤ℤ time_of e) × InOrder (time_of e) es

-- The checks alone.
unfoldable pub checks : List Event → List Event
checks [] = []
checks (check algorithm key config t ∷ es) = check algorithm key config t ∷ checks es
checks (sweep t ∷ es) = checks es
checks (read key t ∷ es) = checks es

abbrev pub answer : Result (Bool × Metadata × LocalStateCore) → Result (Bool × Metadata)
answer (ok (allowed, m, core)) = ok (allowed, m)
answer (raise e) = raise e

-- The store after a check; a check that raises writes nothing.
abbrev pub after_check : LocalStateCore → Result (Bool × Metadata × LocalStateCore) → LocalStateCore
after_check core (ok (allowed, m, core')) = core'
after_check core (raise e) = core

SameOutcome-answer :
    (now : ℤ) (x y : Result (Bool × Metadata × LocalStateCore)) (c d : LocalStateCore)
    → SameOutcome now x y
    → SameLive now c d
    → (answer x ≡ answer y) × SameLive now (after_check c x) (after_check d y)
SameOutcome-answer now (ok (a, m, c')) (ok (b, n, d')) c d h same = (rw (h.0, h.1) refl, h.2)
SameOutcome-answer now (raise e) (raise f) c d h same = (ap raise h, same)
SameOutcome-answer now (ok x) (raise e) c d h same = absurd h
SameOutcome-answer now (raise e) (ok x) c d h same = absurd h

module _ (s : Scale) where
  -- What the checks of a run are told.
  unfoldable pub answers : LocalStateCore → List Event → List (Result (Bool × Metadata))
  answers core [] = []
  answers core (check algorithm key config t ∷ es) =
      let outcome = apply s core algorithm key config t in
      answer outcome ∷ answers (after_check core outcome) es
  answers core (sweep t ∷ es) = answers (cleanup_expired core t) es
  answers core (read key t ∷ es) = answers (metrics_snapshot core key t).1 es

  answers-SameLive :
      (start : ℤ) (c d : LocalStateCore) (es : List Event)
      → InOrder start es
      → SameLive start c d
      → answers c es ≡ answers d (checks es)
  unfolding answers checks
  answers-SameLive start c d [] h same = refl
  answers-SameLive start c d (check algorithm key config t ∷ es) h same =
      let x = apply s c algorithm key config t in
      let y = apply s d algorithm key config t in
      let same_now : SameLive t c d = λ k u le. same k u (omega arith) in
      let outcome = apply-SameOutcome s c d algorithm key config t same_now in
      let (told, left) = SameOutcome-answer t x y c d outcome same_now in
      rw (told, answers-SameLive t (after_check c x) (after_check d y) es h.1 left) refl
  answers-SameLive start c d (sweep t ∷ es) h same =
      answers-SameLive t (cleanup_expired c t) d es h.1
        (λ key u le. SameLive-cleanup_expired c t key u le ∙ same key u (omega arith))
  answers-SameLive start c d (read key t ∷ es) h same =
      answers-SameLive t (metrics_snapshot c key t).1 d es h.1
        (λ k u le. SameLive-metrics_snapshot c key t k u le ∙ same k u (omega arith))

  -- However many sweeps and metric reads are mixed into a run of checks, in the order of the clock,
  -- every check is told what it would be told without them.
  pub answers-checks :
      (start : ℤ) (core : LocalStateCore) (es : List Event)
      → InOrder start es
      → answers core es ≡ answers core (checks es)
  answers-checks start core es h = answers-SameLive start core core es h (λ key t le. refl)
