-- ===== src/Backend/Local/Entries.antt =====
-- What the operations of the local backend leave in its store.
use rate_limit_patterns.Prelude.{
  ◌≡◌, refl, sym, ◌∙◌, Bool, Bool-cases, inl, inr, true, false, Option, none, some, Option-cases,
  arith, if◌then◌else◌,
}
use rate_limit_patterns.Prelude.Int.{ℤ}
use rate_limit_patterns.Prelude.Text.{Text, text_eq}
use rate_limit_patterns.Prelude.Dict.{get, remove, get-remove}
use rate_limit_patterns.Backend.Core.{LocalEntry, LocalStateCore, live, metrics_snapshot}
use rate_limit_patterns.Backend.Core.Cleanup.{cleanup_expired}
use rate_limit_patterns.Backend.Core.Sweep.{unexpired, get-cleanup_expired}
use rate_limit_patterns.Backend.Local.{
  LocalBackend, Wake, event, timeout, cancelled, done, initialize, update_cleanup_interval,
  start_cleanup_task, begin_close, end_close, close, cleanup_round, after_wake, has_interval,
}

-- Every entry of the one store is an entry of the other.
abbrev pub Shrinks : LocalStateCore → LocalStateCore → Type 0
Shrinks c d =
    (key : Text) (entry : LocalEntry) → get key d.state ≡ some entry → get key c.state ≡ some entry

pub remove-Shrinks :
    (core : LocalStateCore) (k : Text) → Shrinks core (record core { state = remove k core.state })
remove-Shrinks core k key entry h = elim (Bool-cases (text_eq k key)) [
  | inl same ↦
      let gone : none ≡ some entry = sym (get-remove k key core.state ∙ rw same refl) ∙ h in cc
  | inr other ↦ sym (get-remove k key core.state ∙ rw other refl) ∙ h
]

pub metrics_snapshot-Shrinks :
    (core : LocalStateCore) (k : Text) (now : ℤ) → Shrinks core (metrics_snapshot core k now).1
unfolding metrics_snapshot
metrics_snapshot-Shrinks core k now key entry = elim (Option-cases (live (get k core.state) now)) [
  | inl expired ↦ rw (expired, metrics_snapshot) (remove-Shrinks core k key entry)
  | inr (state, found) ↦ rw (found, metrics_snapshot) (λ h. h)
]

unexpired-some :
    (held : Option LocalEntry) (now : ℤ) (entry : LocalEntry)
    → unexpired held now ≡ some entry
    → held ≡ some entry
unfolding unexpired
unexpired-some none now entry h = h
unexpired-some (some x) now entry h = ground arith

cleanup_expired-Shrinks :
    (core : LocalStateCore) (now : ℤ) → Shrinks core (cleanup_expired core now)
cleanup_expired-Shrinks core now key entry h =
    unexpired-some (get key core.state) now entry (sym (get-cleanup_expired core key now) ∙ h)

after_wake-Shrinks :
    (b : LocalBackend) (timed : Bool) (wake : Wake) (monotonic : ℤ)
    → Shrinks b.core (after_wake b timed wake monotonic).core
unfolding after_wake
after_wake-Shrinks b timed event monotonic key entry h = h
after_wake-Shrinks b false timeout monotonic key entry h = h
after_wake-Shrinks b true timeout monotonic key entry h =
    cleanup_expired-Shrinks b.core monotonic key entry h
after_wake-Shrinks b timed cancelled monotonic key entry h = h

pub cleanup_round-Shrinks :
    (b : LocalBackend) (wake : Wake) (monotonic : ℤ)
    → Shrinks b.core (cleanup_round b wake monotonic).core
unfolding cleanup_round
cleanup_round-Shrinks b wake monotonic = go b.is_running
  where
    go :
        (is_running : Bool)
        → Shrinks b.core
            (if is_running
              then after_wake b (has_interval b.cleanup_interval) wake monotonic
              else record b { cleanup_task = done }).core
    go true key entry h =
        after_wake-Shrinks b (has_interval b.cleanup_interval) wake monotonic key entry h
    go false key entry h = h

pub begin_close-core : (b : LocalBackend) → (begin_close b).core ≡ b.core
unfolding begin_close
begin_close-core b = ground arith

pub end_close-core : (b : LocalBackend) → (end_close b).core ≡ b.core
unfolding end_close
end_close-core b = refl

pub close-core : (b : LocalBackend) → (close b).core ≡ b.core
unfolding close
close-core b = end_close-core (begin_close b) ∙ begin_close-core b

pub initialize-core : (b : LocalBackend) → (initialize b).core ≡ b.core
unfolding initialize start_cleanup_task
initialize-core b = ground arith

pub update_cleanup_interval-core :
    (b : LocalBackend) (interval : ℤ) → (update_cleanup_interval b interval).core ≡ b.core
unfolding update_cleanup_interval
update_cleanup_interval-core b interval = ground arith

pub start_cleanup_task-core : (b : LocalBackend) → (start_cleanup_task b).core ≡ b.core
unfolding start_cleanup_task
start_cleanup_task-core b = ground arith
