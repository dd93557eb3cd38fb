-- ===== src/Backend/Core/Sweep.antt =====
-- What `_cleanup_expired` leaves in the store.
use mathlib.Core.Path.{subst}
use rate_limit_patterns.Prelude.{
  ◌≡◌, refl, ◌∙◌, Bool, true, false, Bool-cases, Option, none, some, Option-cases, inl, inr, List,
  [], ◌∷◌, arith, if◌then◌else◌,
}
use rate_limit_patterns.Prelude.Int.{ℤ, leb_ℤ}
use rate_limit_patterns.Prelude.Text.{Text, text_eq, text_eq_refl, text_eq_sound}
use rate_limit_patterns.Prelude.Dict.{Dict, get, keys, get-remove}
use rate_limit_patterns.Backend.Core.{LocalEntry, LocalStateCore, drop_if_expired, snapshot_keys}
use rate_limit_patterns.Backend.Core.Cleanup.{drop_keys, cleanup_expired}

-- An entry that expires after `now`.
unfoldable pub unexpired : Option LocalEntry → ℤ → Option LocalEntry
unexpired none now = none
unexpired (some entry) now = if leb_ℤ entry.expires_at now then none else some entry

unfoldable contains : Text → List Text → Bool
contains key [] = false
contains key (k ∷ ks) = if text_eq k key then true else contains key ks

get-not_contained :
    (key : Text) (d : Dict LocalEntry) → contains key (keys d) ≡ false → get key d ≡ none
unfolding contains keys get
get-not_contained key [] h = refl
get-not_contained key ((k, entry) ∷ d) h = ground (arith, get-not_contained key d)

unexpired_twice :
    (entry : Option LocalEntry) (now : ℤ)
    → unexpired (unexpired entry now) now ≡ unexpired entry now
unfolding unexpired
unexpired_twice none now = refl
unexpired_twice (some entry) now = ground arith

get-drop_if_expired_self :
    (core : LocalStateCore) (k : Text) (now : ℤ)
    → get k (drop_if_expired core k now).state ≡ unexpired (get k core.state) now
unfolding drop_if_expired unexpired
get-drop_if_expired_self core k now = elim (Option-cases (get k core.state)) [
  | inl missing ↦ rw (missing, drop_if_expired, unexpired) missing
  | inr (entry, found) ↦
      rw (found, drop_if_expired, unexpired)
        (elim (Bool-cases (leb_ℤ entry.expires_at now)) [
          | inl old ↦ rw old (get-remove k k core.state ∙ rw (text_eq_refl k) refl)
          | inr fresh ↦ rw fresh found
        ])
]

get-drop_if_expired_ne :
    (core : LocalStateCore) (k key : Text) (now : ℤ)
    → text_eq k key ≡ false
    → get key (drop_if_expired core k now).state ≡ get key core.state
unfolding drop_if_expired
get-drop_if_expired_ne core k key now other = elim (Option-cases (get k core.state)) [
  | inl missing ↦ rw (missing, drop_if_expired) refl
  | inr (entry, found) ↦
      rw (found, drop_if_expired)
        (elim (Bool-cases (leb_ℤ entry.expires_at now)) [
          | inl old ↦ rw old (get-remove k key core.state ∙ rw other refl)
          | inr fresh ↦ rw fresh refl
        ])
]

get-drop_if_expired :
    (core : LocalStateCore) (k key : Text) (now : ℤ)
    → get key (drop_if_expired core k now).state
      ≡ (if text_eq k key then unexpired (get key core.state) now else get key core.state)
get-drop_if_expired core k key now = elim (Bool-cases (text_eq k key)) [
  | inl same ↦ rw same (
      subst (λ j. get j (drop_if_expired core k now).state ≡ unexpired (get j core.state) now)
        (text_eq_sound k key same) (get-drop_if_expired_self core k now))
  | inr other ↦ rw other (get-drop_if_expired_ne core k key now other)
]

get-drop_keys :
    (core : LocalStateCore) (ks : List Text) (key : Text) (now : ℤ)
    → get key (drop_keys core ks now).state
      ≡ (if contains key ks then unexpired (get key core.state) now else get key core.state)
unfolding drop_keys contains
get-drop_keys core [] key now = refl
get-drop_keys core (k ∷ ks) key now = ground (
  arith,
  get-drop_keys (drop_if_expired core k now) ks key now,
  get-drop_if_expired core k key now,
  unexpired_twice (get key core.state) now,
)

-- After a sweep the store holds, for each key, what it held if that expires after `now`, and nothing
-- else.
pub get-cleanup_expired :
    (core : LocalStateCore) (key : Text) (now : ℤ)
    → get key (cleanup_expired core now).state ≡ unexpired (get key core.state) now
unfolding cleanup_expired snapshot_keys unexpired
get-cleanup_expired core key now = elim (Bool-cases (contains key (keys core.state))) [
  | inl held ↦ rw (get-drop_keys core (keys core.state) key now, held) refl
  | inr missing ↦
      rw
        (
          get-drop_keys core (keys core.state) key now,
          missing,
          get-not_contained key core.state missing,
        )
        refl
]
