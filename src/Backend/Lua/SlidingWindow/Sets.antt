-- ===== src/Backend/Lua/SlidingWindow/Sets.antt =====
-- What Redis keeps of a sorted set and its counter, and how the commands of sliding_window.lua change them.
use rate_limit_patterns.Prelude.{
  ℕ, suc, ◌≤◌, ◌<◌, Bool, true, false, Bool-cases, ◌≡◌, sym, ap, ◌∙◌, ◌⊎◌, inl, inr, Option, none,
  some, List, [], ◌∷◌, ◌++◌, arith,
}
use rate_limit_patterns.Prelude.Int.{ℤ, pos, ltb_ℤ}
use rate_limit_patterns.Prelude.Lists.{length, keep, All, All-keep, All-append, All-map}
use rate_limit_patterns.Prelude.Text.{Text, text_eq}
use rate_limit_patterns.Models.{Scale}
use rate_limit_patterns.Backend.Lua.{Commands}
use rate_limit_patterns.Backend.Lua.SlidingWindow.{Member, SetCommands, admit}

abbrev pub first : List ℕ → Option ℕ
first [] = none
first (x ∷ xs) = some x

-- What Redis documents of its sorted sets and counters. A set shows its scores, which rise, and the
-- members it holds; another key is not touched.
pub record KeepsSets {W : Type 0} (c : Commands W) (z : SetCommands W) : Type 0 where
  pub scores : W → Text → List ℕ
  pub holds : W → Text → Member → Bool
  pub counter : W → Text → ℕ
  pub trim_scores :
      (w : W) (key : Text) (upto : ℤ)
      → scores (z.zremrangebyscore w key upto) key ≡ keep (λ x. ltb_ℤ upto (pos x)) (scores w key)
  pub trim_holds :
      (w : W) (key : Text) (upto : ℤ) (m : Member)
      → holds (z.zremrangebyscore w key upto) key m ≡ true
      → holds w key m ≡ true
  pub trim_counter :
      (w : W) (key k : Text) (upto : ℤ) → counter (z.zremrangebyscore w key upto) k ≡ counter w k
  pub card : (w : W) (key : Text) → z.zcard w key ≡ length (scores w key)
  pub oldest_first : (w : W) (key : Text) → z.oldest w key ≡ first (scores w key)
  pub incr_reply : (w : W) (k : Text) → (z.incr w k).0 ≡ suc (counter w k)
  pub incr_counter : (w : W) (k : Text) → counter (z.incr w k).1 k ≡ suc (counter w k)
  pub incr_scores :
      (w : W) (k key : Text) → text_eq k key ≡ false → scores (z.incr w k).1 key ≡ scores w key
  pub incr_holds :
      (w : W) (k key : Text) (m : Member)
      → text_eq k key ≡ false
      → holds (z.incr w k).1 key m ≡ holds w key m
  -- A new member with the highest score comes last.
  pub add_scores :
      (w : W) (key : Text) (score : ℕ) (m : Member)
      → All (λ x. x ≤ score) (scores w key)
      → holds w key m ≡ false
      → scores (z.zadd w key score m) key ≡ scores w key ++ score ∷ []
  pub add_holds :
      (w : W) (key : Text) (score : ℕ) (m n : Member)
      → holds (z.zadd w key score m) key n ≡ true
      → (holds w key n ≡ true) ⊎ (n ≡ m)
  pub add_counter :
      (w : W) (key k : Text) (score : ℕ) (m : Member)
      → text_eq k key ≡ false
      → counter (z.zadd w key score m) k ≡ counter w k
  pub expire_scores :
      (w : W) (k key : Text) (ttl : ℕ) → 0 < ttl → scores (c.expire w k ttl) key ≡ scores w key
  pub expire_holds :
      (w : W) (k key : Text) (ttl : ℕ) (m : Member)
      → 0 < ttl
      → holds (c.expire w k ttl) key m ≡ holds w key m
  pub expire_counter :
      (w : W) (k l : Text) (ttl : ℕ) → 0 < ttl → counter (c.expire w k ttl) l ≡ counter w l

module _ (s : Scale) {W : Type 0} (c : Commands W) (z : SetCommands W) (keeps : KeepsSets c z)
    (key seq_key : Text) where
  -- Nothing has happened to the two keys.
  pub record Undisturbed (w w' : W) : Type 0 where
    pub scores : keeps.scores w' key ≡ keeps.scores w key
    pub holds : (m : Member) → keeps.holds w' key m ≡ keeps.holds w key m
    pub counter : keeps.counter w' seq_key ≡ keeps.counter w seq_key

  -- The set does not exist.
  pub record Absent (w : W) : Type 0 where
    pub scores : keeps.scores w key ≡ []
    pub holds : (m : Member) → keeps.holds w key m ≡ false

  -- The set holds these scores, none after `last`, and no member is numbered above the counter.
  pub record Holds (last : ℕ) (w : W) (kept : List ℕ) : Type 0 where
    pub scores : keeps.scores w key ≡ kept
    pub past : All (λ x. x ≤ last) kept
    pub numbered : (m : Member) → keeps.holds w key m ≡ true → m.1 ≤ keeps.counter w seq_key

  module _ (apart : text_eq seq_key key ≡ false) where
    -- The member of the next number is new.
    next_is_new :
        (w : W) (last now : ℕ) (kept : List ℕ)
        → Holds last w kept
        → keeps.holds (z.incr w seq_key).1 key (now, (z.incr w seq_key).0) ≡ false
    next_is_new w last now kept h =
        let m : Member = (now, (z.incr w seq_key).0) in
        elim (Bool-cases (keeps.holds (z.incr w seq_key).1 key m)) [
          | inl held ↦ absurd (
              omega (
                arith,
                keeps.incr_reply w seq_key,
                h.numbered m (sym (keeps.incr_holds w seq_key key m apart) ∙ held),
              ))
          | inr new ↦ new
        ]

    pub admit-Holds :
        (w : W) (now : ℕ) (kept : List ℕ)
        → Holds now w kept
        → Holds now (admit s c z w key seq_key now) (kept ++ now ∷ [])
    admit-Holds w now kept h =
        let (seq, w') = z.incr w seq_key in
        let same = keeps.incr_scores w seq_key key apart ∙ h.scores in
        let after =
          keeps.add_counter w' key seq_key now (now, seq) apart ∙ keeps.incr_counter w seq_key in
        record {
          scores =
              keeps.add_scores w' key now (now, seq) (rw same h.past) (next_is_new w now now kept h)
              ∙ ap (λ l. l ++ now ∷ []) same;
          past = All-append (λ (x : ℕ). x ≤ now) kept (now ∷ []) h.past (omega arith, tt);
          numbered = λ m held. elim (keeps.add_holds w' key now (now, seq) m held) [
            | inl old ↦
                omega
                  (arith, after, h.numbered m (sym (keeps.incr_holds w seq_key key m apart) ∙ old))
            | inr e ↦ omega (arith, after, keeps.incr_reply w seq_key, ap (λ (n : Member). n.1) e)
          ];
        }

  pub trim-Holds :
      (w : W) (last : ℕ) (kept : List ℕ) (upto : ℤ)
      → Holds last w kept
      → Holds last (z.zremrangebyscore w key upto) (keep (λ x. ltb_ℤ upto (pos x)) kept)
  trim-Holds w last kept upto h = record {
    scores = keeps.trim_scores w key upto ∙ ap (keep (λ x. ltb_ℤ upto (pos x))) h.scores;
    past = All-keep (λ x. ltb_ℤ upto (pos x)) (λ (x : ℕ). x ≤ last) kept h.past;
    numbered = λ m held.
        rw (keeps.trim_counter w key seq_key upto)
          (h.numbered m (keeps.trim_holds w key upto m held));
  }

  pub expire-Holds :
      (w : W) (k : Text) (ttl last : ℕ) (kept : List ℕ)
      → 0 < ttl
      → Holds last w kept
      → Holds last (c.expire w k ttl) kept
  expire-Holds w k ttl last kept le h = record {
    scores = keeps.expire_scores w k key ttl le ∙ h.scores;
    past = h.past;
    numbered = λ m held.
        rw (keeps.expire_counter w k seq_key ttl le)
          (h.numbered m (sym (keeps.expire_holds w k key ttl m le) ∙ held));
  }

  pub Holds-mono :
      (w : W) (last now : ℕ) (kept : List ℕ) → last ≤ now → Holds last w kept → Holds now w kept
  Holds-mono w last now kept le h = record {
    scores = h.scores;
    past = All-map (λ (x : ℕ). x ≤ last) (λ (x : ℕ). x ≤ now) kept (λ x below. omega arith) h.past;
    numbered = h.numbered;
  }

  pub Absent-Holds : (w : W) (now : ℕ) → Absent w → Holds now w []
  Absent-Holds w now absent = record {
    scores = absent.scores;
    past = tt;
    numbered = λ m held. let free = absent.holds m in ground (arith, held, free);
  }

  pub Undisturbed-Holds :
      (w w' : W) (last : ℕ) (kept : List ℕ)
      → Undisturbed w w'
      → Holds last w kept
      → Holds last w' kept
  Undisturbed-Holds w w' last kept same h = record {
    scores = same.scores ∙ h.scores;
    past = h.past;
    numbered = λ m held. rw same.counter (h.numbered m (sym (same.holds m) ∙ held));
  }
