-- ===== src/Backend/RedisShared/Parse.antt =====
-- src/rate_limit_patterns/backend/_redis_shared.py: what a reply of a script is read as.
use rate_limit_patterns.Prelude.{
  ◌≡◌, ◌≢◌, refl, ◌⊎◌, inl, inr, Bool, true, false, zero, suc, none, some, List, [], ◌∷◌, arith,
  not, ◌&&◌, if◌then◌else◌,
}
use rate_limit_patterns.Prelude.Int.{ℤ, pos, negsuc, ◌≤ℤ◌, ◌<ℤ◌, ltb_ℤ}
use rate_limit_patterns.Models.{
  RateLimitConfig, RateLimitResult, Scale, Result, ok, raise, value_error, index_error, make_result,
}
use rate_limit_patterns.Backend.RedisShared.{fifth, truthy, parse_script_result, instant_of_seconds}

-- The wait of a reply: none where the call was allowed or the reply has 0.
abbrev pub Tells : ℤ → ℤ → RateLimitResult → Type 0
Tells allowed wait result =
    ((result.retry_after ≡ some wait) × (allowed ≡ pos 0) × (wait ≢ pos 0))
    ⊎ ((result.retry_after ≡ none) × ((allowed ≢ pos 0) ⊎ (wait ≡ pos 0)))

-- The count of a reply that has one, or 0.
abbrev pub Counts : List ℤ → ℤ → Type 0
Counts [] count = count ≡ pos 0
Counts (x ∷ rest) count = count ≡ x

module _ (s : Scale) (config : RateLimitConfig) where
  -- How a reply is read.
  pub data Reads : List ℤ → Result RateLimitResult → Type 0 where
    none_sent : Reads [] (raise index_error)
    one_sent : {a : ℤ} → Reads (a ∷ []) (raise index_error)
    two_sent : {a b : ℤ} → Reads (a ∷ b ∷ []) (raise index_error)
    three_sent : {a b c : ℤ} → Reads (a ∷ b ∷ c ∷ []) (raise index_error)
    negative :
        {allowed remaining wait reset_at : ℤ} {rest : List ℤ} (count : ℤ)
        → Counts rest count
        → (remaining <ℤ pos 0) ⊎ (count <ℤ pos 0)
        → Reads (allowed ∷ remaining ∷ wait ∷ reset_at ∷ rest) (raise value_error)
    read :
        {allowed remaining wait reset_at : ℤ} {rest : List ℤ} {result : RateLimitResult}
        → pos 0 ≤ℤ remaining
        → pos 0 ≤ℤ result.request_count
        → ((result.allowed ≡ true) × (allowed ≢ pos 0))
          ⊎ ((result.allowed ≡ false) × (allowed ≡ pos 0))
        → Tells allowed wait result
        → result.remaining ≡ remaining
        → result.limit ≡ config.limit
        → result.reset_at ≡ some (instant_of_seconds s reset_at)
        → Counts rest result.request_count
        → Reads (allowed ∷ remaining ∷ wait ∷ reset_at ∷ rest) (ok result)

  truthy-nonzero : (x : ℤ) → truthy x ≡ true → x ≢ pos 0
  unfolding truthy
  truthy-nonzero (pos zero) e h = cc
  truthy-nonzero (pos (suc n)) e h = cc
  truthy-nonzero (negsuc n) e h = cc

  truthy_zero : (x : ℤ) → truthy x ≡ false → x ≡ pos 0
  unfolding truthy
  truthy_zero (pos zero) e = refl
  truthy_zero (pos (suc n)) e = cc
  truthy_zero (negsuc n) e = cc

  fifth-Counts : (rest : List ℤ) → Counts rest (fifth rest)
  fifth-Counts [] = refl
  fifth-Counts (count ∷ rest) = refl

  made-Reads :
      (allowed remaining wait reset_at count : ℤ) (rest : List ℤ) (is_allowed waits : Bool)
      → truthy allowed ≡ is_allowed
      → truthy wait ≡ waits
      → Counts rest count
      → (refused_remaining refused_count : Bool) → ltb_ℤ remaining (pos 0) ≡ refused_remaining
      → ltb_ℤ count (pos 0) ≡ refused_count
      → Reads (allowed ∷ remaining ∷ wait ∷ reset_at ∷ rest) (
          make_result is_allowed remaining config.limit
            (if not is_allowed && waits then some wait else none)
            (some (instant_of_seconds s reset_at))
            count)
  unfolding make_result
  made-Reads allowed remaining wait reset_at count rest is_allowed waits a w counts true c er ec =
      rw er (negative count counts (inl (ground (arith, er))))
  made-Reads allowed remaining wait reset_at count rest is_allowed waits a w counts false true er
        ec =
      rw (er, ec) (negative count counts (inr (ground (arith, ec))))
  made-Reads allowed remaining wait reset_at count rest true waits a w counts false false er ec =
      rw (er, ec)
        (read (ground (arith, er)) (ground (arith, ec)) (inl (refl, truthy-nonzero allowed a))
          (inr (refl, inl (truthy-nonzero allowed a))) refl refl refl counts)
  made-Reads allowed remaining wait reset_at count rest false true a w counts false false er ec =
      rw (er, ec)
        (read (ground (arith, er)) (ground (arith, ec)) (inr (refl, truthy_zero allowed a))
          (inl (refl, truthy_zero allowed a, truthy-nonzero wait w)) refl refl refl counts)
  made-Reads allowed remaining wait reset_at count rest false false a w counts false false er ec =
      rw (er, ec)
        (read (ground (arith, er)) (ground (arith, ec)) (inr (refl, truthy_zero allowed a))
          (inr (refl, inr (truthy_zero wait w))) refl refl refl counts)

  -- A reply of fewer than four numbers is an IndexError. Of any other, a negative remaining capacity
  -- or count (0 where a fifth number is missing) is a ValueError; else the call is allowed unless the
  -- first number is 0, the wait is the third number where the call is not allowed and that is not 0,
  -- and otherwise none, and the limit, the remaining capacity, the reset and the count are those of
  -- the configuration and the reply.
  pub parse_script_result-Reads : (xs : List ℤ) → Reads xs (parse_script_result s xs config)
  unfolding parse_script_result
  parse_script_result-Reads [] = none_sent
  parse_script_result-Reads (a ∷ []) = one_sent
  parse_script_result-Reads (a ∷ b ∷ []) = two_sent
  parse_script_result-Reads (a ∷ b ∷ c ∷ []) = three_sent
  parse_script_result-Reads (allowed ∷ remaining ∷ wait ∷ reset_at ∷ rest) =
      made-Reads allowed remaining wait reset_at (fifth rest) rest (truthy allowed) (truthy wait)
        refl refl (fifth-Counts rest) (ltb_ℤ remaining (pos 0)) (ltb_ℤ (fifth rest) (pos 0)) refl
        refl
