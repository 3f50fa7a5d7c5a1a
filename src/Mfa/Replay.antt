-- ===== src/Mfa/Replay.antt =====
-- Which codes `verifyTotp` accepts (apps/api/src/auth/mfa/totp.ts).
use capbase.Base.{
  ℕ, ◌+◌, ◌<◌, ◌≤◌, ◌≡◌, refl, inl, inr, Bool, true, false, Option, none, some, List, [], ◌∷◌, ◌&&◌,
  leb, Text, CaseTables, length, eq_text, eq_text-same, All, arith, Bool-cases, Option-cases,
}
use capbase.Mfa.Totp.{matched, replayed, window_steps, totp_step, totp_at, try_steps, verify_totp}

-- The step is past the last one that was accepted.
abbrev pub Past : Option ℕ → ℕ → Type 0
Past none step = Unit
Past (some last) step = last < step

past : (last : Option ℕ) (s : ℕ) → replayed s last ≡ false → Past last s
past none s h = tt
past (some last) s h = ground arith

module _ (tables : CaseTables) (hmac : List ℕ → List ℕ → List ℕ) (secret code : Text) where
  -- What an accepted step satisfies, where `P` holds of every step tried.
  try_steps-matched :
      (P : ℕ → Bool) (last : Option ℕ) (steps : List (Option ℕ)) (s : ℕ)
      → All (λ o. (n : ℕ) → o ≡ some n → P n ≡ true) steps
      → try_steps tables hmac secret code last steps ≡ matched s
      → (P s ≡ true) × (replayed s last ≡ false) × (totp_at tables hmac secret s ≡ some code)
  unfolding try_steps
  try_steps-matched P last [] s h e = ground arith
  try_steps-matched P none (none ∷ steps) s h e = ground arith
  try_steps-matched P (some last) (none ∷ steps) s h e =
      try_steps-matched P (some last) steps s h.1 e
  try_steps-matched P last (some step ∷ steps) s h e = elim (Bool-cases (replayed step last)) [
    | inl again ↦ try_steps-matched P last steps s h.1 (ground (arith, again))
    | inr new ↦ elim (Option-cases (totp_at tables hmac secret step)) [
      | inl error ↦ ground (arith, new, error)
      | inr (text, found) ↦ elim (Bool-cases (eq_text text code)) [
        | inr other ↦ try_steps-matched P last steps s h.1 (ground (arith, new, found, other))
        | inl same ↦
            let q = eq_text-same text code same in
            ground (arith, new, found, same, q, h.0 step refl)
      ]
    ]
  ]

  -- An accepted step is at most one away from the step of now, past the last accepted one, and gives the
  -- code, which has six digits.
  pub verify_totp-matched :
      (now s : ℕ) (last : Option ℕ)
      → verify_totp tables hmac secret code now last ≡ matched s
      → (totp_step now ≤ s + 1)
        × (s ≤ totp_step now + 1)
        × Past last s
        × (totp_at tables hmac secret s ≡ some code)
        × (length code ≡ 6)
  unfolding verify_totp
  verify_totp-matched now s last e =
      let current = totp_step now in
      let near : ℕ → Bool = λ n. leb current (n + 1) && leb n (current + 1) in
      let tried : All (λ o. (n : ℕ) → o ≡ some n → near n ≡ true) (window_steps current) =
        ((λ n q. ground arith), ((λ n q. ground arith), ((λ n q. ground arith), tt))) in
      let found : try_steps tables hmac secret code last (window_steps current) ≡ matched s =
        ground arith in
      let parts = try_steps-matched near last (window_steps current) s tried found in
      (ground (arith, parts.0), ground (arith, parts.0), past last s parts.1, parts.2, ground arith)
