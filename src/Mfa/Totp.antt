-- ===== src/Mfa/Totp.antt =====
-- `totpStep`, `totpAt` and `verifyTotp` of apps/api/src/auth/mfa/totp.ts. The HMAC of node:crypto is an
-- argument: a function of the key and of the message. A time is a number of milliseconds since 1970.
use Prim.Native.Nat.{zero, suc, ◌^◌}
use capbase.Base.{
  ℕ, ◌+◌, ◌-◌, ◌*◌, ◌/◌, ◌%◌, Bool, false, not, Option, none, some, List, [], ◌∷◌, ◌&&◌, ◌==◌, leb,
  if◌then◌else◌, Text, CaseTables, all, length, is_digit, eq_text, pad_start, decimal,
}
use capbase.Mfa.Base32.{base32_decode}

abbrev pub totp_period_seconds : ℕ
totp_period_seconds = 30

abbrev pub totp_window : ℕ
totp_window = 1

unfoldable pub totp_step : ℕ → ℕ
totp_step now = now / 1000 / totp_period_seconds

-- `writeBigUInt64BE(step)` on eight bytes.
unfoldable pub counter : ℕ → ℕ → List ℕ
counter zero step = []
counter (suc n) step = step / 256 ^ n % 256 ∷ counter n step

-- `mac[n]`, none past the end.
unfoldable pub byte_at : List ℕ → ℕ → Option ℕ
byte_at [] n = none
byte_at (b ∷ mac) zero = some b
byte_at (b ∷ mac) (suc n) = byte_at mac n

-- `mac[mac.length - 1]`
unfoldable pub last_byte : List ℕ → Option ℕ
last_byte [] = none
last_byte (b ∷ []) = some b
last_byte (b ∷ c ∷ mac) = last_byte (c ∷ mac)

infixl 20 ◌>>=◌
abbrev pub ◌>>=◌ {ℓ κ} : {A : Type ℓ} {B : Type κ} → Option A → (A → Option B) → Option B
none >>= next = none
some a >>= next = next a

-- `readUInt32BE(offset)`; none is the error for a read past the end.
unfoldable pub read_uint32 : List ℕ → ℕ → Option ℕ
read_uint32 mac offset = do
  a ← byte_at mac offset
  b ← byte_at mac (offset + 1)
  c ← byte_at mac (offset + 2)
  d ← byte_at mac (offset + 3)
  some (a * 16777216 + b * 65536 + c * 256 + d)

-- An answer of `verifyTotp`, or the error that it throws.
pub data Verdict : Type 0 where
  matched : ℕ → Verdict
  refused thrown : Verdict

-- `lastStep !== null && step <= lastStep`
abbrev pub replayed : ℕ → Option ℕ → Bool
replayed step none = false
replayed step (some last) = leb step last

-- The steps of the loop. The one before the first of all is -1, here none: on it the counter can not be
-- written, unless a last step makes the loop pass over it.
abbrev pub window_steps : ℕ → List (Option ℕ)
window_steps current =
    (if current == 0 then none else some (current - totp_window))
    ∷ some current
    ∷ some (current + totp_window)
    ∷ []

module _ (tables : CaseTables) (hmac : List ℕ → List ℕ → List ℕ) where
  unfoldable pub totp_at : Text → ℕ → Option Text
  totp_at secret step = do
    key ← base32_decode tables secret
    let mac = hmac key (counter 8 step)
    last ← last_byte mac
    bin ← read_uint32 mac (last % 16)
    some (pad_start 6 b'0' (decimal (bin % 2147483648 % 1000000)))

  unfoldable pub try_steps : Text → Text → Option ℕ → List (Option ℕ) → Verdict
  try_steps secret code last [] = refused
  try_steps secret code none (none ∷ steps) = thrown
  try_steps secret code (some last) (none ∷ steps) = try_steps secret code (some last) steps
  try_steps secret code last (some step ∷ steps) =
      let later = try_steps secret code last steps in
      if replayed step last then later else elim (totp_at secret step) [
        | none ↦ thrown
        | some text ↦ if eq_text text code then matched step else later
      ]

  unfoldable pub verify_totp : Text → Text → ℕ → Option ℕ → Verdict
  verify_totp secret code now last =
      if not (all is_digit code && length code == 6)
      then refused
      else try_steps secret code last (window_steps (totp_step now))
