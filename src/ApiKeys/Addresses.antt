-- ===== src/ApiKeys/Addresses.antt =====
-- `normalizeIp`, `parseCidr` and `ipAllowed` of apps/api/src/api-keys/api-keys.service.ts. `isIP` and
-- `BlockList` of node:net are fields of a record.
use capbase.Base.{
  ℕ, Bool, true, false, not, ◌&&◌, ◌||◌, Option, none, some, List, [], ◌∷◌, ◌++◌, ◌==◌, ltb, leb,
  if◌then◌else◌, Text, length, any, all, is_digit, trim, number, decimal,
}

-- `{ address, prefix, family }`
pub record Cidr : Type 0 where
  pub address : Text
  pub prefix : ℕ
  pub family : ℕ

-- `isIP` gives 4, 6 or 0. A `BlockList` matches an address that lies in one of its subnets.
pub record Net : Type 0 where
  pub is_ip : Text → ℕ
  pub in_subnet : Cidr → Text → ℕ → Bool

-- `s.split(separator)`, which is never empty.
abbrev pub extend_first : ℕ → List Text → List Text
extend_first c [] = (c ∷ []) ∷ []
extend_first c (part ∷ parts) = (c ∷ part) ∷ parts

unfoldable pub split_on : ℕ → Text → List Text
split_on separator [] = [] ∷ []
split_on separator (c ∷ s) =
    let rest = split_on separator s in if c == separator then [] ∷ rest else extend_first c rest

-- `\d{1,3}`
unfoldable pub one_to_three_digits : Text → Bool
one_to_three_digits s = leb 1 (length s) && leb (length s) 3 && all is_digit s

abbrev pub four_parts : List Text → Bool
four_parts (a ∷ b ∷ c ∷ d ∷ []) =
    one_to_three_digits a && one_to_three_digits b && one_to_three_digits c && one_to_three_digits d
four_parts _ = false

-- `\d{1,3}(?:\.\d{1,3}){3}`
unfoldable pub is_quad : Text → Bool
is_quad s = four_parts (split_on b'.' s)

abbrev pub is_f : ℕ → Bool
is_f c = c == b'f' || c == b'F'

-- What follows `::ffff:`, in either case.
unfoldable pub after_mapped : Text → Option Text
after_mapped (c1 ∷ c2 ∷ f1 ∷ f2 ∷ f3 ∷ f4 ∷ c3 ∷ s) =
    if c1 == b':' && c2 == b':' && is_f f1 && is_f f2 && is_f f3 && is_f f4 && c3 == b':'
    then some s
    else none
after_mapped _ = none

abbrev pub mapped_or : Text → Option Text → Text
mapped_or ip none = ip
mapped_or ip (some s) = if is_quad s then s else ip

unfoldable pub normalize_ip : Text → Text
normalize_ip ip = mapped_or ip (after_mapped ip)

module _ (net : Net) where
  unfoldable pub parse_host : Text → Option Text → Option Cidr
  parse_host address bits =
      let host = normalize_ip address in
      let family = net.is_ip host in
      let max = if family == 4 then 32 else 128 in
      if not (family == 4) && not (family == 6) then none else elim bits [
        | none ↦ some (record { address = host; prefix = max; family = family })
        | some digits ↦
            if not (one_to_three_digits digits)
            then none
            else if ltb max (number digits)
            then none
            else some (record { address = host; prefix = number digits; family = family })
      ]

  -- `const [address = '', bits, ...rest]`, where any rest is refused.
  unfoldable pub parse_parts : List Text → Option Cidr
  parse_parts [] = parse_host [] none
  parse_parts (address ∷ []) = parse_host address none
  parse_parts (address ∷ bits ∷ []) = parse_host address (some bits)
  parse_parts (address ∷ bits ∷ _ ∷ _) = none

  unfoldable pub parse_cidr : Text → Option Cidr
  parse_cidr raw = parse_parts (split_on b'/' (trim raw))

  -- The list that `ipAllowed` fills: the entries that parse.
  unfoldable pub block_list : List Text → List Cidr
  block_list [] = []
  block_list (cidr ∷ cidrs) = elim (parse_cidr cidr) [
    | none ↦ block_list cidrs
    | some parsed ↦ parsed ∷ block_list cidrs
  ]

  unfoldable pub ip_allowed : Text → List Text → Bool
  ip_allowed ip [] = true
  ip_allowed ip (cidr ∷ cidrs) =
      let host = normalize_ip ip in
      let family = net.is_ip host in
      if not (family == 4) && not (family == 6)
      then false
      else any (λ subnet. net.in_subnet subnet host family) (block_list (cidr ∷ cidrs))

-- `${parsed.address}/${parsed.prefix}`
unfoldable pub cidr_text : Cidr → Text
cidr_text cidr = cidr.address ++ b'/' ∷ decimal cidr.prefix
