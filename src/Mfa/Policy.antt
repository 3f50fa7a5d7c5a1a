-- ===== src/Mfa/Policy.antt =====
-- Which roles need a second factor: apps/api/src/auth/mfa/policy.ts. A text of the environment is a list
-- of code units, and none where it is unset.
use capbase.Base.{
  Bool, true, false, not, ◌&&◌, Option, none, some, List, [], ◌∷◌, ◌++◌, ◌==◌, if◌then◌else◌, Text,
  trim, eq_text, or_else,
}
use capbase.Gate.Rows.{Role, user, contributor, admin}

abbrev pub default_mfa_required_roles : List Role
default_mfa_required_roles = admin ∷ contributor ∷ []

-- The role that a text names.
unfoldable pub role_named : Text → Option Role
role_named s =
    if eq_text s (b'U' ∷ b'S' ∷ b'E' ∷ b'R' ∷ [])
    then some user
    else if eq_text s
        (b'C' ∷ b'O' ∷ b'N' ∷ b'T' ∷ b'R' ∷ b'I' ∷ b'B' ∷ b'U' ∷ b'T' ∷ b'O' ∷ b'R' ∷ [])
    then some contributor
    else if eq_text s (b'A' ∷ b'D' ∷ b'M' ∷ b'I' ∷ b'N' ∷ [])
    then some admin
    else none

-- `.split(',').map((r) => r.trim()).filter(Boolean)`, with the part that is being read.
unfoldable pub role_texts : Text → Text → List Text
role_texts part [] = if eq_text (trim part) [] then [] else trim part ∷ []
role_texts part (c ∷ s) =
    let next = role_texts [] s in
    let longer = role_texts (part ++ c ∷ []) s in
    if not (c == b',') then longer else if eq_text (trim part) [] then next else trim part ∷ next

unfoldable pub roles_named : List Text → Option (List Role)
roles_named [] = some []
roles_named (s ∷ texts) = elim (role_named s) [
  | none ↦ none
  | some role ↦ elim (roles_named texts) [ none ↦ none | some roles ↦ some (role ∷ roles) ]
]

unfoldable pub parse_mfa_roles : Text → Option (List Role)
parse_mfa_roles raw = roles_named (role_texts [] raw)

unfoldable pub mfa_required_roles : Option Text → Option Text → List Role
mfa_required_roles none none = []
mfa_required_roles none (some node_env) =
    if eq_text node_env (b'p' ∷ b'r' ∷ b'o' ∷ b'd' ∷ b'u' ∷ b'c' ∷ b't' ∷ b'i' ∷ b'o' ∷ b'n' ∷ [])
    then default_mfa_required_roles
    else []
mfa_required_roles (some raw) node_env = or_else (parse_mfa_roles raw) []

abbrev pub same_role : Role → Role → Bool
same_role user user = true
same_role contributor contributor = true
same_role admin admin = true
same_role _ _ = false

unfoldable pub requires : List Role → Role → Bool
requires [] role = false
requires (r ∷ roles) role = if same_role r role then true else requires roles role

-- Of a user's role, and whether the user has a factor.
unfoldable pub unmet : List Role → Role → Bool → Bool
unmet roles role has_factor = requires roles role && not has_factor
