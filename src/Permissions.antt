-- ===== src/Permissions.antt =====
-- src/utils/permissions.ts, but for the files and the text for display. The expression
-- /^mcp__([^_]+)__(.+)$/ is read by hand: the first group ends at the first underscore, since it has
-- none, and `.` is no line end.
pub mod Naming
pub mod Allowing
use mcp_conductor.Base.{
  ℕ, Bool, true, false, not, ◌||◌, Option, none, some, List, [], ◌∷◌, ◌++◌, map, Text, codes,
  text_eq, starts_with, any, keep, ◌==◌, or_default, if◌then◌else◌,
}

pub record PermissionEntry : Type 0 where
  pub permission : Text
  pub server : Text
  pub tool : Text

pub record PermissionGenerationResult : Type 0 where
  pub all : List PermissionEntry
  pub new : List PermissionEntry
  pub existing : List PermissionEntry

-- `generatePermissionString`
unfoldable pub generate_permission_string : (server_name tool_name : Text) → Text
generate_permission_string server_name tool_name =
    codes "mcp__" ++ (server_name ++ (codes "__" ++ tool_name))

abbrev pub is_underscore : ℕ → Bool
is_underscore c = c == 95

-- What `.` does not match.
abbrev pub is_line_end : ℕ → Bool
is_line_end c = any (λ d. c == d) (10 ∷ 13 ∷ 8232 ∷ 8233 ∷ [])

-- A text after a given beginning.
unfoldable pub strip : (beginning : Text) → Text → Option Text
strip [] s = some s
strip (b ∷ bs) [] = none
strip (b ∷ bs) (c ∷ cs) = if c == b then strip bs cs else none

-- A text up to its first underscore, and from there on.
unfoldable pub split_underscore : Text → Text × Text
split_underscore [] = ([], [])
split_underscore (c ∷ s) =
    let (before, from) = split_underscore s in
    if is_underscore c then ([], c ∷ s) else (c ∷ before, from)

-- The groups, if neither is empty and the second has no line end.
unfoldable pub groups : (server tool : Text) → Option (Text × Text)
unfolding any
groups [] tool = none
groups (c ∷ server) [] = none
groups (c ∷ server) (d ∷ tool) =
    if any is_line_end (d ∷ tool) then none else some (c ∷ server, d ∷ tool)

-- The match from the first group on.
unfoldable pub match_groups : (server : Text) → (after : Option Text) → Option (Text × Text)
unfolding groups
match_groups server none = none
match_groups server (some tool) = groups server tool

-- The match after `mcp__`.
unfoldable pub match_rest : Option Text → Option (Text × Text)
unfolding match_groups strip split_underscore
match_rest none = none
match_rest (some rest) =
    let (server, from) = split_underscore rest in match_groups server (strip (codes "__") from)

-- `parsePermissionString`
unfoldable pub parse_permission_string : Text → Option (Text × Text)
unfolding match_rest strip
parse_permission_string permission = match_rest (strip (codes "mcp__") permission)

-- `getExistingPermissions` on the list of allowed ones: the members of the set that it gives.
unfoldable pub get_existing_permissions : (allow : Option (List Text)) → List Text
unfolding keep starts_with
get_existing_permissions allow = keep (λ p. starts_with p (codes "mcp__")) (or_default allow [])

-- `generatePermissionEntries`
unfoldable pub generate_permission_entries : List (Text × Text) → List PermissionEntry
unfolding generate_permission_string
generate_permission_entries tools =
    map (λ t. record { permission = generate_permission_string t.0 t.1; server = t.0; tool = t.1 })
      tools

-- `comparePermissions`
unfoldable pub compare_permissions :
    List PermissionEntry → (existing : List Text) → PermissionGenerationResult
unfolding keep any text_eq
compare_permissions generated existing = record {
  all = generated;
  new = keep (λ e. not (any (text_eq e.permission) existing)) generated;
  existing = keep (λ e. any (text_eq e.permission) existing) generated;
}

-- `addPermissionsToSettings` on the list of allowed ones.
unfoldable pub add_permissions : (allow : Option (List Text)) → List Text → List Text
unfolding keep any text_eq
add_permissions allow permissions =
    let present = or_default allow [] in
    present ++ keep (λ p. not (any (text_eq p) present)) permissions
