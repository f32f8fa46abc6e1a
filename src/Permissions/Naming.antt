-- ===== src/Permissions/Naming.antt =====
-- The names of permissions in src/utils/permissions.ts, read back.
use mcp_conductor.Base.{
  ℕ, ◌≡◌, ◌≢◌, refl, sym, ap, subst, ◌∙◌, true, false, Option, none, some, [], ◌∷◌, ◌++◌, Text,
  codes, any, arith, if◌then◌else◌, Bool-cases, inl, inr,
}
use mathlib.Core.Option.{some-injective}
use mcp_conductor.Permissions.{
  generate_permission_string, is_underscore, is_line_end, strip, split_underscore, groups,
  match_groups, match_rest, parse_permission_string,
}

strip-append : (b s : Text) → strip b (b ++ s) ≡ some s
unfolding strip
strip-append [] s = refl
strip-append (c ∷ b) s = ground (arith, strip-append b s)

split_underscore-append :
    (server s : Text)
    → any is_underscore server ≡ false
    → split_underscore (server ++ 95 ∷ s) ≡ (server, 95 ∷ s)
unfolding split_underscore any
split_underscore-append [] s h = refl
split_underscore-append (c ∷ server) s h = elim (Bool-cases (is_underscore c)) [
  | inl e ↦ absurd (ground arith)
  | inr e ↦ rw (e, split_underscore-append server s (ground arith)) refl
]

-- The name of a permission is read back as its server and tool, if neither is empty, the server has no
-- underscore and the tool no line end.
pub parse_permission_string-generate_permission_string :
    (c d : ℕ) (server tool : Text)
    → any is_underscore (c ∷ server) ≡ false
    → any is_line_end (d ∷ tool) ≡ false
    → parse_permission_string (generate_permission_string (c ∷ server) (d ∷ tool))
      ≡ some (c ∷ server, d ∷ tool)
unfolding parse_permission_string generate_permission_string
parse_permission_string-generate_permission_string c d server tool h l =
    ap match_rest (strip-append (codes "mcp__") ((c ∷ server) ++ (codes "__" ++ (d ∷ tool))))
    ∙ ap (λ p. match_groups p.0 (strip (codes "__") p.1))
        (split_underscore-append (c ∷ server) (95 ∷ d ∷ tool) h)
    ∙ ap (λ b. if b then none else some (c ∷ server, d ∷ tool)) l

split_underscore-plain : (s : Text) → any is_underscore (split_underscore s).0 ≡ false
unfolding split_underscore any
split_underscore-plain [] = refl
split_underscore-plain (c ∷ s) = ground (arith, split_underscore-plain s)

groups-server : (server tool s t : Text) → groups server tool ≡ some (s, t) → server ≡ s
unfolding groups
groups-server [] tool s t h = absurd (ground arith)
groups-server (c ∷ server) [] s t h = absurd (ground arith)
groups-server (c ∷ server) (d ∷ tool) s t h = elim (Bool-cases (any is_line_end (d ∷ tool))) [
  | inl e ↦
      absurd (ground (arith, sym (ap (λ b. if b then none else some (c ∷ server, d ∷ tool)) e) ∙ h))
  | inr e ↦
      ap (λ x. x.0)
        (some-injective (c ∷ server, d ∷ tool) (s, t)
          (sym (ap (λ b. if b then none else some (c ∷ server, d ∷ tool)) e) ∙ h))
]

match_groups-server :
    (server s t : Text) (after : Option Text) → match_groups server after ≡ some (s, t) → server ≡ s
unfolding match_groups
match_groups-server server s t none h = absurd (ground arith)
match_groups-server server s t (some tool) h = groups-server server tool s t h

match_rest-plain :
    (o : Option Text) (s t : Text) → match_rest o ≡ some (s, t) → any is_underscore s ≡ false
unfolding match_rest
match_rest-plain none s t h = absurd (ground arith)
match_rest-plain (some rest) s t h =
    subst (λ x. any is_underscore x ≡ false) (match_groups-server (split_underscore rest).0 s t _ h)
      (split_underscore-plain rest)

-- The permission of a server with an underscore in its name is never read back as what it is, though
-- it is generated like any other.
pub generate_permission_string-lost :
    (server tool : Text)
    → any is_underscore server ≡ true
    → parse_permission_string (generate_permission_string server tool) ≢ some (server, tool)
unfolding parse_permission_string
generate_permission_string-lost server tool h p = ground (
  arith,
  h,
  match_rest-plain (strip (codes "mcp__") (generate_permission_string server tool)) server tool p,
)
