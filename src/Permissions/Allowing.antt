-- ===== src/Permissions/Allowing.antt =====
-- What src/utils/permissions.ts adds to the permissions that are allowed.
use mcp_conductor.Base.{
  ◌≡◌, refl, ap, ◌∙◌, Bool, true, false, not, ◌&&◌, ◌||◌, Option, some, List, [], ◌∷◌, ◌++◌, Text,
  text_eq, text_eq_refl, any, any-keep, keep, or_default, arith,
}
use mathlib.Core.List.{append-nil}
use mcp_conductor.Permissions.{add_permissions}

any-append :
    (p : Text) (xs ys : List Text)
    → any (text_eq p) (xs ++ ys) ≡ (any (text_eq p) xs || any (text_eq p) ys)
unfolding any
any-append p [] ys = refl
any-append p (x ∷ xs) ys = ground (arith, any-append p xs ys)

-- After permissions are added, exactly those are allowed that were allowed before or are added.
pub add_permissions-any :
    (allow : Option (List Text)) (permissions : List Text) (p : Text)
    → any (text_eq p) (add_permissions allow permissions)
      ≡ (any (text_eq p) (or_default allow []) || any (text_eq p) permissions)
unfolding add_permissions
add_permissions-any allow permissions p =
    let present = or_default allow [] in
    any-append p present (keep (λ q. not (any (text_eq q) present)) permissions)
    ∙ ap (λ b. any (text_eq p) present || b)
        (any-keep (λ q. not (any (text_eq q) present)) p permissions)
    ∙ absorbed (any (text_eq p) present) (any (text_eq p) permissions)
  where
    absorbed : (a b : Bool) → (a || (not a && b)) ≡ (a || b)
    absorbed true b = refl
    absorbed false b = refl

none_kept :
    (known : Text → Bool) (ps : List Text)
    → ((p : Text) → any (text_eq p) ps ≡ true → known p ≡ true)
    → keep (λ p. not (known p)) ps ≡ []
unfolding keep any
none_kept known [] h = refl
none_kept known (p ∷ ps) h =
    rw (h p (ground (arith, text_eq_refl p))) (none_kept known ps (λ q e. h q (ground (arith, e))))

-- To add the same permissions again changes nothing.
pub add_permissions-again :
    (allow : Option (List Text)) (permissions : List Text)
    → let once = add_permissions allow permissions in add_permissions (some once) permissions ≡ once
unfolding add_permissions
add_permissions-again allow permissions =
    let once = add_permissions allow permissions in
    ap (λ r. once ++ r)
      (none_kept (λ p. any (text_eq p) once) permissions
        (λ p e. add_permissions-any allow permissions p ∙ ground (arith, e)))
    ∙ append-nil once
