-- ===== src/Tests/Permissions.antt =====
-- Runs of src/utils/permissions.ts.
use mcp_conductor.Base.{◌≡◌, refl, false, none, some, codes, any}
use mcp_conductor.Permissions.{
  generate_permission_string, parse_permission_string, is_underscore, is_line_end,
}
use mcp_conductor.Permissions.Naming.{parse_permission_string-generate_permission_string}

my_files :
    parse_permission_string (generate_permission_string (codes "my_files") (codes "read")) ≡ none
unfolding parse_permission_string generate_permission_string
my_files = refl

git_plain : any is_underscore (codes "git") ≡ false
unfolding any
git_plain = refl

log_plain : any is_line_end (codes "get_log") ≡ false
unfolding any
log_plain = refl

parse_permission_string-generate_permission_string_example :
    parse_permission_string (generate_permission_string (codes "git") (codes "get_log"))
    ≡ some (codes "git", codes "get_log")
parse_permission_string-generate_permission_string_example =
    parse_permission_string-generate_permission_string 103 103 (codes "it") (codes "et_log")
      git_plain log_plain
