-- ===== src/Tests/SharedKv.antt =====
-- Runs of src/daemon/shared-kv.ts on numbers, with a file that holds the snapshot itself.
use mcp_conductor.Base.{
  ℕ, insert, ◌≡◌, refl, true, false, Option, none, some, List, [], ◌∷◌, Text, codes, any, text_eq,
  starts_with, Distinct, arith, if◌then◌else◌,
}
use mcp_conductor.Daemon.SharedKv.{
  KvSnapshot, SharedKv, get, set, delete_key, evict_expired, clear, list_keys, new_kv, shutdown,
  expiry,
}
use mcp_conductor.Daemon.SharedKv.View.{
  view, get-view, in_force, got, set_delete-view, evict_clear-view, is_listed, list_keys-is_listed,
}
use mcp_conductor.Daemon.SharedKv.Persistence.{
  Event, sets, run, run-Distinct, step, JsonLaw, restart-view,
}

abbrev empty_kv : SharedKv ℕ
empty_kv = record { store = []; dirty = false }

abbrev session : Text
session = codes "session:a"

abbrev token : Text
token = codes "token"

abbrev session_prefix : Text
session_prefix = codes "session:"

abbrev events : List (Event ℕ)
events = sets token 7 (some 50) 100 ∷ sets session 5 none 110 ∷ sets token 8 (some 60) 120 ∷ []

abbrev kv : SharedKv ℕ
kv = run empty_kv events

-- The second `set` of a key keeps its place.
kv_entries :
    kv.store
    ≡ (token, record { value = 8; expires_at = some 180 })
      ∷ (session, record { value = 5; expires_at = none })
      ∷ []
unfolding run set expiry step insert text_eq
kv_entries = refl

empty_kv-Distinct : Distinct empty_kv.store
unfolding Distinct
empty_kv-Distinct = tt

run-Distinct_example : Distinct (run empty_kv events).store
run-Distinct_example = run-Distinct empty_kv events empty_kv-Distinct

get-view_example :
    ((get kv token 200).1 ≡ view kv 200 token)
    × (view (get kv token 200).0 210 session ≡ view kv 210 session)
get-view_example = get-view kv token session 200 210 (omega arith)

set_delete-view_example :
    (got (set kv session 9 (some 10) 150) session 160 ≡ (
      if text_eq session session
      then (if in_force (some 10) 150 160 then some 9 else none)
      else got kv session 160))
    × (got (delete_key kv session) session 160
        ≡ (if text_eq session session then none else got kv session 160))
set_delete-view_example = set_delete-view kv session session 9 (some 10) 150 160

evict_clear-view_example :
    (view (evict_expired kv 200) 200 token ≡ view kv 200 token)
    × (view (clear kv (some session_prefix)) 200 token
        ≡ (if starts_with token session_prefix then none else view kv 200 token))
    × (view (clear kv none) 200 token ≡ none)
evict_clear-view_example =
    evict_clear-view kv token session_prefix 200 200
      (run-Distinct empty_kv events empty_kv-Distinct) (omega arith)

list_keys-is_listed_example :
    any (text_eq session) (list_keys kv (some session_prefix) 200)
    ≡ is_listed session (some session_prefix) (view kv 200 session)
list_keys-is_listed_example =
    list_keys-is_listed kv (some session_prefix) 200 session
      (run-Distinct empty_kv events empty_kv-Distinct)

abbrev as_is : KvSnapshot ℕ → KvSnapshot ℕ
as_is s = s

abbrev back : KvSnapshot ℕ → Option (KvSnapshot ℕ)
back s = some s

as_is-JsonLaw : JsonLaw as_is back
as_is-JsonLaw = record {
  read_back = λ s d. (s, refl, record { same_version = refl; once = d; same_entries = λ k. refl });
}

restart-view_example :
    view (new_kv back (shutdown as_is kv 150 none true).1 160 false) 170 token ≡ view kv 170 token
restart-view_example =
    restart-view as_is back as_is-JsonLaw kv none 150 160 170 token
      (run-Distinct empty_kv events empty_kv-Distinct) (omega arith) (omega arith)
