-- ===== src/Tests/SharedLock.antt =====
-- Runs of src/daemon/shared-lock.ts: two calls for one key, of which the first times out or hands
-- over the lock.
use mcp_conductor.Base.{
  ℕ, ◌<◌, ◌≡◌, refl, false, none, some, [], ◌∷◌, Text, codes, any, length, lookup, insert, remove,
  text_eq, arith,
}
use mcp_conductor.Daemon.SharedLock.{
  SharedLock, new_lock, acquire, settle, release_handle, waiting, holding, released, timed_out,
  status_at, is_resolved, with_lock, waiters_of,
}
use mcp_conductor.Daemon.SharedLock.Order.{pending}
use mcp_conductor.Daemon.SharedLock.Steps.{Reach, here, next, acquires, wakes, expires, releases}
use mcp_conductor.Daemon.SharedLock.Exclusion.{one_holder, waiters_of-pending}
use mcp_conductor.Daemon.SharedLock.Progress.{
  CanMove, has_timed_out, with_lock-free, waiting-CanMove, timed_out_blocks,
}

abbrev key : Text
key = codes "db"

abbrev first_asked : SharedLock
first_asked = (acquire new_lock key).0

abbrev first_has : SharedLock
first_has = settle first_asked 0 0 holding

abbrev second_asked : SharedLock
second_asked = (acquire first_has key).0

abbrev second_timed_out : SharedLock
second_timed_out = settle second_asked 0 1 timed_out

abbrev first_done : SharedLock
first_done = release_handle second_timed_out 0 0

abbrev third_asked : SharedLock
third_asked = (acquire first_done key).0

second_asked-Reach : Reach new_lock second_asked
unfolding acquire settle is_resolved lookup insert text_eq
second_asked-Reach = next (next (next here (acquires key)) (wakes 0 0 refl refl)) (acquires key)

second_timed_out-Reach : Reach new_lock second_timed_out
unfolding acquire settle is_resolved lookup insert text_eq
second_timed_out-Reach = next second_asked-Reach (expires 0 1 refl refl)

third_asked-Reach : Reach second_timed_out third_asked
third_asked-Reach = next (next here (releases 0 0)) (acquires key)

-- The call that timed out is still counted, and the third call waits for it.
third_waits :
    (waiters_of third_asked key ≡ 2)
    × ((third_asked.mutexes 0).calls ≡ released ∷ timed_out ∷ waiting ∷ [])
unfolding waiters_of acquire settle release_handle lookup insert text_eq remove
third_waits = (refl, refl)

abbrev root : ℕ
root = 0

third_asked-from_start : Reach new_lock third_asked
third_asked-from_start = next (next second_timed_out-Reach (releases 0 0)) (acquires key)

second_holds : (second_asked.mutexes 0).calls ≡ holding ∷ waiting ∷ []
unfolding acquire settle lookup insert text_eq
second_holds = refl

first_holding : status_at 0 (second_asked.mutexes 0).calls ≡ some holding
unfolding acquire settle lookup insert text_eq status_at
first_holding = refl

one_holder_example : (root ≡ root) × (root ≡ root)
one_holder_example = one_holder second_asked-Reach 0 0 0 0 first_holding first_holding refl

key_of_mutex : (third_asked.mutexes 0).key ≡ key
unfolding acquire settle release_handle lookup insert text_eq remove
key_of_mutex = refl

two_pending : 0 < pending (third_asked.mutexes 0).calls
unfolding acquire settle release_handle lookup insert text_eq remove pending
two_pending = omega arith

waiters_of-pending_example :
    (waiters_of third_asked key ≡ pending (third_asked.mutexes 0).calls)
    × (lookup key third_asked.locks ≡ some 0)
waiters_of-pending_example =
    waiters_of-pending third_asked-from_start key 0 key_of_mutex two_pending

second_is_waiting : status_at 1 (second_asked.mutexes 0).calls ≡ some waiting
unfolding acquire settle lookup insert text_eq status_at
second_is_waiting = refl

none_timed_out : any has_timed_out (second_asked.mutexes 0).calls ≡ false
unfolding acquire settle lookup insert text_eq any
none_timed_out = refl

waiting-CanMove_example : (j : ℕ) × CanMove (second_asked.mutexes 0).calls j
waiting-CanMove_example = waiting-CanMove second_asked 0 1 second_is_waiting none_timed_out

second_out : status_at 1 (second_timed_out.mutexes 0).calls ≡ some timed_out
unfolding acquire settle lookup insert text_eq status_at
second_out = refl

timed_out_blocks_example :
    ((acquire third_asked (second_timed_out.mutexes 0).key).1 ≡ 0)
    × ((acquire third_asked (second_timed_out.mutexes 0).key).2
        ≡ length (third_asked.mutexes 0).calls)
    × (1 < length (third_asked.mutexes 0).calls)
    × ((j : ℕ) → 1 < j → ¬ (status_at j (third_asked.mutexes 0).calls ≡ some holding))
timed_out_blocks_example = timed_out_blocks second_timed_out-Reach 0 1 second_out third_asked-Reach

abbrev seven : ℕ
seven = 7

free_key : lookup key new_lock.locks ≡ none
unfolding lookup
free_key = refl

with_lock-free_example :
    ((with_lock new_lock key seven).1 ≡ some seven)
    × (waiters_of (with_lock new_lock key seven).0 key ≡ 0)
    × (lookup key (with_lock new_lock key seven).0.locks ≡ none)
with_lock-free_example = with_lock-free new_lock key seven free_key
