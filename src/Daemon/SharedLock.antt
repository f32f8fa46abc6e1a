-- ===== src/Daemon/SharedLock.antt =====
-- src/daemon/shared-lock.ts. A `MutexState` is an object that the map and the pending calls of
-- `acquire` share, so it has an address. Its calls are numbered in their order: call `i` waits for
-- promise `i`, where promise 0 is `Promise.resolve()` and promise `i + 1` is the `next` of call `i`,
-- which its `release` resolves. So `chain` is the promise with the number of calls so far.
pub mod Order
pub mod Steps
pub mod Exclusion
pub mod Progress
use mcp_conductor.Base.{
  ℕ, zero, suc, ◌+◌, ◌-◌, Bool, true, false, Option, none, some, List, [], ◌∷◌, ◌++◌, Text, length,
  Dict, lookup, insert, remove, ◌==◌, if◌then◌else◌,
}

-- How far a call of `acquire` is: it waits, its handle is out, the handle was released, or the wait
-- ended with a `LockTimeoutError`.
pub data Status : Type 0 where
  waiting holding released timed_out : Status

-- `MutexState`, with the key it was made for.
pub record MutexState : Type 0 where
  pub key : Text
  pub waiters : ℕ
  pub calls : List Status

pub record SharedLock : Type 0 where
  pub locks : Dict ℕ
  pub mutexes : ℕ → MutexState
  pub next_address : ℕ

abbrev pub new_mutex : Text → MutexState
new_mutex key = record { key = key; waiters = 0; calls = [] }

abbrev pub new_lock : SharedLock
new_lock = record { locks = []; mutexes = λ a. new_mutex []; next_address = 0 }

unfoldable pub status_at : ℕ → List Status → Option Status
status_at i [] = none
status_at zero (s ∷ ss) = some s
status_at (suc i) (s ∷ ss) = status_at i ss

unfoldable pub set_status : ℕ → Status → List Status → List Status
set_status i s [] = []
set_status zero s (t ∷ ss) = s ∷ ss
set_status (suc i) s (t ∷ ss) = t ∷ set_status i s ss

-- Whether promise `i` is resolved.
unfoldable pub is_resolved : ℕ → List Status → Bool
unfolding status_at
is_resolved zero ss = true
is_resolved (suc i) ss = elim (status_at i ss) [
  | none ↦ false
  | some s ↦ elim s [ waiting ↦ false | holding ↦ false | released ↦ true | timed_out ↦ false ]
]

-- The write to a mutex through a reference to it.
unfoldable pub set_mutex : SharedLock → ℕ → MutexState → SharedLock
set_mutex l a m = record l { mutexes = λ b. if b == a then m else l.mutexes b }

-- `acquire` up to its `await`, on a mutex: the call is counted and waits for the chain.
unfoldable pub join : MutexState → MutexState
join m = record m { waiters = m.waiters + 1; calls = m.calls ++ waiting ∷ [] }

-- `acquire` up to its `await`, once the map was asked.
unfoldable pub join_at : SharedLock → Text → Option ℕ → SharedLock × ℕ × ℕ
unfolding join set_mutex
join_at l key (some a) = (set_mutex l a (join (l.mutexes a)), a, length (l.mutexes a).calls)
join_at l key none =
    let a = l.next_address in
    let l' = set_mutex l a (join (new_mutex key)) in
    (record l' { locks = insert key a l.locks; next_address = suc a }, a, 0)

-- `acquire` up to its `await`: the lock, and the mutex and the number of the call.
unfoldable pub acquire : SharedLock → Text → SharedLock × ℕ × ℕ
unfolding join_at
acquire l key = join_at l key (lookup key l.locks)

-- The end of the `await` of call `i`, by the promise or by the timer.
unfoldable pub settle : SharedLock → (a i : ℕ) → Status → SharedLock
unfolding set_mutex set_status
settle l a i s = let m = l.mutexes a in set_mutex l a (record m { calls = set_status i s m.calls })

-- `release` of a handle that is not done.
unfoldable pub release_held : SharedLock → (a i : ℕ) → SharedLock
unfolding set_mutex set_status
release_held l a i =
    let m = l.mutexes a in
    let m' = record m { waiters = m.waiters - 1; calls = set_status i released m.calls } in
    let l' = set_mutex l a m' in
    if m'.waiters == 0 then record l' { locks = remove m.key l.locks } else l'

-- `release` by how far the call is: there is no handle to release before the call holds the lock,
-- and a second release does nothing.
unfoldable pub release_as : Option Status → SharedLock → (a i : ℕ) → SharedLock
unfolding release_held
release_as (some holding) l a i = release_held l a i
release_as _ l a i = l

unfoldable pub release_handle : SharedLock → (a i : ℕ) → SharedLock
unfolding release_as status_at
release_handle l a i = release_as (status_at i (l.mutexes a).calls) l a i

-- `withLock` while nothing else runs, around a function that ends as `r` does; nothing is returned
-- when the wait times out.
unfoldable pub with_lock {ℓ} : {R : Type ℓ} → SharedLock → Text → R → SharedLock × Option R
unfolding acquire settle release_handle is_resolved
with_lock l key r =
    let (l', a, i) = acquire l key in
    if is_resolved i (l'.mutexes a).calls
    then (release_handle (settle l' a i holding) a i, some r)
    else (settle l' a i timed_out, none)

-- `waiters`
unfoldable pub waiters_of : SharedLock → Text → ℕ
waiters_of l key = elim (lookup key l.locks) [ none ↦ 0 | some a ↦ (l.mutexes a).waiters ]

-- `hasActiveLocks`
unfoldable pub has_active_locks : SharedLock → Bool
has_active_locks l = elim l.locks [ [] ↦ false | _ ∷ _ ↦ true ]
