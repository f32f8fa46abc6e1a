-- ===== src/Daemon/SharedLock/Steps.antt =====
-- The steps of src/daemon/shared-lock.ts in any order: calls of `acquire`, waits that end by their
-- promise or by their timer, and releases of handles, the second and later ones included. A timer
-- ends a wait only while its promise is not resolved, as the promise's reactions run first.
use mcp_conductor.Base.{ℕ, ◌≡◌, true, false, some, Text}
use mcp_conductor.Daemon.SharedLock.{
  SharedLock, waiting, holding, timed_out, status_at, is_resolved, acquire, settle, release_handle,
}

pub data Step (l : SharedLock) : SharedLock → Type 0 where
  acquires : (key : Text) → Step l (acquire l key).0
  wakes :
      (a i : ℕ)
      → status_at i (l.mutexes a).calls ≡ some waiting
      → is_resolved i (l.mutexes a).calls ≡ true
      → Step l (settle l a i holding)
  expires :
      (a i : ℕ)
      → status_at i (l.mutexes a).calls ≡ some waiting
      → is_resolved i (l.mutexes a).calls ≡ false
      → Step l (settle l a i timed_out)
  releases : (a i : ℕ) → Step l (release_handle l a i)

pub data Reach (l : SharedLock) : SharedLock → Type 0 where
  here : Reach l l
  next : {m n : SharedLock} → Reach l m → Step m n → Reach l n
