-- ===== src/Daemon/SharedLock/Progress.antt =====
-- Who gets a lock of src/daemon/shared-lock.ts next, and when nobody does any more.
use mcp_conductor.Base.{
  ℕ, zero, suc, ◌<◌, ◌≡◌, refl, sym, ◌∙◌, ◌⊎◌, inl, inr, Bool, true, false, Option, none, some,
  List, [], ◌∷◌, length, any, arith, Text, lookup, insert, text_eq_iff, lookup-remove,
}
use mcp_conductor.Daemon.SharedLock.{
  Status, waiting, holding, released, timed_out, status_at, set_status, is_resolved, SharedLock,
  new_lock, set_mutex, join, join_at, acquire, settle, release_held, release_as, release_handle,
  with_lock, waiters_of,
}
use mcp_conductor.Daemon.SharedLock.Order.{Orderly-at, status_at-set_status, status_at-append}
use mcp_conductor.Daemon.SharedLock.Steps.{
  Step, acquires, wakes, expires, releases, Reach, here, next,
}
use mcp_conductor.Daemon.SharedLock.Exclusion.{Inv, Reach-Inv, reached-Inv, status_at-listed}

-- A call that holds the lock, or that waits for a promise that is resolved.
abbrev pub CanMove : List Status → ℕ → Type 0
CanMove ss j =
    (status_at j ss ≡ some holding) ⊎ ((status_at j ss ≡ some waiting) × (is_resolved j ss ≡ true))

abbrev pub has_timed_out : Status → Bool
has_timed_out waiting = false
has_timed_out holding = false
has_timed_out released = false
has_timed_out timed_out = true

CanMove-later : (ss : List Status) (j : ℕ) → CanMove ss j → CanMove (released ∷ ss) (suc j)
unfolding status_at is_resolved
CanMove-later ss j (inl h) = inl h
CanMove-later ss zero (inr h) = inr (h.0, refl)
CanMove-later ss (suc j) (inr h) = inr h

first_mover :
    (ss : List Status) (i : ℕ)
    → status_at i ss ≡ some waiting
    → any has_timed_out ss ≡ false
    → (j : ℕ) × CanMove ss j
unfolding status_at any is_resolved
first_mover [] i e t = ground arith
first_mover (waiting ∷ ss) i e t = (0, inr (refl, refl))
first_mover (holding ∷ ss) i e t = (0, inl refl)
first_mover (released ∷ ss) zero e t = ground arith
first_mover (released ∷ ss) (suc i) e t =
    let (j, c) = first_mover ss i e t in (suc j, CanMove-later ss j c)
first_mover (timed_out ∷ ss) i e t = ground arith

-- As long as no call for the mutex has timed out, a call that waits does not wait in vain: some call
-- holds the lock, or can take it at once.
pub waiting-CanMove :
    (l : SharedLock) (a i : ℕ)
    → status_at i (l.mutexes a).calls ≡ some waiting
    → any has_timed_out (l.mutexes a).calls ≡ false
    → (j : ℕ) × CanMove (l.mutexes a).calls j
waiting-CanMove l a i e t = first_mover (l.mutexes a).calls i e t

-- A call that timed out stays so, at a mutex of the same key.
record Stays (l m : SharedLock) (a i : ℕ) : Type 0 where
  status :
      status_at i (l.mutexes a).calls ≡ some timed_out
      → status_at i (m.mutexes a).calls ≡ some timed_out
  key : status_at i (l.mutexes a).calls ≡ some timed_out → (m.mutexes a).key ≡ (l.mutexes a).key

join_at-Stays :
    (o : Option ℕ) (l : SharedLock) (k : Text) (a i : ℕ) → Inv l → Stays l (join_at l k o).0 a i
unfolding join_at join set_mutex status_at
join_at-Stays none l k a i v = record {
  status = λ h. ground (arith, v.unused a);
  key = λ h. ground (arith, v.unused a);
}
join_at-Stays (some b) l k a i v = record {
  status = λ h. ground (arith, status_at-append (l.mutexes a).calls i timed_out h);
  key = λ h. ground arith;
}

settle-Stays :
    (l : SharedLock) (b j : ℕ) (t : Status) (a i : ℕ)
    → status_at j (l.mutexes b).calls ≡ some waiting
    → Stays l (settle l b j t) a i
unfolding settle set_mutex
settle-Stays l b j t a i e = record {
  status = λ h. ground (arith, status_at-set_status (l.mutexes a).calls i j timed_out waiting t h);
  key = λ h. ground arith;
}

release_as-Stays :
    (o : Option Status) (l : SharedLock) (b j a i : ℕ)
    → status_at j (l.mutexes b).calls ≡ o
    → Stays l (release_as o l b j) a i
unfolding release_as release_held set_mutex
release_as-Stays (some holding) l b j a i e = record {
  status = λ h.
      ground (arith, status_at-set_status (l.mutexes a).calls i j timed_out holding released h);
  key = λ h. ground arith;
}
release_as-Stays (some waiting) l b j a i e = record { status = λ h. h; key = λ h. refl }
release_as-Stays (some released) l b j a i e = record { status = λ h. h; key = λ h. refl }
release_as-Stays (some timed_out) l b j a i e = record { status = λ h. h; key = λ h. refl }
release_as-Stays none l b j a i e = record { status = λ h. h; key = λ h. refl }

Step-Stays : (l : SharedLock) {m : SharedLock} (a i : ℕ) → Inv l → Step l m → Stays l m a i
unfolding acquire release_handle
Step-Stays l a i v (acquires k) = join_at-Stays (lookup k l.locks) l k a i v
Step-Stays l a i v (wakes b j e t) = settle-Stays l b j holding a i e
Step-Stays l a i v (expires b j e t) = settle-Stays l b j timed_out a i e
Step-Stays l a i v (releases b j) =
    release_as-Stays (status_at j (l.mutexes b).calls) l b j a i refl

Reach-Stays : (l : SharedLock) {m : SharedLock} (a i : ℕ) → Inv l → Reach l m → Stays l m a i
Reach-Stays l a i v here = record { status = λ h. h; key = λ h. refl }
Reach-Stays l a i v (next {m} r s) =
    let before = Reach-Stays l a i v r in
    let after = Step-Stays m a i (Reach-Inv l r v) s in
    record {
      status = λ h. after.status (before.status h);
      key = λ h. after.key (before.status h) ∙ before.key h;
    }

status_at-length : (ss : List Status) (i : ℕ) (s : Status) → status_at i ss ≡ some s → i < length ss
unfolding status_at
status_at-length [] i s e = ground arith
status_at-length (t ∷ ss) zero s e = omega arith
status_at-length (t ∷ ss) (suc i) s e = omega (arith, status_at-length ss i s e)

acquire-call :
    (l : SharedLock) (key : Text) (a : ℕ)
    → lookup key l.locks ≡ some a
    → ((acquire l key).1 ≡ a) × ((acquire l key).2 ≡ length (l.mutexes a).calls)
unfolding acquire join_at
acquire-call l key a e = (rw e refl, rw e refl)

-- Once a call of `acquire` has timed out, its key is lost. In every later state, a further `acquire`
-- of the key becomes a later call of the same mutex, and no later call of it ever holds the lock.
pub timed_out_blocks :
    {l m : SharedLock}
    → Reach new_lock l
    → (a i : ℕ) → status_at i (l.mutexes a).calls ≡ some timed_out
    → Reach l m
    → ((acquire m (l.mutexes a).key).1 ≡ a)
      × ((acquire m (l.mutexes a).key).2 ≡ length (m.mutexes a).calls)
      × (i < length (m.mutexes a).calls)
      × ((j : ℕ) → i < j → ¬ (status_at j (m.mutexes a).calls ≡ some holding))
timed_out_blocks {l} {m} r a i e s =
    let v = reached-Inv r in
    let w = Reach-Inv l s v in
    let stays = Reach-Stays l a i v s in
    let ne : ¬ (timed_out ≡ released) = λ h. ground arith in
    let there : lookup (l.mutexes a).key m.locks ≡ some a =
      rw (sym (stays.key e)) (status_at-listed m a i timed_out w (stays.status e) ne) in
    (
      (acquire-call m (l.mutexes a).key a there).0,
      (acquire-call m (l.mutexes a).key a there).1,
      status_at-length (m.mutexes a).calls i timed_out (stays.status e),
      λ j. Orderly-at (m.mutexes a).calls i j timed_out (w.ordered a) (stays.status e) ne,
    )

-- `withLock` on a key that is free runs the function, gives its result, and leaves the key free.
pub with_lock-free {ℓ} :
    {R : Type ℓ} (l : SharedLock) (key : Text) (r : R)
    → lookup key l.locks ≡ none
    → ((with_lock l key r).1 ≡ some r)
      × (waiters_of (with_lock l key r).0 key ≡ 0)
      × (lookup key (with_lock l key r).0.locks ≡ none)
unfolding with_lock waiters_of acquire join_at join settle release_handle release_as release_held
    set_mutex is_resolved status_at set_status
with_lock-free l key r e =
    let freed = lookup-remove key key (insert key l.next_address l.locks) in
    rw e (ground (arith, freed, text_eq_iff key key))
