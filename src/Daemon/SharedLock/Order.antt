-- ===== src/Daemon/SharedLock/Order.antt =====
-- The calls of one mutex of src/daemon/shared-lock.ts, in the order of its promise chain.
use mcp_conductor.Base.{
  ℕ, zero, suc, ◌+◌, ◌<◌, ◌≡◌, refl, true, false, some, List, [], ◌∷◌, ◌++◌, arith,
}
use mcp_conductor.Daemon.SharedLock.{
  Status, waiting, holding, released, timed_out, status_at, set_status, is_resolved,
}

-- The wait of a call is not over, or was in vain.
abbrev pub IsStuck : Status → Type 0
IsStuck waiting = Unit {0}
IsStuck holding = ⊥
IsStuck released = ⊥
IsStuck timed_out = Unit {0}

pub AllStuck : List Status → Type 0
AllStuck [] = Unit {0}
AllStuck (s ∷ ss) = IsStuck s × AllStuck ss

-- After the first call that has not released the lock, no call has got it.
unfoldable pub Orderly : List Status → Type 0
unfolding AllStuck
Orderly [] = Unit {0}
Orderly (waiting ∷ ss) = AllStuck ss
Orderly (holding ∷ ss) = AllStuck ss
Orderly (released ∷ ss) = Orderly ss
Orderly (timed_out ∷ ss) = AllStuck ss

-- The calls that `waiters` counts: all but those that released the lock.
unfoldable pub pending : List Status → ℕ
pending [] = 0
pending (waiting ∷ ss) = suc (pending ss)
pending (holding ∷ ss) = suc (pending ss)
pending (released ∷ ss) = pending ss
pending (timed_out ∷ ss) = suc (pending ss)

AllStuck-at :
    (ss : List Status) (i : ℕ) (s : Status) → AllStuck ss → status_at i ss ≡ some s → IsStuck s
unfolding AllStuck status_at
AllStuck-at [] i s q e = ground arith
AllStuck-at (t ∷ ss) zero s q e = ground arith
AllStuck-at (t ∷ ss) (suc i) s q e = AllStuck-at ss i s q.1 e

AllStuck-append : (ss : List Status) → AllStuck ss → AllStuck (ss ++ waiting ∷ [])
unfolding AllStuck
AllStuck-append [] q = (tt, tt)
AllStuck-append (s ∷ ss) q = (q.0, AllStuck-append ss q.1)

AllStuck-time_out : (ss : List Status) (i : ℕ) → AllStuck ss → AllStuck (set_status i timed_out ss)
unfolding AllStuck set_status
AllStuck-time_out [] i q = tt
AllStuck-time_out (s ∷ ss) zero q = (tt, q.1)
AllStuck-time_out (s ∷ ss) (suc i) q = (q.0, AllStuck-time_out ss i q.1)

pub append-Orderly : (ss : List Status) → Orderly ss → Orderly (ss ++ waiting ∷ [])
unfolding Orderly AllStuck
append-Orderly [] o = tt
append-Orderly (waiting ∷ ss) o = AllStuck-append ss o
append-Orderly (holding ∷ ss) o = AllStuck-append ss o
append-Orderly (released ∷ ss) o = append-Orderly ss o
append-Orderly (timed_out ∷ ss) o = AllStuck-append ss o

pub time_out-Orderly :
    (ss : List Status) (i : ℕ)
    → status_at i ss ≡ some waiting
    → Orderly ss
    → Orderly (set_status i timed_out ss)
unfolding Orderly set_status status_at
time_out-Orderly [] i e o = tt
time_out-Orderly (waiting ∷ ss) zero e o = o
time_out-Orderly (holding ∷ ss) zero e o = o
time_out-Orderly (released ∷ ss) zero e o = ground arith
time_out-Orderly (timed_out ∷ ss) zero e o = o
time_out-Orderly (waiting ∷ ss) (suc i) e o = AllStuck-time_out ss i o
time_out-Orderly (holding ∷ ss) (suc i) e o = AllStuck-time_out ss i o
time_out-Orderly (released ∷ ss) (suc i) e o = time_out-Orderly ss i e o
time_out-Orderly (timed_out ∷ ss) (suc i) e o = AllStuck-time_out ss i o

AllStuck-unresolved : (ss : List Status) (i : ℕ) → AllStuck ss → is_resolved (suc i) ss ≡ false
unfolding AllStuck is_resolved status_at
AllStuck-unresolved [] i q = refl
AllStuck-unresolved (waiting ∷ ss) zero q = refl
AllStuck-unresolved (timed_out ∷ ss) zero q = refl
AllStuck-unresolved (holding ∷ ss) i q = absurd q.0
AllStuck-unresolved (released ∷ ss) i q = absurd q.0
AllStuck-unresolved (waiting ∷ ss) (suc i) q = AllStuck-unresolved ss i q.1
AllStuck-unresolved (timed_out ∷ ss) (suc i) q = AllStuck-unresolved ss i q.1

AllStuck-Orderly : (ss : List Status) → AllStuck ss → Orderly ss
unfolding AllStuck Orderly
AllStuck-Orderly [] q = tt
AllStuck-Orderly (waiting ∷ ss) q = q.1
AllStuck-Orderly (timed_out ∷ ss) q = q.1
AllStuck-Orderly (holding ∷ ss) q = absurd q.0
AllStuck-Orderly (released ∷ ss) q = absurd q.0

-- Only the call whose promise is resolved gets the lock.
pub wake-Orderly :
    (ss : List Status) (i : ℕ)
    → status_at i ss ≡ some waiting
    → is_resolved i ss ≡ true
    → Orderly ss
    → Orderly (set_status i holding ss)
unfolding Orderly set_status status_at is_resolved
wake-Orderly [] i e t o = tt
wake-Orderly (waiting ∷ ss) zero e t o = o
wake-Orderly (holding ∷ ss) zero e t o = o
wake-Orderly (released ∷ ss) zero e t o = ground arith
wake-Orderly (timed_out ∷ ss) zero e t o = o
wake-Orderly (released ∷ ss) (suc zero) e t o = wake-Orderly ss 0 e refl o
wake-Orderly (released ∷ ss) (suc (suc i)) e t o = wake-Orderly ss (suc i) e t o
wake-Orderly (waiting ∷ ss) (suc zero) e t o = ground arith
wake-Orderly (holding ∷ ss) (suc zero) e t o = ground arith
wake-Orderly (timed_out ∷ ss) (suc zero) e t o = ground arith
wake-Orderly (waiting ∷ ss) (suc (suc i)) e t o = ground (arith, AllStuck-unresolved ss i o)
wake-Orderly (holding ∷ ss) (suc (suc i)) e t o = ground (arith, AllStuck-unresolved ss i o)
wake-Orderly (timed_out ∷ ss) (suc (suc i)) e t o = ground (arith, AllStuck-unresolved ss i o)

pub release-Orderly :
    (ss : List Status) (i : ℕ)
    → status_at i ss ≡ some holding
    → Orderly ss
    → Orderly (set_status i released ss)
unfolding Orderly set_status status_at
release-Orderly [] i e o = tt
release-Orderly (waiting ∷ ss) zero e o = ground arith
release-Orderly (holding ∷ ss) zero e o = AllStuck-Orderly ss o
release-Orderly (released ∷ ss) zero e o = o
release-Orderly (timed_out ∷ ss) zero e o = ground arith
release-Orderly (waiting ∷ ss) (suc i) e o = absurd (AllStuck-at ss i holding o e)
release-Orderly (holding ∷ ss) (suc i) e o = absurd (AllStuck-at ss i holding o e)
release-Orderly (released ∷ ss) (suc i) e o = release-Orderly ss i e o
release-Orderly (timed_out ∷ ss) (suc i) e o = absurd (AllStuck-at ss i holding o e)

-- After a call that holds the lock, or that timed out, no other has it.
pub Orderly-at :
    (ss : List Status) (i j : ℕ) (s : Status)
    → Orderly ss
    → status_at i ss ≡ some s
    → ¬ (s ≡ released)
    → i < j
    → ¬ (status_at j ss ≡ some holding)
unfolding Orderly status_at
Orderly-at [] i j s o e r h f = ground arith
Orderly-at (t ∷ ss) i zero s o e r h f = ground arith
Orderly-at (waiting ∷ ss) i (suc j) s o e r h f = AllStuck-at ss j holding o f
Orderly-at (holding ∷ ss) i (suc j) s o e r h f = AllStuck-at ss j holding o f
Orderly-at (timed_out ∷ ss) i (suc j) s o e r h f = AllStuck-at ss j holding o f
Orderly-at (released ∷ ss) zero (suc j) s o e r h f = ground (arith, r)
Orderly-at (released ∷ ss) (suc i) (suc j) s o e r h f = Orderly-at ss i j s o e r (omega arith) f

pub holder_unique :
    (ss : List Status) (i j : ℕ)
    → Orderly ss
    → status_at i ss ≡ some holding
    → status_at j ss ≡ some holding
    → i ≡ j
holder_unique ss i j o e f =
    let ne : ¬ (holding ≡ released) = λ h. ground arith in
    ground (arith, Orderly-at ss i j holding o e ne, Orderly-at ss j i holding o f ne)

pub pending-append : (ss : List Status) → pending (ss ++ waiting ∷ []) ≡ pending ss + 1
unfolding pending
pending-append [] = refl
pending-append (waiting ∷ ss) = omega (arith, pending-append ss)
pending-append (holding ∷ ss) = omega (arith, pending-append ss)
pending-append (released ∷ ss) = pending-append ss
pending-append (timed_out ∷ ss) = omega (arith, pending-append ss)

-- How the number of calls that `waiters` counts changes when a call goes on.
pub pending-set_status :
    (ss : List Status) (i : ℕ) (s t : Status)
    → status_at i ss ≡ some s
    → pending (set_status i t ss) + pending (s ∷ []) ≡ pending ss + pending (t ∷ [])
unfolding pending set_status status_at
pending-set_status [] i s t e = ground arith
pending-set_status (u ∷ ss) zero s t e = ground arith
pending-set_status (u ∷ ss) (suc i) s t e = ground (arith, pending-set_status ss i s t e)

pub status_at-set_status :
    (ss : List Status) (i j : ℕ) (s t u : Status)
    → status_at i ss ≡ some s
    → status_at j ss ≡ some t
    → ¬ (s ≡ t)
    → status_at i (set_status j u ss) ≡ some s
unfolding set_status status_at
status_at-set_status [] i j s t u e f n = ground arith
status_at-set_status (v ∷ ss) zero zero s t u e f n = ground (arith, n)
status_at-set_status (v ∷ ss) zero (suc j) s t u e f n = e
status_at-set_status (v ∷ ss) (suc i) zero s t u e f n = e
status_at-set_status (v ∷ ss) (suc i) (suc j) s t u e f n = status_at-set_status ss i j s t u e f n

pub status_at-append :
    (ss : List Status) (i : ℕ) (s : Status)
    → status_at i ss ≡ some s
    → status_at i (ss ++ waiting ∷ []) ≡ some s
unfolding status_at
status_at-append [] i s e = ground arith
status_at-append (t ∷ ss) zero s e = e
status_at-append (t ∷ ss) (suc i) s e = status_at-append ss i s e
