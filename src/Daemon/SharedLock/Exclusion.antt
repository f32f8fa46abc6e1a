-- ===== src/Daemon/SharedLock/Exclusion.antt =====
-- What holds of src/daemon/shared-lock.ts in every order of its steps.
use mcp_conductor.Base.{
  ℕ, zero, suc, ◌≤◌, ◌<◌, ◌≡◌, refl, sym, Option, none, some, List, [], ◌∷◌, arith, Text,
  text_eq_iff, lookup, lookup-insert, lookup-remove,
}
use mcp_conductor.Daemon.SharedLock.{
  Status, waiting, holding, released, timed_out, status_at, set_status, SharedLock, new_lock,
  set_mutex, join, join_at, acquire, settle, release_held, release_as, release_handle, waiters_of,
}
use mcp_conductor.Daemon.SharedLock.Order.{
  Orderly, pending, append-Orderly, time_out-Orderly, wake-Orderly, release-Orderly, holder_unique,
  pending-append, pending-set_status,
}
use mcp_conductor.Daemon.SharedLock.Steps.{
  Step, acquires, wakes, expires, releases, Reach, here, next,
}

-- A mutex's calls are in order and counted by `waiters`; the map holds the mutex of each key that
-- has pending calls; and no mutex is in use before it is made.
pub record Inv (l : SharedLock) : Type 0 where
  pub ordered : (a : ℕ) → Orderly (l.mutexes a).calls
  pub counted : (a : ℕ) → (l.mutexes a).waiters ≡ pending (l.mutexes a).calls
  pub listed : (a : ℕ) → 0 < (l.mutexes a).waiters → lookup (l.mutexes a).key l.locks ≡ some a
  pub keyed :
      (key : Text) (a : ℕ)
      → lookup key l.locks ≡ some a
      → ((l.mutexes a).key ≡ key) × (a < l.next_address)
  pub unused : (a : ℕ) → l.next_address ≤ a → (l.mutexes a).calls ≡ []

start-Inv : Inv new_lock
unfolding Orderly pending lookup
start-Inv = record {
  ordered = λ a. tt;
  counted = λ a. refl;
  listed = λ a h. ground arith;
  keyed = λ key a h. ground arith;
  unused = λ a h. refl;
}

join-Inv :
    (l : SharedLock) (key : Text) (a : ℕ)
    → lookup key l.locks ≡ some a
    → Inv l
    → Inv (join_at l key (some a)).0
unfolding join_at join set_mutex
join-Inv l key a e v =
    let at = v.keyed key a e in
    record {
      ordered = λ b. ground (arith, v.ordered b, append-Orderly (l.mutexes b).calls (v.ordered b));
      counted = λ b. ground (arith, v.counted b, pending-append (l.mutexes b).calls);
      listed = λ b h. ground (arith, v.listed b);
      keyed = λ k b h. ground (arith, v.keyed k b);
      unused = λ b h. ground (arith, v.unused b);
    }

make-Inv :
    (l : SharedLock) (key : Text) → lookup key l.locks ≡ none → Inv l → Inv (join_at l key none).0
unfolding join_at join set_mutex Orderly pending
make-Inv l key e v =
    let n = l.next_address in
    record {
      ordered = λ b. ground (arith, v.ordered b);
      counted = λ b. ground (arith, v.counted b);
      listed = λ b h. ground (
        arith,
        v.listed b,
        lookup-insert key (l.mutexes b).key n l.locks,
        lookup-insert key key n l.locks,
        text_eq_iff key (l.mutexes b).key,
        text_eq_iff key key,
      );
      keyed =
          λ k b h. ground (arith, v.keyed k b, lookup-insert key k n l.locks, text_eq_iff key k);
      unused = λ b h. ground (arith, v.unused b);
    }

-- A wait that ends changes neither the count nor the map.
settle-Inv :
    (l : SharedLock) (a i : ℕ) (t : Status)
    → status_at i (l.mutexes a).calls ≡ some waiting
    → pending (t ∷ []) ≡ 1
    → Orderly (set_status i t (l.mutexes a).calls)
    → Inv l
    → Inv (settle l a i t)
unfolding settle set_mutex pending set_status
settle-Inv l a i t e p o v = record {
  ordered = λ b. ground (arith, v.ordered b);
  counted = λ b. ground (arith, v.counted b, pending-set_status (l.mutexes a).calls i waiting t e);
  listed = λ b h. ground (arith, v.listed b);
  keyed = λ k b h. ground (arith, v.keyed k b);
  unused = λ b h. ground (arith, v.unused b);
}

release_held-Inv :
    (l : SharedLock) (a i : ℕ)
    → status_at i (l.mutexes a).calls ≡ some holding
    → Inv l
    → Inv (release_held l a i)
unfolding release_held set_mutex pending set_status
release_held-Inv l a i e v =
    let o = release-Orderly (l.mutexes a).calls i e (v.ordered a) in
    let p = pending-set_status (l.mutexes a).calls i holding released e in
    let c = v.counted a in
    record {
      ordered = λ b. ground (arith, v.ordered b);
      counted = λ b. ground (arith, v.counted b);
      listed = λ b h. ground (
        arith,
        v.listed b,
        v.listed a,
        lookup-remove (l.mutexes a).key (l.mutexes b).key l.locks,
        text_eq_iff (l.mutexes a).key (l.mutexes b).key,
      );
      keyed = λ k b h. ground (arith, v.keyed k b, lookup-remove (l.mutexes a).key k l.locks);
      unused = λ b h. ground (arith, v.unused b);
    }

release_as-Inv :
    (o : Option Status) (l : SharedLock) (a i : ℕ)
    → status_at i (l.mutexes a).calls ≡ o
    → Inv l
    → Inv (release_as o l a i)
unfolding release_as
release_as-Inv none l a i e v = v
release_as-Inv (some waiting) l a i e v = v
release_as-Inv (some holding) l a i e v = release_held-Inv l a i e v
release_as-Inv (some released) l a i e v = v
release_as-Inv (some timed_out) l a i e v = v

join_at-Inv :
    (o : Option ℕ) (l : SharedLock) (key : Text)
    → lookup key l.locks ≡ o
    → Inv l
    → Inv (join_at l key o).0
join_at-Inv none l key e v = make-Inv l key e v
join_at-Inv (some a) l key e v = join-Inv l key a e v

Step-Inv : (l : SharedLock) {m : SharedLock} → Step l m → Inv l → Inv m
unfolding acquire release_handle pending
Step-Inv l (acquires key) v = join_at-Inv (lookup key l.locks) l key refl v
Step-Inv l (wakes a i e t) v =
    settle-Inv l a i holding e refl (wake-Orderly (l.mutexes a).calls i e t (v.ordered a)) v
Step-Inv l (expires a i e t) v =
    settle-Inv l a i timed_out e refl (time_out-Orderly (l.mutexes a).calls i e (v.ordered a)) v
Step-Inv l (releases a i) v = release_as-Inv (status_at i (l.mutexes a).calls) l a i refl v

pub Reach-Inv : (l : SharedLock) {m : SharedLock} → Reach l m → Inv l → Inv m
Reach-Inv l here v = v
Reach-Inv l (next {m} r s) v = Step-Inv m s (Reach-Inv l r v)

pub reached-Inv : {l : SharedLock} → Reach new_lock l → Inv l
reached-Inv r = Reach-Inv new_lock r start-Inv

pending-positive :
    (ss : List Status) (i : ℕ) (s : Status)
    → status_at i ss ≡ some s
    → ¬ (s ≡ released)
    → 0 < pending ss
unfolding status_at pending
pending-positive [] i s e n = ground arith
pending-positive (t ∷ ss) zero s e n = ground (arith, n)
pending-positive (t ∷ ss) (suc i) s e n = ground (arith, pending-positive ss i s e n)

-- The map holds the mutex of a call that has not released the lock.
pub status_at-listed :
    (l : SharedLock) (a i : ℕ) (s : Status)
    → Inv l
    → status_at i (l.mutexes a).calls ≡ some s
    → ¬ (s ≡ released)
    → lookup (l.mutexes a).key l.locks ≡ some a
status_at-listed l a i s v e n =
    v.listed a (ground (arith, v.counted a, pending-positive (l.mutexes a).calls i s e n))

-- Two calls that hold the lock of one key are the same call, whatever calls, time-outs and releases
-- came before.
pub one_holder :
    {l : SharedLock}
    → Reach new_lock l
    → (a i b j : ℕ) → status_at i (l.mutexes a).calls ≡ some holding
    → status_at j (l.mutexes b).calls ≡ some holding
    → (l.mutexes a).key ≡ (l.mutexes b).key
    → (a ≡ b) × (i ≡ j)
one_holder {l} r a i b j e f k =
    let v = reached-Inv r in
    let ne : ¬ (holding ≡ released) = λ h. ground arith in
    let there : lookup (l.mutexes a).key l.locks ≡ some b =
      rw k (status_at-listed l b j holding v f ne) in
    let same : a ≡ b = ground (arith, status_at-listed l a i holding v e ne, there) in
    (same, holder_unique (l.mutexes a).calls i j (v.ordered a) e (rw same f))

-- `waiters` of a key counts the calls for it that have not released the lock, those that timed out
-- included; it counts all of them, since the map holds the only mutex of the key with such calls.
pub waiters_of-pending :
    {l : SharedLock}
    → Reach new_lock l
    → (key : Text) (a : ℕ) → (l.mutexes a).key ≡ key
    → 0 < pending (l.mutexes a).calls
    → (waiters_of l key ≡ pending (l.mutexes a).calls) × (lookup key l.locks ≡ some a)
unfolding waiters_of
waiters_of-pending {l} r key a k p =
    let v = reached-Inv r in
    let there : lookup key l.locks ≡ some a =
      rw (sym k) (v.listed a (ground (arith, v.counted a))) in
    (ground (arith, there, v.counted a), there)
