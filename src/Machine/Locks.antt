-- ===== src/Machine/Locks.antt =====
-- The state of a `pthread_rwlock_t` and of a `pthread_mutex_t`. A thread that takes a lock does not
-- hold it yet, so that a lock that is held is held by another thread: the wait, `blocked`, does not
-- end while that thread keeps it. What a thread finds that takes a lock it already holds is not
-- modelled: POSIX lets it wait for ever or get EDEADLK, which the callers do not look at. A release
-- of a lock that is not held, and the destruction of one that is, are undefined by POSIX.
use simple_timer.Prelude.{ℕ, zero, suc, Bool, true, false}
use simple_timer.Machine.{Run, ok, fault, blocked}

-- `shared n` is held by n + 1 readers.
pub data RwLock : Type 0 where
  free : RwLock
  shared : ℕ → RwLock
  exclusive : RwLock

module _ {S : Type 0} where
  -- `s` is the state in which the lock is `l`, and `put` sets the lock.
  abbrev pub write_lock : RwLock → (RwLock → S) → Run S (Unit {0})
  write_lock free put = ok tt (put exclusive)
  write_lock (shared n) put = blocked
  write_lock exclusive put = blocked

  abbrev pub read_lock : RwLock → (RwLock → S) → Run S (Unit {0})
  read_lock free put = ok tt (put (shared 0))
  read_lock (shared n) put = ok tt (put (shared (suc n)))
  read_lock exclusive put = blocked

  abbrev pub release : RwLock → (RwLock → S) → Run S (Unit {0})
  release free put = fault
  release (shared zero) put = ok tt (put free)
  release (shared (suc n)) put = ok tt (put (shared n))
  release exclusive put = ok tt (put free)

  abbrev pub destroy : RwLock → S → Run S (Unit {0})
  destroy free s = ok tt s
  destroy (shared n) s = fault
  destroy exclusive s = fault

  abbrev pub acquire_mutex : Bool → (Bool → S) → Run S (Unit {0})
  acquire_mutex false put = ok tt (put true)
  acquire_mutex true put = blocked

  abbrev pub release_mutex : Bool → (Bool → S) → Run S (Unit {0})
  release_mutex true put = ok tt (put false)
  release_mutex false put = fault

  abbrev pub destroy_mutex : Bool → S → Run S (Unit {0})
  destroy_mutex false s = ok tt s
  destroy_mutex true s = fault
