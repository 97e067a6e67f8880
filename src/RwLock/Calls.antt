-- ===== src/RwLock/Calls.antt =====
-- The functions of src/private/rwlock.c on a valid lock, when the calls of the threads library
-- succeed, by branches.
use myskl.Prelude.{◌≡◌, Bool, true, false, ◌||◌, ◌&&◌, ◌==◌, arith}
use myskl.RwLock.{
  ok, ebusy, RwLock, returns, waits, rwlock_valid, incr, decr, positive, nonzero, no_wake,
  signal_write, broadcast_read, rwl_readlock, rwl_readlock_woken, rwl_readtrylock, rwl_readunlock,
  rwl_writelock, rwl_writelock_woken, rwl_writetrylock, rwl_writeunlock, is_ok,
}
use myskl.RwLock.System.{fine}

pub valid-true : (l : RwLock) → l.valid ≡ rwlock_valid → (l.valid == rwlock_valid) ≡ true
valid-true l e = ground arith

-- Whether somebody holds the lock, as the writers' functions test it.
abbrev pub is_held : RwLock → Bool
is_held l = nonzero l.w_active || positive l.r_active

module _ (l : RwLock) (valid : l.valid ≡ rwlock_valid) where
  pub rwl_readlock-held :
      nonzero l.w_active ≡ true → rwl_readlock fine l ≡ (waits, record l { r_wait = incr l.r_wait })
  unfolding rwl_readlock is_ok
  rwl_readlock-held e = rw (valid-true l valid, e)

  pub rwl_readlock-free :
      nonzero l.w_active ≡ false
      → rwl_readlock fine l ≡ (returns ok, record l { r_active = incr l.r_active })
  unfolding rwl_readlock is_ok
  rwl_readlock-free e = rw (valid-true l valid, e)

  pub rwl_readlock_woken-held : nonzero l.w_active ≡ true → rwl_readlock_woken fine l ≡ (waits, l)
  unfolding rwl_readlock_woken is_ok
  rwl_readlock_woken-held e = rw e

  pub rwl_readlock_woken-free :
      nonzero l.w_active ≡ false
      → rwl_readlock_woken fine l
        ≡ (returns ok, record l { r_wait = decr l.r_wait; r_active = incr l.r_active })
  unfolding rwl_readlock_woken is_ok
  rwl_readlock_woken-free e = rw e

  pub rwl_readtrylock-held : nonzero l.w_active ≡ true → rwl_readtrylock fine l ≡ (ebusy, l)
  unfolding rwl_readtrylock is_ok
  rwl_readtrylock-held e = rw (valid-true l valid, e)

  pub rwl_readtrylock-free :
      nonzero l.w_active ≡ false
      → rwl_readtrylock fine l ≡ (ok, record l { r_active = incr l.r_active })
  unfolding rwl_readtrylock is_ok
  rwl_readtrylock-free e = rw (valid-true l valid, e)

  pub rwl_readunlock-last :
      (decr l.r_active == 0) && positive l.w_wait ≡ true
      → rwl_readunlock fine l ≡ (ok, signal_write, record l { r_active = decr l.r_active })
  unfolding rwl_readunlock is_ok
  rwl_readunlock-last e = rw (valid-true l valid, e)

  pub rwl_readunlock-other :
      (decr l.r_active == 0) && positive l.w_wait ≡ false
      → rwl_readunlock fine l ≡ (ok, no_wake, record l { r_active = decr l.r_active })
  unfolding rwl_readunlock is_ok
  rwl_readunlock-other e = rw (valid-true l valid, e)

  pub rwl_writelock-held :
      is_held l ≡ true → rwl_writelock fine l ≡ (waits, record l { w_wait = incr l.w_wait })
  unfolding rwl_writelock is_ok
  rwl_writelock-held e = rw (valid-true l valid, e)

  pub rwl_writelock-free :
      is_held l ≡ false → rwl_writelock fine l ≡ (returns ok, record l { w_active = 1 })
  unfolding rwl_writelock is_ok
  rwl_writelock-free e = rw (valid-true l valid, e)

  pub rwl_writelock_woken-held : is_held l ≡ true → rwl_writelock_woken fine l ≡ (waits, l)
  unfolding rwl_writelock_woken is_ok
  rwl_writelock_woken-held e = rw e

  pub rwl_writelock_woken-free :
      is_held l ≡ false
      → rwl_writelock_woken fine l ≡ (returns ok, record l { w_wait = decr l.w_wait; w_active = 1 })
  unfolding rwl_writelock_woken is_ok
  rwl_writelock_woken-free e = rw e

  pub rwl_writetrylock-held : is_held l ≡ true → rwl_writetrylock fine l ≡ (ebusy, l)
  unfolding rwl_writetrylock is_ok
  rwl_writetrylock-held e = rw (valid-true l valid, e)

  pub rwl_writetrylock-free :
      is_held l ≡ false → rwl_writetrylock fine l ≡ (ok, record l { w_active = 1 })
  unfolding rwl_writetrylock is_ok
  rwl_writetrylock-free e = rw (valid-true l valid, e)

  pub rwl_writeunlock-readers :
      positive l.r_wait ≡ true
      → rwl_writeunlock fine l ≡ (ok, broadcast_read, record l { w_active = 0 })
  unfolding rwl_writeunlock is_ok
  rwl_writeunlock-readers e = rw (valid-true l valid, e)

  pub rwl_writeunlock-writer :
      positive l.r_wait ≡ false
      → positive l.w_wait ≡ true
      → rwl_writeunlock fine l ≡ (ok, signal_write, record l { w_active = 0 })
  unfolding rwl_writeunlock is_ok
  rwl_writeunlock-writer e k = rw (valid-true l valid, e, k)

  pub rwl_writeunlock-nobody :
      positive l.r_wait ≡ false
      → positive l.w_wait ≡ false
      → rwl_writeunlock fine l ≡ (ok, no_wake, record l { w_active = 0 })
  unfolding rwl_writeunlock is_ok
  rwl_writeunlock-nobody e k = rw (valid-true l valid, e, k)
