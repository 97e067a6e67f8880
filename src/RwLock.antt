-- ===== src/RwLock.antt =====
-- src/private/rwlock.c: the read-write lock. The calls of the POSIX threads library are parameters,
-- given by what they return; a condition wait ends one atomic section and begins another.
pub mod System
pub mod Calls
pub mod Counts
pub mod Exact
pub mod Exclusion
pub mod Owed
pub mod Wakes
pub mod Lifetime
pub mod Trying
use myskl.Prelude.{
  ℕ, ◌+◌, ◌-◌, ◌^◌, ◌%◌, Bool, true, false, not, ◌&&◌, ◌||◌, ltb, ◌==◌, if◌then◌else◌,
}

-- A status: 0, EINVAL, EBUSY or another error
pub data Errno : Type 0 where
  ok einval ebusy : Errno
  other : ℕ → Errno

unfoldable pub is_ok : Errno → Bool
is_ok ok = true
is_ok _ = false

-- What the calls of the threads library return in one call of a function of the lock.
pub record Pthread : Type 0 where
  pub mutex_init : Errno
  pub read_init : Errno
  pub write_init : Errno
  pub mutex_lock : Errno
  pub mutex_unlock : Errno
  pub cond_wait : Errno
  pub cond_signal : Errno
  pub cond_broadcast : Errno
  pub mutex_destroy : Errno
  pub read_destroy : Errno
  pub write_destroy : Errno

-- `RWLOCK_VALID`
abbrev pub rwlock_valid : ℕ
rwlock_valid = 0xfacade

-- `rwlock_t`: whether the mutex and the two condition variables are initialised, and the integers,
-- of 32 bits in two's complement.
pub record RwLock : Type 0 where
  pub mutex : Bool
  pub read : Bool
  pub write : Bool
  pub valid : ℕ
  pub r_active : ℕ
  pub w_active : ℕ
  pub r_wait : ℕ
  pub w_wait : ℕ

unfoldable pub incr : ℕ → ℕ
incr n = (n + 1) % 2 ^ 32

unfoldable pub decr : ℕ → ℕ
decr n = (n + (2 ^ 32 - 1)) % 2 ^ 32

-- `n > 0`
unfoldable pub positive : ℕ → Bool
positive n = ltb 0 n && ltb n (2 ^ 31)

-- `n != 0`
unfoldable pub nonzero : ℕ → Bool
nonzero n = not (n == 0)

-- The call returns, or blocks in `pthread_cond_wait`.
pub data Outcome : Type 0 where
  returns : Errno → Outcome
  waits : Outcome

-- The condition variable that the call signals or broadcasts.
pub data Wake : Type 0 where
  no_wake signal_write broadcast_read : Wake

-- `rwl_init`
unfoldable pub rwl_init : Pthread → RwLock → Errno × RwLock
rwl_init p l =
    let l1 = record l { r_active = 0; r_wait = 0; w_wait = 0; w_active = 0 } in
    if not (is_ok p.mutex_init)
    then (p.mutex_init, l1)
    else if not (is_ok p.read_init)
    then (p.read_init, record l1 { mutex = not (is_ok p.mutex_destroy) })
    else if not (is_ok p.write_init)
    then (
      p.write_init,
      record l1 { read = not (is_ok p.read_destroy); mutex = not (is_ok p.mutex_destroy) },
    )
    else (ok, record l1 { mutex = true; read = true; write = true; valid = rwlock_valid })

-- `rwl_destroy`
unfoldable pub rwl_destroy : Pthread → RwLock → Errno × RwLock
rwl_destroy p l =
    if not (l.valid == rwlock_valid)
    then (einval, l)
    else if not (is_ok p.mutex_lock)
    then (p.mutex_lock, l)
    else if positive l.r_active || nonzero l.w_active
    then (ebusy, l)
    else if nonzero l.r_wait || nonzero l.w_wait
    then (ebusy, l)
    else if not (is_ok p.mutex_unlock)
    then (p.mutex_unlock, record l { valid = 0 })
    else (
      if is_ok p.mutex_destroy
          then p.mutex_destroy
          else if is_ok p.read_destroy
          then p.read_destroy
          else p.write_destroy,
      record l {
        valid = 0;
        mutex = not (is_ok p.mutex_destroy);
        read = not (is_ok p.read_destroy);
        write = not (is_ok p.write_destroy);
      },
    )

-- `rwl_readcleanup`
unfoldable pub rwl_readcleanup : RwLock → RwLock
rwl_readcleanup l = record l { r_wait = decr l.r_wait }

-- `rwl_readlock`, up to its return or its wait
unfoldable pub rwl_readlock : Pthread → RwLock → Outcome × RwLock
rwl_readlock p l =
    if not (l.valid == rwlock_valid)
    then (returns einval, l)
    else if not (is_ok p.mutex_lock)
    then (returns p.mutex_lock, l)
    else if nonzero l.w_active
    then (waits, record l { r_wait = incr l.r_wait })
    else (returns ok, record l { r_active = incr l.r_active })

-- `rwl_readlock`, from the end of its wait
unfoldable pub rwl_readlock_woken : Pthread → RwLock → Outcome × RwLock
rwl_readlock_woken p l =
    if not (is_ok p.cond_wait)
    then (returns p.cond_wait, record l { r_wait = decr l.r_wait })
    else if nonzero l.w_active
    then (waits, l)
    else (returns ok, record l { r_wait = decr l.r_wait; r_active = incr l.r_active })

-- `rwl_readtrylock`
unfoldable pub rwl_readtrylock : Pthread → RwLock → Errno × RwLock
rwl_readtrylock p l =
    if not (l.valid == rwlock_valid)
    then (einval, l)
    else if not (is_ok p.mutex_lock)
    then (p.mutex_lock, l)
    else if nonzero l.w_active
    then (if not (is_ok p.mutex_unlock) then p.mutex_unlock else ebusy, l)
    else (p.mutex_unlock, record l { r_active = incr l.r_active })

-- `rwl_readunlock`
unfoldable pub rwl_readunlock : Pthread → RwLock → Errno × Wake × RwLock
rwl_readunlock p l =
    if not (l.valid == rwlock_valid)
    then (einval, no_wake, l)
    else if not (is_ok p.mutex_lock)
    then (p.mutex_lock, no_wake, l)
    else (let l1 = record l { r_active = decr l.r_active } in
        if (l1.r_active == 0) && positive l1.w_wait
        then (if is_ok p.mutex_unlock then p.cond_signal else p.mutex_unlock, signal_write, l1)
        else (p.mutex_unlock, no_wake, l1))

-- `rwl_writecleanup`
unfoldable pub rwl_writecleanup : RwLock → RwLock
rwl_writecleanup l = record l { w_wait = decr l.w_wait }

-- `rwl_writelock`, up to its return or its wait
unfoldable pub rwl_writelock : Pthread → RwLock → Outcome × RwLock
rwl_writelock p l =
    if not (l.valid == rwlock_valid)
    then (returns einval, l)
    else if not (is_ok p.mutex_lock)
    then (returns p.mutex_lock, l)
    else if nonzero l.w_active || positive l.r_active
    then (waits, record l { w_wait = incr l.w_wait })
    else (returns ok, record l { w_active = 1 })

-- `rwl_writelock`, from the end of its wait
unfoldable pub rwl_writelock_woken : Pthread → RwLock → Outcome × RwLock
rwl_writelock_woken p l =
    if not (is_ok p.cond_wait)
    then (returns p.cond_wait, record l { w_wait = decr l.w_wait })
    else if nonzero l.w_active || positive l.r_active
    then (waits, l)
    else (returns ok, record l { w_wait = decr l.w_wait; w_active = 1 })

-- `rwl_writetrylock`
unfoldable pub rwl_writetrylock : Pthread → RwLock → Errno × RwLock
rwl_writetrylock p l =
    if not (l.valid == rwlock_valid)
    then (einval, l)
    else if not (is_ok p.mutex_lock)
    then (p.mutex_lock, l)
    else if nonzero l.w_active || positive l.r_active
    then (ebusy, l)
    else (p.mutex_unlock, record l { w_active = 1 })

-- `rwl_writeunlock`
unfoldable pub rwl_writeunlock : Pthread → RwLock → Errno × Wake × RwLock
rwl_writeunlock p l =
    if not (l.valid == rwlock_valid)
    then (einval, no_wake, l)
    else if not (is_ok p.mutex_lock)
    then (p.mutex_lock, no_wake, l)
    else (let l1 = record l { w_active = 0 } in
        if positive l1.r_wait
        then (
          if is_ok p.cond_broadcast then p.mutex_unlock else p.cond_broadcast,
          broadcast_read,
          l1,
        )
        else if positive l1.w_wait
        then (if is_ok p.cond_signal then p.mutex_unlock else p.cond_signal, signal_write, l1)
        else (p.mutex_unlock, no_wake, l1))
