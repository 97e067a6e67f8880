-- ===== src/RwLock/System.antt =====
-- Threads over one read-write lock of src/private/rwlock.c, interleaved in any order at the atomic
-- sections of its functions. The calls of the threads library succeed.
use myskl.Prelude.{ℕ, ◌+◌, ◌<◌, ◌≡◌, Bool, false, List, [], ◌∷◌, ◌++◌, map, if◌then◌else◌, ◌⊎◌}
use myskl.RwLock.{
  Errno, ok, is_ok, Pthread, RwLock, Outcome, returns, waits, Wake, no_wake, signal_write,
  broadcast_read, rwl_readcleanup, rwl_readlock, rwl_readlock_woken, rwl_readtrylock,
  rwl_readunlock, rwl_writecleanup, rwl_writelock, rwl_writelock_woken, rwl_writetrylock,
  rwl_writeunlock,
}

-- Every call succeeds.
abbrev pub fine : Pthread
fine = record {
  mutex_init = ok;
  read_init = ok;
  write_init = ok;
  mutex_lock = ok;
  mutex_unlock = ok;
  cond_wait = ok;
  cond_signal = ok;
  cond_broadcast = ok;
  mutex_destroy = ok;
  read_destroy = ok;
  write_destroy = ok;
}

-- A thread holds nothing, holds the lock, or is in `pthread_cond_wait`, and then it has been woken
-- or not.
pub data Phase : Type 0 where
  idle reading writing read_asleep read_woken write_asleep write_woken : Phase

abbrev pub entered : Phase → Phase → Phase → Outcome → Phase
entered out inside asleep (returns e) = if is_ok e then inside else out
entered out inside asleep waits = asleep

abbrev pub tried : Phase → Errno → Phase
tried inside e = if is_ok e then inside else idle

-- One atomic section of a thread. Only with `calm` false may a thread in a wait be cancelled.
pub data Move (calm : Bool) (l : RwLock) : Phase → RwLock → Phase → Wake → Type 0 where
  read_lock :
      Move calm l idle
        (rwl_readlock fine l).1
        (entered idle reading read_asleep (rwl_readlock fine l).0)
        no_wake
  read_trylock :
      Move calm l idle (rwl_readtrylock fine l).1 (tried reading (rwl_readtrylock fine l).0) no_wake
  read_unlock : Move calm l reading (rwl_readunlock fine l).2 idle (rwl_readunlock fine l).1
  write_lock :
      Move calm l idle
        (rwl_writelock fine l).1
        (entered idle writing write_asleep (rwl_writelock fine l).0)
        no_wake
  write_trylock :
      Move calm l idle
        (rwl_writetrylock fine l).1
        (tried writing (rwl_writetrylock fine l).0)
        no_wake
  write_unlock : Move calm l writing (rwl_writeunlock fine l).2 idle (rwl_writeunlock fine l).1
  read_resume :
      (p : Phase)
      → (p ≡ read_woken) ⊎ (p ≡ read_asleep)
      → Move calm l p
          (rwl_readlock_woken fine l).1
          (entered idle reading read_asleep (rwl_readlock_woken fine l).0)
          no_wake
  write_resume :
      (p : Phase)
      → (p ≡ write_woken) ⊎ (p ≡ write_asleep)
      → Move calm l p
          (rwl_writelock_woken fine l).1
          (entered idle writing write_asleep (rwl_writelock_woken fine l).0)
          no_wake
  read_cancel :
      (p : Phase)
      → (p ≡ read_woken) ⊎ (p ≡ read_asleep)
      → calm ≡ false
      → Move calm l p (rwl_readcleanup l) idle no_wake
  write_cancel :
      (p : Phase)
      → (p ≡ write_woken) ⊎ (p ≡ write_asleep)
      → calm ≡ false
      → Move calm l p (rwl_writecleanup l) idle no_wake

-- The number of threads, weighted.
abbrev pub total : (Phase → ℕ) → List Phase → ℕ
total f [] = 0
total f (p ∷ ps) = f p + total f ps

abbrev pub is_reading : Phase → ℕ
is_reading reading = 1
is_reading _ = 0

abbrev pub is_writing : Phase → ℕ
is_writing writing = 1
is_writing _ = 0

abbrev pub waits_to_read : Phase → ℕ
waits_to_read read_asleep = 1
waits_to_read read_woken = 1
waits_to_read _ = 0

abbrev pub waits_to_write : Phase → ℕ
waits_to_write write_asleep = 1
waits_to_write write_woken = 1
waits_to_write _ = 0

abbrev pub sleeps_to_read : Phase → ℕ
sleeps_to_read read_asleep = 1
sleeps_to_read _ = 0

abbrev pub woken_to_write : Phase → ℕ
woken_to_write write_woken = 1
woken_to_write _ = 0

-- `pthread_cond_broadcast` on the readers' condition variable
abbrev pub broadcast : Phase → Phase
broadcast read_asleep = read_woken
broadcast p = p

-- All that a signal to the writers leaves as it is.
abbrev pub unsignalled : Phase → Phase
unsignalled write_woken = write_asleep
unsignalled p = p

-- What is documented of `pthread_cond_signal` on the writers' condition variable: it wakes one or
-- more of the threads that are blocked on it, if there are any.
pub record IsSignal (signal : List Phase → List Phase) : Type 0 where
  pub same : (ps : List Phase) → map unsignalled (signal ps) ≡ map unsignalled ps
  pub wakes : (ps : List Phase) → 0 < total waits_to_write ps → 0 < total woken_to_write (signal ps)

pub record System : Type 0 where
  pub lock : RwLock
  pub threads : List Phase

module _ (signal : List Phase → List Phase) where
  abbrev pub after_wake : Wake → List Phase → List Phase
  after_wake no_wake ps = ps
  after_wake signal_write ps = signal ps
  after_wake broadcast_read ps = map broadcast ps

  pub data Step (calm : Bool) : System → System → Type 0 where
    pick :
        (us vs : List Phase) {l l' : RwLock} {p p' : Phase} {w : Wake}
        → Move calm l p l' p' w
        → Step calm
            (record { lock = l; threads = us ++ p ∷ vs })
            (record { lock = l'; threads = after_wake w (us ++ p' ∷ vs) })

  pub data Reach (calm : Bool) (start : System) : System → Type 0 where
    here : Reach calm start start
    later : {s t : System} → Reach calm start s → Step calm s t → Reach calm start t
