-- ===== src/Threads.antt =====
-- include/private/skl_threads.h: the macros around every operation on a list in a build with
-- THREAD_READERS_WRITERS_V2, and the fields of `MySKL_ls` (include/private/skl_priv.h) that they use.
-- A condition wait ends one atomic section and begins another.
pub mod Guarded
pub mod Entering
pub mod Owing
pub mod Fairness
pub mod Exclusive
pub mod Served
use myskl.Prelude.{ℕ, Bool, ◌||◌, if◌then◌else◌}
use myskl.RwLock.{incr, decr, nonzero, Wake, no_wake, signal_write, broadcast_read}

-- The counters, of type `uint`
pub record Guards : Type 0 where
  pub readers : ℕ
  pub writers : ℕ
  pub read_waiters : ℕ
  pub write_waiters : ℕ

-- The thread is behind the macro, or in `cond_wait`.
pub data Entry : Type 0 where
  enters sleeps : Entry

-- The condition on which a reader waits
unfoldable pub is_closed : Guards → Bool
is_closed g = nonzero g.writers || nonzero g.write_waiters

-- The condition on which a writer waits
unfoldable pub is_busy : Guards → Bool
is_busy g = nonzero g.readers || nonzero g.writers

-- `READER_ENTER`, up to the wait
unfoldable pub reader_enter : Guards → Entry × Guards
reader_enter g =
    if is_closed g
    then (sleeps, record g { read_waiters = incr g.read_waiters })
    else (enters, record g { readers = incr g.readers })

-- `READER_ENTER`, behind the wait
unfoldable pub reader_woken : Guards → Entry × Guards
reader_woken g =
    if is_closed g
    then (sleeps, g)
    else (enters, record g { read_waiters = decr g.read_waiters; readers = incr g.readers })

-- `READER_EXIT`
unfoldable pub reader_exit : Guards → Wake × Guards
reader_exit g = (
  if nonzero g.write_waiters then signal_write else no_wake,
  record g { readers = decr g.readers },
)

-- `WRITER_ENTER`, up to the wait
unfoldable pub writer_enter : Guards → Entry × Guards
writer_enter g =
    if is_busy g
    then (sleeps, record g { write_waiters = incr g.write_waiters })
    else (enters, record g { writers = 1 })

-- `WRITER_ENTER`, behind the wait
unfoldable pub writer_woken : Guards → Entry × Guards
writer_woken g =
    if is_busy g
    then (sleeps, g)
    else (enters, record g { write_waiters = decr g.write_waiters; writers = 1 })

-- `WRITER_EXIT`
unfoldable pub writer_exit : Guards → Wake × Guards
writer_exit g = (
  if nonzero g.write_waiters
      then signal_write
      else if nonzero g.read_waiters
      then broadcast_read
      else no_wake,
  record g { writers = 0 },
)

-- `RW_INIT`
unfoldable pub rw_init : Guards → Guards
rw_init g = record { readers = 0; writers = 0; read_waiters = 0; write_waiters = 0 }
