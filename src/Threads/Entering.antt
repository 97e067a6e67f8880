-- ===== src/Threads/Entering.antt =====
-- The macros of include/private/skl_threads.h by branches, and what their tests tell of the counters.
use myskl.Prelude.{ℕ, ◌+◌, ◌^◌, ◌<◌, ◌≡◌, true, false, arith}
use myskl.RwLock.{incr, decr, nonzero, no_wake, signal_write, broadcast_read}
use myskl.Threads.{
  Guards, enters, sleeps, is_closed, is_busy, reader_enter, reader_woken, reader_exit, writer_enter,
  writer_woken, writer_exit,
}

pub incr_uint : (n : ℕ) → n + 1 < 2 ^ 32 → incr n ≡ n + 1
unfolding incr
incr_uint n small = omega arith

pub decr_uint : (n : ℕ) → n < 2 ^ 32 → 0 < n → decr n + 1 ≡ n
unfolding decr
decr_uint n small pos = omega arith

module _ (g : Guards) where
  pub is_closed-true : is_closed g ≡ true → 0 < g.writers + g.write_waiters
  unfolding is_closed nonzero
  is_closed-true e = ground arith

  pub is_closed-false : is_closed g ≡ false → g.writers + g.write_waiters ≡ 0
  unfolding is_closed nonzero
  is_closed-false e = ground arith

  pub is_busy-true : is_busy g ≡ true → 0 < g.readers + g.writers
  unfolding is_busy nonzero
  is_busy-true e = ground arith

  pub is_busy-false : is_busy g ≡ false → g.readers + g.writers ≡ 0
  unfolding is_busy nonzero
  is_busy-false e = ground arith

  pub closed-true : 0 < g.writers + g.write_waiters → is_closed g ≡ true
  unfolding is_closed nonzero
  closed-true e = ground arith

  pub closed-false : g.writers + g.write_waiters ≡ 0 → is_closed g ≡ false
  unfolding is_closed nonzero
  closed-false e = ground arith

  pub busy-false : g.readers + g.writers ≡ 0 → is_busy g ≡ false
  unfolding is_busy nonzero
  busy-false e = ground arith

  pub reader_enter-closed :
      is_closed g ≡ true
      → reader_enter g ≡ (sleeps, record g { read_waiters = incr g.read_waiters })
  unfolding reader_enter
  reader_enter-closed e = rw e

  pub reader_enter-open :
      is_closed g ≡ false → reader_enter g ≡ (enters, record g { readers = incr g.readers })
  unfolding reader_enter
  reader_enter-open e = rw e

  pub reader_woken-closed : is_closed g ≡ true → reader_woken g ≡ (sleeps, g)
  unfolding reader_woken
  reader_woken-closed e = rw e

  pub reader_woken-open :
      is_closed g ≡ false
      → reader_woken g
        ≡ (enters, record g { read_waiters = decr g.read_waiters; readers = incr g.readers })
  unfolding reader_woken
  reader_woken-open e = rw e

  pub writer_enter-busy :
      is_busy g ≡ true
      → writer_enter g ≡ (sleeps, record g { write_waiters = incr g.write_waiters })
  unfolding writer_enter
  writer_enter-busy e = rw e

  pub writer_enter-free : is_busy g ≡ false → writer_enter g ≡ (enters, record g { writers = 1 })
  unfolding writer_enter
  writer_enter-free e = rw e

  pub writer_woken-busy : is_busy g ≡ true → writer_woken g ≡ (sleeps, g)
  unfolding writer_woken
  writer_woken-busy e = rw e

  pub writer_woken-free :
      is_busy g ≡ false
      → writer_woken g ≡ (enters, record g { write_waiters = decr g.write_waiters; writers = 1 })
  unfolding writer_woken
  writer_woken-free e = rw e

  pub reader_exit-waited :
      nonzero g.write_waiters ≡ true
      → reader_exit g ≡ (signal_write, record g { readers = decr g.readers })
  unfolding reader_exit
  reader_exit-waited e = rw e

  pub reader_exit-quiet :
      nonzero g.write_waiters ≡ false
      → reader_exit g ≡ (no_wake, record g { readers = decr g.readers })
  unfolding reader_exit
  reader_exit-quiet e = rw e

  pub writer_exit-writer :
      nonzero g.write_waiters ≡ true → writer_exit g ≡ (signal_write, record g { writers = 0 })
  unfolding writer_exit
  writer_exit-writer e = rw e

  pub writer_exit-readers :
      nonzero g.write_waiters ≡ false
      → nonzero g.read_waiters ≡ true
      → writer_exit g ≡ (broadcast_read, record g { writers = 0 })
  unfolding writer_exit
  writer_exit-readers e e' = rw (e, e')

  pub writer_exit-quiet :
      nonzero g.write_waiters ≡ false
      → nonzero g.read_waiters ≡ false
      → writer_exit g ≡ (no_wake, record g { writers = 0 })
  unfolding writer_exit
  writer_exit-quiet e e' = rw (e, e')
