-- ===== src/Examples/Guarding.antt =====
-- Three threads over a list of one number, which the macros guard: one reads, then one waits to write
-- and one to read.
use myskl.Prelude.{ℕ, ◌+◌, ◌≤◌, ◌≡◌, refl, List, [], ◌∷◌, arith, inl}
use myskl.RwLock.{incr, decr, nonzero}
use myskl.RwLock.System.{Phase, total, is_reading, is_writing}
use myskl.Threads.{
  Guards, reader_enter, reader_exit, writer_enter, writer_woken, is_closed, is_busy, rw_init,
}
use myskl.Threads.Guarded.{
  Shared, pick, change, here, later, read_enter, read_exit, write_enter, write_resume, Step,
}
use myskl.Threads.Fairness.{initial, Reach}
use myskl.Threads.Exclusive.{readers_see-one, writer_alone, writers_first}
use myskl.Threads.Served.{IsServed, waiting-IsServed}
use myskl.Examples.Locking.{wake_writers, wake_writers-IsSignal}

abbrev raw_guards : Guards
raw_guards = record { readers = 7; writers = 7; read_waiters = 7; write_waiters = 7 }

abbrev start_state : Shared (List ℕ)
start_state = initial wake_writers-IsSignal raw_guards (4 ∷ []) 3

abbrev reading_state : Shared (List ℕ)
reading_state = record {
  guards = record { readers = 1; writers = 0; read_waiters = 0; write_waiters = 0 };
  threads = Phase.reading ∷ Phase.idle ∷ Phase.idle ∷ [];
  list = 4 ∷ [];
}

reading_state-Reach : Reach wake_writers-IsSignal start_state reading_state
unfolding reader_enter is_closed nonzero incr rw_init
reading_state-Reach = later here tt (pick [] (Phase.idle ∷ Phase.idle ∷ []) read_enter)

abbrev kept_state : Shared (List ℕ)
kept_state = record reading_state {
  guards = record { readers = 1; writers = 0; read_waiters = 0; write_waiters = 1 };
  threads = Phase.reading ∷ Phase.write_asleep ∷ Phase.idle ∷ [];
}

reading_state-kept : Step wake_writers reading_state kept_state
unfolding writer_enter is_busy nonzero incr
reading_state-kept = pick (Phase.reading ∷ []) (Phase.idle ∷ []) write_enter

kept_state-Reach : Reach wake_writers-IsSignal start_state kept_state
kept_state-Reach = later reading_state-Reach tt reading_state-kept

abbrev closed_state : Shared (List ℕ)
closed_state = record reading_state {
  guards = record { readers = 1; writers = 0; read_waiters = 1; write_waiters = 1 };
  threads = Phase.reading ∷ Phase.write_asleep ∷ Phase.read_asleep ∷ [];
}

kept_state-closed : Step wake_writers kept_state closed_state
unfolding reader_enter is_closed nonzero incr rw_init
kept_state-closed = pick (Phase.reading ∷ Phase.write_asleep ∷ []) [] read_enter

-- The reader has gone: the writer has been woken.
abbrev handed_state : Shared (List ℕ)
handed_state = record reading_state {
  guards = record { readers = 0; writers = 0; read_waiters = 1; write_waiters = 1 };
  threads = Phase.idle ∷ Phase.write_woken ∷ Phase.read_asleep ∷ [];
}

handed_state-Reach : Reach wake_writers-IsSignal start_state handed_state
unfolding reader_exit nonzero decr
handed_state-Reach =
    later (later kept_state-Reach tt kept_state-closed) tt
      (pick [] (Phase.write_asleep ∷ Phase.read_asleep ∷ []) read_exit)

-- The writer has changed the list.
abbrev changed_state : Shared (List ℕ)
changed_state = record {
  guards = record { readers = 0; writers = 1; read_waiters = 1; write_waiters = 0 };
  threads = Phase.idle ∷ Phase.writing ∷ Phase.read_asleep ∷ [];
  list = 4 ∷ 5 ∷ [];
}

changed_state-Reach : Reach wake_writers-IsSignal start_state changed_state
unfolding writer_woken is_busy nonzero decr
changed_state-Reach =
    later
      (later handed_state-Reach tt (
        pick (Phase.idle ∷ []) (Phase.read_asleep ∷ [])
          (write_resume Phase.write_woken (inl refl))))
      tt (change (Phase.idle ∷ []) (Phase.read_asleep ∷ []) (4 ∷ 5 ∷ []))

readers_see-one_example : closed_state.list ≡ reading_state.list
readers_see-one_example =
    readers_see-one wake_writers-IsSignal raw_guards (4 ∷ []) {n = 3} (omega arith)
      reading_state-Reach
      (later (later here (omega arith) reading_state-kept) (omega arith) kept_state-closed)

writer_alone_example :
    total (λ p. is_reading p + is_writing p) (Phase.idle ∷ Phase.read_asleep ∷ []) ≡ 0
writer_alone_example =
    writer_alone wake_writers-IsSignal raw_guards (4 ∷ []) {n = 3} (omega arith) changed_state-Reach
      (Phase.idle ∷ []) (Phase.read_asleep ∷ []) refl

writers_first_example : total is_reading closed_state.threads ≤ total is_reading kept_state.threads
writers_first_example =
    writers_first wake_writers-IsSignal raw_guards (4 ∷ []) {n = 3} (omega arith) kept_state-Reach
      (omega arith) kept_state-closed

waiting-IsServed_example : IsServed handed_state.threads handed_state.guards
waiting-IsServed_example =
    waiting-IsServed wake_writers-IsSignal raw_guards (4 ∷ []) {n = 3} (omega arith)
      handed_state-Reach refl (omega arith)
