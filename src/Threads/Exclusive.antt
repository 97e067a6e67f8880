-- ===== src/Threads/Exclusive.antt =====
-- What the macros of include/private/skl_threads.h keep the threads from.
use myskl.Prelude.{ℕ, ◌+◌, ◌^◌, ◌<◌, ◌≡◌, refl, ap, List, ◌∷◌, ◌++◌, arith, ◌≤◌, ◌∙◌}
use myskl.RwLock.System.{Phase, total, is_reading, is_writing, IsSignal, waits_to_write}
use myskl.RwLock.Counts.{total-middle, total-append, total-sum, total-after_wake}
use myskl.Threads.{Entry, enters, sleeps, Guards, writer_enter, writer_woken}
use myskl.Threads.Guarded.{
  entry, Shared, Step, pick, change, Run, here, later, Move, read_resume, read_exit, write_enter,
  write_resume, write_exit, read_enter,
}
use myskl.Threads.Entering.{reader_enter-closed, reader_woken-closed, closed-true}
use myskl.Threads.Fairness.{initial, Reach, IsFair, Reach-IsFair, Run-IsFair, Reach-length}
use myskl.RwLock.{Wake}
use myskl.RwLock.Exclusion.{broadcast-reading, unsignalled-reading}

entry_writing :
    (p : Phase) (e : Entry) → is_reading (entry Phase.writing Phase.write_asleep e) ≤ is_reading p
entry_writing p enters = omega arith
entry_writing p sleeps = omega arith

-- Where a writer is inside or waits, nobody comes in to read.
Move-reading :
    {g g' : Guards} {p p' : Phase} {w : Wake}
    → Move g p g' p' w
    → 0 < g.writers + g.write_waiters
    → is_reading p' ≤ is_reading p
Move-reading {g} read_enter e = rw (reader_enter-closed g (closed-true g e)) (omega arith)
Move-reading {g} (read_resume p was) e = rw (reader_woken-closed g (closed-true g e)) (omega arith)
Move-reading read_exit e = omega arith
Move-reading {g} write_enter e = entry_writing Phase.idle (writer_enter g).0
Move-reading {g} (write_resume p was) e = entry_writing p (writer_woken g).0
Move-reading write_exit e = omega arith

module _ {L : Type 0} {signal : List Phase → List Phase} (sig : IsSignal signal) (g : Guards)
    (x : L) where
  -- However fewer than 2 ^ 32 threads go through the macros around the operations, from the state that
  -- RW_INIT makes, with spurious wake-ups: while one thread is between WRITER_ENTER and WRITER_EXIT,
  -- no other thread is between these or between READER_ENTER and READER_EXIT.
  pub writer_alone :
      {n : ℕ} {s : Shared L}
      → n < 2 ^ 32
      → Reach sig (initial sig g x n) s
      → (us vs : List Phase) → s.threads ≡ us ++ Phase.writing ∷ vs
      → total (λ p. is_reading p + is_writing p) (us ++ vs) ≡ 0
  writer_alone few run us vs split = omega (
    arith,
    (Reach-IsFair sig g x few run).0.alone,
    ap (total is_reading) split,
    ap (total is_writing) split,
    total-middle is_reading us Phase.writing vs,
    total-middle is_writing us Phase.writing vs,
    total-sum is_reading is_writing (us ++ vs),
    total-append is_reading us vs,
    total-append is_writing us vs,
  )

  Step-list :
      {s t : Shared L}
      → Step signal s t
      → IsFair sig s
      → 0 < total is_reading s.threads
      → t.list ≡ s.list
  Step-list (pick us vs move) fair read = refl
  Step-list (change us vs y) fair read = absurd (
      omega (
        arith,
        fair.0.alone,
        total-middle is_reading us Phase.writing vs,
        total-middle is_writing us Phase.writing vs,
      ))

  -- What a reader sees of the list is one state of it: from a state that fewer than 2 ^ 32 threads
  -- reach through the macros, as long as in each state some thread is between READER_ENTER and
  -- READER_EXIT, no step changes the list, although a step of a writer may put any value in its place.
  pub readers_see-one :
      {n : ℕ} {s t : Shared L}
      → n < 2 ^ 32
      → Reach sig (initial sig g x n) s
      → Run signal (λ u. 0 < total is_reading u.threads) s t
      → t.list ≡ s.list
  readers_see-one few run here = refl
  readers_see-one few run (later reads read step) =
      let fair =
        Run-IsFair sig reads (omega (arith, Reach-length sig g x run))
          (Reach-IsFair sig g x few run) in
      Step-list step fair read ∙ readers_see-one few run reads

  -- Writers go first: in a state that fewer than 2 ^ 32 threads reach through the macros, while some
  -- thread waits in WRITER_ENTER, no step lets one more thread in to read.
  pub writers_first :
      {n : ℕ} {s t : Shared L}
      → n < 2 ^ 32
      → Reach sig (initial sig g x n) s
      → 0 < total waits_to_write s.threads
      → Step signal s t
      → total is_reading t.threads ≤ total is_reading s.threads
  writers_first few run waiting (pick us vs {p} {p'} {w} move) = omega (
    arith,
    Move-reading move (omega (arith, (Reach-IsFair sig g x few run).0.write_waits)),
    total-after_wake sig is_reading broadcast-reading unsignalled-reading w (us ++ p' ∷ vs),
    total-middle is_reading us p vs,
    total-middle is_reading us p' vs,
  )
  writers_first few run waiting (change us vs y) = omega arith
