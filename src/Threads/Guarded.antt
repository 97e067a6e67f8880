-- ===== src/Threads/Guarded.antt =====
-- Threads over one list that the macros of include/private/skl_threads.h guard, interleaved in any
-- order at the atomic sections of the macros, with spurious wake-ups.
use myskl.Prelude.{◌≡◌, List, ◌∷◌, ◌++◌, ◌⊎◌}
use myskl.RwLock.{Wake, no_wake}
use myskl.RwLock.System.{
  Phase, idle, reading, writing, read_asleep, read_woken, write_asleep, write_woken, after_wake,
}
use myskl.Threads.{
  Guards, Entry, enters, sleeps, reader_enter, reader_woken, reader_exit, writer_enter,
  writer_woken, writer_exit,
}

abbrev pub entry : Phase → Phase → Entry → Phase
entry inside asleep enters = inside
entry inside asleep sleeps = asleep

-- One atomic section of a thread
pub data Move (g : Guards) : Phase → Guards → Phase → Wake → Type 0 where
  read_enter : Move g idle (reader_enter g).1 (entry reading read_asleep (reader_enter g).0) no_wake
  read_resume :
      (p : Phase)
      → (p ≡ read_woken) ⊎ (p ≡ read_asleep)
      → Move g p (reader_woken g).1 (entry reading read_asleep (reader_woken g).0) no_wake
  read_exit : Move g reading (reader_exit g).1 idle (reader_exit g).0
  write_enter :
      Move g idle (writer_enter g).1 (entry writing write_asleep (writer_enter g).0) no_wake
  write_resume :
      (p : Phase)
      → (p ≡ write_woken) ⊎ (p ≡ write_asleep)
      → Move g p (writer_woken g).1 (entry writing write_asleep (writer_woken g).0) no_wake
  write_exit : Move g writing (writer_exit g).1 idle (writer_exit g).0

-- The counters, the threads, and the list that is guarded: a value of any type.
pub record Shared (L : Type 0) : Type 0 where
  pub guards : Guards
  pub threads : List Phase
  pub list : L

module _ {L : Type 0} (signal : List Phase → List Phase) where
  -- A thread goes through a part of a macro, or a thread that is between WRITER_ENTER and
  -- WRITER_EXIT changes the list.
  pub data Step : Shared L → Shared L → Type 0 where
    pick :
        (us vs : List Phase) {g g' : Guards} {p p' : Phase} {w : Wake} {x : L}
        → Move g p g' p' w
        → Step
            (record { guards = g; threads = us ++ p ∷ vs; list = x })
            (record { guards = g'; threads = after_wake signal w (us ++ p' ∷ vs); list = x })
    change :
        (us vs : List Phase) {g : Guards} {x : L} (y : L)
        → Step
            (record { guards = g; threads = us ++ writing ∷ vs; list = x })
            (record { guards = g; threads = us ++ writing ∷ vs; list = y })

  -- Steps from states with the property `P`
  pub data Run (P : Shared L → Type 0) (start : Shared L) : Shared L → Type 0 where
    here : Run P start start
    later : {s t : Shared L} → Run P start s → P s → Step s t → Run P start t
