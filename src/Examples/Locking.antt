-- ===== src/Examples/Locking.antt =====
-- Three threads over one lock: one writes, then one reads while the other waits to write.
use myskl.Prelude.{
  ◌+◌, ◌≡◌, ◌≢◌, refl, true, false, List, [], ◌∷◌, map, arith, ◌⊎◌, ◌==◌, if◌then◌else◌,
}
use myskl.RwLock.{
  ok, ebusy, other, Pthread, RwLock, rwl_init, rwl_destroy, rwl_readlock, rwl_writelock, incr,
  positive, nonzero, is_ok, rwl_writeunlock,
}
use myskl.RwLock.System.{
  Phase, fine, read_lock, write_lock, write_unlock, total, is_reading, is_writing, waits_to_write,
  woken_to_write, unsignalled, IsSignal, System, pick, Reach, here, later,
}
use myskl.RwLock.Exclusion.{initial, mutual_exclusion}
use myskl.RwLock.Wakes.{IsWoken, no_lost_wake}
use myskl.RwLock.Lifetime.{new_lock, IsRaw, destroyed, is_busy, rwl_init_lem, rwl_destroy_lem}

-- A signal that wakes every writer
abbrev wake_writer : Phase → Phase
wake_writer Phase.write_asleep = Phase.write_woken
wake_writer p = p

abbrev pub wake_writers : List Phase → List Phase
wake_writers ps = map wake_writer ps

unsignalled-wake_writer : (p : Phase) → unsignalled (wake_writer p) ≡ unsignalled p
unsignalled-wake_writer p = ground arith

wake_writers-same : (ps : List Phase) → map unsignalled (wake_writers ps) ≡ map unsignalled ps
wake_writers-same [] = refl
wake_writers-same (p ∷ ps) = rw (unsignalled-wake_writer p, wake_writers-same ps)

woken-wake_writer : (p : Phase) → woken_to_write (wake_writer p) ≡ waits_to_write p
woken-wake_writer p = ground arith

woken-wake_writers :
    (ps : List Phase) → total woken_to_write (wake_writers ps) ≡ total waits_to_write ps
woken-wake_writers [] = refl
woken-wake_writers (p ∷ ps) = omega (arith, woken-wake_writer p, woken-wake_writers ps)

pub wake_writers-IsSignal : IsSignal wake_writers
wake_writers-IsSignal = record {
  same = wake_writers-same;
  wakes = λ ps h. omega (arith, woken-wake_writers ps);
}

abbrev raw_lock : RwLock
raw_lock = record {
  mutex = false;
  read = false;
  write = false;
  valid = 7;
  r_active = 7;
  w_active = 7;
  r_wait = 7;
  w_wait = 7;
}

-- The first thread writes, the second waits to read and the third to write.
abbrev writing_state : System
writing_state = record {
  lock = record new_lock { w_active = 1; r_wait = 1; w_wait = 1 };
  threads = Phase.writing ∷ Phase.read_asleep ∷ Phase.write_asleep ∷ [];
}

writing_state-Reach : Reach wake_writers true (initial raw_lock 3) writing_state
unfolding rwl_writelock rwl_init is_ok nonzero positive rwl_readlock incr
writing_state-Reach =
    later
      (later (later here (pick [] (Phase.idle ∷ Phase.idle ∷ []) write_lock))
        (pick (Phase.writing ∷ []) (Phase.idle ∷ []) read_lock))
      (pick (Phase.writing ∷ Phase.read_asleep ∷ []) [] write_lock)

-- The first thread has unlocked: the second has been woken.
abbrev woken_state : System
woken_state = record {
  lock = record new_lock { r_wait = 1; w_wait = 1 };
  threads = Phase.idle ∷ Phase.read_woken ∷ Phase.write_asleep ∷ [];
}

woken_state-Reach : Reach wake_writers true (initial raw_lock 3) woken_state
unfolding rwl_writeunlock is_ok nonzero positive
woken_state-Reach =
    later writing_state-Reach (pick [] (Phase.read_asleep ∷ Phase.write_asleep ∷ []) write_unlock)

mutual_exclusion_example :
    total (λ p. is_reading p + is_writing p) (Phase.read_asleep ∷ Phase.write_asleep ∷ []) ≡ 0
mutual_exclusion_example =
    mutual_exclusion wake_writers-IsSignal raw_lock {n = 3} (omega arith) writing_state-Reach []
      (Phase.read_asleep ∷ Phase.write_asleep ∷ []) refl

no_lost_wake_example : IsWoken woken_state.threads woken_state.lock
no_lost_wake_example =
    no_lost_wake wake_writers-IsSignal raw_lock {n = 3} (omega arith) woken_state-Reach refl
      (omega arith)

rwl_destroy_lem_example : rwl_destroy fine writing_state.lock ≡ (
    if total is_busy writing_state.threads == 0
    then (ok, destroyed writing_state.lock)
    else (ebusy, writing_state.lock))
rwl_destroy_lem_example =
    rwl_destroy_lem wake_writers-IsSignal raw_lock {n = 3} (omega arith) writing_state-Reach

-- The second condition variable cannot be made.
abbrev no_write : Pthread
no_write = record fine { write_init = other 11 }

rwl_init_lem_example :
    let (e, l') = rwl_init no_write raw_lock in
    ((e ≡ ok) × (l' ≡ new_lock)) ⊎ ((e ≢ ok) × IsRaw l' × (l'.valid ≡ raw_lock.valid))
rwl_init_lem_example =
    rwl_init_lem no_write raw_lock (record { mutex = refl; read = refl; write = refl }) refl refl
