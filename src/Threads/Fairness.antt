-- ===== src/Threads/Fairness.antt =====
-- The invariant of the threads over a list that the macros of include/private/skl_threads.h guard.
use myskl.Prelude.{
  ℕ, zero, suc, ◌+◌, ◌^◌, ◌<◌, ◌≡◌, refl, sym, ◌∙◌, List, ◌∷◌, ◌++◌, arith, inl, inr, length,
  length-append, ◌⊎◌,
}
use myskl.RwLock.{Wake, no_wake, signal_write, broadcast_read}
use myskl.RwLock.System.{
  Phase, total, is_reading, is_writing, waits_to_read, waits_to_write, sleeps_to_read,
  woken_to_write, IsSignal, after_wake,
}
use myskl.RwLock.Counts.{
  total-signal, total-after_wake, total-length, length-after_wake, more-total, more,
}
use myskl.RwLock.Exclusion.{
  broadcast-reading, unsignalled-reading, broadcast-writing, unsignalled-writing,
  broadcast-waits_to_read, unsignalled-waits_to_read, broadcast-waits_to_write,
  unsignalled-waits_to_write, idles, length-idles, total-idles,
}
use myskl.RwLock.Wakes.{total-broadcast, total-le, unsignalled-sleeps_to_read}
use myskl.Threads.{Guards, rw_init}
use myskl.Threads.Guarded.{Shared, Step, pick, change, Run, here, later}
use myskl.Threads.Owing.{Counted, Owed, Move-Fair}

-- The counters count the threads in each phase.
abbrev pub IsExact : Guards → List Phase → Type 0
IsExact g ps =
    Counted g (total is_reading ps) (total is_writing ps) (total waits_to_read ps)
      (total waits_to_write ps)

abbrev pub OwedAll : Wake → List Phase → Type 0
OwedAll w ps =
    Owed w (total is_reading ps) (total is_writing ps) (total waits_to_write ps)
      (total sleeps_to_read ps) (total woken_to_write ps)

Counted-subst :
    {g : Guards} {r r' w w' rw rw' ww ww' : ℕ}
    → r ≡ r'
    → w ≡ w'
    → rw ≡ rw'
    → ww ≡ ww'
    → Counted g r w rw ww
    → Counted g r' w' rw' ww'
Counted-subst a b c d k = record {
  readers = k.readers ∙ a;
  writers = k.writers ∙ b;
  read_waits = k.read_waits ∙ c;
  write_waits = k.write_waits ∙ d;
  alone = omega (arith, k.alone);
}

Owed-subst :
    {r r' w w' ww ww' asleep asleep' woken woken' : ℕ}
    → r ≡ r'
    → w ≡ w'
    → ww ≡ ww'
    → asleep ≡ asleep'
    → woken ≡ woken'
    → (wake : Wake) → Owed wake r w ww asleep woken
    → Owed wake r' w' ww' asleep' woken'
Owed-subst a b c d e no_wake owed = (omega (arith, owed.0), omega (arith, owed.1))
Owed-subst a b c d e signal_write owed = omega arith
Owed-subst a b c d e broadcast_read owed = omega arith

module _ {signal : List Phase → List Phase} (sig : IsSignal signal) where
  -- The wake pays what is owed.
  after_wake-paid :
      (w : Wake) (ps : List Phase) → OwedAll w ps → OwedAll no_wake (after_wake signal w ps)
  after_wake-paid no_wake ps owed = owed
  after_wake-paid signal_write ps owed =
      let sleeping = total-signal sig sleeps_to_read unsignalled-sleeps_to_read ps in
      let writing = total-signal sig is_writing unsignalled-writing ps in
      let waiting = total-signal sig waits_to_write unsignalled-waits_to_write ps in
      (omega (arith, owed, sleeping, writing, waiting), hand waiting (total waits_to_write ps) refl)
    where
      hand :
          total waits_to_write (signal ps) ≡ total waits_to_write ps
          → (n : ℕ) → total waits_to_write ps ≡ n
          → (0 < total is_reading (signal ps) + total is_writing (signal ps))
            ⊎ ((total waits_to_write (signal ps) ≡ 0) ⊎ (0 < total woken_to_write (signal ps)))
      hand waiting zero e = omega arith
      hand waiting (suc n) e = omega (arith, sig.wakes ps (omega arith))
  after_wake-paid broadcast_read ps owed = (
    inr (total-broadcast ps),
    omega (
      arith,
      total-after_wake sig waits_to_write broadcast-waits_to_write unsignalled-waits_to_write
          broadcast_read ps,
    ),
  )

  -- A wake changes none of the counted totals.
  after_wake-IsExact :
      {g : Guards} (w : Wake) (ps : List Phase) → IsExact g ps → IsExact g (after_wake signal w ps)
  after_wake-IsExact w ps k =
      Counted-subst
        (sym (total-after_wake sig is_reading broadcast-reading unsignalled-reading w ps))
        (sym (total-after_wake sig is_writing broadcast-writing unsignalled-writing w ps))
        (sym (
          total-after_wake sig waits_to_read broadcast-waits_to_read unsignalled-waits_to_read w
            ps))
        (sym (
          total-after_wake sig waits_to_write broadcast-waits_to_write unsignalled-waits_to_write w
            ps))
        k

  module _ {L : Type 0} where
    -- The counters are exact, and no thread that can go on is left asleep.
    abbrev pub IsFair : Shared L → Type 0
    IsFair s = IsExact s.guards s.threads × OwedAll no_wake s.threads

    Step-length : {s t : Shared L} → Step signal s t → length t.threads ≡ length s.threads
    Step-length (pick us vs {p} {p'} {w} move) = omega (
      arith,
      length-after_wake sig w (us ++ p' ∷ vs),
      length-append us (p' ∷ vs),
      length-append us (p ∷ vs),
    )
    Step-length (change us vs y) = refl

    pub Step-IsFair :
        {s t : Shared L} → Step signal s t → length s.threads < 2 ^ 32 → IsFair s → IsFair t
    Step-IsFair (pick us vs {p} {p'} {w} move) few (k, owed) =
        let old : (f : Phase → ℕ) → total f (us ++ p ∷ vs) ≡ more (f p) (total f us + total f vs) =
          λ f. sym (more-total f us p vs) in
        let new : (f : Phase → ℕ)
            → more (f p') (total f us + total f vs) ≡ total f (us ++ p' ∷ vs) =
          λ f. more-total f us p' vs in
        let rest : (Phase → ℕ) → ℕ = λ f. total f us + total f vs in
        let (k', owed') =
          Move-Fair (rest is_reading) (rest is_writing) (rest waits_to_read) (rest waits_to_write)
            (rest sleeps_to_read) (rest woken_to_write)
            (omega (arith, total-length us, total-length vs, length-append us (p ∷ vs))) move
            (omega (arith, total-le us, total-le vs))
            (
              Counted-subst (old is_reading) (old is_writing) (old waits_to_read)
                  (old waits_to_write) k,
              Owed-subst (old is_reading) (old is_writing) (old waits_to_write) (old sleeps_to_read)
                  (old woken_to_write) no_wake owed,
            ) in
        (
          after_wake-IsExact w (us ++ p' ∷ vs) (
              Counted-subst (new is_reading) (new is_writing) (new waits_to_read)
                (new waits_to_write) k'),
          after_wake-paid w (us ++ p' ∷ vs) (
              Owed-subst (new is_reading) (new is_writing) (new waits_to_write) (new sleeps_to_read)
                (new woken_to_write) w owed'),
        )
    Step-IsFair (change us vs y) few fair = fair

    -- `n` threads that hold nothing, and a list that `RW_INIT` has been applied to
    abbrev pub initial : Guards → L → ℕ → Shared L
    initial g x n = record { guards = rw_init g; threads = idles n; list = x }

    initial-IsFair : (g : Guards) (x : L) (n : ℕ) → IsFair (initial g x n)
    unfolding rw_init
    initial-IsFair g x n = (
      record {
        readers = sym (total-idles is_reading refl n);
        writers = sym (total-idles is_writing refl n);
        read_waits = sym (total-idles waits_to_read refl n);
        write_waits = sym (total-idles waits_to_write refl n);
        alone = inl (total-idles is_writing refl n);
      },
      (inr (total-idles sleeps_to_read refl n), inr (inl (total-idles waits_to_write refl n))),
    )

    pub Run-length :
        {P : Shared L → Type 0} {s t : Shared L}
        → Run signal P s t
        → length t.threads ≡ length s.threads
    Run-length here = refl
    Run-length (later run p step) = Step-length step ∙ Run-length run

    pub Run-IsFair :
        {P : Shared L → Type 0} {s t : Shared L}
        → Run signal P s t
        → length s.threads < 2 ^ 32
        → IsFair s
        → IsFair t
    Run-IsFair here few fair = fair
    Run-IsFair (later run p step) few fair =
        Step-IsFair step (omega (arith, Run-length run)) (Run-IsFair run few fair)

    -- Any number of steps
    abbrev pub Reach : Shared L → Shared L → Type 0
    Reach = Run signal (λ s. Unit)

    pub Reach-length :
        (g : Guards) (x : L) {n : ℕ} {s : Shared L} → Reach (initial g x n) s → length s.threads ≡ n
    Reach-length g x {n} run = Run-length run ∙ length-idles n

    pub Reach-IsFair :
        (g : Guards) (x : L) {n : ℕ} {s : Shared L}
        → n < 2 ^ 32
        → Reach (initial g x n) s
        → IsFair s
    Reach-IsFair g x {n} few run =
        Run-IsFair run (omega (arith, length-idles n)) (initial-IsFair g x n)
