-- ===== src/RwLock/Exclusion.antt =====
-- Mutual exclusion of the read-write lock of src/private/rwlock.c, over any number of threads.
use myskl.Prelude.{
  ℕ, zero, suc, ◌+◌, ◌^◌, ◌<◌, ◌≡◌, refl, sym, ap, ◌∙◌, Bool, List, [], ◌∷◌, ◌++◌, arith, inl,
  length, length-append,
}
use myskl.RwLock.{RwLock, Wake, rwl_init, is_ok}
use myskl.RwLock.System.{
  Phase, total, is_reading, is_writing, waits_to_read, waits_to_write, System, Step, pick, Reach,
  here, later, IsSignal, after_wake, broadcast, unsignalled, fine,
}
use myskl.RwLock.Counts.{
  total-middle, total-after_wake, total-length, length-after_wake, total-append, total-sum,
  more-total, more,
}
use myskl.RwLock.Exact.{Counts, Move-Counts}

-- The lock counts the threads in each phase.
abbrev pub IsExact : System → Type 0
IsExact s =
    Counts s.lock (total is_reading s.threads) (total is_writing s.threads)
      (total waits_to_read s.threads) (total waits_to_write s.threads)

pub Counts-subst :
    {l : RwLock} {r r' w w' rw rw' ww ww' : ℕ}
    → r ≡ r'
    → w ≡ w'
    → rw ≡ rw'
    → ww ≡ ww'
    → Counts l r w rw ww
    → Counts l r' w' rw' ww'
Counts-subst a b c d k = record {
  valid = k.valid;
  readers = k.readers ∙ a;
  writers = k.writers ∙ b;
  read_waits = k.read_waits ∙ c;
  write_waits = k.write_waits ∙ d;
  alone = omega (arith, k.alone);
}

pub broadcast-reading : (p : Phase) → is_reading (broadcast p) ≡ is_reading p
broadcast-reading p = ground arith

pub unsignalled-reading : (p : Phase) → is_reading (unsignalled p) ≡ is_reading p
unsignalled-reading p = ground arith

pub broadcast-writing : (p : Phase) → is_writing (broadcast p) ≡ is_writing p
broadcast-writing p = ground arith

pub unsignalled-writing : (p : Phase) → is_writing (unsignalled p) ≡ is_writing p
unsignalled-writing p = ground arith

pub broadcast-waits_to_read : (p : Phase) → waits_to_read (broadcast p) ≡ waits_to_read p
broadcast-waits_to_read p = ground arith

pub unsignalled-waits_to_read : (p : Phase) → waits_to_read (unsignalled p) ≡ waits_to_read p
unsignalled-waits_to_read p = ground arith

pub broadcast-waits_to_write : (p : Phase) → waits_to_write (broadcast p) ≡ waits_to_write p
broadcast-waits_to_write p = ground arith

pub unsignalled-waits_to_write : (p : Phase) → waits_to_write (unsignalled p) ≡ waits_to_write p
unsignalled-waits_to_write p = ground arith

module _ {signal : List Phase → List Phase} (sig : IsSignal signal) where
  -- What a wake leaves of a weight of the threads.
  kept_total :
      (f : Phase → ℕ)
      → ((p : Phase) → f (broadcast p) ≡ f p)
      → ((p : Phase) → f (unsignalled p) ≡ f p)
      → (w : Wake) (us : List Phase) (p : Phase) (vs : List Phase)
      → more (f p) (total f us + total f vs) ≡ total f (after_wake signal w (us ++ p ∷ vs))
  kept_total f b u w us p vs =
      more-total f us p vs ∙ sym (total-after_wake sig f b u w (us ++ p ∷ vs))

  Step-length :
      {calm : Bool} {s t : System} → Step signal calm s t → length t.threads ≡ length s.threads
  Step-length (pick us vs {p} {p'} {w} move) = omega (
    arith,
    length-after_wake sig w (us ++ p' ∷ vs),
    length-append us (p' ∷ vs),
    length-append us (p ∷ vs),
  )

  Step-IsExact :
      {calm : Bool} {s t : System}
      → Step signal calm s t
      → length s.threads < 2 ^ 31
      → IsExact s
      → IsExact t
  Step-IsExact (pick us vs {p} {p'} {w} move) few k =
      let old : (f : Phase → ℕ) → total f (us ++ p ∷ vs) ≡ more (f p) (total f us + total f vs) =
        λ f. sym (more-total f us p vs) in
      let rest : (f : Phase → ℕ) → ℕ = λ f. total f us + total f vs in
      let k' =
        Move-Counts (rest is_reading) (rest is_writing) (rest waits_to_read) (rest waits_to_write)
          move (omega (arith, total-length us, total-length vs, length-append us (p ∷ vs)))
          (Counts-subst (old is_reading) (old is_writing) (old waits_to_read) (old waits_to_write)
            k) in
      Counts-subst (kept_total is_reading broadcast-reading unsignalled-reading w us p' vs)
        (kept_total is_writing broadcast-writing unsignalled-writing w us p' vs)
        (kept_total waits_to_read broadcast-waits_to_read unsignalled-waits_to_read w us p' vs)
        (kept_total waits_to_write broadcast-waits_to_write unsignalled-waits_to_write w us p' vs)
        k'

abbrev pub idles : ℕ → List Phase
idles zero = []
idles (suc n) = Phase.idle ∷ idles n

-- `n` threads, and a lock that `rwl_init` has made of any memory
abbrev pub initial : RwLock → ℕ → System
initial l n = record { lock = (rwl_init fine l).1; threads = idles n }

pub length-idles : (n : ℕ) → length (idles n) ≡ n
length-idles zero = refl
length-idles (suc n) = ap suc (length-idles n)

pub total-idles : (f : Phase → ℕ) → f Phase.idle ≡ 0 → (n : ℕ) → total f (idles n) ≡ 0
total-idles f e zero = refl
total-idles f e (suc n) = omega (arith, e, total-idles f e n)

pub initial-IsExact : (l : RwLock) (n : ℕ) → IsExact (initial l n)
unfolding rwl_init is_ok
initial-IsExact l n = record {
  valid = refl;
  readers = sym (total-idles is_reading refl n);
  writers = sym (total-idles is_writing refl n);
  read_waits = sym (total-idles waits_to_read refl n);
  write_waits = sym (total-idles waits_to_write refl n);
  alone = inl (total-idles is_writing refl n);
}

module _ {signal : List Phase → List Phase} (sig : IsSignal signal) (l : RwLock) where
  pub Reach-length :
      {calm : Bool} {n : ℕ} {s : System} → Reach signal calm (initial l n) s → length s.threads ≡ n
  Reach-length {n} here = length-idles n
  Reach-length (later r step) = Step-length sig step ∙ Reach-length r

  -- However fewer than 2 ^ 31 threads interleave the calls of a lock that `rwl_init` has made, with
  -- spurious wake-ups and cancelled waits, its integers count the threads that read, that write, that
  -- wait to read and that wait to write; and nobody writes, or one thread does and nobody reads.
  pub Reach-IsExact :
      {calm : Bool} {n : ℕ} {s : System}
      → n < 2 ^ 31
      → Reach signal calm (initial l n) s
      → IsExact s
  Reach-IsExact {n} few here = initial-IsExact l n
  Reach-IsExact few (later r step) =
      Step-IsExact sig step (omega (arith, Reach-length r)) (Reach-IsExact few r)

  -- However fewer than 2 ^ 31 threads interleave the calls of a lock that `rwl_init` has made, with
  -- spurious wake-ups and cancelled waits: while one thread has the lock for writing, no other thread
  -- has it for reading or for writing.
  pub mutual_exclusion :
      {calm : Bool} {n : ℕ} {s : System}
      → n < 2 ^ 31
      → Reach signal calm (initial l n) s
      → (us vs : List Phase) → s.threads ≡ us ++ Phase.writing ∷ vs
      → total (λ p. is_reading p + is_writing p) (us ++ vs) ≡ 0
  mutual_exclusion few r us vs split = omega (
    arith,
    (Reach-IsExact few r).alone,
    ap (total is_reading) split,
    ap (total is_writing) split,
    total-middle is_reading us Phase.writing vs,
    total-middle is_writing us Phase.writing vs,
    total-sum is_reading is_writing (us ++ vs),
    total-append is_reading us vs,
    total-append is_writing us vs,
  )
