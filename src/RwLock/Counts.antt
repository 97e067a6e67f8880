-- ===== src/RwLock/Counts.antt =====
-- Totals over the threads.
use myskl.Prelude.{
  ℕ, zero, suc, ◌+◌, ◌≤◌, ◌≡◌, refl, sym, ap, ◌∙◌, List, [], ◌∷◌, ◌++◌, map, arith, length,
  length-map,
}
use myskl.RwLock.{Wake, no_wake, signal_write, broadcast_read}
use myskl.RwLock.System.{
  Phase, total, broadcast, unsignalled, IsSignal, after_wake, is_reading, is_writing, waits_to_read,
  waits_to_write,
}

pub total-middle :
    (f : Phase → ℕ) (us : List Phase) (p : Phase) (vs : List Phase)
    → total f (us ++ p ∷ vs) ≡ f p + (total f us + total f vs)
total-middle f [] p vs = omega arith
total-middle f (u ∷ us) p vs = omega (arith, total-middle f us p vs)

-- Addition that computes on its first argument
abbrev pub more : ℕ → ℕ → ℕ
more zero n = n
more (suc k) n = suc (more k n)

more-add : (k n : ℕ) → more k n ≡ k + n
more-add zero n = omega arith
more-add (suc k) n = omega (arith, more-add k n)

pub more-total :
    (f : Phase → ℕ) (us : List Phase) (p : Phase) (vs : List Phase)
    → more (f p) (total f us + total f vs) ≡ total f (us ++ p ∷ vs)
more-total f us p vs =
    omega (arith, more-add (f p) (total f us + total f vs), total-middle f us p vs)

pub total-append :
    (f : Phase → ℕ) (us vs : List Phase) → total f (us ++ vs) ≡ total f us + total f vs
total-append f [] vs = omega arith
total-append f (u ∷ us) vs = omega (arith, total-append f us vs)

pub total-sum :
    (f g : Phase → ℕ) (ps : List Phase) → total (λ p. f p + g p) ps ≡ total f ps + total g ps
total-sum f g [] = omega arith
total-sum f g (p ∷ ps) = omega (arith, total-sum f g ps)

total-map :
    (f g : Phase → ℕ) (k : Phase → Phase)
    → ((p : Phase) → g (k p) ≡ f p)
    → (ps : List Phase) → total g (map k ps) ≡ total f ps
total-map f g k same [] = refl
total-map f g k same (p ∷ ps) = omega (arith, same p, total-map f g k same ps)

pub total-signal :
    {signal : List Phase → List Phase}
    → IsSignal signal
    → (f : Phase → ℕ) → ((p : Phase) → f (unsignalled p) ≡ f p)
    → (ps : List Phase) → total f (signal ps) ≡ total f ps
total-signal {signal} sig f u ps =
    sym (total-map f f unsignalled u (signal ps))
    ∙ ap (total f) (sig.same ps)
    ∙ total-map f f unsignalled u ps

-- A wake changes no total that does not tell whether a thread is woken.
pub total-after_wake :
    {signal : List Phase → List Phase}
    → IsSignal signal
    → (f : Phase → ℕ) → ((p : Phase) → f (broadcast p) ≡ f p)
    → ((p : Phase) → f (unsignalled p) ≡ f p)
    → (w : Wake) (ps : List Phase) → total f (after_wake signal w ps) ≡ total f ps
total-after_wake sig f b u no_wake ps = refl
total-after_wake sig f b u signal_write ps = total-signal sig f u ps
total-after_wake sig f b u broadcast_read ps = total-map f f broadcast b ps

-- The threads that hold the lock or wait are at most all threads.
pub total-length :
    (ps : List Phase)
    → total is_reading ps + total is_writing ps + total waits_to_read ps + total waits_to_write ps
      ≤ length ps
total-length [] = omega arith
total-length (p ∷ ps) =
    let one : is_reading p + is_writing p + waits_to_read p + waits_to_write p ≤ 1 = weight p in
    omega (arith, one, total-length ps)
  where
    weight : (p : Phase) → is_reading p + is_writing p + waits_to_read p + waits_to_write p ≤ 1
    weight Phase.idle = omega arith
    weight Phase.reading = omega arith
    weight Phase.writing = omega arith
    weight Phase.read_asleep = omega arith
    weight Phase.read_woken = omega arith
    weight Phase.write_asleep = omega arith
    weight Phase.write_woken = omega arith

pub length-after_wake :
    {signal : List Phase → List Phase}
    → IsSignal signal
    → (w : Wake) (ps : List Phase) → length (after_wake signal w ps) ≡ length ps
length-after_wake sig no_wake ps = refl
length-after_wake {signal} sig signal_write ps =
    sym (length-map unsignalled (signal ps)) ∙ ap length (sig.same ps) ∙ length-map unsignalled ps
length-after_wake sig broadcast_read ps = length-map broadcast ps
