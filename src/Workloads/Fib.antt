-- ===== src/Workloads/Fib.antt =====
-- The computation of workloads/durability_tests/checkpoint.cpp: a loop over ints for the Fibonacci
-- numbers.
use wow_so_distributed.Base.{
  ℕ, zero, suc, ◌+◌, ◌≤◌, ◌<◌, ◌^◌, ◌≡◌, refl, ap, sym, arith, ℤ, pos, ◌+ℤ◌, int32, ◌-◌,
}
use wow_so_distributed.Base.Int.{pos_part}

-- The rounds of the loop; the sum is an int's.
unfoldable pub fib_rounds : ℕ → ℤ → ℤ → ℤ
fib_rounds zero fib_now fib_prev = fib_now
fib_rounds (suc rounds) fib_now fib_prev = fib_rounds rounds (int32 (fib_now +ℤ fib_prev)) fib_now

-- `i` runs from 2 to the number.
unfoldable pub fib_loop : ℤ → ℤ
unfolding fib_rounds
fib_loop very_imp_number = fib_rounds (pos_part very_imp_number - 1) (pos 1) (pos 0)

-- The Fibonacci numbers.
unfoldable pub fib : ℕ → ℕ
fib zero = 0
fib (suc zero) = 1
fib (suc (suc n)) = fib (suc n) + fib n

unfoldable iterate : ℕ → ℕ → ℕ → ℕ
iterate zero now prev = now
iterate (suc n) now prev = iterate n (now + prev) now

iterate-fib : (n k m : ℕ) → m ≡ suc (n + k) → iterate n (fib (suc k)) (fib k) ≡ fib m
unfolding iterate fib
iterate-fib zero k m e = let e' : suc k ≡ m = omega (arith, e) in ap fib e'
iterate-fib (suc n) k m e = iterate-fib n (suc k) m (omega (arith, e))

fib_grows : (n : ℕ) → fib n ≤ fib (suc n)
unfolding fib
fib_grows zero = omega arith
fib_grows (suc n) = omega arith

fib_mono : (n k m : ℕ) → m ≡ n + k → fib n ≤ fib m
fib_mono n zero m e = let e' : m ≡ n = omega (arith, e) in rw e' (omega arith)
fib_mono n (suc k) m e =
    let e' : m ≡ suc (n + k) = omega (arith, e) in
    rw e' (omega (arith, fib_mono n k (n + k) refl, fib_grows (n + k)))

fib_46 : fib 46 ≡ 1836311903
unfolding iterate fib
fib_46 = sym (iterate-fib 45 0 46 refl)

fits : (n : ℕ) → n ≤ 46 → fib n < 2 ^ 31
fits n small = omega (arith, fib_mono n (46 - n) 46 (omega (arith, small)), fib_46)

int32_pos : (n : ℕ) → n < 2 ^ 31 → int32 (pos n) ≡ pos n
int32_pos n small = ground (arith, small)

int32_sum : (a b : ℕ) → a + b < 2 ^ 31 → int32 (pos a +ℤ pos b) ≡ pos (a + b)
int32_sum a b small =
    let e : pos a +ℤ pos b ≡ pos (a + b) = ground arith in rw e (int32_pos (a + b) small)

fib_rounds-fib :
    (n k m : ℕ)
    → m ≡ suc (n + k)
    → m ≤ 46
    → fib_rounds n (pos (fib (suc k))) (pos (fib k)) ≡ pos (fib m)
unfolding fib_rounds fib
fib_rounds-fib zero k m e small = let e' : suc k ≡ m = omega (arith, e) in ap (λ j. pos (fib j)) e'
fib_rounds-fib (suc n) k m e small =
    let in_range = fits (suc (suc k)) (omega (arith, e, small)) in
    let sum : int32 (pos (fib (suc k)) +ℤ pos (fib k)) ≡ pos (fib (suc (suc k))) =
      int32_sum (fib (suc k)) (fib k) in_range in
    rw sum (fib_rounds-fib n (suc k) m (omega (arith, e)) small)

-- For a number from 1 to 46 the loop over ints, whose sums wrap around, gives the Fibonacci number.
pub fib_loop-fib : (n : ℕ) → 1 ≤ n → n ≤ 46 → fib_loop (pos n) ≡ pos (fib n)
unfolding fib_loop fib
fib_loop-fib n one small = fib_rounds-fib (n - 1) 0 n (omega (arith, one)) small
