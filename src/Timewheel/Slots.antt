-- ===== src/Timewheel/Slots.antt =====
-- Slots of internal/timewheel/wheel.go: the index, the buckets, and the levels of a wheel.
use Prim.Native.Nat.{bit_and-bitwise, digits, min}
use yim.Base.{ℕ, zero, suc, ◌+◌, ◌*◌, ◌/◌, ◌%◌, ◌^◌, ◌≡◌, ◌≤◌, refl, sym, ap, ◌∙◌, arith}
use yim.Timewheel.{slot_index}

-- 2 ^ k - 1.
abbrev ones : ℕ → ℕ
ones zero = 0
ones (suc k) = ones k * 2 + 1

abbrev low : ℕ → ℕ → ℕ
low zero a = 0
low (suc k) a = low k (a / 2) * 2 + a % 2

low-zero : (k : ℕ) → low k 0 ≡ 0
low-zero zero = refl
low-zero (suc k) = omega (arith, low-zero k)

digits-zero : (n a : ℕ) → digits (λ b. zero) min n a 0 ≡ 0
digits-zero zero a = refl
digits-zero (suc n) zero = refl
digits-zero (suc n) (suc a) = omega (arith, digits-zero n (suc a / 2))

masked : (n a k : ℕ) → a ≤ n → digits (λ b. zero) min n a (ones k) ≡ low k a
masked n a zero h = digits-zero n a
masked zero zero (suc k) h = sym (low-zero (suc k))
masked zero (suc a) (suc k) h = absurd (omega (arith, h))
masked (suc n) zero (suc k) h = sym (low-zero (suc k))
masked (suc n) (suc a) (suc k) h =
    let half : (ones k * 2 + 1) / 2 ≡ ones k = omega arith in
    ap (λ b. digits (λ _. zero) min n (suc a / 2) b * 2 + min (suc a % 2) ((ones k * 2 + 1) % 2))
      half
    ∙ omega (arith, masked n (suc a / 2) k (omega (arith, h)))

-- The mask leaves the remainder, as for a size that is a power of two.
abbrev pub Masks : ℕ → Type 0
Masks size = (tick t : ℕ) → slot_index size tick t ≡ (t / tick) % size

pub mask_512 : Masks 512
unfolding slot_index
mask_512 tick t =
    bit_and-bitwise ((t / tick) % 2 ^ 32) 511
    ∙ masked ((t / tick) % 2 ^ 32) ((t / tick) % 2 ^ 32) 9 (omega arith)
    ∙ omega arith

pub mask_8 : Masks 8
unfolding slot_index
mask_8 tick t =
    bit_and-bitwise ((t / tick) % 2 ^ 32) 7
    ∙ masked ((t / tick) % 2 ^ 32) ((t / tick) % 2 ^ 32) 3 (omega arith)
    ∙ omega arith
