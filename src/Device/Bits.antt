-- ===== src/Device/Bits.antt =====
-- The bit operations of the device number, on fields of bits that lie apart.
use Prim.Native.Nat.{min, max, digits, bitwise, bit_and, bit_or, bit_and-bitwise, bit_or-bitwise}
use bouclier_bleu.Base.{ℕ, zero, suc, ◌+◌, ◌*◌, ◌/◌, ◌%◌, ◌≤◌, ◌≡◌, refl, ◌∙◌, arith}

module _ (rest : ℕ → ℕ) (op : ℕ → ℕ → ℕ) where
  -- Digits to spare change nothing.
  spare-digits : (k l a b : ℕ) → a ≤ k → a ≤ l → digits rest op k a b ≡ digits rest op l a b
  spare-digits zero zero a b h i = refl
  spare-digits zero (suc l) zero b h i = refl
  spare-digits (suc k) zero zero b h i = refl
  spare-digits (suc k) (suc l) zero b h i = refl
  spare-digits zero l (suc a) b h i = absurd (omega (arith, h))
  spare-digits (suc k) zero (suc a) b h i = absurd (omega (arith, i))
  spare-digits (suc k) (suc l) (suc a) b h i =
      let same = spare-digits k l (suc a / 2) (b / 2) (omega (arith, h)) (omega (arith, i)) in
      rw same refl

  halves :
      (a b : ℕ)
      → bitwise rest op (suc a) b ≡ bitwise rest op (suc a / 2) (b / 2) * 2 + op (suc a % 2) (b % 2)
  halves a b =
      let same = spare-digits a (suc a / 2) (suc a / 2) (b / 2) (omega arith) (omega arith) in
      rw same refl

or-halves : (a b : ℕ) → bit_or a b ≡ bit_or (a / 2) (b / 2) * 2 + max (a % 2) (b % 2)
or-halves zero b = simp bit_or-bitwise (omega arith)
or-halves (suc a) b = simp bit_or-bitwise (halves (λ c. c) max a b)

and-halves : (a b : ℕ) → bit_and a b ≡ bit_and (a / 2) (b / 2) * 2 + min (a % 2) (b % 2)
and-halves zero b = simp bit_and-bitwise (omega arith)
and-halves (suc a) b = simp bit_and-bitwise (halves (λ c. 0) min a b)

-- Shifts and masks by doubling.
abbrev pub spread : ℕ → ℕ → ℕ
spread zero q = q
spread (suc k) q = 2 * spread k q

abbrev pub mask : ℕ → ℕ
mask zero = 0
mask (suc k) = 1 + 2 * mask k

abbrev pub low : ℕ → ℕ → ℕ
low zero a = 0
low (suc k) a = a % 2 + 2 * low k (a / 2)

abbrev pub high : ℕ → ℕ → ℕ
high zero a = a
high (suc k) a = high k (a / 2)

pub low-high : (k a : ℕ) → (low k a + spread k (high k a) ≡ a) × (low k a ≤ mask k)
low-high zero a = (omega arith, omega arith)
low-high (suc k) a =
    let (sum, bound) = low-high k (a / 2) in (omega (arith, sum), omega (arith, bound))

-- A number that the mask covers is its own low part.
pub low-all : (k a : ℕ) → a ≤ mask k → low k a ≡ a
low-all zero a h = omega (arith, h)
low-all (suc k) a h = omega (arith, low-all k (a / 2) (omega (arith, h)))

pub and-zero : (a : ℕ) → bit_and 0 a ≡ 0
and-zero a = simp bit_and-bitwise refl

or-zero_left : (a : ℕ) → bit_or 0 a ≡ a
or-zero_left a = simp bit_or-bitwise refl

and-zero_right : (n a : ℕ) → a ≤ n → bit_and a 0 ≡ 0
and-zero_right n zero h = and-zero 0
and-zero_right zero (suc a) h = absurd (omega (arith, h))
and-zero_right (suc n) (suc a) h =
    omega (arith, and-halves (suc a) 0, and-zero_right n (suc a / 2) (omega (arith, h)))

pub or-zero_right : (n a : ℕ) → a ≤ n → bit_or a 0 ≡ a
or-zero_right n zero h = or-zero_left 0
or-zero_right zero (suc a) h = absurd (omega (arith, h))
or-zero_right (suc n) (suc a) h =
    omega (arith, or-halves (suc a) 0, or-zero_right n (suc a / 2) (omega (arith, h)))

pub and-mask : (k a : ℕ) → bit_and a (mask k) ≡ low k a
and-mask zero a = and-zero_right a a (omega arith)
and-mask (suc k) a =
    let halved : (1 + 2 * mask k) / 2 ≡ mask k = omega arith in
    let odd : (1 + 2 * mask k) % 2 ≡ 1 = omega arith in
    and-halves a (mask (suc k)) ∙ rw (halved, odd, and-mask k (a / 2)) (ground arith)

pub and-spread : (k a c : ℕ) → bit_and a (spread k c) ≡ spread k (bit_and (high k a) c)
and-spread zero a c = refl
and-spread (suc k) a c =
    let halved : (2 * spread k c) / 2 ≡ spread k c = omega arith in
    let even : (2 * spread k c) % 2 ≡ 0 = omega arith in
    and-halves a (spread (suc k) c) ∙ rw (halved, even, and-spread k (a / 2) c) (ground arith)

pub or-apart : (k q r : ℕ) → r ≤ mask k → bit_or (spread k q) r ≡ spread k q + r
or-apart zero q r h =
    let none : r ≡ 0 = omega (arith, h) in rw none (or-zero_right q q (omega arith) ∙ omega arith)
or-apart (suc k) q r h =
    let halved : (2 * spread k q) / 2 ≡ spread k q = omega arith in
    let even : (2 * spread k q) % 2 ≡ 0 = omega arith in
    or-halves (spread (suc k) q) r
    ∙ rw (halved, even, or-apart k q (r / 2) (omega (arith, h))) (ground arith)

pub or-apart_low : (k q r : ℕ) → r ≤ mask k → bit_or r (spread k q) ≡ r + spread k q
or-apart_low zero q r h =
    let none : r ≡ 0 = omega (arith, h) in rw none (or-zero_left q ∙ omega arith)
or-apart_low (suc k) q r h =
    let halved : (2 * spread k q) / 2 ≡ spread k q = omega arith in
    let even : (2 * spread k q) % 2 ≡ 0 = omega arith in
    or-halves r (spread (suc k) q)
    ∙ rw (halved, even, or-apart_low k q (r / 2) (omega (arith, h))) (ground arith)
