-- ===== src/Device/Layout.antt =====
-- The device number of user space against the kernel's.
use Prim.Native.Nat.{bit_and, bit_or}
use bouclier_bleu.Base.{ℕ, ◌+◌, ◌*◌, ◌/◌, ◌%◌, ◌^◌, ◌≤◌, ◌<◌, ◌≡◌, ◌∙◌, ap, arith}
use bouclier_bleu.Device.{shr, shl, complement, major, minor, kernel_dev}
use bouclier_bleu.Device.Bits.{
  spread, mask, high, low-high, low-all, and-zero, or-zero_right, and-mask, and-spread, or-apart,
  or-apart_low,
}

-- A device number as the C library documents it: the low byte of the minor number, the major number
-- above it, and the rest of the minor number above that.
abbrev pub makedev : ℕ → ℕ → ℕ
makedev maj min = min % 256 + 256 * maj + 2 ^ 20 * (min / 256)

low_twelve : (x : ℕ) → bit_and x 0xfff ≡ x % 4096
low_twelve x = and-mask 12 x ∙ omega (arith, (low-high 12 x).0, (low-high 12 x).1)

low_eight : (x : ℕ) → bit_and x 0xff ≡ x % 256
low_eight x = and-mask 8 x ∙ omega (arith, (low-high 8 x).0, (low-high 8 x).1)

above_eight : (x : ℕ) → x < 2 ^ 20 → bit_and x (complement 0xff) ≡ 256 * (x / 256)
above_eight x h =
    let (sum, bound) = low-high 8 x in
    let small : high 8 x ≤ mask 56 = omega (arith, sum, h) in
    let kept : bit_and (high 8 x) (mask 56) ≡ high 8 x =
      and-mask 56 (high 8 x) ∙ low-all 56 (high 8 x) small in
    and-spread 8 x (mask 56) ∙ ap (spread 8) kept ∙ omega (arith, sum, bound)

module _ (maj min : ℕ) (maj_fits : maj < 2 ^ 12) (min_fits : min < 2 ^ 20) where
  major-makedev : major (makedev maj min) ≡ maj
  unfolding major
  major-makedev =
      let dev = makedev maj min in
      let in_place : shr dev 8 % 4096 ≡ maj = omega arith in
      let none : shr dev 32 ≡ 0 = omega arith in
      rw (low_twelve (shr dev 8), in_place, none, and-zero (complement 0xfff))
        (or-zero_right maj maj (omega arith))

  minor-makedev : minor (makedev maj min) ≡ min
  unfolding minor
  minor-makedev =
      let dev = makedev maj min in
      let byte : dev % 256 ≡ min % 256 = omega arith in
      let top : 256 * (shr dev 12 / 256) ≡ spread 8 (min / 256) = omega arith in
      let joined : bit_or (min % 256) (spread 8 (min / 256)) ≡ min =
        or-apart_low 8 (min / 256) (min % 256) (omega arith) ∙ omega arith in
      rw (low_eight dev, byte, above_eight (shr dev 12) (omega arith), top) joined

  -- The device number of a device with a major number of 12 bits and a minor number of 20, as the C
  -- library puts it together, becomes the number that the kernel has for the device: the major number
  -- above 20 bits of the minor number.
  pub kernel_dev-makedev : kernel_dev (makedev maj min) ≡ maj * 2 ^ 20 + min
  unfolding kernel_dev
  kernel_dev-makedev =
      let shifted : shl 32 (maj % 2 ^ 32) 20 ≡ spread 20 maj = omega arith in
      let word : min % 2 ^ 32 ≡ min = omega arith in
      rw (major-makedev, minor-makedev, shifted, word)
        (or-apart 20 maj min (omega arith) ∙ omega arith)
