-- ===== src/Device.antt =====
-- `generate_hardware_key`, modules/src/common/fs_utils.rs: the key of a file in the kernel's maps, its
-- inode and its device number in the kernel's layout. Words are natural numbers below 2 ^ 64.
pub mod Keys
pub mod Bits
pub mod Layout
pub mod Identity
use Prim.Native.Nat.{bit_and, bit_or}
use bouclier_bleu.Base.{ℕ, ◌-◌, ◌*◌, ◌/◌, ◌%◌, ◌^◌, [], ◌∷◌, ◌++◌, zero, suc, replicate}
use bouclier_bleu.Reader.{Endian, little, big, Bytes}

-- `metadata.ino()` and `metadata.dev()`
pub record DevIno : Type 0 where
  pub ino : ℕ
  pub dev : ℕ

-- `x >> k` and `x << k` on a word of w bits, `!mask` on 64 bits.
abbrev pub shr : ℕ → ℕ → ℕ
shr x k = x / 2 ^ k

abbrev pub shl : ℕ → ℕ → ℕ → ℕ
shl w x k = x * 2 ^ k % 2 ^ w

abbrev pub complement : ℕ → ℕ
complement mask = 2 ^ 64 - 1 - mask

unfoldable pub major : ℕ → ℕ
major dev = bit_or (bit_and (shr dev 8) 0xfff) (bit_and (shr dev 32) (complement 0xfff))

unfoldable pub minor : ℕ → ℕ
minor dev = bit_or (bit_and dev 0xff) (bit_and (shr dev 12) (complement 0xff))

-- `((major as u32) << 20) | (minor as u32)`
unfoldable pub kernel_dev : ℕ → ℕ
kernel_dev dev = bit_or (shl 32 (major dev % 2 ^ 32) 20) (minor dev % 2 ^ 32)

-- The `n` bytes of a number, the least first.
abbrev pub le_bytes : ℕ → ℕ → Bytes
le_bytes zero x = []
le_bytes (suc n) x = x % 256 ∷ le_bytes n (x / 256)

abbrev pub be_bytes : ℕ → ℕ → Bytes
be_bytes zero x = []
be_bytes (suc n) x = be_bytes n (x / 256) ++ x % 256 ∷ []

-- `to_ne_bytes` of a number of `n` bytes.
abbrev pub to_ne_bytes : Endian → ℕ → ℕ → Bytes
to_ne_bytes little n x = le_bytes n x
to_ne_bytes big n x = be_bytes n x

unfoldable pub generate_hardware_key : Endian → DevIno → Bytes
unfolding kernel_dev
generate_hardware_key e file =
    to_ne_bytes e 8 file.ino ++ (to_ne_bytes e 4 (kernel_dev file.dev) ++ replicate 4 0)
