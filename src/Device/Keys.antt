-- ===== src/Device/Keys.antt =====
-- What the key of a file in the kernel's maps tells of the file.
use bouclier_bleu.Base.{
  ℕ, zero, suc, ◌+◌, ◌*◌, ◌/◌, ◌%◌, ◌^◌, ◌<◌, ◌≡◌, refl, ◌∙◌, ap, sym, [], ◌∷◌, ◌++◌, arith, length,
  length-append, take, drop, take-append, drop-append, replicate,
}
use bouclier_bleu.Reader.{Endian, little, big, Bytes}
use bouclier_bleu.Reader.Wire.{drop-add}
use bouclier_bleu.Device.{
  DevIno, kernel_dev, le_bytes, be_bytes, to_ne_bytes, generate_hardware_key,
}

-- The number that bytes stand for, the least first, and the greatest first.
abbrev of_le_bytes : Bytes → ℕ
of_le_bytes [] = 0
of_le_bytes (b ∷ bs) = b + 256 * of_le_bytes bs

abbrev of_be_bytes : ℕ → Bytes → ℕ
of_be_bytes n [] = n
of_be_bytes n (b ∷ bs) = of_be_bytes (256 * n + b) bs

abbrev of_ne_bytes : Endian → Bytes → ℕ
of_ne_bytes little bs = of_le_bytes bs
of_ne_bytes big bs = of_be_bytes 0 bs

-- The bound of numbers of `n` bytes.
abbrev pub byte_bound : ℕ → ℕ
byte_bound zero = 1
byte_bound (suc n) = byte_bound n * 256

div-byte_bound : (n x : ℕ) → x < byte_bound (suc n) → x / 256 < byte_bound n
div-byte_bound n x h = omega (arith, h)

of_le_bytes-le_bytes : (n x : ℕ) → x < byte_bound n → of_le_bytes (le_bytes n x) ≡ x
of_le_bytes-le_bytes zero x h = omega (arith, h)
of_le_bytes-le_bytes (suc n) x h =
    omega (arith, of_le_bytes-le_bytes n (x / 256) (div-byte_bound n x h))

of_be_bytes-append :
    (n : ℕ) (bs : Bytes) (b : ℕ) → of_be_bytes n (bs ++ b ∷ []) ≡ 256 * of_be_bytes n bs + b
of_be_bytes-append n [] b = refl
of_be_bytes-append n (c ∷ cs) b = of_be_bytes-append (256 * n + c) cs b

of_be_bytes-be_bytes : (n x : ℕ) → x < byte_bound n → of_be_bytes 0 (be_bytes n x) ≡ x
of_be_bytes-be_bytes zero x h = omega (arith, h)
of_be_bytes-be_bytes (suc n) x h = omega (
  arith,
  of_be_bytes-append 0 (be_bytes n (x / 256)) (x % 256),
  of_be_bytes-be_bytes n (x / 256) (div-byte_bound n x h),
)

of_ne_bytes-to_ne_bytes :
    (e : Endian) (n x : ℕ) → x < byte_bound n → of_ne_bytes e (to_ne_bytes e n x) ≡ x
of_ne_bytes-to_ne_bytes little n x h = of_le_bytes-le_bytes n x h
of_ne_bytes-to_ne_bytes big n x h = of_be_bytes-be_bytes n x h

length-le_bytes : (n x : ℕ) → length (le_bytes n x) ≡ n
length-le_bytes zero x = refl
length-le_bytes (suc n) x = ap suc (length-le_bytes n (x / 256))

length-be_bytes : (n x : ℕ) → length (be_bytes n x) ≡ n
length-be_bytes zero x = refl
length-be_bytes (suc n) x =
    omega (arith, length-append (be_bytes n (x / 256)) (x % 256 ∷ []), length-be_bytes n (x / 256))

length-to_ne_bytes : (e : Endian) (n x : ℕ) → length (to_ne_bytes e n x) ≡ n
length-to_ne_bytes little n x = length-le_bytes n x
length-to_ne_bytes big n x = length-be_bytes n x

-- The first `n` bytes of a key.
take-field :
    (e : Endian) (n x : ℕ) (rest : Bytes) → take n (to_ne_bytes e n x ++ rest) ≡ to_ne_bytes e n x
take-field e n x rest =
    ap (λ k. take k (to_ne_bytes e n x ++ rest)) (sym (length-to_ne_bytes e n x))
    ∙ take-append (to_ne_bytes e n x) rest

drop-field : (e : Endian) (n x : ℕ) (rest : Bytes) → drop n (to_ne_bytes e n x ++ rest) ≡ rest
drop-field e n x rest =
    ap (λ k. drop k (to_ne_bytes e n x ++ rest)) (sym (length-to_ne_bytes e n x))
    ∙ drop-append (to_ne_bytes e n x) rest

-- What a key tells: an inode, a device, and the padding.
abbrev pub inode_of : Endian → Bytes → ℕ
inode_of e key = of_ne_bytes e (take 8 key)

abbrev pub device_of : Endian → Bytes → ℕ
device_of e key = of_ne_bytes e (take 4 (drop 8 key))

-- A word survives the bytes that it is written in.
device-word : (e : Endian) (x : ℕ) → of_ne_bytes e (to_ne_bytes e 4 x) ≡ x % 2 ^ 32
device-word little x = omega arith
device-word big x = omega arith

-- The key of a file has 16 bytes; the first eight are its inode, which fits 64 bits, and the next
-- four its device as the kernel lays it out, in 32 bits, both in the machine's byte order, and the
-- last four are zero.
pub fields-generate_hardware_key :
    (e : Endian) (f : DevIno)
    → f.ino < byte_bound 8
    → (length (generate_hardware_key e f) ≡ 16)
      × (inode_of e (generate_hardware_key e f) ≡ f.ino)
      × (device_of e (generate_hardware_key e f) ≡ kernel_dev f.dev % 2 ^ 32)
      × (drop 12 (generate_hardware_key e f) ≡ replicate 4 0)
unfolding generate_hardware_key
fields-generate_hardware_key e f i =
    let ino = to_ne_bytes e 8 f.ino in
    let dev = to_ne_bytes e 4 (kernel_dev f.dev) in
    let zeros = replicate 4 0 in
    let key = ino ++ (dev ++ zeros) in
    let size : length key ≡ 16 = omega (
      arith,
      length-append ino (dev ++ zeros),
      length-append dev zeros,
      length-to_ne_bytes e 8 f.ino,
      length-to_ne_bytes e 4 (kernel_dev f.dev),
    ) in
    let behind = drop-field e 8 f.ino (dev ++ zeros) in
    (
      size,
      rw (take-field e 8 f.ino (dev ++ zeros)) (of_ne_bytes-to_ne_bytes e 8 f.ino i),
      rw (behind, take-field e 4 (kernel_dev f.dev) zeros) (device-word e (kernel_dev f.dev)),
      drop-add 8 4 key ∙ rw behind (drop-field e 4 (kernel_dev f.dev) zeros),
    )
