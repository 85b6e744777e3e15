-- ===== src/Device/Identity.antt =====
-- Whether the key of a file in the kernel's maps is the key of that file only.
use bouclier_bleu.Base.{ℕ, ◌+◌, ◌*◌, ◌%◌, ◌^◌, ◌<◌, ◌≡◌, ◌∙◌, ap, sym, arith}
use bouclier_bleu.Reader.{Endian}
use bouclier_bleu.Device.{DevIno, kernel_dev, generate_hardware_key}
use bouclier_bleu.Device.Keys.{byte_bound, inode_of, device_of, fields-generate_hardware_key}
use bouclier_bleu.Device.Layout.{makedev, kernel_dev-makedev}

-- The file of an inode on a device.
abbrev pub on_device : ℕ → ℕ → ℕ → DevIno
on_device ino maj min = record { ino = ino; dev = makedev maj min }

-- The kernel's numbers of two devices tell them apart.
pair-determined :
    (maj min maj' min' : ℕ)
    → min < 2 ^ 20
    → min' < 2 ^ 20
    → maj * 2 ^ 20 + min ≡ maj' * 2 ^ 20 + min'
    → (maj ≡ maj') × (min ≡ min')
pair-determined maj min maj' min' b b' same = (omega arith, omega arith)

-- Two files with the same key are the same file: they have the same inode and the same device, if the
-- inodes fit 64 bits, the devices' major numbers 12 and their minor numbers 20.
pub generate_hardware_key-injective :
    (e : Endian) (ino maj min ino' maj' min' : ℕ)
    → ino < byte_bound 8
    → ino' < byte_bound 8
    → maj < 2 ^ 12
    → maj' < 2 ^ 12
    → min < 2 ^ 20
    → min' < 2 ^ 20
    → generate_hardware_key e (on_device ino maj min)
      ≡ generate_hardware_key e (on_device ino' maj' min')
    → (ino ≡ ino') × (maj ≡ maj') × (min ≡ min')
generate_hardware_key-injective e ino maj min ino' maj' min' i i' a a' b b' same =
    let (size, own, dev, pad) = fields-generate_hardware_key e (on_device ino maj min) i in
    let (size', own', dev', pad') = fields-generate_hardware_key e (on_device ino' maj' min') i' in
    let wide : kernel_dev (makedev maj min) % 2 ^ 32 ≡ kernel_dev (makedev maj' min') % 2 ^ 32 =
      sym dev ∙ ap (device_of e) same ∙ dev' in
    let known = kernel_dev-makedev maj min a b in
    let known' = kernel_dev-makedev maj' min' a' b' in
    let equal : maj * 2 ^ 20 + min ≡ maj' * 2 ^ 20 + min' = omega (arith, known, known', wide) in
    let (major_same, minor_same) = pair-determined maj min maj' min' b b' equal in
    (sym own ∙ ap (inode_of e) same ∙ own', major_same, minor_same)
