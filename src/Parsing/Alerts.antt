-- ===== src/Parsing/Alerts.antt =====
-- The ten parsers, each judged from the reads that it is made of.
use bouclier_bleu.Base.{◌==◌, Text, All-append, trim_end, arith}
use bouclier_bleu.Reader.{Endian, Bytes}
use bouclier_bleu.Reader.Bounds.{Reads-pure}
use bouclier_bleu.Reader.Clean.{IsPrintable}
use bouclier_bleu.Parsing.Judge.{
  Verdict, sized-Verdict, u32-then, text-then, All-trim, All-trim_end,
}
use bouclier_bleu.Modules.ExecBlock
use bouclier_bleu.Modules.RenameEntropy
use bouclier_bleu.Modules.Shield
use bouclier_bleu.Modules.MountSecure
use bouclier_bleu.Modules.StrictWx
use bouclier_bleu.Modules.PtraceBlock
use bouclier_bleu.Modules.DumpRestrict
use bouclier_bleu.Modules.UsernsRestrict
use bouclier_bleu.Modules.MadviseRatelimit
use bouclier_bleu.Modules.IoRestrict

join_path-IsPrintable :
    (dir file : Text)
    → IsPrintable dir
    → IsPrintable file
    → IsPrintable (RenameEntropy.join_path dir file)
unfolding RenameEntropy.join_path
join_path-IsPrintable dir file hd hf =
    All-append _ (trim_end (λ c. c == b'/') dir) _ (All-trim_end _ _ dir hd)
      ((omega arith, omega arith), hf)

pub exec_block-Verdict :
    (e : Endian) (bytes : Bytes)
    → Verdict ExecBlock.payload 4100 bytes (ExecBlock.try_from_bytes e bytes)
unfolding ExecBlock.try_from_bytes
exec_block-Verdict e bytes =
    sized-Verdict ExecBlock.payload 4100 (ExecBlock.read_alert e) bytes
      (u32-then e 4096 λ n0. text-then e 0 4096 λ t1 h1. Reads-pure _ _ (tt, (h1, tt)))

pub rename_entropy-Verdict :
    (e : Endian) (bytes : Bytes)
    → Verdict RenameEntropy.payload 4360 bytes (RenameEntropy.try_from_bytes e bytes)
unfolding RenameEntropy.try_from_bytes
rename_entropy-Verdict e bytes =
    sized-Verdict RenameEntropy.payload 4360 (RenameEntropy.read_alert e) bytes (
      u32-then e 4356 λ n0. u32-then e 4352 λ n1. text-then e 256 4096 λ t2 h2.
        text-then e 0 256
          λ t3 h3. Reads-pure _ _ (tt, (tt, (join_path-IsPrintable t2 t3 h2 h3, tt))))

pub shield-Verdict :
    (e : Endian) (bytes : Bytes) → Verdict Shield.payload 4104 bytes (Shield.try_from_bytes e bytes)
unfolding Shield.try_from_bytes
shield-Verdict e bytes = sized-Verdict Shield.payload 4104 (Shield.read_alert e) bytes (
    u32-then e 4100
      λ n0. u32-then e 4096 λ n1. text-then e 0 4096 λ t2 h2. Reads-pure _ _ (tt, (tt, (h2, tt))))

pub mount_secure-Verdict :
    (e : Endian) (bytes : Bytes)
    → Verdict MountSecure.payload 836 bytes (MountSecure.try_from_bytes e bytes)
unfolding MountSecure.try_from_bytes
mount_secure-Verdict e bytes =
    sized-Verdict MountSecure.payload 836 (MountSecure.read_alert e) bytes (
      u32-then e 832 λ n0. text-then e 576 256 λ t1 h1.
        text-then e 512 64
          λ t2 h2. text-then e 0 512 λ t3 h3. Reads-pure _ _ (tt, (h1, (h2, (h3, tt)))))

pub strict_wx-Verdict :
    (e : Endian) (bytes : Bytes)
    → Verdict StrictWx.payload 20 bytes (StrictWx.try_from_bytes e bytes)
unfolding StrictWx.try_from_bytes
strict_wx-Verdict e bytes =
    sized-Verdict StrictWx.payload 20 (StrictWx.read_alert e) bytes
      (u32-then e 16 λ n0. text-then e 0 16 λ t1 h1. Reads-pure _ _ (tt, (h1, tt)))

pub ptrace_block-Verdict :
    (e : Endian) (bytes : Bytes)
    → Verdict PtraceBlock.payload 28 bytes (PtraceBlock.try_from_bytes e bytes)
unfolding PtraceBlock.try_from_bytes
ptrace_block-Verdict e bytes =
    sized-Verdict PtraceBlock.payload 28 (PtraceBlock.read_alert e) bytes (
      u32-then e 24 λ n0. u32-then e 20 λ n1.
        u32-then e 16
          λ n2. text-then e 0 16 λ t3 h3. Reads-pure _ _ (tt, (tt, (tt, (All-trim _ _ t3 h3, tt)))))

pub dump_restrict-Verdict :
    (e : Endian) (bytes : Bytes)
    → Verdict DumpRestrict.payload 28 bytes (DumpRestrict.try_from_bytes e bytes)
unfolding DumpRestrict.try_from_bytes
dump_restrict-Verdict e bytes =
    sized-Verdict DumpRestrict.payload 28 (DumpRestrict.read_alert e) bytes (
      u32-then e 24 λ n0. u32-then e 20 λ n1.
        u32-then e 16
          λ n2. text-then e 0 16 λ t3 h3. Reads-pure _ _ (tt, (tt, (tt, (All-trim _ _ t3 h3, tt)))))

pub userns_restrict-Verdict :
    (e : Endian) (bytes : Bytes)
    → Verdict UsernsRestrict.payload 72 bytes (UsernsRestrict.try_from_bytes e bytes)
unfolding UsernsRestrict.try_from_bytes
userns_restrict-Verdict e bytes =
    sized-Verdict UsernsRestrict.payload 72 (UsernsRestrict.read_alert e) bytes (
      u32-then e 68 λ n0.
        u32-then e 64
          λ n1. text-then e 0 64 λ t2 h2. Reads-pure _ _ (tt, (tt, (All-trim _ _ t2 h2, tt))))

pub madvise_ratelimit-Verdict :
    (e : Endian) (bytes : Bytes)
    → Verdict MadviseRatelimit.payload 32 bytes (MadviseRatelimit.try_from_bytes e bytes)
unfolding MadviseRatelimit.try_from_bytes
madvise_ratelimit-Verdict e bytes =
    sized-Verdict MadviseRatelimit.payload 32 (MadviseRatelimit.read_alert e) bytes (
      u32-then e 28 λ n0. u32-then e 24 λ n1. u32-then e 20 λ n2. u32-then e 16 λ n3.
        text-then e 0 16 λ t4 h4. Reads-pure _ _ (tt, (tt, (tt, (tt, (All-trim _ _ t4 h4, tt))))))

pub io_restrict-Verdict :
    (e : Endian) (bytes : Bytes)
    → Verdict IoRestrict.payload 24 bytes (IoRestrict.try_from_bytes e bytes)
unfolding IoRestrict.try_from_bytes
io_restrict-Verdict e bytes = sized-Verdict IoRestrict.payload 24 (IoRestrict.read_alert e) bytes (
    u32-then e 20 λ n0.
      u32-then e 16
        λ n1. text-then e 0 16 λ t2 h2. Reads-pure _ _ (tt, (tt, (All-trim _ _ t2 h2, tt))))
