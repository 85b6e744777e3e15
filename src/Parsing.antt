-- ===== src/Parsing.antt =====
-- Every alert parser of the ten modules: it accepts exactly the payloads that are long enough, and
-- what it hands on is printable.
mod Judge
mod Alerts
pub mod Wire
pub mod Skew
use bouclier_bleu.Base.{ℕ, ◌+◌, List, [], ◌∷◌}
use bouclier_bleu.Reader.{Endian, Bytes}
use bouclier_bleu.Registry.{SecurityModule, Registry, build_registry}
use Judge.{Verdict}
use Alerts.{
  exec_block-Verdict, rename_entropy-Verdict, shield-Verdict, mount_secure-Verdict,
  strict_wx-Verdict, ptrace_block-Verdict, dump_restrict-Verdict, userns_restrict-Verdict,
  madvise_ratelimit-Verdict, io_restrict-Verdict,
}

-- The sizes of the fields that each parser reads, field by field, in the registry's order. They are
-- those of the structs that the kernel sends, but for the last: `struct io_restrict_alert` of
-- bpf/io_restrict.bpf.c has one word more (Parsing.Skew).
abbrev pub field_sizes : List ℕ
field_sizes =
    (4 + 4096)
    ∷ (4 + 4 + 4096 + 256)
    ∷ (4 + 4 + 4096)
    ∷ (4 + 256 + 64 + 512)
    ∷ (4 + 16)
    ∷ (4 + 4 + 4 + 16)
    ∷ (4 + 4 + 4 + 16)
    ∷ (4 + 4 + 64)
    ∷ (4 + 4 + 4 + 4 + 16)
    ∷ (4 + 4 + 16)
    ∷ []

-- The parser of each module, judged at the size of its fields.
abbrev pub Judged : {F : Type 0} → Endian → Bytes → List ℕ → Registry F → Type 0
Judged e bytes [] [] = Unit
Judged e bytes [] (m ∷ ms) = ⊥
Judged e bytes (n ∷ ns) [] = ⊥
Judged e bytes (n ∷ ns) (m ∷ ms) =
    Verdict m.declaration.payload n bytes (m.declaration.parser e bytes) × Judged e bytes ns ms

-- Each of the ten parsers, on any bytes and in either byte order, accepts exactly the payloads that
-- are at least as long as the fields that it reads; it gives the size error on any other and no error
-- else; and every character in a text field of an accepted alert lies between 0x20 and 0x7e.
pub parsers_Judged :
    (F : Type 0) (e : Endian) (bytes : Bytes) → Judged e bytes field_sizes (build_registry {F = F})
unfolding build_registry
parsers_Judged F e bytes = (
  exec_block-Verdict e bytes,
  (
    rename_entropy-Verdict e bytes,
    (
      shield-Verdict e bytes,
      (
        mount_secure-Verdict e bytes,
        (
          strict_wx-Verdict e bytes,
          (
            ptrace_block-Verdict e bytes,
            (
              dump_restrict-Verdict e bytes,
              (
                userns_restrict-Verdict e bytes,
                (madvise_ratelimit-Verdict e bytes, (io_restrict-Verdict e bytes, tt)),
              ),
            ),
          ),
        ),
      ),
    ),
  ),
)
