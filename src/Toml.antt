-- ===== src/Toml.antt =====
-- A parsed TOML document (the toml crate), and the queries that the program makes of it.
use bouclier_bleu.Base.{
  ℕ, ◌-◌, ◌%◌, ◌^◌, Bool, ◌≡◌, refl, Option, none, some, text_eq, if◌then◌else◌, Text,
}

mutual
  pub data Toml : Type 0 where
    boolean : Bool → Toml
    -- `Integer` is an i64; `negative n` is -(n + 1)
    integer negative : ℕ → Toml
    string : Text → Toml
    other : Toml
    table : Entries → Toml

  pub data Entries : Type 0 where
    end : Entries
    entry : Text → Toml → Entries → Entries

pub data I64 : Type 0 where
  pos negsuc : ℕ → I64

unfoldable pub get : Text → Entries → Option Toml
get key end = none
get key (entry k v rest) = if text_eq k key then some v else get key rest

-- `value.get(key)`
abbrev pub get_table : Text → Toml → Option Toml
get_table key (table entries) = get key entries
get_table key _ = none

-- `value.as_integer()`
abbrev pub as_integer : Toml → Option I64
as_integer (integer n) = some (pos n)
as_integer (negative n) = some (negsuc n)
as_integer _ = none

-- `n as u32`
abbrev pub low_u32 : I64 → ℕ
low_u32 (pos n) = n % 2 ^ 32
low_u32 (negsuc n) = 2 ^ 32 - 1 - n % 2 ^ 32

-- The operator `?` on an `Option`.
abbrev pub and_then {ℓ κ} : {A : Type ℓ} {B : Type κ} → Option A → (A → Option B) → Option B
and_then none f = none
and_then (some a) f = f a

pub and_then-eq-some {ℓ κ} :
    {A : Type ℓ} {B : Type κ} (o : Option A) (f : A → Option B) {b : B}
    → and_then o f ≡ some b
    → (a : A) × (o ≡ some a) × (f a ≡ some b)
and_then-eq-some none f h = cc
and_then-eq-some (some a) f h = (a, refl, h)
