-- ===== src/Kernel.antt =====
-- `is_post_2025_vfs` of core/src/bpf_manager.rs: the kernel's release, and the hooks that fit it.
use bouclier_bleu.Base.{
  ℕ, ◌+◌, ◌-◌, ◌*◌, ◌^◌, Bool, true, false, not, ◌&&◌, ◌||◌, Option, none, some, List, [], ◌∷◌,
  ◌++◌, ltb, leb, ◌==◌, within, if◌then◌else◌, Text, codes, trim, is_whitespace, split, text_eq,
}

-- The digits of a `u32`, from the number read so far: `none` on another character or on overflow.
unfoldable pub digits_from : ℕ → Text → Option ℕ
digits_from n [] = some n
digits_from n (c ∷ cs) =
    let more = digits_from (n * 10 + (c - b'0')) cs in
    if within b'0' b'9' c && ltb (n * 10 + (c - b'0')) (2 ^ 32) then more else none

-- `str::parse::<u32>`: a sign `+` may stand in front of at least one digit.
unfoldable pub parse_u32 : Text → Option ℕ
unfolding digits_from
parse_u32 [] = none
parse_u32 (c ∷ []) = digits_from 0 (c ∷ [])
parse_u32 (c ∷ d ∷ cs) = if c == b'+' then digits_from 0 (d ∷ cs) else digits_from 0 (c ∷ d ∷ cs)

-- Version 6.12 or newer; a number that was not read counts as newer.
abbrev pub is_new : Option ℕ → Option ℕ → Bool
is_new (some major) (some minor) = ltb 6 major || (major == 6 && leb 12 minor)
is_new _ _ = true

abbrev pub is_new_parts : List Text → Bool
is_new_parts [] = true
is_new_parts (major ∷ []) = true
is_new_parts (major ∷ minor ∷ rest) = is_new (parse_u32 major) (parse_u32 minor)

unfoldable pub is_post_2025_vfs : Option Text → Bool
unfolding parse_u32 trim is_whitespace split
is_post_2025_vfs none = true
is_post_2025_vfs (some release) = is_new_parts (split b'.' (trim is_whitespace release))

-- The autoload flag that the hook sets on a program of a module, if it sets one.
unfoldable pub autoload : Text → Bool → Text → Option Bool
autoload mod_name post_2025 name =
    if text_eq name (mod_name ++ codes "_vfs_mkdir_exit_new")
    then some post_2025
    else if text_eq name (mod_name ++ codes "_vfs_mkdir_exit_old")
    then some (not post_2025)
    else if text_eq name (mod_name ++ codes "_vfs_rename_exit_new")
    then some true
    else if text_eq name (mod_name ++ codes "_vfs_rename_exit_old")
    then some false
    else none
