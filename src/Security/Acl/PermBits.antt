-- ===== src/Security/Acl/PermBits.antt =====
-- The text of three permissions in src/security/acl.rs: `parse_perm_bits` and `format_perm_bits`. A
-- text is the list of its code points.
use argos_fs.Common.Bits.{row_sound}
use argos_fs.Common.{
  ℕ, ◌<◌, ◌≡◌, refl, ap, Bool, true, false, ◌||◌, not, List, [], ◌∷◌, ◌==◌, ==_iff, if◌then◌else◌,
}
use argos_fs.Error.{Result, ok, err, ◌>>◌, fail_if, invalid}
use argos_fs.Security.Acl.Evaluate.{acl_read, acl_write, acl_execute, has_bit, flag}
use Prim.Native.Nat.{bit_or}

abbrev dash : ℕ
dash = 45

abbrev letter : (bits bit code : ℕ) → ℕ
letter bits bit code = if has_bit bits bit then code else dash

unfoldable pub format_perm_bits : ℕ → List ℕ
format_perm_bits bits =
    letter bits acl_read 114 ∷ letter bits acl_write 119 ∷ letter bits acl_execute 120 ∷ []

-- `!matches!(c, code | '-')`.
abbrev is_other : (code c : ℕ) → Bool
is_other code c = not (c == code || c == dash)

unfoldable pub parse_perm_bits : List ℕ → Result ℕ
parse_perm_bits (r ∷ w ∷ x ∷ []) = do
  fail_if (is_other 114 r || is_other 119 w || is_other 120 x) invalid
  ok (
      bit_or (bit_or (flag (r == 114) acl_read) (flag (w == 119) acl_write))
        (flag (x == 120) acl_execute))
parse_perm_bits _ = err invalid

abbrev reads_as : Result ℕ → ℕ → Bool
reads_as (ok m) n = m == n
reads_as (err e) n = false

reads_as→≡ : (r : Result ℕ) (n : ℕ) → reads_as r n ≡ true → r ≡ ok n
reads_as→≡ (ok m) n h = ap ok ((==_iff m n).0 h)
reads_as→≡ (err e) n h = cc

-- Permissions of three bits are read back from their text.
pub parse_perm_bits-format_perm_bits :
    (bits : ℕ) → bits < 8 → parse_perm_bits (format_perm_bits bits) ≡ ok bits
unfolding parse_perm_bits format_perm_bits
parse_perm_bits-format_perm_bits bits h =
    reads_as→≡ _ bits
      (row_sound (λ n. reads_as (parse_perm_bits (format_perm_bits n)) n) bits refl h)
