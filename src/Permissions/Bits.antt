-- ===== src/Permissions/Bits.antt =====
-- The permission words of server-rs/src/services/permissions.rs, `mod bits`. An `i64` is its
-- 64-bit pattern, so `&`, `|` and `!` act on numbers below 2 ^ 64.
pub mod Laws
use verdant_backend.Prelude.{ℕ, ◌-◌, ◌^◌, bit_and, bit_or, bit_xor, Bool, true, ◌==◌, if◌then◌else◌}

abbrev pub view_channel : ℕ
view_channel = 2 ^ 0

abbrev pub send_messages : ℕ
send_messages = 2 ^ 1

abbrev pub manage_messages : ℕ
manage_messages = 2 ^ 2

abbrev pub manage_channels : ℕ
manage_channels = 2 ^ 3

abbrev pub manage_server : ℕ
manage_server = 2 ^ 4

abbrev pub manage_roles : ℕ
manage_roles = 2 ^ 5

abbrev pub kick_members : ℕ
kick_members = 2 ^ 6

abbrev pub ban_members : ℕ
ban_members = 2 ^ 7

abbrev pub administrator : ℕ
administrator = 2 ^ 10

-- `!0i64`: every bit of the word.
abbrev pub all_bits : ℕ
all_bits = 2 ^ 64 - 1

-- `!x`.
unfoldable pub bit_not : ℕ → ℕ
bit_not x = bit_xor all_bits x

unfoldable pub has : ℕ → ℕ → Bool
has perms perm = if bit_and perms administrator == 0 then bit_and perms perm == perm else true

-- `(perms & !deny) | allow`.
unfoldable pub apply_override : ℕ → ℕ → ℕ → ℕ
unfolding bit_not
apply_override perms allow deny = bit_or (bit_and perms (bit_not deny)) allow
