-- ===== src/Go/Net.antt =====
-- Go's net.IP, as far as the program classifies addresses. `net.ParseIP` is a parameter of the
-- modules that use it.
use syscert.Base.{ℕ, ◌/◌, Bool, true, ◌&&◌, ◌||◌, List, [], ◌∷◌, ◌==◌}

-- An IPv4 address by its four bytes, an IPv6 address by its first two bytes, the twelve and one
-- bytes that follow, and the last one.
pub data Ip : Type 0 where
  v4 : ℕ → ℕ → ℕ → ℕ → Ip
  v6 : ℕ → ℕ → List ℕ → ℕ → Ip

all_zero : List ℕ → Bool
all_zero [] = true
all_zero (b ∷ bs) = (b == 0) && all_zero bs

-- 10/8, 172.16/12, 192.168/16 and fc00::/7
unfoldable pub is_private : Ip → Bool
is_private (v4 a b c d) = a == 10 || (a == 172 && b / 16 == 1) || (a == 192 && b == 168)
is_private (v6 a b bs z) = a / 2 == 126

-- 127/8 and ::1
unfoldable pub is_loopback : Ip → Bool
unfolding all_zero
is_loopback (v4 a b c d) = a == 127
is_loopback (v6 a b bs z) = a == 0 && b == 0 && all_zero bs && z == 1

-- 169.254/16 and fe80::/10
unfoldable pub is_link_local_unicast : Ip → Bool
is_link_local_unicast (v4 a b c d) = a == 169 && b == 254
is_link_local_unicast (v6 a b bs z) = a == 254 && b / 64 == 2

unfoldable pub is_unspecified : Ip → Bool
unfolding all_zero
is_unspecified (v4 a b c d) = a == 0 && b == 0 && c == 0 && d == 0
is_unspecified (v6 a b bs z) = a == 0 && b == 0 && all_zero bs && z == 0
