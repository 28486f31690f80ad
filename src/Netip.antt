-- ===== src/Netip.antt =====
-- The part of Go's `net/netip` that the program uses: does a text parse as an IPv4 host prefix,
-- `a.b.c.d/32`?
use Prim.Native.Char.{code}
use Prim.Native.String.{[], ◌∷◌}
use tunwarden.Prelude.{
  ℕ, ◌+◌, ◌-◌, ◌*◌, String, ◌≡◌, refl, Bool, true, false, ◌&&◌, ◌||◌, List, [], ◌∷◌, leb, nat_eq,
  ◌==◌,
}
use tunwarden.Text.{split}

-- decimal digits, up to a value of 255
digits_up_to : ℕ → String → Bool
digits_up_to n [] = leb n 255
digits_up_to n (c ∷ s) =
    leb b'0' (code c) && leb (code c) b'9' && digits_up_to (n * 10 + (code c - b'0')) s

-- an octet has no leading zero
is_octet : String → Bool
unfolding digits_up_to
is_octet [] = false
is_octet (c ∷ s) =
    (nat_eq (code c) b'0' && s == "") || (leb b'1' (code c) && digits_up_to 0 (c ∷ s))

is_ipv4_fields : List String → Bool
unfolding is_octet
is_ipv4_fields (a ∷ b ∷ c ∷ d ∷ []) = is_octet a && is_octet b && is_octet c && is_octet d
is_ipv4_fields _ = false

is_host_parts : List String → Bool
unfolding is_ipv4_fields split
is_host_parts (address ∷ bits ∷ []) = is_ipv4_fields (split b'.' address) && bits == "32"
is_host_parts _ = false

-- netip.ParsePrefix succeeds, the address is an IPv4 address, and the prefix has 32 bits
unfoldable pub is_ipv4_host : String → Bool
unfolding is_host_parts split
is_ipv4_host s = is_host_parts (split b'/' s)

host_run : is_ipv4_host "203.0.113.10/32" ≡ true
unfolding is_ipv4_host
host_run = refl

leading_zero_run : is_ipv4_host "203.0.113.010/32" ≡ false
unfolding is_ipv4_host
leading_zero_run = refl

short_prefix_run : is_ipv4_host "10.0.0.0/8" ≡ false
unfolding is_ipv4_host
short_prefix_run = refl
