-- ===== src/IamPolicy/Addresses.antt =====
-- pkg/iampolicy/conditions.go: `ipInAny`, over the addresses and prefixes of `net/netip`.
use bluebottle.Prelude.{
  ℕ, ◌-◌, ◌*◌, ◌/◌, ◌%◌, ◌^◌, Bool, false, ◌&&◌, none, some, List, Bytes, ◌==◌, if◌then◌else◌, any,
  eqb, is_empty,
}
use bluebottle.Strings.{Platform, Addr, v4, v6, AddrPrefix}

-- `Addr.Unmap`: an IPv4-mapped IPv6 address becomes the IPv4 address in it.
unfoldable pub unmap : Addr → Addr
unmap (v4 n) = v4 n
unmap (v6 n zone) = if n / 2 ^ 32 == 0xffff then v4 (n % 2 ^ 32) else v6 n zone

abbrev addr_bits : Addr → ℕ
addr_bits (v4 n) = 32
addr_bits (v6 n zone) = 128

-- The network part, with the `free` bits behind it cleared.
abbrev clear_low : ℕ → Addr → Addr
clear_low free (v4 n) = v4 (n / 2 ^ free * 2 ^ free)
clear_low free (v6 n zone) = v6 (n / 2 ^ free * 2 ^ free) zone

-- `Prefix.Masked`
unfoldable pub masked : AddrPrefix → AddrPrefix
masked p = record p { addr = clear_low (addr_bits p.addr - p.bits) p.addr }

-- `Prefix.Contains`: an address with a zone or of the other family is in no prefix.
abbrev within : ℕ → Addr → Addr → Bool
within bits (v4 m) (v4 n) = m / 2 ^ (32 - bits) == n / 2 ^ (32 - bits)
within bits (v4 m) (v6 n zone) = false
within bits (v6 m z) (v4 n) = false
within bits (v6 m z) (v6 n zone) = is_empty zone && m / 2 ^ (128 - bits) == n / 2 ^ (128 - bits)

unfoldable pub contains_addr : AddrPrefix → Addr → Bool
contains_addr p a = within p.bits p.addr a

unfoldable pub eq_addr : Addr → Addr → Bool
eq_addr (v4 m) (v4 n) = m == n
eq_addr (v4 m) (v6 n zone) = false
eq_addr (v6 m z) (v4 n) = false
eq_addr (v6 m z) (v6 n zone) = m == n && eqb z zone

-- One round of `ipInAny`: a value is a prefix, or else an address, or matches nothing.
unfoldable pub ip_matches : Platform → Addr → Bytes → Bool
unfolding unmap masked contains_addr eq_addr
ip_matches lib addr v = elim (lib.parse_prefix v) [
  | some prefix ↦ contains_addr (masked prefix) addr
  | none ↦ elim (lib.parse_addr v) [ none ↦ false | some other ↦ eq_addr (unmap other) addr ]
]

unfoldable pub ip_in_any : Platform → Bytes → List Bytes → Bool → Bool
unfolding ip_matches unmap
ip_in_any lib actual values fail_closed = elim (lib.parse_addr actual) [
  | none ↦ fail_closed
  | some addr ↦ any (ip_matches lib (unmap addr)) values
]
