-- ===== src/Drone/Address.antt =====
-- Which address a job's host may have: src/drone/util.rs.
use rocktick.Prelude.{
  ℕ, ◌+◌, ◌*◌, ◌/◌, ◌≤◌, ◌<◌, ◌≡◌, ◌↔◌, subst, String, Bool, true, not, ◌&&◌, ◌||◌, Option, none,
  some, List, [], ◌∷◌, arith, find, leb, ◌==◌, str_eq, ◌⊎◌, inl, inr, unwrap_or, if◌then◌else◌,
  find-test, Option-cases, Bool-cases,
}
use mathlib.Core.List.{Mem, mem-cons_self, mem-cons_of_mem}

-- An IPv4 address has four bytes; an IPv6 address has eight segments of 16 bits.
pub data IpAddr : Type 0 where
  v4 : ℕ → ℕ → ℕ → ℕ → IpAddr
  v6 : ℕ → ℕ → ℕ → ℕ → ℕ → ℕ → ℕ → ℕ → IpAddr

pub record SocketAddr : Type 0 where
  pub ip : IpAddr
  pub port : ℕ

-- The parts of `url::Url` that are read.
pub record Url : Type 0 where
  pub scheme : String
  pub host : Option String
  pub port : Option ℕ

-- The parser of URLs and the resolver of names.
pub record NetLib : Type 0 where
  pub parse_url : String → Option Url
  pub lookup_host : String → ℕ → Option (List SocketAddr)

-- `Ipv4Addr::is_private`, `is_loopback` and `is_link_local`.
unfoldable pub is_private_v4 : ℕ → ℕ → Bool
is_private_v4 a b = a == 10 || a == 172 && leb 16 b && leb b 31 || a == 192 && b == 168

-- `segments()[0] & 0xfe00 == 0xfc00`.
unfoldable pub is_unique_local : ℕ → Bool
is_unique_local s = s / 512 == 126

unfoldable pub is_private_ip : IpAddr → Bool
unfolding is_private_v4 is_unique_local
is_private_ip (v4 a b c d) = is_private_v4 a b || a == 127 || a == 169 && b == 254
is_private_ip (v6 a b c d e f g h) =
    let zeros = a == 0 && b == 0 && c == 0 && d == 0 && e == 0 && f == 0 && g == 0 in
    if zeros && h == 1 || zeros && h == 0
    then true
    else if a == 0xfdaa
    then true
    else is_unique_local a

abbrev pub is_web : Url → Bool
is_web url = str_eq url.scheme "http" || str_eq url.scheme "https"

-- `port_or_known_default` of a web address.
abbrev pub port_of : Url → ℕ
port_of url = unwrap_or url.port (if str_eq url.scheme "https" then 443 else 80)

module _ (net : NetLib) (is_dev : Bool) where
  -- The test of the loop, which stops at the first address that passes.
  abbrev pub is_allowed : SocketAddr → Bool
  is_allowed addr = is_dev || not (is_private_ip addr.ip)

  abbrev first_of : Option (List SocketAddr) → Option SocketAddr
  first_of none = none
  first_of (some addrs) = find is_allowed addrs

  abbrev at_host : Url → Option String → Option SocketAddr
  at_host url none = none
  at_host url (some host) = first_of (net.lookup_host host (port_of url))

  abbrev of_url : Option Url → Option SocketAddr
  of_url none = none
  of_url (some url) = if is_web url then at_host url url.host else none

  unfoldable pub resolve_public_ip : String → Option SocketAddr
  resolve_public_ip url = of_url (net.parse_url url)

-- The ranges of 32 bits that IPv4 addresses are refused from.
abbrev pub bits : ℕ → ℕ → ℕ → ℕ → ℕ
bits a b c d = 16777216 * a + 65536 * b + 256 * c + d

abbrev pub Within : ℕ → ℕ → ℕ → Type 0
Within low high n = (low ≤ n) × (n ≤ high)

abbrev pub Refused : ℕ → Type 0
Refused n =
    Within (bits 10 0 0 0) (bits 10 255 255 255) n
    ⊎ (Within (bits 172 16 0 0) (bits 172 31 255 255) n
        ⊎ (Within (bits 192 168 0 0) (bits 192 168 255 255) n
            ⊎ (Within (bits 127 0 0 0) (bits 127 255 255 255) n
                ⊎ Within (bits 169 254 0 0) (bits 169 254 255 255) n)))

abbrev pub RefusedIp : IpAddr → Type 0
RefusedIp (v4 a b c d) = Refused (bits a b c d)
RefusedIp (v6 a b c d e f g h) =
    (a + b + c + d + e + f + g + h ≤ 1) × (a + b + c + d + e + f + g ≡ 0) ⊎ Within 0xfc00 0xfdff a

-- Bytes, and segments of 16 bits.
abbrev pub Valid : IpAddr → Type 0
Valid (v4 a b c d) = (a < 256) × (b < 256) × (c < 256) × (d < 256)
Valid (v6 a b c d e f g h) =
    (a < 65536)
    × (b < 65536)
    × (c < 65536)
    × (d < 65536)
    × (e < 65536)
    × (f < 65536)
    × (g < 65536)
    × (h < 65536)

refused : (ip : IpAddr) → Valid ip → is_private_ip ip ≡ true → RefusedIp ip
unfolding is_private_ip is_private_v4 is_unique_local
refused (v4 a b c d) valid h = ground arith
refused (v6 a b c d e f g h) valid p = ground arith

accepted : (ip : IpAddr) → Valid ip → RefusedIp ip → is_private_ip ip ≡ true
unfolding is_private_ip is_private_v4 is_unique_local
accepted (v4 a b c d) valid r = ground arith
accepted (v6 a b c d e f g h) valid r = ground arith

-- The addresses that are refused: of IPv4 the private, loopback and link-local blocks, of IPv6 the
-- addresses :: and ::1 and the block fc00::/7.
pub is_private_ip_iff : (ip : IpAddr) → Valid ip → (is_private_ip ip ≡ true) ↔ RefusedIp ip
is_private_ip_iff ip valid = (refused ip valid, accepted ip valid)

find-Mem : {A : Type 0} (p : A → Bool) (xs : List A) (x : A) → find p xs ≡ some x → Mem x xs
unfolding find
find-Mem p [] x h = cc
find-Mem p (y ∷ xs) x h = elim (Bool-cases (p y)) [
  | inl e ↦ let same : y ≡ x = ground arith in subst (λ z. Mem z (y ∷ xs)) same mem-cons_self
  | inr e ↦ mem-cons_of_mem y (find-Mem p xs x (ground arith))
]

module _ (net : NetLib) (is_dev : Bool) where
  -- A looked-up address of a web host that development allows, or that no refused block contains.
  abbrev pub Allowed : String → SocketAddr → Type 0
  Allowed text addr =
      (url : Url) × (host : String) × (addrs : List SocketAddr) × (net.parse_url text ≡ some url)
      × (is_web url ≡ true)
      × (url.host ≡ some host)
      × (net.lookup_host host (port_of url) ≡ some addrs)
      × Mem addr addrs
      × ((is_dev ≡ true) ⊎ (¬ RefusedIp addr.ip))

  allowed_ip :
      (addr : SocketAddr)
      → Valid addr.ip
      → is_allowed net is_dev addr ≡ true
      → (is_dev ≡ true) ⊎ (¬ RefusedIp addr.ip)
  allowed_ip addr valid h = elim (Bool-cases is_dev) [
    | inl d ↦ inl d
    | inr d ↦ inr (λ r. ground (arith, accepted addr.ip valid r))
  ]

  -- An address that is resolved is one of those that the resolver gives for the host of a web URL;
  -- and it lies in no refused block, unless the drone is one for development. The refused blocks are
  -- 10/8, 172.16/12, 192.168/16, 127/8 and 169.254/16 of IPv4, and ::, ::1 and fc00::/7 of IPv6. The
  -- address has bytes, or segments of 16 bits.
  pub resolve_public_ip-Allowed :
      (text : String) (addr : SocketAddr)
      → Valid addr.ip
      → resolve_public_ip net is_dev text ≡ some addr
      → Allowed text addr
  unfolding resolve_public_ip
  resolve_public_ip-Allowed text addr valid h = elim (Option-cases (net.parse_url text)) [
    | inl e ↦ absurd (ground arith)
    | inr (url, e) ↦ elim (Bool-cases (is_web url)) [
      | inr w ↦ absurd (ground arith)
      | inl w ↦ elim (Option-cases url.host) [
        | inl f ↦ absurd (ground arith)
        | inr (host, f) ↦ elim (Option-cases (net.lookup_host host (port_of url))) [
          | inl g ↦ absurd (ground arith)
          | inr (addrs, g) ↦
              let found : find (is_allowed net is_dev) addrs ≡ some addr = ground arith in
              (
                url,
                host,
                addrs,
                e,
                w,
                f,
                g,
                find-Mem (is_allowed net is_dev) addrs addr found,
                allowed_ip addr valid (find-test (is_allowed net is_dev) addrs addr found),
              )
        ]
      ]
    ]
  ]
