-- ===== src/Net/Ipv4.antt =====
-- IPv4 addresses and networks as the standard library's `ipaddress` parses them. IPv6 texts parse to
-- nothing here: where the source parses one, it then drops it for its version.
use netbox_monitor.Prelude.{
  ℕ, zero, suc, ◌+◌, ◌-◌, ◌*◌, ◌/◌, ◌^◌, String, Bool, false, ◌&&◌, Option, none, some, List, [],
  ◌∷◌, length, leb, ltb, ◌=?◌, if◌then◌else◌, maybe, split, decimal, codes, find,
}

abbrev pub bind : {A B : Type 0} → Option A → (A → Option B) → Option B
bind o f = maybe o none f

abbrev starts_with_zero : List ℕ → Bool
starts_with_zero [] = false
starts_with_zero (c ∷ cs) = c =? 48

-- One part of a dotted quad: one to three digits, no leading zero, at most 255.
abbrev octet : String → Option ℕ
octet s = bind (decimal s) (λ n.
    if leb (length (codes s)) 3 && leb n 255
    then (if starts_with_zero (codes s) && ltb 1 (length (codes s)) then none else some n)
    else none)

abbrev value_of : Option ℕ → Option ℕ → Option ℕ → Option ℕ → Option ℕ
value_of (some a) (some b) (some c) (some d) = some (((a * 256 + b) * 256 + c) * 256 + d)
value_of _ _ _ _ = none

abbrev quad : List String → Option ℕ
quad (a ∷ b ∷ c ∷ d ∷ []) = value_of (octet a) (octet b) (octet c) (octet d)
quad _ = none

-- `ip_address(s)`, where it is of version 4
unfoldable pub parse_address : String → Option ℕ
parse_address s = quad (split 46 s)

pub record Network : Type 0 where
  pub address : ℕ
  pub prefix_len : ℕ

abbrev pub block : ℕ → ℕ
block prefix_len = 2 ^ (32 - prefix_len)

-- The lengths from 32 down.
abbrev lengths : ℕ → List ℕ
lengths zero = 0 ∷ []
lengths (suc n) = suc n ∷ lengths n

-- The length that a net mask, or else a host mask, stands for.
abbrev mask_length : ℕ → Option ℕ
mask_length mask =
    maybe (find (λ n. mask =? 2 ^ 32 - block n) (lengths 32))
      (find (λ n. mask =? block n - 1) (lengths 32)) some

abbrev pub prefix_length : String → Option ℕ
unfolding parse_address
prefix_length s =
    maybe (decimal s) (bind (parse_address s) mask_length) (λ n. if leb n 32 then some n else none)

-- The host bits are cleared (`strict=False`).
unfoldable pub network_at : ℕ → ℕ → Network
network_at address prefix_len = record {
  address = address / block prefix_len * block prefix_len;
  prefix_len = prefix_len;
}

abbrev pub network_of : List String → Option Network
network_of (a ∷ []) = bind (parse_address a) (λ n. some (network_at n 32))
network_of (a ∷ p ∷ []) =
    bind (parse_address a) (λ n. bind (prefix_length p) (λ len. some (network_at n len)))
network_of _ = none

-- `ip_network(s, strict=False)`, where it is of version 4
unfoldable pub parse_network : String → Option Network
parse_network s = network_of (split 47 s)

-- `address in network`
unfoldable pub contains : Network → ℕ → Bool
contains net address = address / block net.prefix_len =? net.address / block net.prefix_len
