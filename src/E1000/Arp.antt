-- ===== src/E1000/Arp.antt =====
-- The ARP cache of src/e1000.rs: sixteen entries, of which `lookup` reads the active ones.
pub mod Laws
use qore_os.Base.{
  ℕ, List, [], ◌∷◌, Bool, true, false, ◌&&◌, not, Option, none, some, ◌==◌, if◌then◌else◌,
  replicate,
}
use mathlib.Core.Option

-- `[u8; 6]`
pub record Mac : Type 0 where
  pub m0 : ℕ
  pub m1 : ℕ
  pub m2 : ℕ
  pub m3 : ℕ
  pub m4 : ℕ
  pub m5 : ℕ

-- `[u8; 4]`
pub record Ip : Type 0 where
  pub a : ℕ
  pub b : ℕ
  pub c : ℕ
  pub d : ℕ

abbrev pub mac_bytes : Mac → List ℕ
mac_bytes m = m.m0 ∷ m.m1 ∷ m.m2 ∷ m.m3 ∷ m.m4 ∷ m.m5 ∷ []

abbrev pub ip_bytes : Ip → List ℕ
ip_bytes i = i.a ∷ i.b ∷ i.c ∷ i.d ∷ []

-- `==` of two addresses, as arrays.
unfoldable pub ip_eq : Ip → Ip → Bool
ip_eq i j = i.a == j.a && (i.b == j.b && (i.c == j.c && i.d == j.d))

pub record ArpEntry : Type 0 where
  pub ip : Ip
  pub mac : Mac
  pub active : Bool

-- The entries of `ArpCache`.
abbrev pub ArpCache : Type 0
ArpCache = List ArpEntry

abbrev pub zero_ip : Ip
zero_ip = record { a = 0; b = 0; c = 0; d = 0 }

abbrev pub zero_mac : Mac
zero_mac = record { m0 = 0; m1 = 0; m2 = 0; m3 = 0; m4 = 0; m5 = 0 }

-- `ArpCache::new`
abbrev pub new : ArpCache
new = replicate 16 (record { ip = zero_ip; mac = zero_mac; active = false })

-- The first loop of `insert`, with `none` where it finds no entry for the address.
unfoldable pub update_active : ArpCache → Ip → Mac → Option ArpCache
update_active [] ip mac = none
update_active (e ∷ es) ip mac =
    if e.active && ip_eq e.ip ip
    then some (record e { mac = mac } ∷ es)
    else Option.map (λ rest. e ∷ rest) (update_active es ip mac)

-- The second loop of `insert`, with `none` where every entry is active.
unfoldable pub fill_inactive : ArpCache → Ip → Mac → Option ArpCache
fill_inactive [] ip mac = none
fill_inactive (e ∷ es) ip mac =
    if not e.active
    then some (record { ip = ip; mac = mac; active = true } ∷ es)
    else Option.map (λ rest. e ∷ rest) (fill_inactive es ip mac)

unfoldable pub insert : ArpCache → Ip → Mac → ArpCache
insert cache ip mac = elim (update_active cache ip mac) [
  | some updated ↦ updated
  | none ↦ elim (fill_inactive cache ip mac) [ some filled ↦ filled | none ↦ cache ]
]

unfoldable pub lookup : ArpCache → Ip → Option Mac
lookup [] ip = none
lookup (e ∷ es) ip = if e.active && ip_eq e.ip ip then some e.mac else lookup es ip
