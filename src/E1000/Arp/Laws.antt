-- ===== src/E1000/Arp/Laws.antt =====
-- `insert` against `lookup`: the cache is a finite map of bounded size that never evicts.
use qore_os.Base.{
  ◌≡◌, refl, [], ◌∷◌, Bool, true, false, ◌&&◌, ◌||◌, not, none, some, if◌then◌else◌, arith, length,
}
use qore_os.E1000.Arp.{Ip, Mac, ArpCache, ip_eq, update_active, fill_inactive, insert, lookup}

-- Some entry is not in use.
unfoldable pub has_room : ArpCache → Bool
has_room [] = false
has_room (e ∷ es) = not e.active || has_room es

-- Some active entry is for the address.
abbrev pub is_known : ArpCache → Ip → Bool
is_known cache ip = elim (lookup cache ip) [ none ↦ false | some m ↦ true ]

pub ip_eq_iff : (i j : Ip) → ip_eq i j ≡ true → i ≡ j
unfolding ip_eq
ip_eq_iff i j h = ground arith

pub ip_eq_refl : (i : Ip) → ip_eq i i ≡ true
unfolding ip_eq
ip_eq_refl i = ground arith

ip_eq_left : (i j k : Ip) → ip_eq i j ≡ true → ip_eq i k ≡ ip_eq j k
ip_eq_left i j k h = rw (ip_eq_iff i j h)

ip_eq_right : (i j k : Ip) → ip_eq j k ≡ true → ip_eq i j ≡ ip_eq i k
ip_eq_right i j k h = rw (ip_eq_iff j k h)

-- The first loop replaces the hardware address that a known address has, and finds no other.
lookup-update_active :
    (cache : ArpCache) (ip j : Ip) (mac : Mac)
    → (elim (update_active cache ip mac) [
      | some updated ↦ lookup updated j
      | none ↦ lookup cache j
    ])
      ≡ (if is_known cache ip && ip_eq ip j then some mac else lookup cache j)
unfolding update_active lookup
lookup-update_active [] ip j mac = refl
lookup-update_active (e ∷ es) ip j mac =
    ground (arith, ip_eq_left e.ip ip j, ip_eq_right e.ip ip j, lookup-update_active es ip j mac)

update_active-is_known :
    (cache : ArpCache) (ip : Ip) (mac : Mac)
    → (elim (update_active cache ip mac) [ some updated ↦ true | none ↦ false ]) ≡ is_known cache ip
unfolding update_active lookup
update_active-is_known [] ip mac = refl
update_active-is_known (e ∷ es) ip mac = ground (arith, update_active-is_known es ip mac)

-- For an unknown address the second loop enters it where there is room.
lookup-fill_inactive :
    (cache : ArpCache) (ip j : Ip) (mac : Mac)
    → is_known cache ip ≡ false
    → (elim (fill_inactive cache ip mac) [ some filled ↦ lookup filled j | none ↦ lookup cache j ])
      ≡ (if has_room cache && ip_eq ip j then some mac else lookup cache j)
unfolding fill_inactive has_room lookup
lookup-fill_inactive [] ip j mac h = refl
lookup-fill_inactive (e ∷ es) ip j mac h =
    ground (arith, ip_eq_left e.ip ip j, ip_eq_right e.ip ip j, lookup-fill_inactive es ip j mac)

-- After `insert` of an address that is known, or where an entry is free, `lookup` of that address
-- gives the new hardware address. All else is as before: every other address, and an unknown address
-- that finds the cache full.
pub lookup-insert :
    (cache : ArpCache) (ip j : Ip) (mac : Mac)
    → lookup (insert cache ip mac) j
      ≡ (if (is_known cache ip || has_room cache) && ip_eq ip j then some mac else lookup cache j)
unfolding insert
lookup-insert cache ip j mac = ground (
  arith,
  lookup-update_active cache ip j mac,
  update_active-is_known cache ip mac,
  lookup-fill_inactive cache ip j mac,
)

-- `insert` keeps the number of entries, sixteen in the kernel's table.
length-update_active :
    (cache : ArpCache) (ip : Ip) (mac : Mac)
    → (elim (update_active cache ip mac) [ some updated ↦ length updated | none ↦ length cache ])
      ≡ length cache
unfolding update_active
length-update_active [] ip mac = refl
length-update_active (e ∷ es) ip mac = ground (arith, length-update_active es ip mac)

length-fill_inactive :
    (cache : ArpCache) (ip : Ip) (mac : Mac)
    → (elim (fill_inactive cache ip mac) [ some filled ↦ length filled | none ↦ length cache ])
      ≡ length cache
unfolding fill_inactive
length-fill_inactive [] ip mac = refl
length-fill_inactive (e ∷ es) ip mac = ground (arith, length-fill_inactive es ip mac)

pub length-insert :
    (cache : ArpCache) (ip : Ip) (mac : Mac) → length (insert cache ip mac) ≡ length cache
unfolding insert
length-insert cache ip mac =
    ground (arith, length-update_active cache ip mac, length-fill_inactive cache ip mac)
