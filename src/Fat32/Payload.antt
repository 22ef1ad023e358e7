-- ===== src/Fat32/Payload.antt =====
-- The search of the root directory and the extent of the text.
use qore_os.Base.{
  ℕ, zero, suc, ◌<◌, ◌≡◌, refl, List, [], ◌∷◌, ◌++◌, Bool, true, ◌&&◌, ◌||◌, not, arith, take,
  length, ◌==◌,
}
use qore_os.Text.{codes}
use qore_os.Fat32.{Fat32DirEntry, bytes_eq, first_cluster, find_payload, text_len}

bytes_eq_refl : (xs : List ℕ) → bytes_eq xs xs ≡ true
unfolding bytes_eq
bytes_eq_refl [] = refl
bytes_eq_refl (x ∷ xs) = ground (arith, bytes_eq_refl xs)

-- No entry has the name of the payload.
unfoldable pub lacks_payload : List Fat32DirEntry → Bool
lacks_payload [] = true
lacks_payload (e ∷ es) = not (bytes_eq e.name (codes "PAYLOAD TXT")) && lacks_payload es

pub find_payload-append :
    (before : List Fat32DirEntry) (e : Fat32DirEntry) (after : List Fat32DirEntry)
    → lacks_payload before ≡ true
    → e.name ≡ codes "PAYLOAD TXT"
    → find_payload (before ++ (e ∷ after)) ≡ first_cluster e
unfolding find_payload lacks_payload
find_payload-append [] e after h name =
    let same : bytes_eq e.name (codes "PAYLOAD TXT") ≡ true =
      rw name (bytes_eq_refl (codes "PAYLOAD TXT")) in
    rw same refl
find_payload-append (b ∷ before) e after h name =
    let rest = find_payload-append before e after in ground (arith, rest)

-- The bytes are neither 0 nor a line feed.
unfoldable pub is_line : List ℕ → Bool
is_line [] = true
is_line (b ∷ bs) = not (b == 0) && not (b == 0x0A) && is_line bs

-- The loop stops at the end of the line, where that lies inside the sector.
pub take-text_len :
    (n : ℕ) (text : List ℕ) (stop : ℕ) (rest : List ℕ)
    → is_line text ≡ true
    → (stop == 0 || stop == 0x0A) ≡ true
    → length text < n
    → take (text_len n (text ++ (stop ∷ rest))) (text ++ (stop ∷ rest)) ≡ text
unfolding text_len is_line
take-text_len zero text stop rest h e l = absurd (omega arith)
take-text_len (suc n) [] stop rest h e l = ground arith
take-text_len (suc n) (b ∷ text) stop rest h e l =
    let tail = take-text_len n text stop rest in ground (arith, tail)
