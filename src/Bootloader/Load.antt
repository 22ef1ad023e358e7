-- ===== src/Bootloader/Load.antt =====
-- The kernel image in memory.
use qore_os.Base.{
  ℕ, ◌+◌, ◌<◌, ◌≡◌, refl, sym, ap, ◌∙◌, List, [], ◌∷◌, Bool, true, false, if◌then◌else◌, get_or,
}
use qore_os.Ram.{Ram, store, load, length-load, get_or-load}
use qore_os.Ram.Writes.{
  write_all, Ordered, AllRead, write_all-AllRead, AllOutside, write_all-outside,
}
use qore_os.Bootloader.{ProgramHeader, segment_bytes, load_kernel}

abbrev pub keep_if {ℓ} : {A : Type ℓ} → Bool → A → List A → List A
keep_if b a rest = if b then a ∷ rest else rest

-- The segments that are to be loaded: address and bytes.
abbrev pub segments : (ℕ → ℕ) → List ProgramHeader → List (ℕ × List ℕ)
segments kernel_bytes [] = []
segments kernel_bytes (ph ∷ headers) =
    keep_if ph.is_load (ph.virtual_addr, segment_bytes kernel_bytes ph)
      (segments kernel_bytes headers)

pub load_kernel_lem :
    (kernel_bytes : ℕ → ℕ) (headers : List ProgramHeader) (ram : Ram)
    → load_kernel kernel_bytes headers ram ≡ write_all (segments kernel_bytes headers) ram
unfolding load_kernel write_all
load_kernel_lem kernel_bytes [] ram = refl
load_kernel_lem kernel_bytes (ph ∷ headers) ram =
    load_kernel_lem kernel_bytes headers _ ∙ by_type ph.is_load
  where
    by_type :
        (b : Bool)
        → write_all
            (segments kernel_bytes headers)
            (if b then store ram ph.virtual_addr (segment_bytes kernel_bytes ph) else ram)
          ≡ write_all
              (keep_if b
                (ph.virtual_addr, segment_bytes kernel_bytes ph)
                (segments kernel_bytes headers))
              ram
    by_type true = refl
    by_type false = refl

load_at : (m m' : Ram) (p q n k : ℕ) → load m p n ≡ load m' q n → k < n → m (p + k) ≡ m' (q + k)
load_at m m' p q n k e l =
    sym (get_or-load m p n k l) ∙ ap (λ bs. get_or bs k 0) e ∙ get_or-load m' q n k l

-- Each byte of a segment to be loaded stands at its offset from the segment's address.
abbrev pub AllCopied : (ℕ → ℕ) → List ProgramHeader → Ram → Type 0
AllCopied kernel_bytes [] ram = Unit {0}
AllCopied kernel_bytes (ph ∷ headers) ram =
    (if ph.is_load
      then ((k : ℕ) → k < ph.file_size → ram (ph.virtual_addr + k) ≡ kernel_bytes (ph.offset + k))
      else Unit {0})
    × AllCopied kernel_bytes headers ram

AllRead-AllCopied :
    (kernel_bytes : ℕ → ℕ) (headers : List ProgramHeader) (ram : Ram)
    → AllRead ram (segments kernel_bytes headers)
    → AllCopied kernel_bytes headers ram
AllRead-AllCopied kernel_bytes [] ram = λ h. tt
AllRead-AllCopied kernel_bytes (ph ∷ headers) ram =
    by_type (AllRead-AllCopied kernel_bytes headers ram) ph.is_load
  where
    by_type :
        (AllRead ram (segments kernel_bytes headers) → AllCopied kernel_bytes headers ram)
        → (b : Bool)
        → AllRead ram (
            keep_if b
              (ph.virtual_addr, segment_bytes kernel_bytes ph)
              (segments kernel_bytes headers))
        → (if b
            then ((k : ℕ)
                → k < ph.file_size
                → ram (ph.virtual_addr + k) ≡ kernel_bytes (ph.offset + k))
            else Unit {0})
          × AllCopied kernel_bytes headers ram
    by_type rest true h =
        let whole : load ram ph.virtual_addr ph.file_size
            ≡ load kernel_bytes ph.offset ph.file_size =
          ap (load ram ph.virtual_addr) (sym (length-load kernel_bytes ph.offset ph.file_size))
          ∙ h.0 in
        (λ k l. load_at ram kernel_bytes ph.virtual_addr ph.offset ph.file_size k whole l, rest h.1)
    by_type rest false h = (tt, rest h)

-- Where no two of the segments to be loaded overlap, after the load each byte of each such segment, at
-- the offsets below its size in the file, stands at its offset from the segment's address and is the byte
-- of the image at that offset from the segment's place in the image; a byte in none of the segments is as
-- before.
pub load_kernel-AllCopied :
    (kernel_bytes : ℕ → ℕ) (headers : List ProgramHeader) (ram : Ram) (a : ℕ)
    → Ordered (segments kernel_bytes headers)
    → AllOutside a (segments kernel_bytes headers)
    → AllCopied kernel_bytes headers (load_kernel kernel_bytes headers ram)
      × (load_kernel kernel_bytes headers ram a ≡ ram a)
load_kernel-AllCopied kernel_bytes headers ram a h k =
    let e = load_kernel_lem kernel_bytes headers ram in
    let copied =
      AllRead-AllCopied kernel_bytes headers (write_all (segments kernel_bytes headers) ram)
        (write_all-AllRead (segments kernel_bytes headers) ram h) in
    rw e (copied, write_all-outside (segments kernel_bytes headers) ram a k)
