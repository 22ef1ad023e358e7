-- ===== src/Text.antt =====
-- The texts that the kernel formats: their bytes, and numbers in decimal and hexadecimal.
use Prim.Native.Char.{code}
use Prim.Native.String.{String}
use qore_os.Base.{
  ℕ, zero, suc, ◌+◌, ◌-◌, ◌*◌, ◌/◌, ◌%◌, ◌^◌, ◌<◌, ◌≡◌, List, [], ◌∷◌, ◌++◌, ◌==◌, ltb,
  if◌then◌else◌, arith, inl, inr, Bool-cases, pow-suc, ==→eq, eq→==, ◌∙◌,
}

-- The code points of a text; all texts of the kernel are ASCII, so these are its bytes too.
abbrev pub codes : String → List ℕ
codes String.[] = []
codes (String.◌∷◌ c s) = code c ∷ codes s

-- The digits of `n`, at most as many as the fuel, in front of `acc`.
unfoldable pub decimal_digits : ℕ → ℕ → List ℕ → List ℕ
decimal_digits zero n acc = acc
decimal_digits (suc fuel) n acc =
    let rest = decimal_digits fuel (n / 10) ((48 + n % 10) ∷ acc) in
    if n / 10 == 0 then (48 + n % 10) ∷ acc else rest

-- `{}` of a number of at most 20 digits, which every 64-bit number is.
unfoldable pub decimal : ℕ → List ℕ
unfolding decimal_digits
decimal n = decimal_digits 20 n []

abbrev pub hex_digit : ℕ → ℕ
hex_digit d = if ltb d 10 then 48 + d else 55 + d

-- `{:04X}` of a 16-bit number.
unfoldable pub hex4 : ℕ → List ℕ
hex4 n =
    hex_digit (n / 4096 % 16)
    ∷ hex_digit (n / 256 % 16)
    ∷ hex_digit (n / 16 % 16)
    ∷ hex_digit (n % 16)
    ∷ []

-- The hexadecimal digits of `n`, at most as many as the fuel, in front of `acc`.
unfoldable pub hex_digits : ℕ → ℕ → List ℕ → List ℕ
hex_digits zero n acc = acc
hex_digits (suc fuel) n acc =
    let rest = hex_digits fuel (n / 16) (hex_digit (n % 16) ∷ acc) in
    if n / 16 == 0 then hex_digit (n % 16) ∷ acc else rest

-- `{:#X}` of a 64-bit number.
unfoldable pub hex : ℕ → List ℕ
unfolding hex_digits
hex n = codes "0x" ++ hex_digits 16 n []

-- `{:02X}` of a byte.
abbrev pub hex2 : ℕ → List ℕ
hex2 n = hex_digit (n / 16 % 16) ∷ hex_digit (n % 16) ∷ []

-- `{:02}` of a number below 100.
abbrev pub decimal2 : ℕ → List ℕ
decimal2 n = (48 + n / 10 % 10) ∷ (48 + n % 10) ∷ []

-- The number that a run of decimal digits stands for, after `n`.
abbrev pub value : ℕ → List ℕ → ℕ
value n [] = n
value n (d ∷ ds) = value (n * 10 + (d - 48)) ds

last_digit :
    (n : ℕ) (acc : List ℕ) → n / 10 ≡ 0 → value (0 * 10 + (48 + n % 10 - 48)) acc ≡ value n acc
last_digit n acc e = let d : 0 * 10 + (48 + n % 10 - 48) ≡ n = omega arith in rw d

value-decimal_digits :
    (fuel n : ℕ) (acc : List ℕ)
    → n < 10 ^ suc fuel
    → value 0 (decimal_digits (suc fuel) n acc) ≡ value n acc
unfolding decimal_digits
value-decimal_digits zero n acc h =
    let e : n / 10 ≡ 0 = omega arith in rw (eq→== (n / 10) 0 e) (last_digit n acc e)
value-decimal_digits (suc fuel) n acc h = elim (Bool-cases (n / 10 == 0)) [
  | inl last ↦ rw last (last_digit n acc (==→eq (n / 10) 0 last))
  | inr more ↦
      let d : n / 10 * 10 + (48 + n % 10 - 48) ≡ n = omega arith in
      rw more (
        value-decimal_digits fuel (n / 10) ((48 + n % 10) ∷ acc)
          (omega (arith, pow-suc 10 (suc fuel)))
        ∙ rw d)
]

-- The decimal text of a number below 10 ^ 20, so of any 64-bit number, reads back as that number.
pub value-decimal : (n : ℕ) → n < 10 ^ 20 → value 0 (decimal n) ≡ n
unfolding decimal
value-decimal n h = value-decimal_digits 19 n [] h
