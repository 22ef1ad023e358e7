-- ===== src/Net/Page.antt =====
-- The HTTP response of `send_http_response` in src/net.rs, described without the code that writes it.
use qore_os.Base.{
  ℕ, zero, suc, ◌+◌, ◌/◌, ◌%◌, ◌≤◌, ◌≡◌, refl, List, [], ◌∷◌, ◌++◌, Option, none, some, arith,
  length, length-append, ◌==◌, if_intro,
}
use qore_os.Text.{codes, decimal, decimal_digits, value, value-decimal}
use qore_os.Net.{http_body, file_content}

-- Decimal digits in ASCII.
abbrev pub AllDigits : List ℕ → Type 0
AllDigits [] = Unit {0}
AllDigits (d ∷ ds) = (48 ≤ d) × (d ≤ 57) × AllDigits ds

-- The text of HTTP_PAYLOAD, or what is served where there is none.
abbrev pub page_text : Option (List ℕ) → List ℕ
page_text none = codes "ERROR: NO PAYLOAD FOUND IN RING-0 MEMORY"
page_text (some text) = text

-- A response of status 200 whose lines give the text's length, an empty line, and the whole text.
pub record IsPage (body text : List ℕ) : Type 0 where
  pub digits : List ℕ
  pub decimal : AllDigits digits
  pub size : value 0 digits ≡ length text
  pub lines :
      body
      ≡ codes "HTTP/1.1 200 OK\r\nContent-Type: text/plain\r\nContent-Length: "
        ++ (digits ++ (codes "\r\nConnection: close\r\n\r\n" ++ text))

decimal_digits-AllDigits :
    (fuel n : ℕ) (acc : List ℕ) → AllDigits acc → AllDigits (decimal_digits fuel n acc)
unfolding decimal_digits
decimal_digits-AllDigits zero n acc h = h
decimal_digits-AllDigits (suc fuel) n acc h =
    let digit : AllDigits ((48 + n % 10) ∷ acc) = (omega arith, omega arith, h) in
    if_intro AllDigits (n / 10 == 0) (λ _. digit)
      λ _. decimal_digits-AllDigits fuel (n / 10) ((48 + n % 10) ∷ acc) digit

length_lt : (text : List ℕ) → length (http_body text) ≤ 65481 → length text ≤ 65481
unfolding http_body
length_lt text h =
    let head = codes "HTTP/1.1 200 OK\r\nContent-Type: text/plain\r\nContent-Length: " in
    let tail = codes "\r\nConnection: close\r\n\r\n" in
    let digits = decimal (length text) in
    omega (
      arith,
      h,
      length-append head (digits ++ (tail ++ text)),
      length-append digits (tail ++ text),
      length-append tail text,
    )

pub http_body-IsPage :
    (text : List ℕ) → length (http_body text) ≤ 65481 → IsPage (http_body text) text
unfolding http_body decimal
http_body-IsPage text h = record {
  digits = decimal (length text);
  decimal = decimal_digits-AllDigits 20 (length text) [] tt;
  size = value-decimal (length text) (omega (arith, length_lt text h));
  lines = refl;
}

pub file_content-page_text : (o : Option (List ℕ)) → file_content o ≡ page_text o
file_content-page_text none = refl
file_content-page_text (some text) = refl
