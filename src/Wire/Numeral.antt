-- ===== src/Wire/Numeral.antt =====
-- `std::to_string(uint64_t)` and `std::stoi`, as the adapter uses them for the keys of the votes.
use Prim.Native.Char.{char, code}
use Prim.Native.String.{String}
use dchain.Prelude.{
  ℕ, zero, suc, ◌+◌, ◌-◌, ◌*◌, ◌/◌, ◌%◌, ◌^◌, ◌<◌, ◌≡◌, ◌∙◌, Bool, true, false, ◌&&◌, ◌||◌, Option,
  none, some, List, [], ◌∷◌, arith, ◌==◌, leb, if◌then◌else◌, u64_mod, Bool-cases, inl, inr, ap,
  sym, ==→eq,
}

-- the bytes of a text
abbrev pub codes : String → List ℕ
codes String.[] = []
codes (String.◌∷◌ c s) = code c ∷ codes s

-- a decimal digit in front
unfoldable pub digit : ℕ → String → String
digit d s =
    if d == 0
    then String.◌∷◌ (char b'0' tt) s
    else if d == 1
    then String.◌∷◌ (char b'1' tt) s
    else if d == 2
    then String.◌∷◌ (char b'2' tt) s
    else if d == 3
    then String.◌∷◌ (char b'3' tt) s
    else if d == 4
    then String.◌∷◌ (char b'4' tt) s
    else if d == 5
    then String.◌∷◌ (char b'5' tt) s
    else if d == 6
    then String.◌∷◌ (char b'6' tt) s
    else if d == 7
    then String.◌∷◌ (char b'7' tt) s
    else if d == 8
    then String.◌∷◌ (char b'8' tt) s
    else String.◌∷◌ (char b'9' tt) s

-- The digits of a number in front of a text, at most as many as the first argument says.
unfoldable pub put_digits : ℕ → ℕ → String → String
unfolding digit
put_digits zero n s = s
put_digits (suc f) n s = elim (n / 10 == 0) [
  | true ↦ digit (n % 10) s
  | false ↦ put_digits f (n / 10) (digit (n % 10) s)
]

-- `std::to_string`: a `uint64_t` has at most 20 digits.
unfoldable pub to_string : ℕ → String
unfolding put_digits
to_string n = put_digits 20 n ""

abbrev is_digit : ℕ → Bool
is_digit c = leb b'0' c && leb c b'9'

-- the characters that `isspace` accepts
abbrev is_space : ℕ → Bool
is_space c = c == b' ' || leb 9 c && leb c 13

-- the value of the leading digits, behind those that were read
unfoldable pub read_digits : ℕ → List ℕ → ℕ
read_digits n [] = n
read_digits n (c ∷ s) =
    let rest = read_digits (n * 10 + (c - b'0')) s in if is_digit c then rest else n

-- A number wants a digit.
unfoldable pub unsigned : List ℕ → Option ℕ
unfolding read_digits
unsigned [] = none
unsigned (c ∷ s) = if is_digit c then some (read_digits 0 (c ∷ s)) else none

-- An `int` has 32 bits; what it stands for is converted to `uint64_t`.
unfoldable pub as_int : Bool → Option ℕ → Option ℕ
as_int negative none = none
as_int true (some n) = if leb n (2 ^ 31) then some ((u64_mod - n) % u64_mod) else none
as_int false (some n) = if leb n (2 ^ 31 - 1) then some n else none

unfoldable pub signed : List ℕ → Option ℕ
unfolding unsigned as_int
signed [] = none
signed (c ∷ s) =
    if c == b'-'
    then as_int true (unsigned s)
    else if c == b'+'
    then as_int false (unsigned s)
    else as_int false (unsigned (c ∷ s))

unfoldable pub skip_spaces : List ℕ → List ℕ
skip_spaces [] = []
skip_spaces (c ∷ s) = let rest = skip_spaces s in if is_space c then rest else c ∷ s

-- `std::stoi`, converted to `uint64_t`; `none` is `invalid_argument` or `out_of_range`.
unfoldable pub stoi : String → Option ℕ
unfolding skip_spaces signed
stoi s = signed (skip_spaces (codes s))

codes-digit : (d : ℕ) (s : String) → d < 10 → codes (digit d s) ≡ (b'0' + d) ∷ codes s
unfolding digit
codes-digit d s h = ground arith

-- The number of digits that suffice.
abbrev Fits : ℕ → ℕ → Type 0
Fits zero n = n < 1
Fits (suc f) n = Fits f (n / 10)

Fits-pos : (f n : ℕ) → (n / 10 == 0) ≡ false → Fits f (n / 10) → 0 < f
Fits-pos zero n e h = ground arith
Fits-pos (suc f) n e h = omega arith

-- Reading on from `n / 10` over the last digit of `n`.
read_digits_last :
    (n : ℕ) (s : List ℕ) → read_digits (n / 10) ((b'0' + n % 10) ∷ s) ≡ read_digits n s
unfolding read_digits
read_digits_last n s = ground arith

read_digits-put_digits :
    (f n : ℕ) (s : String)
    → 0 < f
    → Fits f n
    → read_digits 0 (codes (put_digits f n s)) ≡ read_digits n (codes s)
unfolding put_digits
read_digits-put_digits zero n s p h = absurd (omega arith)
read_digits-put_digits (suc f) n s p h = elim (Bool-cases (n / 10 == 0)) [
  | inl last ↦
      rw (last, put_digits, codes-digit (n % 10) s (omega arith))
        (ap (λ k. read_digits k ((b'0' + n % 10) ∷ codes s)) (sym (==→eq (n / 10) 0 last))
          ∙ read_digits_last n (codes s))
  | inr more ↦
      rw (more, put_digits)
        (read_digits-put_digits f (n / 10) (digit (n % 10) s) (Fits-pos f n more h) h
          ∙ rw (codes-digit (n % 10) s (omega arith)) (read_digits_last n (codes s)))
]

pow-Fits : (f n : ℕ) → n < 10 ^ f → Fits f n
pow-Fits zero n h = h
pow-Fits (suc f) n h = pow-Fits f (n / 10) (omega (arith, h))

u64-Fits : (n : ℕ) → n < u64_mod → Fits 20 n
u64-Fits n h = pow-Fits 20 n (omega (arith, h))

pub read_digits-to_string : (n : ℕ) → n < u64_mod → read_digits 0 (codes (to_string n)) ≡ n
unfolding to_string read_digits
read_digits-to_string n h = read_digits-put_digits 20 n "" (omega arith) (u64-Fits n h)

-- Distinct numbers have distinct texts.
pub to_string_injective : (m n : ℕ) → m < u64_mod → n < u64_mod → to_string m ≡ to_string n → m ≡ n
to_string_injective m n hm hn e =
    sym (read_digits-to_string m hm)
    ∙ (ap (λ s. read_digits 0 (codes s)) e ∙ read_digits-to_string n hn)

-- The text starts with a digit.
abbrev Numeric : List ℕ → Type 0
Numeric [] = ⊥
Numeric (c ∷ s) = is_digit c ≡ true

digit-Numeric : (d : ℕ) (s : String) → d < 10 → Numeric (codes (digit d s))
digit-Numeric d s h = rw (codes-digit d s h) (ground arith)

put_digits-Numeric : (f n : ℕ) (s : String) → 0 < f → Fits f n → Numeric (codes (put_digits f n s))
unfolding put_digits
put_digits-Numeric zero n s p h = absurd (omega arith)
put_digits-Numeric (suc f) n s p h = elim (Bool-cases (n / 10 == 0)) [
  | inl last ↦ rw (last, put_digits) (digit-Numeric (n % 10) s (omega arith))
  | inr more ↦
      rw (more, put_digits)
        (put_digits-Numeric f (n / 10) (digit (n % 10) s) (Fits-pos f n more h) h)
]

signed-Numeric :
    (s : List ℕ) → Numeric s → signed (skip_spaces s) ≡ as_int false (some (read_digits 0 s))
unfolding signed skip_spaces unsigned
signed-Numeric [] h = absurd h
signed-Numeric (c ∷ s) h = ground (arith, h)

-- Reading the text of a number gives the number back, if it is an `int`, and else it throws.
pub stoi-to_string :
    (n : ℕ) → n < u64_mod → stoi (to_string n) ≡ (if leb n (2 ^ 31 - 1) then some n else none)
unfolding stoi to_string as_int
stoi-to_string n h =
    signed-Numeric (codes (to_string n)) (put_digits-Numeric 20 n "" (omega arith) (u64-Fits n h))
    ∙ ap (λ k. as_int false (some k)) (read_digits-to_string n h)
