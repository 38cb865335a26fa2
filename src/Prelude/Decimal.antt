-- ===== src/Prelude/Decimal.antt =====
-- Decimal print of an unsigned integer, as `format!("{}", n)` does it, its reading by `str::parse::<u64>`, and
-- that a print is read back.
use Prim.Native.Nat.{ℕ, zero, suc, ◌+◌, ◌-◌, ◌*◌, ◌/◌, ◌%◌, ◌^◌, ◌<◌, ◌≤◌}
use Prim.Native.Char.{Char, code, len_utf8}
use Prim.Native.String.len
use Prim.Native.String.{String, [], ◌∷◌, len}
use mathlib.Core.Path.{◌≡◌, refl, sym, ap, ◌∙◌}
use mathlib.Core.Logic.{inl, inr}
use mathlib.Core.Bool.{Bool, true, false, ◌&&◌}
use mathlib.Core.Option.{Option, none, some}
use native.Mathlib.Omega.{arith}
use sim_expr_tree.Prelude.Tests.{ltb, leb, nat_beq, if◌then◌else◌, Bool-cases}

digit : ℕ → Char
digit zero = "0"
digit (suc zero) = "1"
digit (suc (suc zero)) = "2"
digit (suc (suc (suc zero))) = "3"
digit (suc (suc (suc (suc zero)))) = "4"
digit (suc (suc (suc (suc (suc zero))))) = "5"
digit (suc (suc (suc (suc (suc (suc zero)))))) = "6"
digit (suc (suc (suc (suc (suc (suc (suc zero))))))) = "7"
digit (suc (suc (suc (suc (suc (suc (suc (suc zero)))))))) = "8"
digit (suc (suc (suc (suc (suc (suc (suc (suc (suc n))))))))) = "9"

-- the last digit is put down first; the number has at most as many digits as its value plus one
digits : ℕ → ℕ → String → String
digits zero n rest = rest
digits (suc fuel) n rest =
    let more = digits fuel (n / 10) (digit (n % 10) ∷ rest) in
    if ltb n 10 then digit n ∷ rest else more

unfoldable pub decimal : ℕ → String
unfolding digits digit
decimal n = digits (suc n) n []

value : ℕ → String → ℕ
value acc [] = acc
value acc (c ∷ s) = value (acc * 10 + (code c - 48)) s

code-digit : (d : ℕ) → d < 10 → code (digit d) ≡ 48 + d
unfolding digit
code-digit zero h = refl
code-digit (suc zero) h = refl
code-digit (suc (suc zero)) h = refl
code-digit (suc (suc (suc zero))) h = refl
code-digit (suc (suc (suc (suc zero)))) h = refl
code-digit (suc (suc (suc (suc (suc zero))))) h = refl
code-digit (suc (suc (suc (suc (suc (suc zero)))))) h = refl
code-digit (suc (suc (suc (suc (suc (suc (suc zero))))))) h = refl
code-digit (suc (suc (suc (suc (suc (suc (suc (suc zero)))))))) h = refl
code-digit (suc (suc (suc (suc (suc (suc (suc (suc (suc n))))))))) h = omega arith

value-digits : (fuel n : ℕ) (rest : String) → n < fuel → value 0 (digits fuel n rest) ≡ value n rest
unfolding digits value
value-digits zero n rest h = absurd (omega arith)
value-digits (suc fuel) n rest h = elim (Bool-cases (ltb n 10)) [
  | inl small ↦ rw small (ap (λ t. value t rest) (last small))
  | inr large ↦ rw large (
      value-digits fuel (n / 10) (digit (n % 10) ∷ rest) (shrinks large)
      ∙ ap (λ t. value t rest) (join n))
]
  where
    last : ltb n 10 ≡ true → 0 * 10 + (code (digit n) - 48) ≡ n
    last small = let small' : n < 10 = ground arith in omega (arith, code-digit n small')

    shrinks : ltb n 10 ≡ false → n / 10 < fuel
    shrinks large = ground arith

    join : (k : ℕ) → k / 10 * 10 + (code (digit (k % 10)) - 48) ≡ k
    join k = omega (arith, code-digit (k % 10))

-- Two numbers with one print are one number.
pub decimal_inj : (m n : ℕ) → decimal m ≡ decimal n → m ≡ n
unfolding decimal value
decimal_inj m n h =
    sym (value-digits (suc m) m [] (omega arith))
    ∙ ap (value 0) h
    ∙ value-digits (suc n) n [] (omega arith)

decimal_sample : decimal 1203 ≡ "1203"
unfolding decimal
decimal_sample = refl

-- the digits of a `u64` after those of value `acc`: another character, or a value that does not fit, is refused
unfoldable pub parse_digits : ℕ → String → Option ℕ
parse_digits acc [] = some acc
parse_digits acc (c ∷ s) =
    let more = parse_digits (acc * 10 + (code c - 48)) s in
    if leb 48 (code c) && leb (code c) 57
    then if ltb (acc * 10 + (code c - 48)) (2 ^ 64) then more else none
    else none

-- `str::parse::<u64>`: a sign `+` may come first, and a digit has to come
unfoldable pub parse_u64 : String → Option ℕ
unfolding parse_digits
parse_u64 [] = none
parse_u64 (c ∷ []) = parse_digits 0 (c ∷ [])
parse_u64 (c ∷ d ∷ s) =
    if nat_beq (code c) 43 then parse_digits 0 (d ∷ s) else parse_digits 0 (c ∷ d ∷ s)

parse_digits_step :
    (acc d : ℕ) (c : Char) (s : String)
    → code c ≡ 48 + d
    → d < 10
    → acc * 10 + d < 2 ^ 64
    → parse_digits acc (c ∷ s) ≡ parse_digits (acc * 10 + d) s
unfolding parse_digits
parse_digits_step acc d c s e small fits =
    let e' : code c - 48 ≡ d = omega arith in
    let low : leb 48 (code c) ≡ true = ground arith in
    let high : leb (code c) 57 ≡ true = ground arith in
    let less : ltb (acc * 10 + d) (2 ^ 64) ≡ true = ground arith in rw (low, high, e', less) refl

parse_digits-digits :
    (fuel n : ℕ) (rest : String)
    → n < fuel
    → n < 2 ^ 64
    → parse_digits 0 (digits fuel n rest) ≡ parse_digits n rest
unfolding digits
parse_digits-digits zero n rest h fits = absurd (omega arith)
parse_digits-digits (suc fuel) n rest h fits = elim (Bool-cases (ltb n 10)) [
  | inl small ↦
      let small' : n < 10 = ground arith in
      rw small (
        parse_digits_step 0 n (digit n) rest (code-digit n small') small' (omega arith)
        ∙ ap (λ k. parse_digits k rest) (omega arith))
  | inr large ↦
      let large' : 10 ≤ n = ground arith in
      rw large (
        parse_digits-digits fuel (n / 10) (digit (n % 10) ∷ rest) (omega arith) (omega arith)
        ∙ parse_digits_step (n / 10) (n % 10) (digit (n % 10)) rest
            (code-digit (n % 10) (omega arith)) (omega arith) (omega arith)
        ∙ ap (λ k. parse_digits k rest) (omega arith))
]

digits_cons :
    (fuel n : ℕ) (c : Char) (rest : String)
    → (d : Char) × (s : String) × (digits fuel n (c ∷ rest) ≡ d ∷ s)
unfolding digits
digits_cons zero n c rest = (c, rest, refl)
digits_cons (suc fuel) n c rest = elim (Bool-cases (ltb n 10)) [
  | inl small ↦ (digit n, c ∷ rest, rw small refl)
  | inr large ↦
      let (d, s, e) = digits_cons fuel (n / 10) (digit (n % 10)) (c ∷ rest) in (d, s, rw large e)
]

decimal_cons : (n : ℕ) → (d : Char) × (s : String) × (decimal n ≡ d ∷ s)
unfolding decimal digits
decimal_cons n = elim (Bool-cases (ltb n 10)) [
  | inl small ↦ (digit n, [], rw small refl)
  | inr large ↦ let (d, s, e) = digits_cons n (n / 10) (digit (n % 10)) [] in (d, s, rw large e)
]

parse_u64_of_digits :
    (c : Char) (s : String) (n : ℕ) → parse_digits 0 (c ∷ s) ≡ some n → parse_u64 (c ∷ s) ≡ some n
unfolding parse_u64 parse_digits
parse_u64_of_digits c [] n h = h
parse_u64_of_digits c (d ∷ s) n h = elim (Bool-cases (nat_beq (code c) 43)) [
  | inr no_sign ↦ rw no_sign h
  | inl sign ↦
      let low : leb 48 (code c) ≡ false = ground arith in
      absurd (let h' : none ≡ some n = rw low at h in ground arith)
]

parse_digits-decimal : (n : ℕ) → n < 2 ^ 64 → parse_digits 0 (decimal n) ≡ some n
unfolding decimal parse_digits
parse_digits-decimal n fits = parse_digits-digits (suc n) n [] (omega arith) fits

-- A `u64` is read back from its print.
pub parse_u64-decimal : (n : ℕ) → n < 2 ^ 64 → parse_u64 (decimal n) ≡ some n
parse_u64-decimal n fits =
    let (c, s, e) = decimal_cons n in
    rw e (parse_u64_of_digits c s n (ap (parse_digits 0) (sym e) ∙ parse_digits-decimal n fits))

abbrev pub all_chars : (Char → Bool) → String → Bool
all_chars p [] = true
all_chars p (c ∷ s) = p c && all_chars p s

abbrev pub is_digit : Char → Bool
is_digit c = leb 48 (code c) && leb (code c) 57

is_digit-digit : (d : ℕ) → d < 10 → is_digit (digit d) ≡ true
is_digit-digit d h = rw (code-digit d h) ground arith

digits-all_chars :
    (fuel n : ℕ) (rest : String)
    → all_chars is_digit rest ≡ true
    → all_chars is_digit (digits fuel n rest) ≡ true
unfolding digits
digits-all_chars zero n rest h = h
digits-all_chars (suc fuel) n rest h = elim (Bool-cases (ltb n 10)) [
  | inl small ↦ rw (small, is_digit-digit n (ground arith)) h
  | inr large ↦ rw large (
      digits-all_chars fuel (n / 10) (digit (n % 10) ∷ rest)
        (rw (is_digit-digit (n % 10) (omega arith)) h))
]

pub decimal-all_chars : (n : ℕ) → all_chars is_digit (decimal n) ≡ true
unfolding decimal
decimal-all_chars n = digits-all_chars (suc n) n [] refl

width-digit : (d : ℕ) → d < 10 → len_utf8 (digit d) ≡ 1
unfolding digit
width-digit zero h = refl
width-digit (suc zero) h = refl
width-digit (suc (suc zero)) h = refl
width-digit (suc (suc (suc zero))) h = refl
width-digit (suc (suc (suc (suc zero)))) h = refl
width-digit (suc (suc (suc (suc (suc zero))))) h = refl
width-digit (suc (suc (suc (suc (suc (suc zero)))))) h = refl
width-digit (suc (suc (suc (suc (suc (suc (suc zero))))))) h = refl
width-digit (suc (suc (suc (suc (suc (suc (suc (suc zero)))))))) h = refl
width-digit (suc (suc (suc (suc (suc (suc (suc (suc (suc n))))))))) h = refl

len-digits : (fuel n : ℕ) (rest : String) → len (digits fuel n rest) ≤ n / 10 + 1 + len rest
unfolding digits
len-digits zero n rest = omega arith
len-digits (suc fuel) n rest = elim (Bool-cases (ltb n 10)) [
  | inl small ↦ rw (small, len.cons (digit n) rest, width-digit n (ground arith)) omega arith
  | inr large ↦
      let large' : 10 ≤ n = ground arith in
      let e : len (digit (n % 10) ∷ rest) ≡ 1 + len rest =
        len.cons (digit (n % 10)) rest
        ∙ ap (λ w. w + len rest) (width-digit (n % 10) (omega arith)) in
      rw large omega (arith, e, len-digits fuel (n / 10) (digit (n % 10) ∷ rest))
]

-- The print of a `u64` is short.
pub len-decimal : (n : ℕ) → n < 2 ^ 64 → len (decimal n) < 2 ^ 64
unfolding decimal
len-decimal n h = let e : len [] ≡ 0 = refl in omega (arith, len-digits (suc n) n [], e)
