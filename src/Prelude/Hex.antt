-- ===== src/Prelude/Hex.antt =====
-- Sixteen hexadecimal digits, as `format!("{:016x}", n)` does it for a `u64`, and the value that the end of a
-- text has.
use Prim.Native.Nat.{ℕ, zero, suc, ◌+◌, ◌-◌, ◌*◌, ◌/◌, ◌%◌, ◌^◌, ◌<◌}
use Prim.Native.Char.{Char, code}
use Prim.Native.String.append
use Prim.Native.String.{String, [], ◌∷◌, ◌++◌}
use mathlib.Core.Path.{◌≡◌, refl, ap, ◌∙◌}
use native.Mathlib.Omega.{arith}
use sim_expr_tree.Prelude.Tests.{ltb, if◌then◌else◌}

hex_digit : ℕ → Char
hex_digit zero = "0"
hex_digit (suc zero) = "1"
hex_digit (suc (suc zero)) = "2"
hex_digit (suc (suc (suc zero))) = "3"
hex_digit (suc (suc (suc (suc zero)))) = "4"
hex_digit (suc (suc (suc (suc (suc zero))))) = "5"
hex_digit (suc (suc (suc (suc (suc (suc zero)))))) = "6"
hex_digit (suc (suc (suc (suc (suc (suc (suc zero))))))) = "7"
hex_digit (suc (suc (suc (suc (suc (suc (suc (suc n)))))))) = later n
  where
    later : ℕ → Char
    later zero = "8"
    later (suc zero) = "9"
    later (suc (suc zero)) = "a"
    later (suc (suc (suc zero))) = "b"
    later (suc (suc (suc (suc zero)))) = "c"
    later (suc (suc (suc (suc (suc zero))))) = "d"
    later (suc (suc (suc (suc (suc (suc zero)))))) = "e"
    later (suc (suc (suc (suc (suc (suc (suc n))))))) = "f"

-- the last digit is put down first
hex_digits : ℕ → ℕ → String → String
unfolding hex_digit
hex_digits zero n rest = rest
hex_digits (suc count) n rest = hex_digits count (n / 16) (hex_digit (n % 16) ∷ rest)

unfoldable pub hex16 : ℕ → String
unfolding hex_digits
hex16 n = hex_digits 16 n []

hex16_sample : hex16 703 ≡ "00000000000002bf"
unfolding hex16
hex16_sample = refl

-- what a digit counts, by its code
nibble : ℕ → ℕ
nibble k = if ltb k 58 then k - 48 else k - 87

-- a text read as digits behind those of value `acc`
pub hex_value : ℕ → String → ℕ
hex_value acc [] = acc
hex_value acc (c ∷ s) = hex_value (acc * 16 + nibble (code c)) s

code-hex_digit : (d : ℕ) → d < 16 → nibble (code (hex_digit d)) ≡ d
unfolding hex_digit nibble
code-hex_digit zero h = refl
code-hex_digit (suc zero) h = refl
code-hex_digit (suc (suc zero)) h = refl
code-hex_digit (suc (suc (suc zero))) h = refl
code-hex_digit (suc (suc (suc (suc zero)))) h = refl
code-hex_digit (suc (suc (suc (suc (suc zero))))) h = refl
code-hex_digit (suc (suc (suc (suc (suc (suc zero)))))) h = refl
code-hex_digit (suc (suc (suc (suc (suc (suc (suc zero))))))) h = refl
code-hex_digit (suc (suc (suc (suc (suc (suc (suc (suc zero)))))))) h = refl
code-hex_digit (suc (suc (suc (suc (suc (suc (suc (suc (suc zero))))))))) h = refl
code-hex_digit (suc (suc (suc (suc (suc (suc (suc (suc (suc (suc zero)))))))))) h = refl
code-hex_digit (suc (suc (suc (suc (suc (suc (suc (suc (suc (suc (suc zero))))))))))) h = refl
code-hex_digit (suc (suc (suc (suc (suc (suc (suc (suc (suc (suc (suc (suc zero)))))))))))) h = refl
code-hex_digit (suc (suc (suc (suc (suc (suc (suc (suc (suc (suc (suc (suc (suc zero)))))))))))))
      h =
    refl
code-hex_digit
      (suc (suc (suc (suc (suc (suc (suc (suc (suc (suc (suc (suc (suc (suc zero)))))))))))))) h =
    refl
code-hex_digit
      (suc (suc (suc (suc (suc (suc (suc (suc (suc (suc (suc (suc (suc (suc (suc zero)))))))))))))))
      h =
    refl
code-hex_digit
      (suc
        (suc (suc (suc (suc (suc (suc (suc (suc (suc (suc (suc (suc (suc (suc (suc n))))))))))))))))
      h =
    absurd (omega arith)

pub hex_value-++ : (acc : ℕ) (s t : String) → hex_value acc (s ++ t) ≡ hex_value (hex_value acc s) t
unfolding hex_value
hex_value-++ acc [] t = rw (append.nil t) refl
hex_value-++ acc (c ∷ s) t = rw (append.cons c s t) (hex_value-++ (acc * 16 + nibble (code c)) s t)

power_suc : (n : ℕ) → 16 ^ suc n ≡ 16 * 16 ^ n
power_suc n = grind arith

split_last : (n : ℕ) → n / 16 * 16 + n % 16 ≡ n
split_last n = omega arith

hex_value-hex_digits :
    (count n acc : ℕ) (rest : String)
    → n < 16 ^ count
    → hex_value acc (hex_digits count n rest) ≡ hex_value (acc * 16 ^ count + n) rest
unfolding hex_digits hex_value
hex_value-hex_digits zero n acc rest h =
    let e : acc ≡ acc * 16 ^ zero + n = omega arith in ap (λ k. hex_value k rest) e
hex_value-hex_digits (suc count) n acc rest h =
    hex_value-hex_digits count (n / 16) acc (hex_digit (n % 16) ∷ rest)
      (fewer (16 ^ count) (power_suc count))
    ∙ ap (λ k. hex_value k rest) (together (16 ^ count) (power_suc count))
  where
    fewer : (p : ℕ) → 16 ^ suc count ≡ 16 * p → n / 16 < p
    fewer p e = omega (arith, h, e)

    together :
        (p : ℕ)
        → 16 ^ suc count ≡ 16 * p
        → (acc * p + n / 16) * 16 + nibble (code (hex_digit (n % 16))) ≡ acc * 16 ^ suc count + n
    together p e = rw (code-hex_digit (n % 16) (omega arith), e) (grind (arith, split_last n))

-- The sixteen digits of a number at the end of a text give the number back.
pub hex_value-hex16 : (acc n : ℕ) → n < 2 ^ 64 → hex_value acc (hex16 n) % 2 ^ 64 ≡ n
unfolding hex16 hex_value
hex_value-hex16 acc n h = rw (hex_value-hex_digits 16 n acc [] h) (omega arith)
