-- ===== src/Book/Codec/Trip.antt =====
-- What is encoded is read back, a field after the other.
use Prim.Native.String.{[], ◌∷◌, ◌++◌, len}
use Prim.Native.String.append
use text.Mathlib.TextPositions.{len-append, slice-append_left, slice-append_right, boundary-append}
use text.Mathlib.TextLemmas.{append_assoc}
use sim_expr_tree.Prelude.{ℕ, String, true, false, ◌≡◌, refl, some, ok, ltb, ◌<◌, ◌^◌, arith}
use sim_expr_tree.Prelude.Decimal.{
  decimal, parse_u64-decimal, len-decimal, all_chars, is_digit, decimal-all_chars,
}
use sim_expr_tree.Book.Codec.{take_u64}
use sim_expr_tree.Book.Codec.Fields.{field, split_once, is_colon, take_bytes, take, push_str}

split_once_digits :
    (s rest : String)
    → all_chars is_digit s ≡ true
    → split_once is_colon (s ++ (":" ∷ rest)) ≡ some (s, rest)
unfolding split_once
split_once_digits [] rest h = rw (append.nil (":" ∷ rest)) refl
split_once_digits (c ∷ s) rest h =
    let other : is_colon c ≡ false = ground arith in
    rw (append.cons c s (":" ∷ rest), other, split_once_digits s rest (ground arith)) refl

take_bytes-push_str :
    (v rest input : String) → take_bytes (len v) (push_str v rest) input ≡ (ok v, rest)
unfolding take_bytes
take_bytes-push_str v rest input =
    let enough : ltb (len (v ++ rest)) (len v) ≡ false = ground (arith, len-append v rest) in
    rw
      (
        enough,
        boundary-append v rest,
        slice-append_left v rest,
        len-append v rest,
        slice-append_right v rest,
      )
      refl

-- a field is taken off the front
pub take-field : (v rest : String) → len v < 2 ^ 64 → take (push_str (field v) rest) ≡ (ok v, rest)
unfolding take field
take-field v rest h =
    rw (append_assoc (decimal (len v)) (":" ∷ v) rest, append.cons ":" v rest) rw
      (take, split_once_digits (decimal (len v)) (v ++ rest) (decimal-all_chars (len v))) rw
      (parse_u64-decimal (len v) h) (take_bytes-push_str v rest _)

pub take_u64-field :
    (what : String) (n : ℕ) (rest : String)
    → n < 2 ^ 64
    → take_u64 what (push_str (field (decimal n)) rest) ≡ (ok n, rest)
unfolding take_u64
take_u64-field what n rest h =
    rw (take-field (decimal n) rest (len-decimal n h), parse_u64-decimal n h) refl
