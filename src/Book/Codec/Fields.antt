-- ===== src/Book/Codec/Fields.antt =====
-- The fields of a book's text: each value stands behind its length in bytes.
use Prim.Native.Char.{Char, code}
use Prim.Native.String.{[], ◌∷◌, ◌++◌, len, slice}
use text.Mathlib.Text.{is_char_boundary}
use sim_expr_tree.Prelude.{
  ℕ, String, Bool, true, false, not, ◌||◌, Option, none, some, ok, err, ltb, nat_beq, if◌then◌else◌,
}
use sim_expr_tree.Prelude.Decimal.{decimal, parse_u64}
use sim_expr_tree.Prelude.Exec.{Exec}

pub data CodecError : Type 0 where
  unsupported_version : String → CodecError
  malformed : String → CodecError

-- a reader on the rest of the text, `&mut &str`
abbrev pub Reader : Type 0 → Type 0
Reader A = Exec String CodecError A

unfoldable pub field : String → String
field value = decimal (len value) ++ (":" ∷ value)

-- a text cut at its first character with a property, which is left out
unfoldable pub split_once : (Char → Bool) → String → Option (String × String)
split_once p [] = none
split_once p (c ∷ s) =
    let more = split_once p s in
    if p c then some ([], s) else elim more [ none ↦ none | some cut ↦ some (c ∷ cut.0, cut.1) ]

abbrev pub is_colon : Char → Bool
is_colon c = nat_beq (code c) 58

-- the value of a length that is known, and the text after it
unfoldable pub take_bytes : ℕ → String → Reader String
take_bytes n rest input =
    if ltb (len rest) n || not (is_char_boundary rest n)
    then (err (malformed "truncated field"), input)
    else (ok (slice rest 0 n), slice rest n (len rest))

unfoldable pub take : Reader String
unfolding split_once take_bytes
take input = elim (split_once is_colon input) [
  | none ↦ (err (malformed "missing field length"), input)
  | some cut ↦ elim (parse_u64 cut.0) [
    | none ↦ (err (malformed "invalid field length"), input)
    | some n ↦ take_bytes n cut.1 input
  ]
]

-- `String::push_str`
abbrev pub push_str : String → String → String
push_str s t = s ++ t

abbrev pub is_empty : String → Bool
is_empty [] = true
is_empty (c ∷ s) = false
