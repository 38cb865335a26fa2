-- ===== src/Prelude/Chars.antt =====
-- Parts of texts.
use Prim.Native.Nat.{ℕ, zero, suc}
use Prim.Native.String.{String, [], ◌∷◌, len, slice}
use text.Mathlib.Text.{starts_with}
use mathlib.Core.Option.{Option, none, some}
use sim_expr_tree.Prelude.Tests.{if◌then◌else◌}

-- `chars().take(n).collect()`
abbrev pub take_chars : ℕ → String → String
take_chars zero s = []
take_chars (suc n) [] = []
take_chars (suc n) (c ∷ s) = c ∷ take_chars n s

-- `strip_prefix`
abbrev pub strip_prefix : String → String → Option String
strip_prefix p s = if starts_with s p then some (slice s (len p) (len s)) else none
