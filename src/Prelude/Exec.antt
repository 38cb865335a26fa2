-- ===== src/Prelude/Exec.antt =====
-- Methods on `&mut self` that return a `Result`: what was written before a failure stays written, so
-- the state comes back beside the error too.
use mathlib.Core.Path.{◌≡◌, refl}
use sim_expr_tree.Prelude.Outcome.{Result, ok, err}

abbrev pub Exec {ℓ} : Type ℓ → Type ℓ → Type ℓ → Type ℓ
Exec S E A = S → Result E A × S

module _ {ℓ} {S E A : Type ℓ} where
  abbrev pub pure : A → Exec S E A
  pure a s = (ok a, s)

  -- a check that reads the state
  abbrev pub check : (S → Result E A) → Exec S E A
  check f s = (f s, s)

module _ {ℓ} {S E : Type ℓ} where
  -- a write that cannot fail
  abbrev pub modify : (S → S) → Exec S E (Unit {ℓ})
  modify f s = (ok tt, f s)

module _ {ℓ} {S E A B : Type ℓ} where
  abbrev pub continue : Result E A → (A → Exec S E B) → Exec S E B
  continue (ok a) f s = f a s
  continue (err e) f s = (err e, s)

  infixl 10 ◌>>=◌ ◌>>◌
  abbrev pub ◌>>=◌ : Exec S E A → (A → Exec S E B) → Exec S E B
  ◌>>=◌ m f s = continue (m s).0 f (m s).1

  abbrev pub ◌>>◌ : Exec S E A → Exec S E B → Exec S E B
  ◌>>◌ m n s = continue (m s).0 (λ _. n) (m s).1

module _ {ℓ κ} {S E A B : Type ℓ} (Q : S → Type κ) where
  -- To show `Q` of the state after a sequence: after its first part if that fails, and after the whole
  -- if it does not.
  pub continue_rule :
      (x : Result E A × S) (f : A → Exec S E B)
      → ((e : E) → x.0 ≡ err e → Q x.1)
      → ((a : A) → x.0 ≡ ok a → Q (f a x.1).1)
      → Q (continue x.0 f x.1).1
  continue_rule (ok a, s) f failed passed = passed a refl
  continue_rule (err e, s) f failed passed = failed e refl

  -- The same where the first part only reads.
  pub check_rule :
      (r : Result E A) (s : S) (f : A → Exec S E B)
      → Q s
      → ((a : A) → r ≡ ok a → Q (f a s).1)
      → Q (continue r f s).1
  check_rule r s f same passed = continue_rule (r, s) f (λ _ _. same) passed
