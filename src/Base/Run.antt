-- ===== src/Base/Run.antt =====
-- Programs that pass a state on and may end before their last line, with a value that says how.

pub data Run (E S A : Type 0) : Type 0 where
  stop : E → S → Run E S A
  next : A → S → Run E S A

abbrev pub Code : Type 0 → Type 0 → Type 0 → Type 0
Code E S A = S → Run E S A

module _ {E S : Type 0} where
  abbrev pub after : {A B : Type 0} → Run E S A → (A → Code E S B) → Run E S B
  after (stop e s) f = stop e s
  after (next a s) f = f a s

  infixl 5 ◌>>=◌ ◌>>◌
  abbrev pub ◌>>=◌ : {A B : Type 0} → Code E S A → (A → Code E S B) → Code E S B
  (m >>= f) s = after (m s) f

  abbrev pub ◌>>◌ : {B : Type 0} → Code E S (Unit {0}) → Code E S B → Code E S B
  m >> k = m >>= λ _. k

  abbrev pub return : {A : Type 0} → A → Code E S A
  return a s = next a s

  abbrev pub call : {A : Type 0} → (S → A × S) → Code E S A
  call service s = next (service s).0 (service s).1

  abbrev pub act : (S → S) → Code E S (Unit {0})
  act service s = next tt (service s)

  abbrev pub end : {A : Type 0} → E → Code E S A
  end e s = stop e s
