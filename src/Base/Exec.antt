-- ===== src/Base/Exec.antt =====
-- A method that changes state and may raise: what was written before a raise stays written.
use mathlib.Core.Path.{◌≡◌, refl}
use mathlib.Core.Bool.{Bool, true, false}
use pgsentinel_mcp.Base.Result.{Result, ok, err}

abbrev pub Exec : Type 0 → Type 0 → Type 0 → Type 0
Exec E S A = S → Result E A × S

module _ {E S A : Type 0} where
  abbrev pub pure : A → Exec E S A
  pure a s = (ok a, s)

  abbrev pub raise : E → Exec E S A
  raise e s = (err e, s)

  abbrev pub lift : Result E A → Exec E S A
  lift r s = (r, s)

  abbrev pub gets : (S → A) → Exec E S A
  gets f s = (ok (f s), s)

module _ {E S : Type 0} where
  abbrev pub modify : (S → S) → Exec E S (Unit {0})
  modify f s = (ok tt, f s)

  abbrev pub raise_when : Bool → E → Exec E S (Unit {0})
  raise_when true e s = (err e, s)
  raise_when false e s = (ok tt, s)

module _ {E S A B : Type 0} where
  abbrev pub continue : Result E A → (A → Exec E S B) → Exec E S B
  continue (ok a) f s = f a s
  continue (err e) f s = (err e, s)

  infixl 5 ◌>>=◌ ◌>>◌
  abbrev pub ◌>>=◌ : Exec E S A → (A → Exec E S B) → Exec E S B
  ◌>>=◌ m f s = continue (m s).0 f (m s).1

  abbrev pub ◌>>◌ : Exec E S A → Exec E S B → Exec E S B
  ◌>>◌ m k s = continue (m s).0 (λ _. k) (m s).1

module _ {E S A B : Type 0} where
  bind_continue :
      (r : Result E A) (f : A → Exec E S B) (s : S) {b : B}
      → (continue r f s).0 ≡ ok b
      → (a : A) × (r ≡ ok a) × ((f a s).0 ≡ ok b)
  bind_continue (ok a) f s h = (a, refl, h)
  bind_continue (err e) f s h = cc

  -- Inversion of a successful bind.
  pub bind-eq-ok :
      (m : Exec E S A) (f : A → Exec E S B) (s : S) {b : B}
      → ((m >>= f) s).0 ≡ ok b
      → (a : A) × ((m s).0 ≡ ok a) × ((f a (m s).1).0 ≡ ok b)
  bind-eq-ok m f s h = bind_continue (m s).0 f (m s).1 h

  -- The state behind a bind whose first part succeeds.
  pub bind_state :
      (m : Exec E S A) (f : A → Exec E S B) (s : S) {a : A}
      → (m s).0 ≡ ok a
      → (m >>= f) s ≡ f a (m s).1
  bind_state m f s h = rw h

  -- The result and the state that a bind which succeeds goes on with.
  pub bind_next :
      (m : Exec E S A) (f : A → Exec E S B) (s : S) {b : B}
      → ((m >>= f) s).0 ≡ ok b
      → (a : A) × (s' : S) × ((m >>= f) s ≡ f a s') × ((f a s').0 ≡ ok b)
  bind_next m f s h = let (a, h1, k) = bind-eq-ok m f s h in (a, (m s).1, bind_state m f s h1, k)

  continue_keeps :
      (r : Result E A) (f : A → Exec E S B) (s : S)
      → ((a : A) (t : S) → (f a t).1 ≡ t)
      → (continue r f s).1 ≡ s
  continue_keeps (ok a) f s keeps = keeps a s
  continue_keeps (err e) f s keeps = refl

  -- A computation behind another one that does not change the state.
  pub bind_keeps :
      (m : Exec E S A) (f : A → Exec E S B) (s : S)
      → ((a : A) (t : S) → (f a t).1 ≡ t)
      → ((m >>= f) s).1 ≡ (m s).1
  bind_keeps m f s keeps = continue_keeps (m s).0 f (m s).1 keeps
