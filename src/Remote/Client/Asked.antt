-- ===== src/Remote/Client/Asked.antt =====
-- app/remote: which commands a computation asks for, step by step.
use mathlib.Core.Path.{ap}
use mathlib.Core.List.{append-nil, append_assoc}
use pgsentinel_mcp.Security.{Checked}
use pgsentinel_mcp.Base.Exec.{raise_when, ◌>>◌, ◌>>=◌, continue}
use pgsentinel_mcp.Remote.Client.{Fault, Asks, Runner, secure, ask}
use pgsentinel_mcp.Remote.Command.{Arg}
use pgsentinel_mcp.Base.{Bool, true, false, List, ◌∷◌, ◌++◌, [], sym, ◌≡◌, Bool, ◌∙◌, refl}
use pgsentinel_mcp.Base.Result.{ok, err, Result}

abbrev pub All : {A : Type 0} → (A → Type 0) → List A → Type 0
All P [] = Unit
All P (x ∷ xs) = P x × All P xs

All-append : {A : Type 0} (P : A → Type 0) (xs ys : List A) → All P xs → All P ys → All P (xs ++ ys)
All-append P [] ys h k = k
All-append P (x ∷ xs) ys h k = (h.0, All-append P xs ys h.1 k)

module _ (P : List Arg → Type 0) where
  -- Every command that a computation asks for, from a state on, keeps to the predicate.
  abbrev pub AsksOnly : {A : Type 0} → Asks A → List (List Arg) → Type 0
  AsksOnly m s = (new : List (List Arg)) × ((m s).1 ≡ s ++ new) × All P new

  pub secure-AsksOnly : {A : Type 0} (r : Checked A) (s : List (List Arg)) → AsksOnly (secure r) s
  secure-AsksOnly r s = ([], sym (append-nil s), tt)

  pub ask-AsksOnly :
      (runner : Runner) (args : List Arg) (check : Bool) (s : List (List Arg))
      → P args
      → AsksOnly (ask runner args check) s
  ask-AsksOnly runner args check s p = (args ∷ [], refl, (p, tt))

  continue-AsksOnly :
      {A B : Type 0} (r : Result Fault A) (f : A → Asks B) (s : List (List Arg))
      → ((a : A) → r ≡ ok a → AsksOnly (f a) s)
      → AsksOnly (continue {E = Fault} {S = List (List Arg)} {B = B} r f) s
  continue-AsksOnly (ok a) f s k = k a refl
  continue-AsksOnly (err e) f s k = ([], sym (append-nil s), tt)

  pub bind-AsksOnly :
      {A B : Type 0} (m : Asks A) (f : A → Asks B) (s : List (List Arg))
      → AsksOnly m s
      → ((a : A) → (m s).0 ≡ ok a → AsksOnly (f a) (m s).1)
      → AsksOnly (m >>= f) s
  bind-AsksOnly m f s (xs, e, h) k =
      let (ys, d, g) = continue-AsksOnly (m s).0 f (m s).1 k in
      (xs ++ ys, d ∙ ap (λ t. t ++ ys) e ∙ append_assoc s xs ys, All-append P xs ys h g)

  -- A check comes first, and what follows may rely on what it returned.
  pub guard-AsksOnly :
      {A B : Type 0} (r : Checked A) (f : A → Asks B) (s : List (List Arg))
      → ((a : A) → r ≡ ok a → AsksOnly (f a) s)
      → AsksOnly (secure r >>= f) s
  guard-AsksOnly (ok a) f s k = k a refl
  guard-AsksOnly (err e) f s k = ([], sym (append-nil s), tt)

  -- What follows asks for nothing.
  pub last-AsksOnly :
      {A B : Type 0} (m : Asks A) (f : A → Asks B) (s : List (List Arg))
      → AsksOnly m s
      → ((a : A) (t : List (List Arg)) → (f a t).1 ≡ t)
      → AsksOnly (m >>= f) s
  last-AsksOnly m f s h keeps =
      bind-AsksOnly m f s h (λ a _. ([], keeps a (m s).1 ∙ sym (append-nil (m s).1), tt))

  pub unless-AsksOnly :
      {B : Type 0} (b : Bool) (e : Fault) (k : Asks B) (s : List (List Arg))
      → AsksOnly k s
      → AsksOnly (raise_when b e >> k) s
  unless-AsksOnly true e k s h = ([], sym (append-nil s), tt)
  unless-AsksOnly false e k s h = h
