-- ===== src/Prelude/Exec.antt =====
-- Go code that mutates a receiver, may panic, and may wait for ever. What was written before a
-- panic stays written, so the state comes back beside every outcome.
use Prim.Native.Nat.{ℕ}
use mathlib.Core.Path.{◌≡◌, refl}
use mathlib.Core.Logic.{◌⊎◌, inl, inr}
use mathlib.Core.Option.{Option, none, some}
use flow_agent_x.Prelude.Int.{ℤ}
use flow_agent_x.Prelude.Strings.{Text}

-- An `error` value. A panic carries one too, since the program recovers every panic as an error.
pub data Err : Type 0 where
  deadline_exceeded canceled : Err  -- package context
  nil_dereference out_of_range : Err  -- runtime errors
  exit_status : ℤ → Err  -- fmt.Errorf("exit status %d")
  foreign : ℕ → Err  -- an error of a library, told apart by a number
  errorf : Text → Err  -- fmt.Errorf, by its format
  cmd_is_running cmd_unsupported_type : Err  -- service/errors.go
  already_exists already_up_to_date : Err  -- package git
  not_entity type_not_available key_cannot_be_null unsupported_type : Err  -- dao/errors.go

-- A Go pair `(value, error)`.
pub data Result {ℓ} (A : Type ℓ) : Type ℓ where
  ok : A → Result A
  err : Err → Result A

pub Result-cases {ℓ} :
    {A : Type ℓ} (r : Result A) → ((a : A) × (r ≡ ok a)) ⊎ ((e : Err) × (r ≡ err e))
Result-cases (ok a) = inl (a, refl)
Result-cases (err e) = inr (e, refl)

-- `hang` is a call that has not returned when the rounds that the model grants it are over.
pub data Outcome {ℓ} (A : Type ℓ) : Type ℓ where
  ret : A → Outcome A
  panic : Err → Outcome A
  hang : Outcome A

abbrev pub Exec {ℓ κ} : Type ℓ → Type κ → Type (ℓ ⊔ κ)
Exec S A = S → Outcome A × S

module _ {ℓ κ} {S : Type ℓ} {A : Type κ} where
  abbrev pub pure : A → Exec S A
  pure a s = (ret a, s)

  abbrev pub throw : Err → Exec S A
  throw e s = (panic e, s)

  abbrev pub gets : (S → A) → Exec S A
  gets f s = (ret (f s), s)

  -- util.PanicIfErr on the error of a pair
  abbrev pub must : Result A → Exec S A
  must (ok a) s = (ret a, s)
  must (err e) s = (panic e, s)

  abbrev pub on_panic : (Err → Exec S A) → Outcome A → Exec S A
  on_panic handler (ret a) s = (ret a, s)
  on_panic handler (panic e) s = handler e s
  on_panic handler hang s = (hang, s)

  -- `defer util.RecoverPanic(handler)`
  abbrev pub recover : (Err → Exec S A) → Exec S A → Exec S A
  recover handler body s = let (r, s') = body s in on_panic handler r s'

abbrev pub modify {ℓ} : {S : Type ℓ} → (S → S) → Exec S (Unit {0})
modify f s = (ret tt, f s)

-- util.PanicIfErr
abbrev pub panic_if_err {ℓ} : {S : Type ℓ} → Option Err → Exec S (Unit {0})
panic_if_err none s = (ret tt, s)
panic_if_err (some e) s = (panic e, s)

module _ {ℓ κ λ'} {S : Type ℓ} {A : Type κ} {B : Type λ'} where
  abbrev pub continue : Outcome A → (A → Exec S B) → Exec S B
  continue (ret a) f s = f a s
  continue (panic e) f s = (panic e, s)
  continue hang f s = (hang, s)

  infixl 5 ◌>>=◌ ◌>>◌
  abbrev pub ◌>>=◌ : Exec S A → (A → Exec S B) → Exec S B
  ◌>>=◌ m f s = let (r, s') = m s in continue r f s'

  abbrev pub ◌>>◌ : Exec S A → Exec S B → Exec S B
  m >> n = m >>= λ _. n

-- `defer f()`: it runs after a return and after a panic, and a panic of its own replaces both.
abbrev pub restore {ℓ} : {A : Type ℓ} → Outcome A → Outcome (Unit {0}) → Outcome A
restore r (ret _) = r
restore r (panic e) = panic e
restore r hang = hang

module _ {ℓ κ} {S : Type ℓ} {A : Type κ} where
  abbrev pub after : Exec S (Unit {0}) → Outcome A → Exec S A
  after f (ret a) s = let (r, s') = f s in (restore (ret a) r, s')
  after f (panic e) s = let (r, s') = f s in (restore (panic e) r, s')
  after f hang s = (hang, s)

  abbrev pub finally : Exec S (Unit {0}) → Exec S A → Exec S A
  finally f body s = let (r, s') = body s in after f r s'

-- A chain that returned has returned in both of its parts.
module _ {ℓ κ λ'} {S : Type ℓ} {A : Type κ} {B : Type λ'} where
  continue_inv :
      (r : Outcome A) (s1 : S) (f : A → Exec S B) (b : B) (s' : S)
      → continue r f s1 ≡ (ret b, s')
      → (a : A) × (r ≡ ret a) × (f a s1 ≡ (ret b, s'))
  continue_inv (ret a) s1 f b s' h = (a, refl, h)
  continue_inv (panic e) s1 f b s' h = cc
  continue_inv hang s1 f b s' h = cc

  pub bind_returns :
      (m : Exec S A) (f : A → Exec S B) (s s' : S) (a : A)
      → m s ≡ (ret a, s')
      → (m >>= f) s ≡ f a s'
  bind_returns m f s s' a h = rw (h, ◌>>=◌) refl

  pub seq_returns :
      (m : Exec S A) (n : Exec S B) (s s' : S) (a : A) (r : Outcome B × S)
      → m s ≡ (ret a, s')
      → n s' ≡ r
      → (m >> n) s ≡ r
  seq_returns m n s s' a r h k = rw (h, ◌>>=◌) k

  pub bind_inv :
      (m : Exec S A) (f : A → Exec S B) (s : S) (b : B) (s' : S)
      → (m >>= f) s ≡ (ret b, s')
      → (a : A) × ((m s).0 ≡ ret a) × (f a (m s).1 ≡ (ret b, s'))
  bind_inv m f s b s' h = continue_inv (m s).0 (m s).1 f b s' h

pub restore_inv {ℓ} :
    {A : Type ℓ} (r : Outcome A) (c : Outcome (Unit {0})) (a : A) → restore r c ≡ ret a → r ≡ ret a
restore_inv r (ret _) a h = h
restore_inv r (panic e) a h = absurd (cc)
restore_inv r hang a h = absurd (cc)

-- Steps that may panic or not end, without a state.
module _ {ℓ κ} {A : Type ℓ} {B : Type κ} where
  abbrev pub chain : Outcome A → (A → Outcome B) → Outcome B
  chain (ret a) f = f a
  chain (panic e) f = panic e
  chain hang f = hang

  pub chain_inv :
      (o : Outcome A) (f : A → Outcome B) (b : B)
      → chain o f ≡ ret b
      → (a : A) × (o ≡ ret a) × (f a ≡ ret b)
  chain_inv (ret a) f b h = (a, refl, h)
  chain_inv (panic e) f b h = cc
  chain_inv hang f b h = cc
