-- ===== src/Exception.antt =====
-- Exceptions and the computations that raise them: autobahn/exceptions.hpp, autobahn/wamp_error.hpp
-- and the standard exceptions that the code throws.
use autobahn_cpp_aw.Common.{String, Bool, true, false, Option, none, some, ◌≡◌, refl, ◌⊎◌, inl, inr}

pub data Exception : Type 0 where
  -- autobahn/exceptions.hpp
  abort_error network_error protocol_error : String → Exception
  no_session_error no_transport_error : Exception
  -- the standard library's, msgpack's and boost's
  out_of_range runtime_error logic_error : String → Exception
  type_error promise_already_satisfied : Exception
  -- what user code throws: a `std::exception` with its `what()`, or any other thing
  std_exception : String → Exception
  unknown_exception : Exception
  -- a failed `assert`, which ends the process
  assertion_failed : Exception

pub data Result {ℓ} (A : Type ℓ) : Type ℓ where
  ok : A → Result A
  err : Exception → Result A

-- A member function over a state `S`: what was written before a throw stays written.
abbrev pub Action {ℓ} : Type 0 → Type ℓ → Type ℓ
Action S A = S → Result A × S

module _ {S A : Type 0} where
  abbrev pub pure : A → Action S A
  pure a s = (ok a, s)

  abbrev pub throw : Exception → Action S A
  throw e s = (err e, s)

  abbrev pub lift : Result A → Action S A
  lift r s = (r, s)

  abbrev pub gets : (S → A) → Action S A
  gets f s = (ok (f s), s)

  -- `try { m } catch (const E& e) { h e }`, for the exceptions that `h` handles
  abbrev pub catch : Action S A → (Exception → Action S A) → Action S A
  catch m h s = let (r, s') = m s in elim r [ ok a ↦ (ok a, s') | err e ↦ h e s' ]

  -- `catch (const std::exception& e)`
  abbrev pub catch_std : Action S A → (Exception → Action S A) → Action S A
  catch_std m h s =
      let (r, s') = m s in
      elim r [
        | ok a ↦ (ok a, s')
        | err e ↦ elim e [ unknown_exception ↦ (err unknown_exception, s') | e' ↦ h e' s' ]
      ]

infixl 5 ◌>>=◌ ◌>>◌
abbrev pub ◌>>=◌ : {S A B : Type 0} → Action S A → (A → Action S B) → Action S B
◌>>=◌ m f s = let (r, s') = m s in elim r [ ok a ↦ f a s' | err e ↦ (err e, s') ]

abbrev pub ◌>>◌ : {S A B : Type 0} → Action S A → Action S B → Action S B
m >> k = m >>= λ _. k

module _ {S : Type 0} where
  abbrev pub skip : Action S (Unit {0})
  skip s = (ok tt, s)

  abbrev pub throw_if : Bool → Exception → Action S (Unit {0})
  throw_if true e s = (err e, s)
  throw_if false e s = (ok tt, s)

  abbrev pub modify : (S → S) → Action S (Unit {0})
  modify f s = (ok tt, f s)

abbrev pub or_throw : {A : Type 0} → Option A → Exception → Result A
or_throw none e = err e
or_throw (some a) e = ok a

-- what a call raised, as its caller sees it
abbrev pub raised : {A : Type 0} → Result A → Option Exception
raised (ok _) = none
raised (err e) = some e

pub Result-cases :
    {A : Type 0} (r : Result A) → ((a : A) × (r ≡ ok a)) ⊎ ((e : Exception) × (r ≡ err e))
Result-cases (ok a) = inl (a, refl)
Result-cases (err e) = inr (e, refl)
