-- ===== src/Transfer/Envelope/Returns.antt =====
-- What a result of an export or an import is, where it is no error.
use netbox_monitor.Prelude.{◌≡◌, refl, Bool, true, false, Option, none, some, ◌⊎◌, inl, inr}
use netbox_monitor.Transfer.Envelope.{TransferError, ◌>>=◌, require, given}

-- A property of the value that a computation gives, where it gives one.
abbrev pub Returns : {A : Type 0} → (A → Type 0) → TransferError ⊎ A → Type 0
Returns Q (inl e) = Unit {0}
Returns Q (inr a) = Q a

module _ {A B : Type 0} (Q : B → Type 0) where
  pub Returns-bind :
      (m : TransferError ⊎ A) (f : A → TransferError ⊎ B)
      → ((a : A) → m ≡ inr a → Returns Q (f a))
      → Returns Q (m >>= f)
  unfolding ◌>>=◌
  Returns-bind (inl e) f h = tt
  Returns-bind (inr a) f h = h a refl

  pub Returns-given :
      (o : Option A) (e : TransferError) (f : A → TransferError ⊎ B)
      → ((a : A) → o ≡ some a → Returns Q (f a))
      → Returns Q (given o e >>= f)
  unfolding ◌>>=◌
  Returns-given none e f h = tt
  Returns-given (some a) e f h = h a refl

module _ {B : Type 0} (Q : B → Type 0) where
  pub Returns-require :
      (test : Bool) (e : TransferError) (f : Unit {0} → TransferError ⊎ B)
      → (test ≡ true → Returns Q (f tt))
      → Returns Q (require test e >>= f)
  unfolding ◌>>=◌
  Returns-require true e f h = h refl
  Returns-require false e f h = tt

pub Returns-inr :
    {A : Type 0} (Q : A → Type 0) (m : TransferError ⊎ A) (a : A) → Returns Q m → m ≡ inr a → Q a
Returns-inr Q m a q h = rw h at q
