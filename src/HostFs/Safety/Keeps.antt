-- ===== src/HostFs/Safety/Keeps.antt =====
-- Invariants of the actions of the server, one rule for each way to build an action.
use psplink.Base.{
  ℕ, ◌≡◌, refl, Bool, true, false, Text, Option, none, some, if◌then◌else◌, length, ◌==◌,
}
use psplink.HostFs.Host.{Sys, done, failed, Os}
use psplink.HostFs.Server.{Server, Serve, pure, ◌>>=◌, gets, ask, case_option, case_sys}
use psplink.HostFs.Wire.{received}

-- From a state with `P`, the action leads to one with `P`.
pub record Keeps {os : Os} {A : Type 0} (P : Server os → Type 0) (m : Serve os A) : Type 0 where
  pub at : (s : Server os) → P s → P (m s).1

module _ {os : Os} {A : Type 0} {P : Server os → Type 0} where
  pub Keeps-ask : (question : os.World → A) → Keeps P (ask question)
  unfolding ask
  Keeps-ask question = record { at = λ before holds. holds }

  pub Keeps-gets : (field : Server os → A) → Keeps P (gets field)
  unfolding gets
  Keeps-gets field = record { at = λ before holds. holds }

  pub Keeps-pure : (value : A) → Keeps P (pure value)
  unfolding pure
  Keeps-pure value = record { at = λ before holds. holds }

  -- Each branch may use the test.
  pub Keeps-if :
      (test : Bool) (first second : Serve os A)
      → ((test ≡ true) → Keeps P first)
      → ((test ≡ false) → Keeps P second)
      → Keeps P (if test then first else second)
  Keeps-if false first second k₁ k₂ = k₂ refl
  Keeps-if true first second k₁ k₂ = k₁ refl

module _ {os : Os} {A B : Type 0} {P : Server os → Type 0} where
  pub Keeps-bind :
      (m : Serve os A) (f : A → Serve os B)
      → Keeps P m
      → ((a : A) → Keeps P (f a))
      → Keeps P (m >>= f)
  unfolding ◌>>=◌
  Keeps-bind m f km kf = record { at = λ s h. let (a, s') = m s in (kf a).at s' (km.at s h) }

  pub Keeps-case_option :
      (o : Option A) (m : Serve os B) (f : A → Serve os B)
      → Keeps P m
      → ((a : A) → o ≡ some a → Keeps P (f a))
      → Keeps P (case_option o m f)
  unfolding case_option
  Keeps-case_option none m f km kf = km
  Keeps-case_option (some a) m f km kf = kf a refl

  pub Keeps-case_sys :
      (r : Sys A) (m : ℕ → Serve os B) (f : A → Serve os B)
      → ((e : ℕ) → Keeps P (m e))
      → ((a : A) → Keeps P (f a))
      → Keeps P (case_sys r m f)
  unfolding case_sys
  Keeps-case_sys (failed e) m f km kf = km e
  Keeps-case_sys (done a) m f km kf = kf a

module _ {os : Os} {P : Server os → Type 0} where
  pub Keeps-received :
      (got : Option Text) (len : ℕ) (rest : Text → Serve os Unit)
      → ((data_read : Text) → Keeps P (rest data_read))
      → Keeps P (received got len rest)
  Keeps-received none len rest k = Keeps-pure tt
  Keeps-received (some data_read) len rest k =
      Keeps-if (length data_read == len) (rest data_read) (pure tt) (λ _. k data_read)
        (λ _. Keeps-pure tt)

pub ruleset keeps_rules = (
  Keeps-pure, Keeps-gets, Keeps-ask, Keeps-if, Keeps-bind, Keeps-case_option, Keeps-case_sys,
  Keeps-received,
)
