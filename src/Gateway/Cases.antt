-- ===== src/Gateway/Cases.antt =====
-- internal/syscall/gateway.go: the cases of a result of the store and of an attempt.
use os_complete.Base.{◌≡◌, refl, String}
use os_complete.Base.Attempt.{Attempt, done, fails}
use os_complete.Cvm.Page.{Error, Result, ok, err}
pub use os_complete.Base.Cases.{split_ite, split_Bool, split_if, split_Option}

module _ {κ} {A B : Type 0} (P : B → Type κ) where
  pub split_Result :
      (o : Result A) {f : Error → B} {g : A → B}
      → ((e : Error) → o ≡ err e → P (f e))
      → ((a : A) → o ≡ ok a → P (g a))
      → P (elim o [ err e ↦ f e | ok a ↦ g a ])
  split_Result (err e) p q = p e refl
  split_Result (ok a) p q = q a refl

  pub split_Attempt :
      (o : Attempt A) {f : String → B} {g : A → B}
      → ((e : String) → o ≡ fails e → P (f e))
      → ((a : A) → o ≡ done a → P (g a))
      → P (elim o [ fails e ↦ f e | done a ↦ g a ])
  split_Attempt (fails e) p q = p e refl
  split_Attempt (done a) p q = q a refl
