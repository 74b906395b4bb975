-- ===== src/Storage/Step/Returns.antt =====
-- About the values that the methods over the store return.
use gopoke.Base.{◌≡◌, refl, Result, ok, err}
use gopoke.Storage.Monad
use gopoke.Storage.Monad.{Store, Action}
use gopoke.Storage.Step.{Step, wrap, continue, ◌>>=◌, stored, lift}

-- Whatever the step returns, when it does not fail, satisfies the predicate.
pub record Returns {E A : Type 0} (P : A → Type 0) (m : Step E A) : Type 0 where
  pub at : (s : Store) (a : A) → (m s).0 ≡ ok a → P a

module _ {E A : Type 0} where
  pub Returns-any : (m : Step E A) → Returns (λ _. Unit {0}) m
  Returns-any m = record { at = λ s a h. tt }

  pub Returns-lift :
      (P : A → Type 0) (r : Result E A) → ((a : A) → r ≡ ok a → P a) → Returns P (lift r)
  unfolding lift
  Returns-lift P r f = record { at = λ s a h. f a h }

  wrap-ok : {F : Type 0} (f : F → E) (r : Result F A) (a : A) → wrap f r ≡ ok a → r ≡ ok a
  wrap-ok f (ok b) a h = cc
  wrap-ok f (err e) a h = cc

  pub Returns-wrap :
      {F : Type 0} (P : A → Type 0) (f : F → E) (r : Result F A)
      → ((a : A) → r ≡ ok a → P a)
      → Returns P (lift (wrap f r))
  unfolding lift
  Returns-wrap P f r g = record { at = λ s a h. g a (wrap-ok f r a h) }

  pub Returns-stored :
      (P : A → Type 0) (f : Monad.Error → E) (m : Action A) → Returns P m → Returns P (stored f m)
  unfolding stored
  Returns-stored P f m r = record { at = λ s a h. r.at s a (wrap-ok f (m s).0 a h) }

module _ {E A B : Type 0} (P : A → Type 0) (Q : B → Type 0) where
  Returns-continue :
      (r : Result E A) (f : A → Step E B) (s : Store)
      → ((a : A) → r ≡ ok a → P a)
      → ((a : A) → P a → Returns Q (f a))
      → (b : B) → (continue r f s).0 ≡ ok b
      → Q b
  Returns-continue (ok a) f s p q b h = (q a (p a refl)).at s b h
  Returns-continue (err e) f s p q b h = cc

  pub Returns-bind :
      (m : Step E A) (f : A → Step E B)
      → Returns P m
      → ((a : A) → P a → Returns Q (f a))
      → Returns Q (m >>= f)
  unfolding ◌>>=◌
  Returns-bind m f p q = record { at = λ s b h. Returns-continue (m s).0 f (m s).1 (p.at s) q b h }

-- The same of the store's own methods.
module _ {A B : Type 0} (Q : B → Type 0) where
  Returns-continued :
      (r : Result Monad.Error A) (f : A → Action B) (s : Store)
      → ((a : A) → Returns Q (f a))
      → (b : B) → (Monad.continue r f s).0 ≡ ok b
      → Q b
  Returns-continued (ok a) f s q b h = (q a).at s b h
  Returns-continued (err e) f s q b h = cc

  pub Returns-then :
      (m : Action A) (f : A → Action B) → ((a : A) → Returns Q (f a)) → Returns Q (Monad.◌>>=◌ m f)
  unfolding Monad.◌>>=◌
  Returns-then m f q = record { at = λ s b h. Returns-continued (m s).0 f (m s).1 q b h }
