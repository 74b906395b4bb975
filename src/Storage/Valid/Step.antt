-- ===== src/Storage/Valid/Step.antt =====
-- About the store under the methods that call it.
use gopoke.Base.{ℕ, Result, ok, err}
use gopoke.Storage.Monad
use gopoke.Storage.Monad.{Store, Action}
use gopoke.Storage.Valid.{StoreIsValid, Keeps}
use gopoke.Storage.Step.{Step, continue, ◌>>=◌, stored, lift}

module _ (lower : ℕ → ℕ) where
  -- The step leaves a valid store valid, whether it returns or fails.
  pub record Preserves {E A : Type 0} (m : Step E A) : Type 0 where
    pub at : (s : Store) → StoreIsValid lower s → StoreIsValid lower (m s).1

  pub Preserves-lift : {E A : Type 0} (r : Result E A) → Preserves (lift r)
  unfolding lift
  Preserves-lift r = record { at = λ s h. h }

  pub Preserves-stored :
      {E A : Type 0} (f : Monad.Error → E) (m : Action A) → Keeps lower m → Preserves (stored f m)
  unfolding stored
  Preserves-stored f m k = record { at = k.at }

  Preserves-continue :
      {E A B : Type 0} (r : Result E A) (f : A → Step E B) (s : Store)
      → ((a : A) → Preserves (f a))
      → StoreIsValid lower s
      → StoreIsValid lower (continue r f s).1
  Preserves-continue (ok a) f s g h = (g a).at s h
  Preserves-continue (err e) f s g h = h

  pub Preserves-bind :
      {E A B : Type 0} (m : Step E A) (f : A → Step E B)
      → Preserves m
      → ((a : A) → Preserves (f a))
      → Preserves (m >>= f)
  unfolding ◌>>=◌
  Preserves-bind m f p g = record { at = λ s h. Preserves-continue (m s).0 f (m s).1 g (p.at s h) }
