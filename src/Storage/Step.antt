-- ===== src/Storage/Step.antt =====
-- Methods that call the store and do more: an error of their own, beside the store.
pub mod Returns
use gopoke.Base.{Result, ok, err}
use gopoke.Storage.Monad
use gopoke.Storage.Monad.{Store, Action}

-- A part of a method with errors `E`: an error or a value, and the store.
abbrev pub Step : Type 0 → Type 0 → Type 0
Step E A = Store → Result E A × Store

-- A result with its error wrapped.
abbrev pub wrap : {E F A : Type 0} → (E → F) → Result E A → Result F A
wrap f (ok a) = ok a
wrap f (err e) = err (f e)

abbrev pub continue : {E A B : Type 0} → Result E A → (A → Step E B) → Step E B
continue (ok a) f s = f a s
continue (err e) f s = (err e, s)

infixl 5 ◌>>=◌
unfoldable pub ◌>>=◌ : {E A B : Type 0} → Step E A → (A → Step E B) → Step E B
◌>>=◌ m f s = let r = m s in continue r.0 f r.1

-- A call of the store, its error wrapped.
unfoldable pub stored : {E A : Type 0} → (Monad.Error → E) → Action A → Step E A
stored f m s = let r = m s in (wrap f r.0, r.1)

-- A step that leaves the store alone.
unfoldable pub lift : {E A : Type 0} → Result E A → Step E A
lift r s = (r, s)
