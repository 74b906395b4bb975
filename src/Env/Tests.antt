-- ===== src/Env/Tests.antt =====
-- Runs of the variables in memory.
use gopoke.Base.{◌≡◌, refl, true, false, none, [], ◌∷◌, ok}
use gopoke.Base.Sort.{sort}
use gopoke.Base.Update.{find}
use gopoke.Text.{codes, text_eq, text_lt}
use gopoke.Env.{Variable, Service, upsert, delete, list, new_service}

abbrev var_b : Variable
var_b = record { key = codes "B"; value = codes "2"; masked = true }

abbrev var_a : Variable
var_a = record { key = codes "A"; value = codes "1"; masked = false }

abbrev one_var : Service
one_var = (upsert none (codes "p") var_b new_service).1

listed : list none (codes "p") (upsert none (codes "p") var_a one_var).1 ≡ ok (var_a ∷ var_b ∷ [])
unfolding upsert list find text_eq text_lt sort
listed = refl

deleted : list none (codes "p") (delete none (codes "p") (codes "B") one_var).1 ≡ ok []
unfolding upsert delete list find text_eq sort
deleted = refl
