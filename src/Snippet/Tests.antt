-- ===== src/Snippet/Tests.antt =====
-- Runs of the in-memory service.
use gopoke.Base.{ℕ, ◌≡◌, refl, none, [], ◌∷◌, err}
use gopoke.Text.{Text, codes, text_eq}
use gopoke.Snippet.{Entry, Service, not_found, save, get, delete, new_service}

abbrev draft : Entry
draft = record {
  id = codes "";
  project_id = codes "p";
  name = codes "n";
  content = codes "x";
  created_at = 0;
  updated_at = 0;
}

-- A stand-in for the decimal text of a number.
abbrev tally : ℕ → Text
tally n = n ∷ []

abbrev one_saved : Service
one_saved = (save tally none 5 draft new_service).1

-- A deleted snippet is no longer found.
deleted :
    let s = (delete none (codes "sn_5") one_saved).1 in get none (codes "sn_5") s ≡ err not_found
unfolding get delete save text_eq
deleted = refl
