-- ===== src/Snippet.antt =====
-- internal/snippet/service.go: snippets in memory. `decimal` is the text that fmt.Sprintf makes of a
-- number, and a map is a list with one record for a key.
pub mod Laws
mod Tests
use gopoke.Base.{
  ℕ, ◌+◌, ◌%◌, Bool, not, Option, none, some, List, [], ◌∷◌, ◌++◌, filter, Result, ok, err,
  CtxError, ltb, if◌then◌else◌,
}
use gopoke.Base.Sort.{sort}
use gopoke.Base.Update.{find}
use gopoke.Text.{Text, codes, text_eq, is_empty}

-- Record
pub record Entry : Type 0 where
  pub id : Text
  pub project_id : Text
  pub name : Text
  pub content : Text
  pub created_at : ℕ
  pub updated_at : ℕ

-- Service
pub record Service : Type 0 where
  pub counter : ℕ
  pub records : List Entry

pub data Error : Type 0 where
  context : CtxError → Error
  project_id_required name_required snippet_id_required not_found : Error

-- NewService
abbrev pub new_service : Service
new_service = record { counter = 0; records = [] }

abbrev pub has_id : Text → Entry → Bool
has_id id r = text_eq r.id id

-- s.records[r.ID] = r
abbrev pub put : Entry → List Entry → List Entry
put r rs = r ∷ filter (λ x. not (has_id r.id x)) rs

-- s.counter.Add(1), an atomic.Uint64.
abbrev pub next_count : ℕ → ℕ
next_count n = (n + 1) % 18446744073709551616

abbrev pub stored : ℕ → Entry → Service → Result Error Entry × Service
stored now given s =
    let r = record given { updated_at = now } in (ok r, record s { records = put r s.records })

abbrev pub save_entry : (ℕ → Text) → ℕ → Entry → Service → Result Error Entry × Service
save_entry decimal now given s =
    if is_empty given.id
    then stored now
        (record given { id = codes "sn_" ++ decimal (next_count s.counter); created_at = now })
        (record s { counter = next_count s.counter })
    else stored now given s

-- Service.Save
unfoldable pub save :
    (ℕ → Text) → Option CtxError → ℕ → Entry → Service → Result Error Entry × Service
save decimal (some e) now given s = (err (context e), s)
save decimal none now given s =
    if is_empty given.project_id
    then (err project_id_required, s)
    else if is_empty given.name
    then (err name_required, s)
    else save_entry decimal now given s

abbrev pub found : Option Entry → Result Error Entry
found none = err not_found
found (some r) = ok r

-- Service.Get
unfoldable pub get : Option CtxError → Text → Service → Result Error Entry
unfolding find
get (some e) id s = err (context e)
get none id s = if is_empty id then err snippet_id_required else found (find (has_id id) s.records)

-- Service.Delete
unfoldable pub delete : Option CtxError → Text → Service → Result Error (Unit {0}) × Service
delete (some e) id s = (err (context e), s)
delete none id s =
    if is_empty id
    then (err snippet_id_required, s)
    else (ok tt, record s { records = filter (λ r. not (has_id id r)) s.records })

abbrev pub updated_before : Entry → Entry → Bool
updated_before a b = ltb b.updated_at a.updated_at

-- Service.ListByProject
unfoldable pub list_by_project : Option CtxError → Text → Service → Result Error (List Entry)
unfolding sort
list_by_project (some e) project_id s = err (context e)
list_by_project none project_id s =
    if is_empty project_id
    then err project_id_required
    else ok (sort updated_before (filter (λ r. text_eq r.project_id project_id) s.records))
