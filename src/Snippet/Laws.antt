-- ===== src/Snippet/Laws.antt =====
-- About Save, Get and Delete of internal/snippet/service.go.
use gopoke.Base.{
  ℕ, ◌≡◌, refl, false, none, some, List, ◌++◌, ok, err, arith, Bool-cases, inl, inr, if◌then◌else◌,
}
use gopoke.Base.Update.{find}
use gopoke.Text.{Text, codes, text_eq, is_empty}
use gopoke.Text.Keyed.{find-remove}
use gopoke.Snippet.{Entry, Service, not_found, has_id, next_count, put, stored, save, get, delete}

abbrev id_of : Entry → Text
id_of r = r.id

find-put :
    (r : Entry) (q : Text) (rs : List Entry)
    → find (has_id q) (put r rs) ≡ (if text_eq r.id q then some r else find (has_id q) rs)
unfolding find
find-put r q rs = ground (arith, find-remove id_of r.id q rs)

-- What a save leaves: the record returned is the one given, with a new time of update, and Get
-- answers with it under its identifier and as before under any other.
pub record IsSaved (given : Entry) (q : Text) (s : Service) (x : Entry) (s' : Service)
    : Type 0 where
  pub named : x.name ≡ given.name
  pub owner : x.project_id ≡ given.project_id
  pub content : x.content ≡ given.content
  pub answer : get none q s' ≡ (if text_eq x.id q then ok x else get none q s)

stored-get :
    (now : ℕ) (r : Entry) (q : Text) (s : Service)
    → is_empty q ≡ false
    → let x : Entry = record r { updated_at = now } in
      get none q (stored now r s).1 ≡ (if text_eq r.id q then ok x else get none q s)
unfolding get
stored-get now r q s h = ground (arith, find-put (record r { updated_at = now }) q s.records)

-- Save of a record with a project and a name succeeds, under a new identifier if it has none, and
-- Get then finds it, and finds every other record as before.
pub save-get :
    (decimal : ℕ → Text) (now : ℕ) (given : Entry) (q : Text) (s : Service)
    → is_empty given.project_id ≡ false
    → is_empty given.name ≡ false
    → is_empty q ≡ false
    → let (r, s') = save decimal none now given s in
      (x : Entry) × (r ≡ ok x) × IsSaved given q s x s'
unfolding save get
save-get decimal now given q s owned named h = elim (Bool-cases (is_empty given.id)) [
  | inl e ↦
      let n = next_count s.counter in
      let r : Entry = record given { id = codes "sn_" ++ decimal n; created_at = now } in
      rw (owned, named, e)
        (
          record r { updated_at = now },
          refl,
          record {
            named = refl;
            owner = refl;
            content = refl;
            answer = stored-get now r q (record s { counter = n }) h;
          },
        )
  | inr e ↦
      rw (owned, named, e)
        (
          record given { updated_at = now },
          refl,
          record {
            named = refl;
            owner = refl;
            content = refl;
            answer = stored-get now given q s h;
          },
        )
]

-- After Delete of a record, Get does not find it, and finds the others as before.
pub delete-get :
    (id q : Text) (s : Service)
    → is_empty id ≡ false
    → is_empty q ≡ false
    → let (r, s') = delete none id s in
      (r ≡ ok tt) × (get none q s' ≡ (if text_eq id q then err not_found else get none q s))
unfolding delete get
delete-get id q s named h = rw named (refl, ground (arith, find-remove id_of id q s.records))
