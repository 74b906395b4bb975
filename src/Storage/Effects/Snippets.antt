-- ===== src/Storage/Effects/Snippets.antt =====
-- About SaveSnippet, DeleteSnippet and SnippetByID of internal/storage/store.go.
use gopoke.Base.{
  ℕ, ◌≡◌, refl, ap, Bool, true, false, not, Option, none, some, [], ◌∷◌, ◌++◌, Result, ok, err,
  filter, any, arith, if◌then◌else◌,
}
use gopoke.Base.Update.{find}
use gopoke.Base.Distinct.{find-of_any, filter-eq_of_any}
use gopoke.Text.{Text, codes, text_eq, is_empty, trim_space}
use gopoke.Storage.Schema.{SnippetRecord, Snapshot, generate_id}
use gopoke.Storage.Monad.{Error, snippet_name_exists, Store, Call, ◌>>=◌}
use gopoke.Storage.Io.{write_locked, stamp}
use gopoke.Storage.Snippets.{
  project_exists, has_id, snippet_by_id, delete_if, delete_snippet, name_exists, created,
  save_snippet,
}
use gopoke.Storage.Effects.{loaded, healthy, written}
use gopoke.Text.Keyed.{find-add, find-remove}

abbrev id_of : SnippetRecord → Text
id_of x = x.id

-- The answer of SnippetByID.
abbrev pub lookup : Call → Text → Store → Result Error (Option SnippetRecord)
lookup c id s = (snippet_by_id (healthy c) id s).0

lookup_lem :
    (c : Call) (id : Text) (s : Store) (d : Snapshot)
    → is_empty (trim_space id) ≡ false
    → lookup c id (loaded s d) ≡ ok (find (has_id id) d.snippets)
unfolding snippet_by_id ◌>>=◌
lookup_lem c id s d h = rw (h, lookup)

-- What SaveSnippet asks of a record.
pub record IsSavable (d : Snapshot) (r : SnippetRecord) : Type 0 where
  pub owner : is_empty r.project_id ≡ false
  pub named : is_empty (trim_space r.name) ≡ false
  pub filled : is_empty (trim_space r.content) ≡ false
  pub known : project_exists d.projects r.project_id ≡ true

module _ (lower : ℕ → ℕ) (c c' : Call) (s : Store) (d : Snapshot) (r : SnippetRecord) where
  abbrev trimmed : SnippetRecord
  trimmed = record r { name = trim_space r.name }

  abbrev saved : SnippetRecord
  saved = created lower c trimmed

  abbrev after : Snapshot
  after = stamp c.now (record d { snippets = d.snippets ++ saved ∷ [] })

  save_lem :
      IsSavable d r
      → is_empty r.id ≡ true
      → name_exists lower d.snippets r.project_id [] (trim_space r.name) ≡ false
      → save_snippet lower (healthy c) r (loaded s d) ≡ (ok saved, loaded (written s after) after)
  unfolding save_snippet ◌>>=◌ write_locked
  save_lem v new free = rw (v.owner, v.named, v.filled, v.known, new, free)

  -- A new snippet with a free name, under a fresh identifier, is saved with its name trimmed;
  -- SnippetByID then finds it, and finds every other snippet as before.
  pub save-lookup :
      (q : Text)
      → IsSavable d r
      → is_empty r.id ≡ true
      → name_exists lower d.snippets r.project_id [] (trim_space r.name) ≡ false
      → any (has_id (generate_id (codes "sn") c.random)) d.snippets ≡ false
      → is_empty (trim_space q) ≡ false
      → let (result, s') = save_snippet lower (healthy c) r (loaded s d) in
        (x : SnippetRecord) × (result ≡ ok x)
        × (x.name ≡ trim_space r.name)
        × (x.content ≡ r.content)
        × (lookup c' q s' ≡ (if text_eq x.id q then ok (some x) else lookup c' q (loaded s d)))
  save-lookup q v new free fresh h = (
    saved,
    ap (λ (r : Result Error SnippetRecord × Store). r.0) (save_lem v new free),
    refl,
    refl,
    rw (save_lem v new free) (
        ground (
          arith,
          lookup_lem c' q (written s after) after h,
          lookup_lem c' q s d h,
          find-add id_of saved.id q d.snippets saved refl
              (find-of_any (has_id saved.id) d.snippets fresh),
        )),
  )

  -- A name that a snippet of the project has, up to case and the space around it, is refused, and
  -- the store stays as it was.
  pub save_clash :
      IsSavable d r
      → is_empty r.id ≡ true
      → name_exists lower d.snippets r.project_id [] (trim_space r.name) ≡ true
      → save_snippet lower (healthy c) r (loaded s d)
        ≡ (err (snippet_name_exists (trim_space r.name)), loaded s d)
  unfolding save_snippet ◌>>=◌
  save_clash v new taken = rw (v.owner, v.named, v.filled, v.known, new, taken)

delete_lem :
    (c c' : Call) (s : Store) (d : Snapshot) (id q : Text) (b : Bool)
    → any (has_id id) d.snippets ≡ b
    → is_empty (trim_space q) ≡ false
    → let kept = record d { snippets = filter (λ x. not (has_id id x)) d.snippets } in
      let (r, s') = delete_if b (healthy c) kept (loaded s d) in
      (r ≡ ok tt) × (lookup c' q s' ≡ (if text_eq id q then ok none else lookup c' q (loaded s d)))
unfolding write_locked ◌>>=◌
delete_lem c c' s d id q true e h =
    let kept = record d { snippets = filter (λ x. not (has_id id x)) d.snippets } in
    (
      refl,
      ground (
        arith,
        lookup_lem c' q (written s (stamp c.now kept)) (stamp c.now kept) h,
        lookup_lem c' q s d h,
        find-remove id_of id q d.snippets,
      ),
    )
delete_lem c c' s d id q false e h = (
  refl,
  ground (
    arith,
    lookup_lem c' q s d h,
    find-remove id_of id q d.snippets,
    filter-eq_of_any (has_id id) d.snippets e,
  ),
)

-- DeleteSnippet on a loaded store succeeds when nothing fails, whether the snippet is there or
-- not; SnippetByID then does not find its trimmed identifier, and finds all others as before.
pub delete-lookup :
    (c c' : Call) (s : Store) (d : Snapshot) (id q : Text)
    → is_empty (trim_space id) ≡ false
    → is_empty (trim_space q) ≡ false
    → let (r, s') = delete_snippet (healthy c) id (loaded s d) in
      (r ≡ ok tt)
      × (lookup c' q s' ≡ (if text_eq (trim_space id) q then ok none else lookup c' q (loaded s d)))
unfolding delete_snippet ◌>>=◌
delete-lookup c c' s d id q named h = rw named (delete_lem c c' s d (trim_space id) q _ refl h)
