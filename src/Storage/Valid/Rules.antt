-- ===== src/Storage/Valid/Rules.antt =====
-- About the steps that the methods of internal/storage/store.go are made of.
use gopoke.Base.{
  ℕ, ◌≡◌, refl, Bool, true, false, Option, none, some, Result, ok, err, CtxError, List, inl, inr,
  Bool-cases,
}
use gopoke.Base.Int.{ℤ, pos, negsuc}
use gopoke.Storage.Projects.{limit_of}
use gopoke.Base.Distinct.{IsDistinct}
use gopoke.Storage.Schema.{ProjectRecord, SnippetRecord, EnvVarRecord, Snapshot}
use gopoke.Storage.Monad.{
  WriteFault, no_fault, Error, StateFile, missing, unreadable, undecodable, document, Store, Action,
  pure, raise, raise_if, check_context, continue, ◌>>=◌, ◌>>◌,
}
use gopoke.Storage.Io.{
  is_v1, load_locked, load_from, cache_read, read_file, write_locked, on_cached, stamp,
  assign_projects, assign_snippets, assign_env_vars,
}
use gopoke.Storage.Valid.{
  same_path, same_id, same_key, same_name, IsValid, CachedIsValid, FileIsValid, StoreIsValid, Keeps,
}

module _ (lower : ℕ → ℕ) where
  pub Keeps-pure : {A : Type 0} (a : A) → Keeps lower (pure a)
  unfolding pure
  Keeps-pure a = record { at = λ s h. h }

  pub Keeps-raise : {A : Type 0} (e : Error) → Keeps lower (raise {A = A} e)
  unfolding raise
  Keeps-raise e = record { at = λ s h. h }

  pub Keeps-check :
      {A : Type 0} (x : Option CtxError) (k : Action A)
      → Keeps lower k
      → Keeps lower (check_context x >> k)
  unfolding ◌>>=◌
  Keeps-check none k r = r
  Keeps-check (some e) k r = record { at = λ s h. h }

  pub Keeps-raise_if :
      {A : Type 0} (b : Bool) (e : Error) (k : Action A)
      → (b ≡ false → Keeps lower k)
      → Keeps lower (raise_if b e >> k)
  unfolding ◌>>=◌
  Keeps-raise_if true e k r = record { at = λ s h. h }
  Keeps-raise_if false e k r = r refl

  -- What loadLocked returns is valid.
  abbrev LoadIsValid : Result Error Snapshot × Store → Type 0
  LoadIsValid (ok d, s) = IsValid lower d × StoreIsValid lower s
  LoadIsValid (err e, s) = StoreIsValid lower s

  cache_read-IsValid :
      (f : StateFile) (s : Store)
      → FileIsValid lower f
      → StoreIsValid lower s
      → LoadIsValid (cache_read (read_file f) s)
  unfolding read_file
  cache_read-IsValid missing s h v = v
  cache_read-IsValid unreadable s h v = v
  cache_read-IsValid undecodable s h v = v
  cache_read-IsValid (document d) s h v = elim (Bool-cases (is_v1 d.schema_version)) [
    | inl e ↦ rw e (h e, (h e, v.1))
    | inr e ↦ rw e v
  ]

  load_from-IsValid :
      (o : Option Snapshot) (s : Store)
      → CachedIsValid lower o
      → StoreIsValid lower s
      → LoadIsValid (load_from o s)
  load_from-IsValid none s h v = cache_read-IsValid s.file s v.1 v
  load_from-IsValid (some d) s h v = (h, v)

  load_locked-IsValid : (s : Store) → StoreIsValid lower s → LoadIsValid (load_locked s)
  unfolding load_locked
  load_locked-IsValid s v = load_from-IsValid s.cached s v.0 v

  load_state-IsValid : (r : Result Error Snapshot × Store) → LoadIsValid r → StoreIsValid lower r.1
  load_state-IsValid (ok d, s) h = h.1
  load_state-IsValid (err e, s) h = h

  continue-IsValid :
      {A : Type 0} (k : Snapshot → Action A) (r : Result Error Snapshot × Store)
      → ((d : Snapshot) → r.0 ≡ ok d → IsValid lower d → Keeps lower (k d))
      → LoadIsValid r
      → StoreIsValid lower (continue r.0 k r.1).1
  continue-IsValid k (ok d, s) keep h = (keep d refl h.0).at s h.1
  continue-IsValid k (err e, s) keep h = h

  pub Keeps-load :
      {A : Type 0} (k : Snapshot → Action A)
      → ((d : Snapshot) → IsValid lower d → Keeps lower (k d))
      → Keeps lower (load_locked >>= k)
  unfolding ◌>>=◌
  Keeps-load k keep = record {
    at = λ s h. continue-IsValid k (load_locked s) (λ d _ v. keep d v) (load_locked-IsValid s h);
  }

  pub Keeps-load_last : Keeps lower load_locked
  Keeps-load_last = record {
    at = λ s h. load_state-IsValid (load_locked s) (load_locked-IsValid s h);
  }

  pub Keeps-limit :
      {A : Type 0} (limit : ℤ) (k : ℕ → Action A)
      → ((n : ℕ) → Keeps lower (k n))
      → Keeps lower (limit_of limit >>= k)
  unfolding ◌>>=◌
  Keeps-limit (pos n) k keep = keep n
  Keeps-limit (negsuc n) k keep = record { at = λ s h. h }

  -- The same at one store, for a method that rests on what it loads there.
  abbrev pub KeepsAt : {A : Type 0} → Store → Action A → Type 0
  KeepsAt s m = StoreIsValid lower s → StoreIsValid lower (m s).1

  pub KeepsAt-check :
      {A : Type 0} (s : Store) (x : Option CtxError) (k : Action A)
      → KeepsAt s k
      → KeepsAt s (check_context x >> k)
  unfolding ◌>>=◌
  KeepsAt-check s none k keep h = keep h
  KeepsAt-check s (some e) k keep h = h

  pub KeepsAt-raise_if :
      {A : Type 0} (s : Store) (b : Bool) (e : Error) (k : Action A)
      → (b ≡ false → KeepsAt s k)
      → KeepsAt s (raise_if b e >> k)
  unfolding ◌>>=◌
  KeepsAt-raise_if s true e k keep h = h
  KeepsAt-raise_if s false e k keep h = keep refl h

  pub KeepsAt-load :
      {A : Type 0} (s : Store) (k : Snapshot → Action A)
      → ((d : Snapshot) → (load_locked s).0 ≡ ok d → IsValid lower d → Keeps lower (k d))
      → KeepsAt s (load_locked >>= k)
  unfolding ◌>>=◌
  KeepsAt-load s k keep h = continue-IsValid k (load_locked s) keep (load_locked-IsValid s h)

  pub Keeps-write :
      {A : Type 0} (f : WriteFault) (rm : Bool) (d : Snapshot) (k : Action A)
      → IsValid lower d
      → Keeps lower k
      → Keeps lower (write_locked f rm d >> k)
  unfolding ◌>>=◌ write_locked
  Keeps-write no_fault rm d k v keep = record { at = λ s h. keep.at _ (v, λ e. v) }
  Keeps-write _ rm d k v keep = record { at = λ s h. h }

  -- A write that ends a method.
  pub Keeps-write_last :
      (f : WriteFault) (rm : Bool) (d : Snapshot)
      → IsValid lower d
      → Keeps lower (write_locked f rm d)
  unfolding write_locked
  Keeps-write_last no_fault rm d v = record { at = λ s h. (v, λ e. v) }
  Keeps-write_last _ rm d v = record { at = λ s h. h }

  on_cached-IsValid :
      (f : Snapshot → Snapshot)
      → ((d : Snapshot) → IsValid lower d → IsValid lower (f d))
      → (o : Option Snapshot) → CachedIsValid lower o
      → CachedIsValid lower (on_cached f o)
  on_cached-IsValid f keep none h = tt
  on_cached-IsValid f keep (some d) h = keep d h

  pub IsValid-projects :
      (d : Snapshot) (ps : List ProjectRecord)
      → IsDistinct same_path ps
      → IsValid lower d
      → IsValid lower (record d { projects = ps })
  IsValid-projects d ps h v = record {
    version = v.version;
    paths = h;
    ids = v.ids;
    names = v.names;
    keys = v.keys;
    runs = v.runs;
  }

  pub IsValid-snippets :
      (d : Snapshot) (xs : List SnippetRecord)
      → IsDistinct same_id xs
      → IsDistinct (same_name lower) xs
      → IsValid lower d
      → IsValid lower (record d { snippets = xs })
  IsValid-snippets d xs i n v = record {
    version = v.version;
    paths = v.paths;
    ids = i;
    names = n;
    keys = v.keys;
    runs = v.runs;
  }

  pub IsValid-env_vars :
      (d : Snapshot) (vs : List EnvVarRecord)
      → IsDistinct same_key vs
      → IsValid lower d
      → IsValid lower (record d { env_vars = vs })
  IsValid-env_vars d vs h v = record {
    version = v.version;
    paths = v.paths;
    ids = v.ids;
    names = v.names;
    keys = h;
    runs = v.runs;
  }

  pub IsValid-stamp : (now : ℕ) (d : Snapshot) → IsValid lower d → IsValid lower (stamp now d)
  IsValid-stamp now d v = record {
    version = v.version;
    paths = v.paths;
    ids = v.ids;
    names = v.names;
    keys = v.keys;
    runs = v.runs;
  }

  pub Keeps-assign_projects :
      {A : Type 0} (ps : List ProjectRecord) (k : Action A)
      → IsDistinct same_path ps
      → Keeps lower k
      → Keeps lower (assign_projects ps >> k)
  unfolding ◌>>=◌ assign_projects
  Keeps-assign_projects ps k d keep = record {
    at =
        λ s h. keep.at _ (on_cached-IsValid _ (λ c v. IsValid-projects c ps d v) s.cached h.0, h.1);
  }

  pub Keeps-assign_snippets :
      {A : Type 0} (xs : List SnippetRecord) (k : Action A)
      → IsDistinct same_id xs
      → IsDistinct (same_name lower) xs
      → Keeps lower k
      → Keeps lower (assign_snippets xs >> k)
  unfolding ◌>>=◌ assign_snippets
  Keeps-assign_snippets xs k i n keep = record {
    at = λ s h.
        keep.at _ (on_cached-IsValid _ (λ c v. IsValid-snippets c xs i n v) s.cached h.0, h.1);
  }

  pub Keeps-assign_env_vars :
      {A : Type 0} (vs : List EnvVarRecord) (k : Action A)
      → IsDistinct same_key vs
      → Keeps lower k
      → Keeps lower (assign_env_vars vs >> k)
  unfolding ◌>>=◌ assign_env_vars
  Keeps-assign_env_vars vs k d keep = record {
    at =
        λ s h. keep.at _ (on_cached-IsValid _ (λ c v. IsValid-env_vars c vs d v) s.cached h.0, h.1);
  }
