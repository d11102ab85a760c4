-- ===== src/DeepCopy/Entries.antt =====
-- What can be read of the entries of a map.
use license_proxyserver.Base.{ℕ, ◌≤◌, Text, List, [], ◌∷◌, Option, ◌≡◌, Run, done, ◌>>=◌}
use license_proxyserver.DeepCopy.Memory.{Store, Grows, KeepsFrom}
use license_proxyserver.DeepCopy.Reading.{Readable, >>=-done}

module _ (r : Readable (Option ℕ)) where
  abbrev pub view_entries : Store → List (Text × Option ℕ) → Run (List (Text × r.Value))
  view_entries s [] = done []
  view_entries s ((k, x) ∷ m) = r.view s x >>= λ v. view_entries s m >>= λ w. done ((k, v) ∷ w)

  pub view_entries-Grows :
      (s s' : Store) (m : List (Text × Option ℕ)) (v : List (Text × r.Value))
      → Grows s s'
      → view_entries s m ≡ done v
      → view_entries s' m ≡ done v
  view_entries-Grows s s' [] v g e = e
  view_entries-Grows s s' ((k, x) ∷ m) v g e =
      let (a, seen, rest) = >>=-done (r.view s x) _ v e in
      let (w, seen', same) = >>=-done (view_entries s m) _ v rest in
      rw (r.view_grows s s' x a g seen, view_entries-Grows s s' m w g seen') same

  abbrev pub EntriesFresh : ℕ → Store → List (Text × Option ℕ) → Type 0
  EntriesFresh n s [] = Unit
  EntriesFresh n s ((k, x) ∷ m) = r.IsFresh n s x × EntriesFresh n s m

  pub EntriesFresh-Grows :
      (n : ℕ) (s s' : Store) (m : List (Text × Option ℕ))
      → Grows s s'
      → EntriesFresh n s m
      → EntriesFresh n s' m
  EntriesFresh-Grows n s s' [] g f = tt
  EntriesFresh-Grows n s s' ((k, x) ∷ m) g (f, fs) =
      (r.fresh_grows n s s' x g f, EntriesFresh-Grows n s s' m g fs)

  pub EntriesFresh-from :
      (m n : ℕ) (s : Store) (l : List (Text × Option ℕ))
      → m ≤ n
      → EntriesFresh n s l
      → EntriesFresh m s l
  EntriesFresh-from m n s [] le f = tt
  EntriesFresh-from m n s ((k, x) ∷ l) le (f, fs) =
      (r.fresh_from m n s x le f, EntriesFresh-from m n s l le fs)

  pub view_entries-late :
      (n : ℕ) (s s' : Store) (m : List (Text × Option ℕ)) (v : List (Text × r.Value))
      → KeepsFrom n s s'
      → EntriesFresh n s m
      → view_entries s m ≡ done v
      → view_entries s' m ≡ done v
  view_entries-late n s s' [] v keeps f e = e
  view_entries-late n s s' ((k, x) ∷ m) v keeps (f, fs) e =
      let (a, seen, rest) = >>=-done (r.view s x) _ v e in
      let (w, seen', same) = >>=-done (view_entries s m) _ v rest in
      rw (r.view_late n s s' x a keeps f seen, view_entries-late n s s' m w keeps fs seen') same

  abbrev pub entries : Readable (List (Text × Option ℕ))
  entries = record {
    Value = List (Text × r.Value);
    view = view_entries;
    IsFresh = EntriesFresh;
    view_grows = view_entries-Grows;
    fresh_grows = EntriesFresh-Grows;
    fresh_from = EntriesFresh-from;
    view_late = view_entries-late;
  }
