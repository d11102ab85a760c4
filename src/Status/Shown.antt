-- ===== src/Status/Shown.antt =====
-- What LicenseStatus shows of the registry.
use mathlib.Core.List.{mem-cons_self, mem-cons_of_mem}
use license_proxyserver.Base.{
  ◌>>=◌, ap, ◌∙◌, ◌∙◌, ap, inr, inl, Text, str, List, [], ◌∷◌, Mem, none, some, Bool, ◌≡◌, ◌≢◌,
  refl, sym, subst, arith, done, Returns, returns, Returns-bind, Returns-map, deref-Returns, Result,
  ok, All, Option-cases,
}
use license_proxyserver.Base.Dict
use license_proxyserver.Api.{License, Time, User, LicenseStatus, LicenseStatusSpec, LicenseRequest}
use license_proxyserver.Heap.Order.{IsStrictWeak}
use license_proxyserver.Storage.RecordBook
use license_proxyserver.Storage.RecordBook.{RecordBook}
use license_proxyserver.Storage.Registry
use license_proxyserver.Storage.Registry.{Record, LicenseRegistry}
use license_proxyserver.Storage.Registry.Invariant.{IsWf}
use license_proxyserver.Storage.Registry.Listing.{list_exact}
use license_proxyserver.Request.Granting.{Granted}
use license_proxyserver.Status.{to_license_status, to_items, list, get}

-- Every stored license has a start date.
abbrev pub IsBegun : LicenseRegistry → Type 0
IsBegun r =
    (id : Text) (rec : Record)
    → Dict.lookup str id r.store ≡ some rec
    → rec.license.not_before ≢ none

-- The object that stands for a record.
record Shows (book : RecordBook) (rec : Record) (item : LicenseStatus) : Type 0 where
  named : item.name ≡ rec.license.id
  licensed : item.status.license ≡ rec.license
  spec :
      (used : LicenseStatusSpec)
      → RecordBook.used_by book rec.license.id ≡ some used
      → item.spec ≡ used
  given : to_license_status (some book) rec ≡ done item

to_license_status-Shows :
    (book : RecordBook) (rec : Record)
    → rec.license.not_before ≢ none
    → Returns (Shows book rec) (to_license_status (some book) rec)
unfolding to_license_status
to_license_status-Shows book rec begun =
    Returns-bind (deref-Returns rec.license.not_before begun) λ t e. returns (record {
      named = refl;
      licensed = refl;
      spec = λ used h. ground (arith, h);
      given = ground (arith, e);
    })

-- The objects stand for the records, one for one.
abbrev Pointwise : RecordBook → List Record → List LicenseStatus → Type 0
Pointwise book [] [] = Unit
Pointwise book [] (x ∷ items) = ⊥
Pointwise book (rec ∷ records) [] = ⊥
Pointwise book (rec ∷ records) (x ∷ items) = Shows book rec x × Pointwise book records items

to_items-Pointwise :
    (book : RecordBook) (records : List Record)
    → ((rec : Record) → Mem rec records → rec.license.not_before ≢ none)
    → Returns (Pointwise book records) (to_items (some book) records)
unfolding to_items
to_items-Pointwise book [] begun = returns tt
to_items-Pointwise book (rec ∷ records) begun =
    Returns-bind (to_license_status-Shows book rec (begun rec mem-cons_self)) λ x s.
      Returns-bind (to_items-Pointwise book records λ y i. begun y (mem-cons_of_mem _ i))
        λ items p. returns (s, p)

-- Get gives the object back under its own name.
abbrev pub IsFetched : LicenseRegistry → LicenseStatus → Type 0
IsFetched r x = get r x.name ≡ done (ok x)

get-found :
    (r : LicenseRegistry) (book : RecordBook) (rec : Record) (name : Text)
    → r.rb ≡ some book
    → Registry.get r name ≡ some rec
    → get r name ≡ (to_license_status (some book) rec >>= λ out. done (ok out))
unfolding get
get-found r book rec name e there =
    rw (there, get) (ap (λ b. to_license_status b rec >>= λ out. done (ok out)) e)

get-Shows :
    (r : LicenseRegistry) (book : RecordBook) (rec : Record) (x : LicenseStatus)
    → r.rb ≡ some book
    → Registry.get r rec.license.id ≡ some rec
    → Shows book rec x
    → IsFetched r x
get-Shows r book rec x e there s =
    ap (get r) s.named
    ∙ get-found r book rec rec.license.id e there
    ∙ ap (λ run. run >>= λ out. done (ok out)) s.given

Pointwise-IsFetched :
    (r : LicenseRegistry) (book : RecordBook)
    → r.rb ≡ some book
    → (records : List Record) (items : List LicenseStatus)
    → ((rec : Record) → Mem rec records → Registry.get r rec.license.id ≡ some rec)
    → Pointwise book records items
    → All (IsFetched r) items
Pointwise-IsFetched r book e [] [] there p = tt
Pointwise-IsFetched r book e (rec ∷ records) (x ∷ items) there p = (
  get-Shows r book rec x e (there rec mem-cons_self) p.0,
  Pointwise-IsFetched r book e records items (λ y i. there y (mem-cons_of_mem _ i)) p.1,
)
Pointwise-IsFetched r book e [] (x ∷ items) there p = absurd p
Pointwise-IsFetched r book e (rec ∷ records) [] there p = absurd p

-- the object that Get gives for a granted license
pub record GrantShown (id : Text) (used : LicenseStatusSpec) (res : Result LicenseStatus)
    : Type 0 where
  pub item : LicenseStatus
  pub found : res ≡ ok item
  pub named : item.name ≡ id
  pub spec : item.spec ≡ used

module _ (less : License → License → Bool) (r : LicenseRegistry) (wf : IsWf less r)
    (begun : IsBegun r) (book : RecordBook) (e : r.rb ≡ some book) where
  -- If `less` is a strict weak order, the registry is well formed, has a book, and every stored
  -- license has a start date, then List of LicenseStatus ends without a panic, and Get of the name
  -- of each object that it lists gives the same object.
  pub list-IsFetched :
      (order : IsStrictWeak less) (now : Time) → Returns (All (IsFetched r)) (list less now r)
  unfolding list Registry.get
  list-IsFetched order now =
      Returns-bind (list_exact less order now r wf) λ records (sorted, exact).
        subst (λ b. Returns (All (IsFetched r)) (to_items b records)) (sym e)
          (Returns-map
            (to_items-Pointwise book records λ rec i. begun rec.license.id rec ((exact rec).0 i).0)
            λ items p. Pointwise-IsFetched r book e records items (λ rec i. ((exact rec).0 i).0) p)

  -- If the registry is well formed, has a book, and every stored license has a start date, then
  -- for a license that was granted to a user for some features, Get of LicenseStatus ends without
  -- a panic and finds an object that has the license's ID as its name, and the user and the
  -- features as its spec.
  pub get-GrantShown :
      (Issued : License → Type 0) (user : User) (features : List Text) (out : LicenseRequest)
      (g : Granted Issued r user features out)
      → Returns (GrantShown g.license.id (RecordBook.usage features user)) (get r g.license.id)
  unfolding get Registry.get
  get-GrantShown Issued user features out g = elim (Option-cases (Registry.get r g.license.id)) [
    | inl missing ↦ absurd (g.stored missing)
    | inr (rec, there) ↦
        subst (Returns (GrantShown g.license.id (RecordBook.usage features user)))
          (sym (get-found r g.book rec g.license.id g.same_book there))
          (Returns-bind (to_license_status-Shows g.book rec (begun g.license.id rec there))
            λ item s.
              let same = wf.keyed g.license.id rec there in
              returns (record {
                item = item;
                found = refl;
                named = s.named ∙ same;
                spec = s.spec _ (rw same g.used);
              }))
  ]
