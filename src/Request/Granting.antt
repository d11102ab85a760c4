-- ===== src/Request/Granting.antt =====
-- Create of a LicenseRequest: how it ends, and what it writes in the record book.
use license_proxyserver.Base.{
  ap, ◌∙◌, subst, Text, str, List, [], Option, none, some, Bool, true, false, ◌≡◌, ◌≢◌, ◌⊎◌, inl,
  inr, refl, arith, done, Returns, returns, Returns-bind, deref-Returns, Result, ok, err,
  Result-cases, Option-cases,
}
use license_proxyserver.Base.Dict
use license_proxyserver.Api.{License, Time, User, LicenseRequest, LicenseRequestRequest}
use license_proxyserver.Heap.Order.{IsStrictWeak}
use license_proxyserver.Storage.RecordBook
use license_proxyserver.Storage.RecordBook.{RecordBook, used_by-record_usage}
use license_proxyserver.Storage.Registry.{LicenseRegistry, Record, get}
use license_proxyserver.Storage.Registry.Invariant.{IsCovered}
use license_proxyserver.Storage.Registry.Sound.{IsAuthority, IsSound}
use license_proxyserver.Verifier.{Verifier}
use license_proxyserver.Request.{
  claim_features, Storage, SpokeClient, StringSets, respond, answer, create,
}
use license_proxyserver.Request.Finding.{IsStored, Signs, get_license-Got}

-- The registry once the use of a license was recorded in its book.
abbrev pub recorded : LicenseRegistry → RecordBook → Text → List Text → User → LicenseRegistry
recorded r rb id features user = record r {
  rb = some (RecordBook.record_usage rb id features user);
}

recorded-IsCovered :
    (rb : RecordBook) (store : List (Text × Record)) (id : Text) (features : List Text)
    (user : User)
    → Dict.lookup str id store ≢ none
    → IsCovered (some rb) store
    → IsCovered (some (RecordBook.record_usage rb id features user)) store
unfolding RecordBook.used_by
recorded-IsCovered rb store id features user there c j used =
    ground (arith, used_by-record_usage rb id j features user, c j)

module _ (less : License → License → Bool) (Issued : License → Type 0) (now : Time) where
  recorded-IsSound :
      (r : LicenseRegistry) (rb : RecordBook) (id : Text) (features : List Text) (user : User)
      → IsSound less Issued now r
      → r.rb ≡ some rb
      → get r id ≢ none
      → IsSound less Issued now (recorded r rb id features user)
  unfolding get
  recorded-IsSound r rb id features user s e there = record {
    wf = record {
      heaps = s.wf.heaps;
      tagged = s.wf.tagged;
      dated = s.wf.dated;
      stored_dated = s.wf.stored_dated;
      consistent = s.wf.consistent;
      keyed = s.wf.keyed;
      distinct = s.wf.distinct;
      indexed = s.wf.indexed;
      covered =
          recorded-IsCovered rb r.store id features user there
            (subst (λ b. IsCovered b r.store) e s.wf.covered);
    };
    current = s.current;
    trusted = s.trusted;
    vouched = s.vouched;
  }

-- The request was answered with the contents of an issued license that is stored, and the book says
-- that `user` got it for `features`.
pub record Granted (Issued : License → Type 0) (r : LicenseRegistry) (user : User)
    (features : List Text) (out : LicenseRequest) : Type 0 where
  pub license : License
  pub issued : Issued license
  pub book : RecordBook
  pub stored : get r license.id ≢ none
  pub same_book : r.rb ≡ some book
  pub used : RecordBook.used_by book license.id ≡ some (RecordBook.usage features user)
  pub answered : out.response ≡ some (record { license = license.contents })

-- Every answer is a granted license, or the blank response.
abbrev pub Answered :
    (License → Type 0) → LicenseRegistry → User → List Text → Result LicenseRequest → Type 0
Answered Issued r user features (err e) = Unit
Answered Issued r user features (ok out) =
    Granted Issued r user features out ⊎ (out.response ≡ some (record { license = [] }))

module _ (less : License → License → Bool) (Issued : License → Type 0) (order : IsStrictWeak less)
    (authority : IsAuthority Issued) {Certificate : Type 0} (v : Verifier Certificate)
    (signs : Signs v Issued) (k : SpokeClient) (sets : StringSets) (now : Time) where
  -- the state after Create, and its answer
  abbrev pub CreateEnds :
      User → List Text → Storage Certificate × k.State × Result LicenseRequest → Type 0
  CreateEnds user features (r, s, result) =
      IsSound less Issued now r.reg × (r.reg.rb ≢ none) × Answered Issued r.reg user features result

  pub granted :
      (user : User) (req : LicenseRequest) (features : List Text) (r : Storage Certificate)
      (rb : RecordBook) (l : License)
      → Issued l
      → get r.reg l.id ≢ none
      → Granted Issued
          (recorded r.reg rb l.id features user)
          user
          features
          (respond features l.contents req)
  unfolding get respond
  granted user req features r rb l issued there = record {
    license = l;
    issued = issued;
    book = RecordBook.record_usage rb l.id features user;
    stored = there;
    same_book = refl;
    used = ground (arith, used_by-record_usage rb l.id l.id features user);
    answered = refl;
  }

  answer-CreateEnds :
      (is_spoke : Bool) (user : User) (req : LicenseRequest) (features : List Text)
      (r : Storage Certificate) (s : k.State) (l : Option License)
      → IsSound less Issued now r.reg
      → r.reg.rb ≢ none
      → ((found : License) → l ≡ some found → get r.reg found.id ≢ none)
      → ((found : License) → l ≡ some found → Issued found)
      → Returns (CreateEnds user features) (answer less v k sets is_spoke user req features r s l)
  unfolding answer respond
  answer-CreateEnds is_spoke user req features r s (some l) sound book there issued =
      Returns-bind (deref-Returns r.reg.rb book) λ rb e. returns (
        recorded-IsSound less Issued now r.reg rb l.id features user sound e (there l refl),
        (λ q. cc),
        inl (granted user req features r rb l (issued l refl) (there l refl)),
      )
  answer-CreateEnds false user req features r s none sound book there issued =
      returns (sound, book, inr refl)
  answer-CreateEnds true user req features r s none sound book there issued =
      elim (Option-cases (claim_features k sets s features).1) [
        | inl e ↦ rw (e, answer) (returns (sound, book, inr refl))
        | inr (failed, e) ↦ rw (e, answer) (returns (sound, book, tt))
      ]

  -- If `less` is a strict weak order, issued licenses have an expiry date that their ID
  -- determines, the parser accepts issued licenses only, the registry is sound and has a record
  -- book, the request is not nil and the test for a spoke cluster returns, then Create for an
  -- authenticated user ends without a panic. The registry is sound and has a book; the result is
  -- an error, or a request whose response is blank, or one whose response has the contents of an
  -- issued license whose ID is stored and that the book says the user was given for the requested
  -- features.
  pub create-CreateEnds :
      (user : User) (req : LicenseRequest) (request : LicenseRequestRequest)
      (r : Storage Certificate) (s : k.State) (is_spoke : Bool)
      → req.request ≡ some request
      → k.is_open_cluster_spoke s ≡ done is_spoke
      → r.reg.rb ≢ none
      → IsSound less Issued now r.reg
      → Returns (CreateEnds user request.features) (create less v k sets now (some user) req r s)
  unfolding create
  create-CreateEnds user req request r s is_spoke asked spoke book sound =
      rw (spoke, asked)
        (Returns-bind
          (get_license-Got less Issued order authority now v signs request.features r sound)
          λ (r', result) g. elim (Result-cases result) [
            | inr (e, failed) ↦ rw failed (returns (g.sound, g.keeps_book book, tt))
            | inl (l, given) ↦ rw given (
                answer-CreateEnds is_spoke user req request.features r' s l g.sound
                  (g.keeps_book book)
                  (λ found e. subst (IsStored r'.reg) (given ∙ ap ok e) g.stored)
                  (λ found e. g.issued found (given ∙ ap ok e)))
          ])
