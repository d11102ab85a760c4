-- ===== src/Delivery/Answering.antt =====
-- Create for a user whose feature has a live license in the registry.
use license_proxyserver.Base.{
  Text, List, Mem, Option, none, some, Bool, true, ◌≡◌, ◌≢◌, refl, arith, done, Returns, returns,
  Returns-bind, Result, ok, err, Option-cases, inl, inr, deref-Returns,
}
use license_proxyserver.Api.{License, Time, User, LicenseRequest, LicenseRequestRequest}
use license_proxyserver.Heap.Order.{IsStrictWeak}
use license_proxyserver.Storage.RecordBook
use license_proxyserver.Storage.RecordBook.{used_by-record_usage}
use license_proxyserver.Storage.Registry.{LicenseRegistry, Record, get}
use license_proxyserver.Storage.Registry.Invariant.{is_live}
use license_proxyserver.Storage.Registry.Sound.{IsAuthority, IsSound}
use license_proxyserver.Verifier.{Verifier}
use license_proxyserver.Request.{
  respond, Storage, SpokeClient, StringSets, get_license, answer, create,
}
use license_proxyserver.Request.Finding.{Signs, find_license-Found}
use license_proxyserver.Request.Granting.{Granted}

-- a live license of the registry for one of the features
pub record Offered (now : Time) (features : List Text) (r : LicenseRegistry) : Type 0 where
  pub record_of : Record
  pub stored : get r record_of.license.id ≡ some record_of
  pub live : is_live now r.ttl record_of.license ≡ true
  pub feature : Text
  pub asked : Mem feature features
  pub tagged : Mem feature record_of.license.features

module _ (less : License → License → Bool) (Issued : License → Type 0) (order : IsStrictWeak less)
    (authority : IsAuthority Issued) (now : Time) where
  -- getLicense found a license that lasts, is stored and has a requested feature
  record Finds (features : List Text) {Certificate : Type 0} (r : Storage Certificate)
      (res : Storage Certificate × Result (Option License)) : Type 0 where
    pub license : License
    pub result : res.1 ≡ ok (some license)
    pub live : is_live now r.reg.ttl license ≡ true
    pub stored : get res.0.reg license.id ≢ none
    pub issued : Issued license
    pub feature : Text
    pub asked : Mem feature features
    pub tagged : Mem feature license.features
    pub keeps_book : r.reg.rb ≢ none → res.0.reg.rb ≢ none

  module _ {Certificate : Type 0} (v : Verifier Certificate) (signs : Signs v Issued)
      (k : SpokeClient) (sets : StringSets) where
    get_license-Finds :
        (features : List Text) (r : Storage Certificate)
        → IsSound less Issued now r.reg
        → Offered now features r.reg
        → Returns (Finds features r) (get_license less v now features r)
    unfolding get_license get
    get_license-Finds features r s o =
        Returns-bind (find_license-Found less Issued order authority now features r.reg s) λ res f.
          elim (Option-cases res.1) [
            | inl e ↦ absurd (
                ground (
                  arith,
                  o.live,
                  f.missed e o.feature o.record_of.license o.asked
                      (s.wf.indexed o.record_of.license.id o.record_of o.feature o.stored o.tagged),
                ))
            | inr (l, e) ↦ rw e (
                let (g, i, j) = f.useful l e in
                returns (record {
                  license = l;
                  result = refl;
                  live = (f.chosen l e).0;
                  stored = (f.chosen l e).1;
                  issued = f.issued l e;
                  feature = g;
                  asked = i;
                  tagged = j;
                  keeps_book = f.lapsed.keeps_book;
                }))
          ]

    -- Create gave a license, which the book has, for a feature that the user asked for.
    pub record Serves (user : User) (features : List Text) (r : Storage Certificate)
        (res : Storage Certificate × k.State × Result LicenseRequest) : Type 0 where
      pub out : LicenseRequest
      pub result : res.2 ≡ ok out
      pub grant : Granted Issued res.0.reg user features out
      pub live : is_live now r.reg.ttl grant.license ≡ true
      pub feature : Text
      pub asked : Mem feature features
      pub tagged : Mem feature grant.license.features

    answer-Serves :
        (is_spoke : Bool) (user : User) (req : LicenseRequest) (features : List Text)
        (r : Storage Certificate) (s : k.State)
        (res : Storage Certificate × Result (Option License))
        → r.reg.rb ≢ none
        → Finds features r res
        → Returns (Serves user features r) (elim res.1 [
          | err e ↦ done (res.0, s, err e)
          | ok l ↦ answer less v k sets is_spoke user req features res.0 s l
        ])
    unfolding answer respond get
    answer-Serves is_spoke user req features r s (r', result) book f = rw (f.result) (
        Returns-bind (deref-Returns r'.reg.rb (f.keeps_book book)) λ rb e. returns (record {
          out = _;
          result = refl;
          grant = record {
            license = f.license;
            issued = f.issued;
            book = RecordBook.record_usage rb f.license.id features user;
            stored = f.stored;
            same_book = refl;
            used = ground (arith, used_by-record_usage rb f.license.id f.license.id features user);
            answered = refl;
          };
          live = f.live;
          feature = f.feature;
          asked = f.asked;
          tagged = f.tagged;
        }))

    -- If `less` is a strict weak order, issued licenses have an expiry date that their ID
    -- determines, the parser accepts issued licenses only, the registry is sound, has a book and
    -- stores a license that is live (has `ttl` or more left) and has a requested feature, the
    -- request is not nil and the test for a spoke cluster returns, then Create for an
    -- authenticated user ends without a panic and without an error. It answers with the contents
    -- of an issued license, whose ID is stored, that is live and has a requested feature, and that
    -- the book says the user was given for the requested features.
    pub create-Serves :
        (user : User) (req : LicenseRequest) (request : LicenseRequestRequest)
        (r : Storage Certificate) (s : k.State) (is_spoke : Bool)
        → req.request ≡ some request
        → k.is_open_cluster_spoke s ≡ done is_spoke
        → r.reg.rb ≢ none
        → IsSound less Issued now r.reg
        → Offered now request.features r.reg
        → Returns (Serves user request.features r) (create less v k sets now (some user) req r s)
    unfolding create
    create-Serves user req request r s is_spoke asked spoke book sound o =
        rw (spoke, asked)
          (Returns-bind (get_license-Finds request.features r sound o)
            λ res f. answer-Serves is_spoke user req request.features r s res book f)
