-- ===== src/Tests/Samples.antt =====
-- Licenses whose expiry date follows from their ID, an order on them, and a parser of them.
use license_proxyserver.Base.{
  ℕ, suc, ◌*◌, Text, text, List, [], ◌∷◌, Option, none, some, Bool, ◌≡◌, refl, ap, sym, subst,
  arith, Result, ok, err, message, length, ◌∙◌,
}
use license_proxyserver.Base.Int.{ℤ, pos, ltb_ℤ}
use license_proxyserver.Api.{License, LicenseState, Time, User}
use license_proxyserver.Clock.{second}
use license_proxyserver.Heap.Order.{IsStrictWeak}
use license_proxyserver.Storage.Registry.Sound.{IsAuthority}
use license_proxyserver.Request.Finding.{Signs}
use license_proxyserver.Verifier.{Verifier}
use license_proxyserver.Acquirer.Refreshing.{EndsLater}

-- an hour for each byte of the ID, and one more
abbrev pub expiry_of : Text → ℕ
expiry_of id = 3600 * second * suc (length id)

abbrev pub license : Text → List Text → License
license id features = record {
  id = id;
  contents = id;
  product_line = text "kubedb";
  tier_name = text "enterprise";
  plan_name = text "kubedb-enterprise";
  features = features;
  not_before = some (pos 0);
  not_after = some (pos (expiry_of id));
  status = LicenseState.active;
}

abbrev pub kubedb : Text
kubedb = text "kubedb"

abbrev pub stash : Text
stash = text "stash"

abbrev pub short_lived : License
short_lived = license (text "a") (kubedb ∷ [])

abbrev pub long_lived : License
long_lived = license (text "abc") (kubedb ∷ stash ∷ [])

abbrev pub end_of : Option Time → ℤ
end_of none = pos 0
end_of (some t) = t

-- the license that ends first comes first
abbrev pub sooner : License → License → Bool
sooner l m = ltb_ℤ (end_of l.not_after) (end_of m.not_after)

pub order : IsStrictWeak sooner
order = record { asym = λ a b h. ground arith; weak = λ a b c h k. ground arith }

abbrev pub Issued : License → Type 0
Issued l = l.not_after ≡ some (pos (expiry_of l.id))

expiry_set : IsSet (Option Time)
expiry_set = hlevel

pub authority : IsAuthority Issued
authority = record {
  prop = λ l. expiry_set _ _;
  dated = λ l h q. cc;
  identified = λ l m h k e. h ∙ ap (λ id. some (pos (expiry_of id))) e ∙ sym k;
}

pub later : EndsLater Issued
later l h t e = ground (arith)

abbrev pub parse : Text → Result License
parse [] = err (message (text "empty license"))
parse (c ∷ bytes) = ok (license (c ∷ bytes) (kubedb ∷ stash ∷ []))

-- the certificate is a text
abbrev pub verifier : Verifier Text
verifier = record {
  load_license_ca = ok (text "CA");
  parse_certificate = λ bytes. ok bytes;
  parse_license = λ cid cert bytes. parse bytes;
}

parse-Issued : (bytes : Text) (l : License) → parse bytes ≡ ok l → Issued l
parse-Issued [] l e = absurd (cc)
parse-Issued (c ∷ bytes) l e =
    let same : license (c ∷ bytes) (kubedb ∷ stash ∷ []) ≡ l = cc in subst Issued same refl

pub signs : Signs verifier Issued
signs cid cert bytes l e = parse-Issued bytes l e

abbrev pub user : User
user = record {
  name = text "operator";
  uid = text "u1";
  groups = text "admins" ∷ [];
  extra = (text "scope", text "all" ∷ []) ∷ [];
}
