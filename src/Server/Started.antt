-- ===== src/Server/Started.antt =====
-- What a server that has started serves.
use license_proxyserver.Base.{
  Text, [], Option, none, some, Bool, true, false, ◌≡◌, ◌≢◌, ◌∙◌, refl, sym, subst, arith, done,
  Returns, returns, Returns-bind, Result, ok, err, Error, Result-cases, Option-cases, inl, inr,
}
use license_proxyserver.Base.Dict
use license_proxyserver.Api.{License, Time}
use license_proxyserver.Clock.{min_remaining_life}
use license_proxyserver.Heap.Order.{IsStrictWeak}
use license_proxyserver.Verifier.{Verifier, LicenseClient}
use license_proxyserver.Storage.RecordBook.{new_record_book}
use license_proxyserver.Storage.Registry.{LicenseRegistry, new_license_registry}
use license_proxyserver.Storage.Registry.Sound.{IsAuthority, IsSound, new-IsSound}
use license_proxyserver.Storage.Loader.{FileSystem}
use license_proxyserver.Server.Loading.{Loaded, DirsLoaded, load_dirs-Loaded}
use license_proxyserver.Request.Finding.{Signs}
use license_proxyserver.Server.{
  ExtraConfig, Platform, LicenseProxyServer, Outcome, started, failed, exited, Checked, passed,
  exits, stops, choose_client, check_spoke, finish, serve_from, start_with, start,
}

-- The license server is asked unless the cluster is a spoke, if its URL is set.
pub record ClientChosen (is_spoke : Bool) (c : ExtraConfig) (lc : Option LicenseClient)
    : Type 0 where
  pub on_spoke : is_spoke ≡ true → lc ≡ none
  pub off_spoke : is_spoke ≡ false → c.base_url ≢ [] → lc ≢ none

-- What a spoke cluster must be told.
pub record SpokeNamed (c : ExtraConfig) : Type 0 where
  pub cluster_name : c.spoke_cluster_name ≢ []
  pub kubeconfig : c.hub_kubeconfig ≢ []
  pub license_dir : c.license_dir ≢ []

choose_client-ClientChosen :
    (is_spoke : Bool) (p : Platform) (c : ExtraConfig) (cid : Text) (lc : Option LicenseClient)
    → choose_client is_spoke p c cid ≡ ok lc
    → ClientChosen is_spoke c lc
unfolding choose_client
choose_client-ClientChosen true p c cid lc e = record {
  on_spoke = λ h. ground (arith, e);
  off_spoke = λ h. absurd (ground (arith, h));
}
choose_client-ClientChosen false p c cid lc e = record {
  on_spoke = λ h. absurd (ground (arith, h));
  off_spoke = λ h url gone. ground (arith, e, url, gone);
}

check_spoke-SpokeNamed :
    (p : Platform) (c : ExtraConfig) → check_spoke true p c ≡ passed → SpokeNamed c
unfolding check_spoke
check_spoke-SpokeNamed p c e = record {
  cluster_name = λ h. ground (arith, e, h);
  kubeconfig = λ h. ground (arith, e, h);
  license_dir = λ h. ground (arith, e, h);
}

module _ (less : License → License → Bool) (Issued : License → Type 0) (order : IsStrictWeak less)
    (authority : IsAuthority Issued) {Certificate : Type 0} (v : Verifier Certificate)
    (signs : Signs v Issued) (fs : FileSystem) (now : Time) where
  -- A server that serves: its registry is sound, keeps licenses to MinRemainingLife and has a book; the
  -- licenses of the directories that are set are stored; the client of the license server is there just
  -- if it should be; and a spoke cluster has a syncer and all that it must be told.
  pub record Ready (is_spoke : Bool) (c : ExtraConfig) (s : LicenseProxyServer Certificate)
      : Type 0 where
    pub sound : IsSound less Issued now s.storage.reg
    pub ttl : s.storage.reg.ttl ≡ min_remaining_life
    pub booked : s.storage.reg.rb ≢ none
    pub licensed :
        c.license_dir ≢ []
        → Loaded less Issued order authority v signs fs now s.storage.cid c.license_dir
            s.storage.reg
    pub cached :
        c.cache_dir ≢ []
        → Loaded less Issued order authority v signs fs now s.storage.cid c.cache_dir s.storage.reg
    pub client : ClientChosen is_spoke c s.storage.lc
    pub syncer : s.syncs ≡ is_spoke
    pub told : is_spoke ≡ true → SpokeNamed c

  abbrev pub StartEnds : Bool → ExtraConfig → Outcome Certificate → Type 0
  StartEnds is_spoke c (started s) = Ready is_spoke c s
  StartEnds is_spoke c (failed e) = Unit
  StartEnds is_spoke c exited = Unit

  finish-StartEnds :
      (is_spoke : Bool) (c : ExtraConfig) (checked : Checked) (installed : Option Error)
      (s : LicenseProxyServer Certificate)
      → (checked ≡ passed → Ready is_spoke c s)
      → StartEnds is_spoke c (finish less v fs checked installed s)
  unfolding finish
  finish-StartEnds is_spoke c (stops e) installed s ready = tt
  finish-StartEnds is_spoke c exits installed s ready = tt
  finish-StartEnds is_spoke c passed (some e) s ready = tt
  finish-StartEnds is_spoke c passed none s ready = ready refl

  module _ (p : Platform) (c : ExtraConfig) (is_spoke : Bool) where
    serve_from-StartEnds :
        (cid : Text) (ca_cert : Certificate) (lc : Option LicenseClient) (r : LicenseRegistry)
        (loaded : LicenseRegistry × Option Error)
        → r.ttl ≡ min_remaining_life
        → r.rb ≢ none
        → ClientChosen is_spoke c lc
        → DirsLoaded less Issued order authority v signs fs now c cid r loaded
        → StartEnds is_spoke c (serve_from less v fs is_spoke p c cid ca_cert lc loaded)
    unfolding serve_from
    serve_from-StartEnds cid ca_cert lc r (reg, some e) ttl book chosen d = tt
    serve_from-StartEnds cid ca_cert lc r (reg, none) ttl book chosen d =
        finish-StartEnds is_spoke c (check_spoke is_spoke p c) p.install_api_group _ λ pass.
          record {
            sound = d.0.sound;
            ttl = ground (arith, d.0.ttl, ttl);
            booked = λ gone. book (sym d.0.rb ∙ gone);
            licensed = (d.1 refl).0;
            cached = (d.1 refl).1;
            client = chosen;
            syncer = refl;
            told =
                λ on. check_spoke-SpokeNamed p c (subst (λ b. check_spoke b p c ≡ passed) on pass);
          }

    start_with-StartEnds :
        (cid : Text) (ca_cert : Certificate) (chosen : Result (Option LicenseClient))
        → ((lc : Option LicenseClient) → chosen ≡ ok lc → ClientChosen is_spoke c lc)
        → Returns (StartEnds is_spoke c) (start_with less v fs now is_spoke p c cid ca_cert chosen)
    unfolding start_with new_license_registry new_record_book Dict.lookup
    start_with-StartEnds cid ca_cert (err e) h = returns tt
    start_with-StartEnds cid ca_cert (ok lc) h =
        Returns-bind
          (load_dirs-Loaded less Issued order authority v signs fs now c cid
            (new_license_registry c.cache_dir min_remaining_life (some new_record_book))
            (new-IsSound less Issued now c.cache_dir min_remaining_life (some new_record_book)
              λ id k. absurd (k refl)))
          λ loaded d. returns (
            serve_from-StartEnds cid ca_cert lc _ loaded refl (λ k. absurd (ground (arith, k)))
              (h lc refl) d)

    ended :
        (o : Outcome Certificate)
        → start less v fs now p c ≡ done o
        → StartEnds is_spoke c o
        → Returns (StartEnds is_spoke c) (start less v fs now p c)
    ended o e h = record { value = o; ends = e; holds = h }

    start-found :
        (cid ca_data : Text) (ca_cert : Certificate)
        → p.new_generic_server ≡ none
        → p.new_spoke_manager ≡ none
        → p.is_ace_managed_spoke ≡ done is_spoke
        → p.cluster_uid ≡ ok cid
        → v.load_license_ca ≡ ok ca_data
        → v.parse_certificate ca_data ≡ ok ca_cert
        → start less v fs now p c
          ≡ start_with less v fs now is_spoke p c cid ca_cert (choose_client is_spoke p c cid)
    unfolding start
    start-found cid ca_data ca_cert g m k u l q = ground (arith, g, m, k, u, l, q)

    -- If `less` is a strict weak order, issued licenses have an expiry date that their ID
    -- determines, the parser accepts issued licenses only, and the test for a managed spoke
    -- cluster returns, then the start of the API server ends without a panic: with an error, at an
    -- exit of the process, or with a server. The server's registry is sound, keeps licenses to
    -- MinRemainingLife and has a book; if the license directory is set, the licenses of its files
    -- with MinRemainingLife or more left are stored, and so for the cache directory; on a spoke
    -- cluster there is no client of the license server, there is a syncer, and the cluster's name,
    -- the hub's kubeconfig and the license directory are set; and elsewhere there is no syncer,
    -- and a client if the server's URL is set.
    pub start-StartEnds :
        p.is_ace_managed_spoke ≡ done is_spoke
        → Returns (StartEnds is_spoke c) (start less v fs now p c)
    unfolding start
    start-StartEnds k = elim (Option-cases p.new_generic_server) [
      | inr (e, g) ↦ ended (failed e) (rw (g, start) refl) tt
      | inl g ↦ elim (Option-cases p.new_spoke_manager) [
        | inr (e, m) ↦ ended exited (rw (g, start, m) refl) tt
        | inl m ↦ elim (Result-cases p.cluster_uid) [
          | inr (e, u) ↦ ended (failed e) (rw (g, start, m, k, u) refl) tt
          | inl (cid, u) ↦ elim (Result-cases v.load_license_ca) [
            | inr (e, l) ↦ ended (failed e) (rw (g, start, m, k, u, l) refl) tt
            | inl (ca_data, l) ↦ elim (Result-cases (v.parse_certificate ca_data)) [
              | inr (e, q) ↦ ended (failed e) (rw (g, start, m, k, u, l, q) refl) tt
              | inl (ca_cert, q) ↦
                  subst (Returns (StartEnds is_spoke c))
                    (sym (start-found cid ca_data ca_cert g m k u l q))
                    (start_with-StartEnds cid ca_cert (choose_client is_spoke p c cid)
                      (choose_client-ClientChosen is_spoke p c cid))
            ]
          ]
        ]
      ]
    ]
