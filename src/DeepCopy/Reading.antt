-- ===== src/DeepCopy/Reading.antt =====
-- What can be read of an object and of all that it refers to, and where that is stored.
use license_proxyserver.Base.{
  ℕ, ◌≤◌, Option, none, some, ◌≡◌, refl, arith, Run, done, panic, out_of_fuel, ◌>>=◌,
}
use license_proxyserver.DeepCopy.Memory.{Store, Object, load, Grows, load_kept, KeepsFrom}

pub record Readable (A : Type 0) : Type 1 where
  -- the value without addresses
  pub Value : Type 0
  pub view : Store → A → Run Value
  -- the addresses that it refers to are `n` or later ones
  pub IsFresh : ℕ → Store → A → Type 0
  pub view_grows :
      (s s' : Store) (x : A) (v : Value) → Grows s s' → view s x ≡ done v → view s' x ≡ done v
  pub fresh_grows : (n : ℕ) (s s' : Store) (x : A) → Grows s s' → IsFresh n s x → IsFresh n s' x
  pub fresh_from : (m n : ℕ) (s : Store) (x : A) → m ≤ n → IsFresh n s x → IsFresh m s x
  pub view_late :
      (n : ℕ) (s s' : Store) (x : A) (v : Value)
      → KeepsFrom n s s'
      → IsFresh n s x
      → view s x ≡ done v
      → view s' x ≡ done v

-- the step of a run that ended
pub >>=-done {ℓ} :
    {A B : Type ℓ} (r : Run A) (k : A → Run B) (b : B)
    → (r >>= k) ≡ done b
    → (a : A) × (r ≡ done a) × (k a ≡ done b)
>>=-done (done a) k b e = (a, refl, e)
>>=-done panic k b e = absurd (cc)
>>=-done out_of_fuel k b e = absurd (cc)

-- contents without addresses
abbrev pub plain : {A : Type 0} → Readable A
plain {A} = record {
  Value = A;
  view = λ s x. done x;
  IsFresh = λ n s x. Unit;
  view_grows = λ s s' x v g e. e;
  fresh_grows = λ n s s' x g f. tt;
  fresh_from = λ m n s x le f. tt;
  view_late = λ n s s' x v keeps f e. e;
}

module _ {A : Type 0} (of : Object → Option A) (r : Readable A) where
  abbrev pub view_pointer : Store → Option ℕ → Run (Option r.Value)
  view_pointer s none = done none
  view_pointer s (some a) = load of s a >>= λ x. r.view s x >>= λ v. done (some v)

  -- The object is there.
  pub record Placed (n : ℕ) (s : Store) (a : ℕ) : Type 0 where
    pub late : n ≤ a
    pub object : A
    pub there : load of s a ≡ done object
    pub fresh : r.IsFresh n s object

  abbrev pub PointerFresh : ℕ → Store → Option ℕ → Type 0
  PointerFresh n s none = Unit
  PointerFresh n s (some a) = Placed n s a

  pub view_pointer-Grows :
      (s s' : Store) (p : Option ℕ) (v : Option r.Value)
      → Grows s s'
      → view_pointer s p ≡ done v
      → view_pointer s' p ≡ done v
  view_pointer-Grows s s' none v g e = e
  view_pointer-Grows s s' (some a) v g e =
      let (x, there, rest) = >>=-done (load of s a) _ v e in
      let (w, seen, same) = >>=-done (r.view s x) _ v rest in
      rw (load_kept of s s' a x (g a) there, r.view_grows s s' x w g seen) same

  pub PointerFresh-Grows :
      (n : ℕ) (s s' : Store) (p : Option ℕ) → Grows s s' → PointerFresh n s p → PointerFresh n s' p
  PointerFresh-Grows n s s' none g f = tt
  PointerFresh-Grows n s s' (some a) g f = record {
    late = f.late;
    object = f.object;
    there = load_kept of s s' a f.object (g a) f.there;
    fresh = r.fresh_grows n s s' f.object g f.fresh;
  }

  pub PointerFresh-from :
      (m n : ℕ) (s : Store) (p : Option ℕ) → m ≤ n → PointerFresh n s p → PointerFresh m s p
  PointerFresh-from m n s none le f = tt
  PointerFresh-from m n s (some a) le f = record {
    late = omega (arith, le, f.late);
    object = f.object;
    there = f.there;
    fresh = r.fresh_from m n s f.object le f.fresh;
  }

  pub view_pointer-late :
      (n : ℕ) (s s' : Store) (p : Option ℕ) (v : Option r.Value)
      → KeepsFrom n s s'
      → PointerFresh n s p
      → view_pointer s p ≡ done v
      → view_pointer s' p ≡ done v
  view_pointer-late n s s' none v keeps f e = e
  view_pointer-late n s s' (some a) v keeps f e =
      let (w, seen, same) = >>=-done (r.view s f.object) _ v (rw f.there at e) in
      rw
        (
          load_kept of s s' a f.object (λ o. keeps a o f.late) f.there,
          r.view_late n s s' f.object w keeps f.fresh seen,
        )
        same

  abbrev pub pointer : Readable (Option ℕ)
  pointer = record {
    Value = Option r.Value;
    view = view_pointer;
    IsFresh = PointerFresh;
    view_grows = view_pointer-Grows;
    fresh_grows = PointerFresh-Grows;
    fresh_from = PointerFresh-from;
    view_late = view_pointer-late;
  }

-- a struct with plain contents and two fields that have addresses
module _ {A B C H : Type 0} (h : A → H) (f : A → B) (g : A → C) (r : Readable B)
    (t : Readable C) where
  abbrev pub view_struct : Store → A → Run (H × r.Value × t.Value)
  view_struct s x = r.view s (f x) >>= λ v. t.view s (g x) >>= λ w. done (h x, v, w)

  pub view_struct-Grows :
      (s s' : Store) (x : A) (v : H × r.Value × t.Value)
      → Grows s s'
      → view_struct s x ≡ done v
      → view_struct s' x ≡ done v
  view_struct-Grows s s' x v grows e =
      let (a, seen, rest) = >>=-done (r.view s (f x)) _ v e in
      let (b, seen', same) = >>=-done (t.view s (g x)) _ v rest in
      rw (r.view_grows s s' (f x) a grows seen, t.view_grows s s' (g x) b grows seen') same

  pub view_struct-late :
      (n : ℕ) (s s' : Store) (x : A) (v : H × r.Value × t.Value)
      → KeepsFrom n s s'
      → r.IsFresh n s (f x)
      → t.IsFresh n s (g x)
      → view_struct s x ≡ done v
      → view_struct s' x ≡ done v
  view_struct-late n s s' x v keeps i j e =
      let (a, seen, rest) = >>=-done (r.view s (f x)) _ v e in
      let (b, seen', same) = >>=-done (t.view s (g x)) _ v rest in
      rw (r.view_late n s s' (f x) a keeps i seen, t.view_late n s s' (g x) b keeps j seen') same

  abbrev pub struct : Readable A
  struct = record {
    Value = H × r.Value × t.Value;
    view = view_struct;
    IsFresh = λ n s x. r.IsFresh n s (f x) × t.IsFresh n s (g x);
    view_grows = view_struct-Grows;
    fresh_grows = λ n s s' x grows (i, j).
        (r.fresh_grows n s s' (f x) grows i, t.fresh_grows n s s' (g x) grows j);
    fresh_from =
        λ m n s x le (i, j). (r.fresh_from m n s (f x) le i, t.fresh_from m n s (g x) le j);
    view_late = λ n s s' x v keeps (i, j) e. view_struct-late n s s' x v keeps i j e;
  }
