-- ===== src/DeepCopy/Copied.antt =====
-- When a value is a copy of another, and the copies of the kinds of contents.
use license_proxyserver.Base.{
  ◌∙◌, ℕ, ◌≤◌, Text, List, [], ◌∷◌, Option, none, some, ◌≡◌, refl, arith, Run, done, ◌>>=◌, length,
  Returns, returns, Returns-bind, length-append,
}
use license_proxyserver.DeepCopy.{copy_pointer, flat}
use license_proxyserver.DeepCopy.Memory.{Store, Object, load, new, Grows, new-Grows, load-new}
use license_proxyserver.DeepCopy.Entries.{entries}
use license_proxyserver.DeepCopy.Reading.{Readable, >>=-done, plain, pointer, struct}

-- `y` in `s'` is a copy of what reads as `v` in `s`.
pub record Copied {A : Type 0} (r : Readable A) (s : Store) (v : r.Value) (res : Store × A)
    : Type 0 where
  pub grows : Grows s res.0
  pub longer : length s ≤ length res.0
  pub same : r.view res.0 res.1 ≡ done v
  pub fresh : r.IsFresh (length s) res.0 res.1

-- The function copies whatever can be read.
abbrev pub Copies : {A : Type 0} → Readable A → (Store → A → Run (Store × A)) → Type 0
Copies {A} r into =
    (s : Store) (x : A) (v : r.Value) → r.view s x ≡ done v → Returns (Copied r s v) (into s x)

pub plain-Copies : {A : Type 0} → Copies (plain {A = A}) flat
plain-Copies s x v e =
    returns (record { grows = λ a o h. h; longer = omega arith; same = e; fresh = tt })

pointed :
    {A : Type 0} (of : Object → Option A) (r : Readable A) (s : Store) (a : ℕ) (x : A) (v : r.Value)
    → load of s a ≡ done x
    → r.view s x ≡ done v
    → (pointer of r).view s (some a) ≡ done (some v)
pointed of r s a x v e q = rw (e, q) refl

new-length : (s : Store) (o : Object) → length s ≤ length (new s o).0
unfolding new
new-length s o = omega (arith, length-append s (o ∷ []))

pub copy_pointer-Copies :
    {A : Type 0} (of : Object → Option A) (object : A → Object) (r : Readable A)
    (into : Store → A → Run (Store × A))
    → ((y : A) → of (object y) ≡ some y)
    → Copies r into
    → Copies (pointer of r) (copy_pointer of object into)
unfolding copy_pointer
copy_pointer-Copies of object r into back copies s none v e =
    returns (record { grows = λ a o h. h; longer = omega arith; same = e; fresh = tt })
copy_pointer-Copies of object r into back copies s (some a) v e =
    let (x, there, rest) = >>=-done (load of s a) _ v e in
    let (w, seen, same) = >>=-done (r.view s x) _ v rest in
    rw there (
      Returns-bind (copies s x w seen) λ (s', y) c.
        let grown = new-length s' (object y) in
        let at = load-new of s' (object y) y (back y) in
        returns (record {
          grows = λ b o h. new-Grows s' (object y) b o (c.grows b o h);
          longer = omega (arith, c.longer, grown);
          same =
              pointed of r _ (length s') y w at
                (r.view_grows s' _ y w (new-Grows s' (object y)) c.same)
              ∙ same;
          fresh = record {
            late = c.longer;
            object = y;
            there = at;
            fresh = r.fresh_grows (length s) s' _ y (new-Grows s' (object y)) c.fresh;
          };
        }))

-- the copies of two fields, one after the other
pub struct-Copies :
    {A B C H : Type 0} (h : A → H) (f : A → B) (g : A → C) (r : Readable B) (t : Readable C)
    (first : Store → B → Run (Store × B)) (second : Store → C → Run (Store × C))
    (with : A → B → C → A)
    → ((x : A) (b : B) (c : C)
        → (h (with x b c) ≡ h x) × (f (with x b c) ≡ b) × (g (with x b c) ≡ c))
    → Copies r first
    → Copies t second
    → Copies
        (struct h f g r t)
        (λ s x. first s (f x) >>= λ (s, b). second s (g x) >>= λ (s, c). done (s, with x b c))
struct-Copies h f g r t first second with laws p q s x v e =
    let (a, seen, rest) = >>=-done (r.view s (f x)) _ v e in
    let (b, seen', same) = >>=-done (t.view s (g x)) _ v rest in
    Returns-bind (p s (f x) a seen) λ (s1, y) c.
      Returns-bind (q s1 (g x) b (t.view_grows s s1 (g x) b c.grows seen')) λ (s2, z) d. returns (
        let (law_h, law_f, law_g) = laws x y z in
        record {
          grows = λ i o k. d.grows i o (c.grows i o k);
          longer = omega (arith, c.longer, d.longer);
          same = rw (law_h, law_f, law_g, r.view_grows s1 s2 y a d.grows c.same, d.same) same;
          fresh = (
            rw law_f (r.fresh_grows (length s) s1 s2 y d.grows c.fresh),
            rw law_g (t.fresh_from (length s) (length s1) s2 z c.longer d.fresh),
          );
        })

pub entries-Copies :
    (r : Readable (Option ℕ)) (into : Store → Option ℕ → Run (Store × Option ℕ))
    (all : Store → List (Text × Option ℕ) → Run (Store × List (Text × Option ℕ)))
    → ((s : Store) → all s [] ≡ done (s, []))
    → ((s : Store) (k : Text) (x : Option ℕ) (m : List (Text × Option ℕ))
        → all s ((k, x) ∷ m) ≡ (into s x >>= λ (s, y). all s m >>= λ (s, l). done (s, (k, y) ∷ l)))
    → Copies r into
    → Copies (entries r) all
entries-Copies r into all none_left one_more p s [] v e =
    rw (none_left s)
      (returns (record { grows = λ a o h. h; longer = omega arith; same = e; fresh = tt }))
entries-Copies r into all none_left one_more p s ((k, x) ∷ m) v e =
    let (a, seen, rest) = >>=-done (r.view s x) _ v e in
    let (w, seen', same) = >>=-done ((entries r).view s m) _ v rest in
    rw (one_more s k x m) (
      Returns-bind (p s x a seen) λ (s1, y) c.
        Returns-bind
          (entries-Copies r into all none_left one_more p s1 m w
            ((entries r).view_grows s s1 m w c.grows seen'))
          λ (s2, l) d. returns (record {
            grows = λ i o h. d.grows i o (c.grows i o h);
            longer = omega (arith, c.longer, d.longer);
            same = rw (r.view_grows s1 s2 y a d.grows c.same, d.same) same;
            fresh = (
              r.fresh_grows (length s) s1 s2 y d.grows c.fresh,
              (entries r).fresh_from (length s) (length s1) s2 l c.longer d.fresh,
            );
          }))
