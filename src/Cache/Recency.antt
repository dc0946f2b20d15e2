-- ===== src/Cache/Recency.antt =====
-- cache/cache.go: the cache refines a list of keyed entries, most recently used first.
use Prim.Native.String.{String}
use text.Mathlib.Text.{◌==◌ as str_eq}
use text.Mathlib.TextEquality.{eq_iff}
use qmdsr.Prelude.{
  ℕ, suc, ◌≡◌, refl, ap, ◌≢◌, inl, inr, false, Option, none, some, List, [], ◌∷◌, arith, ◌==◌,
  if◌then◌else◌, Bool-cases, Option-cases, length, All,
}
use qmdsr.Prelude.Int.{pos, leb_ℤ}
use qmdsr.Cache.{Element, Entry, Cache, element, unlink, back, evict, is_stale}
use qmdsr.Cache.Elements.{
  IsApart, IsDistinct, handle_of, unlink_apart, handle_of-ne, handle_of-back,
}
use qmdsr.Cache.Coherence.{IsCoherent}

abbrev pub View : Type 0
View = List (String × Entry)

abbrev pub view_of : List Element → View
view_of [] = []
view_of (e ∷ order) = (e.key, e.entry) ∷ view_of order

-- What a client can see of a cache.
abbrev pub view : Cache → View
view c = view_of c.order

unfoldable pub find : String → View → Option Entry
find key [] = none
find key ((k, e) ∷ v) = if str_eq k key then some e else find key v

unfoldable pub without : String → View → View
without key [] = []
without key ((k, e) ∷ v) = if str_eq k key then without key v else (k, e) ∷ without key v

unfoldable pub drop_last : View → View
drop_last [] = []
drop_last (x ∷ []) = []
drop_last (x ∷ y ∷ v) = x ∷ drop_last (y ∷ v)

-- The ideal cache: a lookup returns an entry that is not stale and makes it the most recent; a
-- stale one goes away.
unfoldable pub seen : Cache → ℕ → Option Entry → Option Entry
seen c now none = none
seen c now (some e) = if is_stale c now e then none else some e

unfoldable pub used : Cache → ℕ → String → View → Option Entry → View
used c now key v none = v
used c now key v (some e) = if is_stale c now e then without key v else (key, e) ∷ without key v

-- What stays when a key is stored: at capacity the least recently used entry makes room for a new
-- key.
unfoldable pub kept : Cache → String → View → Option Entry → View
kept c key v (some e) = without key v
kept c key v none = if leb_ℤ c.max_entries (pos (length v)) then drop_last v else v

pub length-view : (order : List Element) → length (view_of order) ≡ length order
length-view [] = refl
length-view (e ∷ order) = ap suc (length-view order)

without_apart :
    (e : Element) (order : List Element)
    → All (IsApart e) order
    → without e.key (view_of order) ≡ view_of order
unfolding without
without_apart e [] a = refl
without_apart e (f ∷ order) (p, a) = ground (arith, eq_iff f.key e.key, without_apart e order a)

pub find-none :
    (key : String) (order : List Element)
    → handle_of key order ≡ none
    → find key (view_of order) ≡ none
unfolding find handle_of
find-none key [] q = refl
find-none key (e ∷ order) q = ground (arith, find-none key order)

pub find-some :
    (key : String) {h : ℕ} (order : List Element) (e : Element)
    → IsDistinct order
    → handle_of key order ≡ some h
    → element h order ≡ some e
    → find key (view_of order) ≡ some e.entry
unfolding find handle_of element
find-some key [] e d q r = cc
find-some key {h} (f ∷ order) e (a, d) q r = elim (Bool-cases (str_eq f.key key)) [
  | inl t ↦ ground arith
  | inr t ↦
      let q' : handle_of key order ≡ some h = ground arith in
      let ne = handle_of-ne f key order a q' in ground (arith, find-some key order e d q')
]

module _ (key : String) {h : ℕ} where
  pub view-unlink :
      (order : List Element)
      → IsDistinct order
      → handle_of key order ≡ some h
      → view_of (unlink h order) ≡ without key (view_of order)
  unfolding handle_of unlink without
  view-unlink [] d q = cc
  view-unlink (e ∷ order) (a, d) q = elim (Bool-cases (str_eq e.key key)) [
    | inl t ↦ ground (arith, unlink_apart e order a, without_apart e order a, eq_iff e.key key)
    | inr t ↦
        let q' : handle_of key order ≡ some h = ground arith in
        let ne = handle_of-ne e key order a q' in ground (arith, view-unlink order d q')
  ]

unlink-back :
    (order : List Element) (e : Element)
    → IsDistinct order
    → back order ≡ some e
    → view_of (unlink e.handle order) ≡ drop_last (view_of order)
unfolding back unlink drop_last
unlink-back [] e d q = cc
unlink-back (f ∷ []) e d q = ground arith
unlink-back (f ∷ g ∷ order) e (a, d) q =
    let ne = handle_of-ne f e.key (g ∷ order) a (handle_of-back (g ∷ order) e d q) in
    let kept_front : (f.handle == e.handle) ≡ false = ground arith in
    rw kept_front (ap (◌∷◌ (f.key, f.entry)) (unlink-back (g ∷ order) e d q))

back-ne-none : (e : Element) (order : List Element) → back (e ∷ order) ≢ none
unfolding back
back-ne-none e [] q = cc
back-ne-none e (f ∷ order) q = back-ne-none f order q

pub view-evict : (c : Cache) → IsCoherent c → view (evict c) ≡ drop_last (view c)
unfolding evict drop_last
view-evict c g = elim (Option-cases (back c.order)) [
  | inr (e, q) ↦ rw (q, evict) (unlink-back c.order e g.distinct q)
  | inl q ↦ rw (q, evict) (empty c.order q)
]
  where
    empty : (order : List Element) → back order ≡ none → view_of order ≡ drop_last (view_of order)
    empty [] r = refl
    empty (e ∷ order) r = absurd (back-ne-none e order r)
