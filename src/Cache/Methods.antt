-- ===== src/Cache/Methods.antt =====
-- cache/cache.go: what `Get` and `Put` do to the view of a coherent cache, and what follows from it.
use Prim.Native.String.{String}
use text.Mathlib.Text.{◌==◌ as str_eq}
use text.Mathlib.TextEquality.{eq_iff}
use qmdsr.Prelude.{
  ℕ, ◌-◌, ◌≤◌, ◌<◌, max, ◌≡◌, refl, sym, ap, ◌∙◌, ◌≢◌, inl, inr, true, false, Option, none, some,
  [], ◌∷◌, arith, Bool-cases, Option-cases, length,
}
use qmdsr.Prelude.Int.{pos_part, sub_ℕ, ◌≤ℤ◌}
use mathlib.Core.Path.{subst}
use mathlib.Core.Option.{some-injective}
use qmdsr.Cache.{
  Element, Entry, Cache, lookup, is_expired, version_mismatch, remove, evict, get_element,
  get_handle, get, push, is_full, stamp, put, is_stale,
}
use qmdsr.Cache.Elements.{element_of_handle_of}
use qmdsr.Cache.Coherence.{IsCoherent, put-IsCoherent}
use qmdsr.Cache.Recency.{
  View, view, find, without, drop_last, seen, used, kept, length-view, find-none, find-some,
  view-unlink, view-evict,
}

get_element-view :
    (c : Cache) (key : String) (now : ℕ) (e : Element)
    → IsCoherent c
    → lookup key c.items ≡ some e.handle
    → e.key ≡ key
    → ((get_element c key now e).1 ≡ seen c now (some e.entry))
      × (view (get_element c key now e).0 ≡ used c now key (view c) (some e.entry))
unfolding get_element remove is_stale seen used
get_element-view c key now e g q named =
    let q' = sym (g.index key) ∙ q in
    ground (arith, q, named, view-unlink key c.order g.distinct q')

-- On a coherent cache that is enabled, `Get` is the ideal lookup: it returns the stored entry
-- unless it is stale, makes it the most recent, and drops a stale one.
pub get_refines :
    (c : Cache) (key : String) (now : ℕ)
    → IsCoherent c
    → c.enabled ≡ true
    → ((get c key now).1 ≡ seen c now (find key (view c)))
      × (view (get c key now).0 ≡ used c now key (view c) (find key (view c)))
unfolding get get_handle seen used
get_refines c key now g on = elim (Option-cases (lookup key c.items)) [
  | inl q ↦ ground (arith, find-none key c.order (sym (g.index key) ∙ q))
  | inr (h, q) ↦
      let q' = sym (g.index key) ∙ q in
      let (e, found, same, named) = element_of_handle_of key c.order g.distinct q' in
      ground (
        arith,
        find-some key c.order e g.distinct q' found,
        get_element-view c key now e g (q ∙ ap some (sym same)) named,
      )
]

-- On a coherent cache that is enabled, `Put` is the ideal store: the entry, stamped with the
-- version and the time, becomes the most recent one in the place of its predecessor; for a new key
-- the least recently used entry goes if the cache is full, and no other entry changes.
pub put_refines :
    (c : Cache) (key : String) (entry : Entry) (now : ℕ)
    → IsCoherent c
    → c.enabled ≡ true
    → view (put c key entry now)
      ≡ (key, stamp c entry now) ∷ kept c key (view c) (find key (view c))
unfolding put push kept is_full
put_refines c key entry now g on = elim (Option-cases (lookup key c.items)) [
  | inl q ↦
      ground
        (arith, find-none key c.order (sym (g.index key) ∙ q), view-evict c g, length-view c.order)
  | inr (h, q) ↦
      let q' = sym (g.index key) ∙ q in
      let (e, found, same, named) = element_of_handle_of key c.order g.distinct q' in
      ground
        (arith, find-some key c.order e g.distinct q' found, view-unlink key c.order g.distinct q')
]

pub find-without_ne : (key k : String) (v : View) → k ≢ key → find k (without key v) ≡ find k v
unfolding find without
find-without_ne key k [] ne = refl
find-without_ne key k ((j, e) ∷ v) ne =
    ground (arith, eq_iff j key, eq_iff j k, find-without_ne key k v ne)

put_settings :
    (c : Cache) (key : String) (entry : Entry) (now : ℕ)
    → let c' = put c key entry now in
      (c'.enabled ≡ c.enabled)
      × (c'.ttl ≡ c.ttl)
      × (c'.version ≡ c.version)
      × (c'.version_aware ≡ c.version_aware)
unfolding put push evict
put_settings c key entry now = ground arith

find-put :
    (c : Cache) (key : String) (entry : Entry) (now : ℕ)
    → IsCoherent c
    → c.enabled ≡ true
    → find key (view (put c key entry now)) ≡ some (stamp c entry now)
unfolding find
find-put c key entry now g on = rw (put_refines c key entry now g on, (eq_iff key key).1 refl)

stamp_not_stale :
    (c c' : Cache) (entry : Entry) (now later : ℕ)
    → c'.ttl ≡ c.ttl
    → c'.version ≡ c.version
    → sub_ℕ later now ≤ℤ c.ttl
    → is_stale c' later (stamp c entry now) ≡ false
unfolding is_stale is_expired version_mismatch stamp
stamp_not_stale c c' entry now later t v young = ground (arith, eq_iff c.version c'.version)

-- A lookup changes no setting.
pub get_settings :
    (c : Cache) (key : String) (now : ℕ)
    → let c' = (get c key now).0 in
      (c'.enabled ≡ c.enabled)
      × (c'.ttl ≡ c.ttl)
      × (c'.version ≡ c.version)
      × (c'.version_aware ≡ c.version_aware)
unfolding get get_handle get_element remove
get_settings c key now = ground arith

-- In a coherent cache that is enabled, a stored entry is returned until it is older than the time to
-- live: with a `Put` at `now` and a `Get` of that key at `later`, within the time to live of `now`.
pub get-put_self :
    (c : Cache) (key : String) (entry : Entry) (now later : ℕ)
    → IsCoherent c
    → c.enabled ≡ true
    → sub_ℕ later now ≤ℤ c.ttl
    → (get (put c key entry now) key later).1 ≡ some (stamp c entry now)
unfolding seen
get-put_self c key entry now later g on young =
    let c' = put c key entry now in
    let (same_enabled, t, v, _) = put_settings c key entry now in
    rw (
      (get_refines c' key later (put-IsCoherent c key entry now g) (same_enabled ∙ on)).0,
      find-put c key entry now g on,
      stamp_not_stale c c' entry now later t v young,
    )

seen_fresh :
    (c : Cache) (now : ℕ) (o : Option Entry) {e : Entry}
    → seen c now o ≡ some e
    → (sub_ℕ now e.created_at ≤ℤ c.ttl) × (c.version_aware ≡ true → e.index_version ≡ c.version)
unfolding seen is_stale is_expired version_mismatch
seen_fresh c now none h = cc
seen_fresh c now (some e') {e} h = elim (Bool-cases (is_stale c now e')) [
  | inl stale ↦ absurd (ground arith)
  | inr young ↦
      subst
        (λ x.
          (sub_ℕ now x.created_at ≤ℤ c.ttl)
          × (c.version_aware ≡ true → x.index_version ≡ c.version))
        (some-injective e' e (ground arith))
        (ground arith, λ aware. ground (arith, eq_iff e'.index_version c.version))
]

-- What `Get` returns from a coherent cache is never stale: it is not older than the time to live, and
-- if the cache is version aware it was stored under the current version.
pub get_fresh :
    (c : Cache) (key : String) (now : ℕ) {e : Entry}
    → IsCoherent c
    → (get c key now).1 ≡ some e
    → (sub_ℕ now e.created_at ≤ℤ c.ttl) × (c.version_aware ≡ true → e.index_version ≡ c.version)
get_fresh c key now g hit = elim (Bool-cases c.enabled) [
  | inl on ↦ seen_fresh c now (find key (view c)) (sym (get_refines c key now g on).0 ∙ hit)
  | inr off ↦ absurd (get_off c key now off hit)
]
  where
    get_off :
        (c : Cache) (key : String) (now : ℕ) {e : Entry}
        → c.enabled ≡ false
        → (get c key now).1 ≡ some e
        → ⊥
    get_off c key now off hit = unfold get in ground arith

length-drop_last : (v : View) → length (drop_last v) ≡ length v - 1
unfolding drop_last
length-drop_last [] = omega arith
length-drop_last (x ∷ []) = omega arith
length-drop_last (x ∷ y ∷ v) = omega (arith, length-drop_last (y ∷ v))

length-without-le : (key : String) (v : View) → length (without key v) ≤ length v
unfolding without
length-without-le key [] = omega arith
length-without-le key (x ∷ v) = ground (arith, length-without-le key v)

length-without-lt :
    (key : String) (v : View) {e : Entry} → find key v ≡ some e → length (without key v) < length v
unfolding without find
length-without-lt key [] h = cc
length-without-lt key ((k, x) ∷ v) {e} h = elim (Bool-cases (str_eq k key)) [
  | inl t ↦ ground (arith, length-without-le key v)
  | inr t ↦ let q : find key v ≡ some e = ground arith in ground (arith, length-without-lt key v q)
]

length-kept :
    (c : Cache) (key : String) (v : View) (o : Option Entry)
    → find key v ≡ o
    → length v ≤ max 1 (pos_part c.max_entries)
    → length (kept c key v o) < max 1 (pos_part c.max_entries)
unfolding kept
length-kept c key v none q h = ground (arith, length-drop_last v)
length-kept c key v (some e) q h = omega (arith, length-without-lt key v q)

-- The number of entries never grows beyond the capacity, which counts as one if it is not positive.
pub put_bounded :
    (c : Cache) (key : String) (entry : Entry) (now : ℕ)
    → IsCoherent c
    → length c.order ≤ max 1 (pos_part c.max_entries)
    → length (put c key entry now).order ≤ max 1 (pos_part c.max_entries)
put_bounded c key entry now g h = elim (Bool-cases c.enabled) [
  | inr off ↦ rw (put_off c key entry now off) h
  | inl on ↦
      rw (← length-view (put c key entry now).order, put_refines c key entry now g on)
        (length-kept c key (view c) (find key (view c)) refl (rw length-view h))
]
  where
    put_off :
        (c : Cache) (key : String) (entry : Entry) (now : ℕ)
        → c.enabled ≡ false
        → put c key entry now ≡ c
    put_off c key entry now off = unfold put in ground arith
