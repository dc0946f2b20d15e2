-- ===== src/Cache/Hits.antt =====
-- cache/cache.go: what a lookup that hits leaves to later ones.
use Prim.Native.String.{String}
use text.Mathlib.Text.{◌==◌ as str_eq}
use text.Mathlib.TextEquality.{eq_iff}
use qmdsr.Prelude.{
  ℕ, ◌≡◌, refl, sym, ap, ◌∙◌, ◌≢◌, inl, inr, true, false, Option, none, some, Bool-cases,
}
use mathlib.Core.Option.{some-injective, none-ne-some}
use qmdsr.Cache.{Entry, Cache, is_expired, version_mismatch, is_stale, get}
use qmdsr.Cache.Coherence.{IsCoherent, get-IsCoherent}
use qmdsr.Cache.Recency.{View, view, find, seen, used}
use qmdsr.Cache.Methods.{get_refines, get_settings, find-without_ne}

seen_same :
    (c c' : Cache) (now : ℕ) (o : Option Entry)
    → (c'.ttl ≡ c.ttl) × (c'.version ≡ c.version) × (c'.version_aware ≡ c.version_aware)
    → seen c' now o ≡ seen c now o
unfolding seen is_stale is_expired version_mismatch
seen_same c c' now none (t, v, a) = refl
seen_same c c' now (some e) (t, v, a) = rw (t, v, a) refl

seen-some :
    (c : Cache) (now : ℕ) (o : Option Entry) {e : Entry}
    → seen c now o ≡ some e
    → (o ≡ some e) × (is_stale c now e ≡ false)
unfolding seen
seen-some c now none q = absurd (none-ne-some _ q)
seen-some c now (some e') {e} q = elim (Bool-cases (is_stale c now e')) [
  | inl stale ↦ absurd (none-ne-some e (rw stale at q))
  | inr fresh ↦
      let q' : some e' ≡ some e = rw fresh at q in
      (q', ap (is_stale c now) (sym (some-injective e' e q')) ∙ fresh)
]

find-used :
    (c : Cache) (now : ℕ) (key k : String) (v : View) {e : Entry}
    → find key v ≡ some e
    → is_stale c now e ≡ false
    → find k (used c now key v (find key v)) ≡ find k v
unfolding used find
find-used c now key k v {e} q fresh = elim (Bool-cases (str_eq key k)) [
  | inl same ↦
      let at_k : find k v ≡ some e = rw (sym ((eq_iff key k).0 same)) q in
      rw (q, fresh, same, at_k) refl
  | inr other ↦
      let apart : k ≢ key = λ e. cc ((eq_iff key k).1 (sym e), other) in
      rw (q, fresh, other) (find-without_ne key k v apart)
]

-- A lookup that hits in a coherent cache that is enabled changes the answer of no lookup, of any key
-- and at any time.
pub get_hit_keeps :
    (c : Cache) (key : String) (now : ℕ) {e : Entry}
    → IsCoherent c
    → c.enabled ≡ true
    → (get c key now).1 ≡ some e
    → (k : String) (later : ℕ) → (get (get c key now).0 k later).1 ≡ (get c k later).1
get_hit_keeps c key now {e} g on hit k later =
    let c' = (get c key now).0 in
    let (same_enabled, t, v, a) = get_settings c key now in
    let (answer, left) = get_refines c key now g on in
    let (found, fresh) = seen-some c now (find key (view c)) (sym answer ∙ hit) in
    (get_refines c' k later (get-IsCoherent c key now g) (same_enabled ∙ on)).0
    ∙ seen_same c c' later (find k (view c')) (t, v, a)
    ∙ ap (seen c later) (ap (find k) left ∙ find-used c now key k (view c) found fresh)
    ∙ sym (get_refines c k later g on).0
