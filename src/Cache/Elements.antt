-- ===== src/Cache/Elements.antt =====
-- cache/cache.go: lookups in the element list, and removals from it.
use Prim.Native.String.{String}
use text.Mathlib.Text.{◌==◌ as str_eq}
use text.Mathlib.TextEquality.{eq_iff}
use qmdsr.Prelude.{
  ℕ, ◌+◌, ◌<◌, ◌≡◌, refl, sym, ap, ◌∙◌, ◌≢◌, inl, inr, false, Option, none, some, List, [], ◌∷◌,
  arith, ◌==◌, if◌then◌else◌, Bool-cases, length, All,
}
use mathlib.Core.Path.{subst, subst₂}
use mathlib.Core.Option.{none-ne-some, some-injective}
use qmdsr.Cache.{Element, Entry, lookup, delete, element, unlink, back}

-- Neither the key nor the pointer of the one is that of the other.
abbrev pub IsApart : Element → Element → Type 0
IsApart e f = (f.key ≢ e.key) × (f.handle ≢ e.handle)

abbrev pub IsDistinct : List Element → Type 0
IsDistinct [] = Unit
IsDistinct (e ∷ order) = All (IsApart e) order × IsDistinct order

-- The handle of the first element with the key.
unfoldable pub handle_of : String → List Element → Option ℕ
handle_of key [] = none
handle_of key (e ∷ order) = if str_eq e.key key then some e.handle else handle_of key order

pub lookup-delete :
    (key k : String) (items : List (String × ℕ))
    → lookup k (delete key items) ≡ (if str_eq key k then none else lookup k items)
unfolding lookup delete
lookup-delete key k [] = ground arith
lookup-delete key k ((j, h) ∷ items) =
    ground (arith, eq_iff key k, eq_iff j key, eq_iff j k, lookup-delete key k items)

pub All-unlink :
    (P : Element → Type 0) (h : ℕ) (order : List Element) → All P order → All P (unlink h order)
unfolding unlink
All-unlink P h [] a = tt
All-unlink P h (e ∷ order) (p, a) = elim (Bool-cases (e.handle == h)) [
  | inl q ↦ rw q (All-unlink P h order a)
  | inr q ↦ rw q (p, All-unlink P h order a)
]

pub unlink-IsDistinct :
    (h : ℕ) (order : List Element) → IsDistinct order → IsDistinct (unlink h order)
unfolding unlink
unlink-IsDistinct h [] d = tt
unlink-IsDistinct h (e ∷ order) (a, d) = elim (Bool-cases (e.handle == h)) [
  | inl q ↦ rw q (unlink-IsDistinct h order d)
  | inr q ↦ rw q (All-unlink (IsApart e) h order a, unlink-IsDistinct h order d)
]

pub handle_of_apart :
    (e : Element) (order : List Element) → All (IsApart e) order → handle_of e.key order ≡ none
unfolding handle_of
handle_of_apart e [] a = refl
handle_of_apart e (f ∷ order) (p, a) = ground (arith, eq_iff f.key e.key, handle_of_apart e order a)

pub unlink_apart :
    (e : Element) (order : List Element) → All (IsApart e) order → unlink e.handle order ≡ order
unfolding unlink
unlink_apart e [] a = refl
unlink_apart e (f ∷ order) (p, a) = ground (arith, unlink_apart e order a)

-- A handle that is found belongs to an element of the list, so it differs from one apart from all.
pub handle_of-ne :
    (e : Element) (key : String) (order : List Element) {h : ℕ}
    → All (IsApart e) order
    → handle_of key order ≡ some h
    → h ≢ e.handle
unfolding handle_of
handle_of-ne e key [] a q = cc
handle_of-ne e key (f ∷ order) (p, a) q = elim (Bool-cases (str_eq f.key key)) [
  | inl t ↦ ground arith
  | inr t ↦ handle_of-ne e key order a (ground arith)
]

module _ (key : String) {h : ℕ} where
  -- What the map finds is in the list, under that key.
  pub element_of_handle_of :
      (order : List Element)
      → IsDistinct order
      → handle_of key order ≡ some h
      → (e : Element) × (element h order ≡ some e) × (e.handle ≡ h) × (e.key ≡ key)
  unfolding handle_of element
  element_of_handle_of [] d q = cc
  element_of_handle_of (e ∷ order) (a, d) q = elim (Bool-cases (str_eq e.key key)) [
    | inl t ↦ (e, ground arith, ground arith, (eq_iff e.key key).0 t)
    | inr t ↦
        let q' : handle_of key order ≡ some h = ground arith in
        let (f, found, same, named) = element_of_handle_of order d q' in
        let ne = handle_of-ne e key order a q' in (f, ground arith, same, named)
  ]

  pub handle_of-unlink :
      (k : String) (order : List Element)
      → IsDistinct order
      → handle_of key order ≡ some h
      → handle_of k (unlink h order) ≡ (if str_eq key k then none else handle_of k order)
  unfolding handle_of unlink
  handle_of-unlink k [] d q = cc
  handle_of-unlink k (e ∷ order) (a, d) q = elim (Bool-cases (str_eq e.key key)) [
    | inl t ↦ ground (
      arith,
      unlink_apart e order a,
      handle_of_apart e order a,
      eq_iff e.key key,
      eq_iff e.key k,
      eq_iff key k,
    )
    | inr t ↦
        let q' : handle_of key order ≡ some h = ground arith in
        let ne = handle_of-ne e key order a q' in
        ground
          (arith, handle_of-unlink k order d q', eq_iff e.key key, eq_iff e.key k, eq_iff key k)
  ]

  pub length-unlink :
      (order : List Element)
      → IsDistinct order
      → handle_of key order ≡ some h
      → length (unlink h order) + 1 ≡ length order
  unfolding handle_of unlink
  length-unlink [] d q = cc
  length-unlink (e ∷ order) (a, d) q = elim (Bool-cases (str_eq e.key key)) [
    | inl t ↦ ground (arith, unlink_apart e order a)
    | inr t ↦
        let q' : handle_of key order ≡ some h = ground arith in
        let ne = handle_of-ne e key order a q' in ground (arith, length-unlink order d q')
  ]

  -- Without its element, the list has neither the key nor the handle.
  pub IsApart-unlink :
      (entry : Entry) (order : List Element)
      → IsDistinct order
      → handle_of key order ≡ some h
      → All (IsApart (record { handle = h; key = key; entry = entry })) (unlink h order)
  unfolding handle_of unlink
  IsApart-unlink entry [] d q = cc
  IsApart-unlink entry (e ∷ order) (a, d) q = elim (Bool-cases (str_eq e.key key)) [
    | inl t ↦
        let rest : unlink h (e ∷ order) ≡ order = ground (arith, unlink_apart e order a) in
        subst (All (IsApart (record { handle = h; key = key; entry = entry }))) (sym rest) (
          subst₂ (λ i k. All (IsApart (record { handle = i; key = k; entry = entry })) order)
            (some-injective _ _ (ground arith)) ((eq_iff e.key key).0 t) a)
    | inr t ↦
        let q' : handle_of key order ≡ some h = ground arith in
        let ne = handle_of-ne e key order a q' in
        let kept : (e.handle == h) ≡ false = ground arith in
        rw kept ((ground (arith, eq_iff e.key key), ground arith), IsApart-unlink entry order d q')
  ]

pub handle_of-lt :
    (key : String) {h : ℕ} (next : ℕ) (order : List Element)
    → All (λ e. e.handle < next) order
    → handle_of key order ≡ some h
    → h < next
unfolding handle_of
handle_of-lt key next [] a q = cc
handle_of-lt key next (e ∷ order) (p, a) q = elim (Bool-cases (str_eq e.key key)) [
  | inl t ↦ ground arith
  | inr t ↦ handle_of-lt key next order a (ground arith)
]

pub IsApart-new :
    (key : String) (next : ℕ) (entry : Entry) (order : List Element)
    → All (λ e. e.handle < next) order
    → handle_of key order ≡ none
    → All (IsApart (record { handle = next; key = key; entry = entry })) order
unfolding handle_of
IsApart-new key next entry [] a q = tt
IsApart-new key next entry (e ∷ order) (p, a) q = elim (Bool-cases (str_eq e.key key)) [
  | inl t ↦ absurd (ground arith)
  | inr t ↦ (
    (ground (arith, eq_iff e.key key), ground arith),
    IsApart-new key next entry order a (ground arith),
  )
]

pub fresh_suc :
    (next : ℕ) (order : List Element)
    → All (λ e. e.handle < next) order
    → All (λ e. e.handle < next + 1) order
fresh_suc next [] a = tt
fresh_suc next (e ∷ order) (p, a) = (omega arith, fresh_suc next order a)

-- The last element is found under its key.
pub handle_of-back :
    (order : List Element) (e : Element)
    → IsDistinct order
    → back order ≡ some e
    → handle_of e.key order ≡ some e.handle
unfolding back handle_of
handle_of-back [] e d q = cc
handle_of-back (f ∷ []) e d q = ground (arith, eq_iff f.key e.key)
handle_of-back (f ∷ g ∷ order) e (a, d) q =
    let found = handle_of-back (g ∷ order) e d q in
    elim (Bool-cases (str_eq f.key e.key)) [
      | inl t ↦ absurd (
          none-ne-some e.handle (
            sym (handle_of_apart f (g ∷ order) a)
            ∙ ap (λ k. handle_of k (g ∷ order)) ((eq_iff f.key e.key).0 t)
            ∙ found))
      | inr t ↦ rw t found
    ]
