-- ===== src/Cache/Coherence.antt =====
-- cache/cache.go: the map and the element list agree, before and after every method.
use Prim.Native.String.{String}
use text.Mathlib.Text.{◌==◌ as str_eq}
use text.Mathlib.TextEquality.{eq_iff}
use qmdsr.Prelude.{
  ℕ, ◌+◌, ◌<◌, ◌≡◌, refl, sym, ap, ◌∙◌, inl, inr, none, some, List, [], ◌∷◌, arith, Bool-cases,
  Option-cases, All,
}
use qmdsr.Cache.{
  Element, Entry, Cache, CacheConfig, new, lookup, delete, unlink, back, is_expired,
  version_mismatch, remove, evict, get_element, get_handle, get, push, is_full, stamp, put,
  set_version, clear,
}
use qmdsr.Cache.Elements.{
  IsDistinct, handle_of, lookup-delete, All-unlink, unlink-IsDistinct, element_of_handle_of,
  handle_of-unlink, IsApart-unlink, handle_of-lt, IsApart-new, fresh_suc, handle_of-back,
}

-- The map finds exactly the listed elements and holds nothing else, no key or pointer is listed twice, and the next
-- pointer is new.
pub record Agree (items : List (String × ℕ)) (order : List Element) (next : ℕ) : Type 0 where
  pub index : (k : String) → lookup k items ≡ handle_of k order
  pub listed : All (λ p. handle_of p.0 order ≡ some p.1) items
  pub distinct : IsDistinct order
  pub fresh : All (λ e. e.handle < next) order

abbrev pub IsCoherent : Cache → Type 0
IsCoherent c = Agree c.items c.order c.next_handle

abbrev IsListed : List Element → String × ℕ → Type 0
IsListed order p = handle_of p.0 order ≡ some p.1

module _ (key : String) {h : ℕ} where
  IsListed-unlink :
      (order : List Element)
      → IsDistinct order
      → handle_of key order ≡ some h
      → (items : List (String × ℕ)) → All (IsListed order) items
      → All (IsListed (unlink h order)) (delete key items)
  unfolding delete
  IsListed-unlink order d q [] a = tt
  IsListed-unlink order d q ((k, i) ∷ items) (p, a) = elim (Bool-cases (str_eq k key)) [
    | inl t ↦ rw t (IsListed-unlink order d q items a)
    | inr t ↦ rw t (
      ground (arith, handle_of-unlink key k order d q, eq_iff key k, eq_iff k key),
      IsListed-unlink order d q items a,
    )
  ]

  IsListed-front :
      (entry : Entry) (order : List Element)
      → IsDistinct order
      → handle_of key order ≡ some h
      → (items : List (String × ℕ)) → All (IsListed order) items
      → All (IsListed (record { handle = h; key = key; entry = entry } ∷ unlink h order)) items
  unfolding handle_of
  IsListed-front entry order d q [] a = tt
  IsListed-front entry order d q ((k, i) ∷ items) (p, a) = (
    ground (arith, handle_of-unlink key k order d q, eq_iff key k),
    IsListed-front entry order d q items a,
  )

IsListed-push :
    (key : String) (next : ℕ) (entry : Entry) (order : List Element)
    → handle_of key order ≡ none
    → (items : List (String × ℕ)) → All (IsListed order) items
    → All (IsListed (record { handle = next; key = key; entry = entry } ∷ order)) items
unfolding handle_of
IsListed-push key next entry order q [] a = tt
IsListed-push key next entry order q ((k, i) ∷ items) (p, a) =
    (ground (arith, eq_iff key k), IsListed-push key next entry order q items a)

module _ {items : List (String × ℕ)} {order : List Element} {next : ℕ}
    (g : Agree items order next) where
  -- An element leaves the map and the list together.
  pub Agree-unlink :
      (key : String) (h : ℕ)
      → handle_of key order ≡ some h
      → Agree (delete key items) (unlink h order) next
  Agree-unlink key h q = record {
    index =
        λ k. rw (lookup-delete key k items, handle_of-unlink key k order g.distinct q, g.index k);
    listed = IsListed-unlink key order g.distinct q items g.listed;
    distinct = unlink-IsDistinct h order g.distinct;
    fresh = All-unlink (λ e. e.handle < next) h order g.fresh;
  }

  -- The element of a key goes to the front, with a new entry.
  pub Agree-front :
      (key : String) (h : ℕ) (entry : Entry)
      → handle_of key order ≡ some h
      → Agree items (record { handle = h; key = key; entry = entry } ∷ unlink h order) next
  unfolding handle_of
  Agree-front key h entry q = record {
    index = λ k. ground (arith, g.index k, handle_of-unlink key k order g.distinct q, eq_iff key k);
    listed = IsListed-front key entry order g.distinct q items g.listed;
    distinct = (IsApart-unlink key entry order g.distinct q, unlink-IsDistinct h order g.distinct);
    fresh =
        (handle_of-lt key next order g.fresh q, All-unlink (λ e. e.handle < next) h order g.fresh);
  }

  -- A new element at the front, under a key that the map does not have.
  pub Agree-push :
      (key : String) (entry : Entry)
      → handle_of key order ≡ none
      → Agree
          ((key, next) ∷ items)
          (record { handle = next; key = key; entry = entry } ∷ order)
          (next + 1)
  unfolding lookup handle_of
  Agree-push key entry q = record {
    index = λ k. ground (arith, g.index k);
    listed = (ground (arith, eq_iff key key), IsListed-push key next entry order q items g.listed);
    distinct = (IsApart-new key next entry order g.fresh q, g.distinct);
    fresh = (omega arith, fresh_suc next order g.fresh);
  }

remove-IsCoherent : (c : Cache) (key : String) → IsCoherent c → IsCoherent (remove c key)
unfolding remove
remove-IsCoherent c key g = elim (Option-cases (lookup key c.items)) [
  | inl q ↦ rw (q, remove) g
  | inr (h, q) ↦ rw (q, remove) (Agree-unlink g key h (sym (g.index key) ∙ q))
]

pub evict-IsCoherent : (c : Cache) → IsCoherent c → IsCoherent (evict c)
unfolding evict
evict-IsCoherent c g = elim (Option-cases (back c.order)) [
  | inl q ↦ rw (q, evict) g
  | inr (e, q) ↦
      rw (q, evict) (Agree-unlink g e.key e.handle (handle_of-back c.order e g.distinct q))
]

lookup-evict :
    (c : Cache) (key : String) → lookup key c.items ≡ none → lookup key (evict c).items ≡ none
unfolding evict
lookup-evict c key q = elim (Option-cases (back c.order)) [
  | inl none_left ↦ rw (none_left, evict) q
  | inr (e, last) ↦ rw (last, evict) (ground (arith, lookup-delete e.key key c.items))
]

pub set_version-IsCoherent :
    (c : Cache) (version : String) → IsCoherent c → IsCoherent (set_version c version)
unfolding set_version
set_version-IsCoherent c version g = g

-- A new cache is coherent, and so is a coherent one after `Clear` and `SetVersion`.
pub start-IsCoherent :
    (cfg : CacheConfig) (c : Cache) (version : String)
    → IsCoherent c
    → IsCoherent (new cfg) × IsCoherent (clear c) × IsCoherent (set_version c version)
unfolding new clear set_version lookup handle_of
start-IsCoherent cfg c version g = (
  record { index = λ k. refl; listed = tt; distinct = tt; fresh = tt },
  record { index = λ k. refl; listed = tt; distinct = tt; fresh = tt },
  g,
)

get_element-IsCoherent :
    (c : Cache) (key : String) (now : ℕ) (e : Element)
    → IsCoherent c
    → lookup key c.items ≡ some e.handle
    → e.key ≡ key
    → IsCoherent (get_element c key now e).0
unfolding get_element
get_element-IsCoherent c key now e g q named = elim (Bool-cases (is_expired c now e.entry)) [
  | inl x ↦ rw x (remove-IsCoherent c key g)
  | inr x ↦ rw x (elim (Bool-cases (version_mismatch c e.entry)) [
    | inl v ↦ rw v (remove-IsCoherent c key g)
    | inr v ↦ rw v (
        Agree-front g e.key e.handle e.entry
          (ap (λ k. handle_of k c.order) named ∙ sym (g.index key) ∙ q))
  ])
]

-- `Get` keeps the map and the list coherent.
pub get-IsCoherent :
    (c : Cache) (key : String) (now : ℕ) → IsCoherent c → IsCoherent (get c key now).0
unfolding get get_handle
get-IsCoherent c key now g = elim (Bool-cases c.enabled) [
  | inr off ↦ rw off g
  | inl on ↦ elim (Option-cases (lookup key c.items)) [
    | inl q ↦ rw on (rw q g)
    | inr (h, q) ↦
        let (e, found, same, named) =
          element_of_handle_of key c.order g.distinct (sym (g.index key) ∙ q) in
        rw on
          (rw q (rw found (get_element-IsCoherent c key now e g (q ∙ ap some (sym same)) named)))
  ]
]

-- `Put` keeps the map and the list coherent.
pub put-IsCoherent :
    (c : Cache) (key : String) (entry : Entry) (now : ℕ)
    → IsCoherent c
    → IsCoherent (put c key entry now)
unfolding put push
put-IsCoherent c key entry now g = elim (Bool-cases c.enabled) [
  | inr off ↦ rw off g
  | inl on ↦ elim (Option-cases (lookup key c.items)) [
    | inr (h, q) ↦ rw on (rw q (Agree-front g key h (stamp c entry now) (sym (g.index key) ∙ q)))
    | inl q ↦ rw on (
        rw q (elim (Bool-cases (is_full c)) [
          | inr room ↦ rw room (Agree-push g key (stamp c entry now) (sym (g.index key) ∙ q))
          | inl full ↦ rw full (
              Agree-push (evict-IsCoherent c g) key (stamp c entry now)
                (sym ((evict-IsCoherent c g).index key) ∙ lookup-evict c key q))
        ]))
  ]
]
