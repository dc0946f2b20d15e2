-- ===== src/Cache/Cleanup.antt =====
-- cache/cache.go: what `Cleanup` removes and what it keeps.
use Prim.Native.String.{String}
use text.Mathlib.Text.{◌==◌ as str_eq}
use text.Mathlib.TextEquality.{eq_iff}
use qmdsr.Prelude.{
  ℕ, ◌+◌, ◌≡◌, refl, sym, ap, ◌∙◌, ◌⊎◌, inl, inr, Bool, true, false, not, ◌&&◌, ◌||◌, none, some,
  List, [], ◌∷◌, arith, ◌==◌, Bool-cases, Option-cases, length, select, All,
}
use mathlib.Core.Path.{subst}
use mathlib.Core.Option.{none-ne-some, some-injective}
use qmdsr.Cache.{
  Element, Entry, Cache, lookup, delete, element, unlink, is_expired, version_mismatch, is_stale,
  cleanup_one, cleanup_loop, cleanup,
}
use qmdsr.Cache.Elements.{IsApart, IsDistinct, handle_of, length-unlink, handle_of-unlink}
use qmdsr.Cache.Coherence.{IsCoherent, Agree-unlink}

-- The handle belongs to a pair that the loop has still to visit.
in_todo : ℕ → List (String × ℕ) → Bool
in_todo h [] = false
in_todo h ((k, i) ∷ todo) = i == h || in_todo h todo

-- A pair to visit is in the list under its key, or its element is gone.
abbrev IsPending : List Element → String × ℕ → Type 0
IsPending order p = (handle_of p.0 order ≡ some p.1) ⊎ (element p.1 order ≡ none)

element_gone : (h : ℕ) (order : List Element) → element h (unlink h order) ≡ none
unfolding element unlink
element_gone h [] = refl
element_gone h (e ∷ order) = ground (arith, element_gone h order)

element-unlink-none :
    (h i : ℕ) (order : List Element) → element i order ≡ none → element i (unlink h order) ≡ none
unfolding element unlink
element-unlink-none h i [] q = refl
element-unlink-none h i (e ∷ order) q = ground (arith, element-unlink-none h i order)

IsPending-unlink :
    (key : String) {h : ℕ} (order : List Element)
    → IsDistinct order
    → handle_of key order ≡ some h
    → (todo : List (String × ℕ)) → All (IsPending order) todo
    → All (IsPending (unlink h order)) todo
IsPending-unlink key order d q [] a = tt
IsPending-unlink key {h} order d q ((k, i) ∷ todo) (inr gone, a) =
    (inr (element-unlink-none h i order gone), IsPending-unlink key order d q todo a)
IsPending-unlink key {h} order d q ((k, i) ∷ todo) (inl p, a) = elim (Bool-cases (str_eq key k)) [
  | inl t ↦
      let same : h ≡ i =
        some-injective h i (sym q ∙ ap (λ x. handle_of x order) ((eq_iff key k).0 t) ∙ p) in
      (
        inr (subst (λ x. element x (unlink h order) ≡ none) same (element_gone h order)),
        IsPending-unlink key order d q todo a,
      )
  | inr t ↦
      (inl (rw (handle_of-unlink key k order d q, t) p), IsPending-unlink key order d q todo a)
]

-- All elements with the handle have the same staleness, if there is one element to a handle.
module _ (stale : Entry → Bool) where
  stale_apart :
      (f : Element) (order : List Element)
      → All (IsApart f) order
      → (b : Bool) → All (λ e. e.handle ≡ f.handle → stale e.entry ≡ b) order
  stale_apart f [] a b = tt
  stale_apart f (e ∷ order) ((_, ne), a) b = (λ same. absurd (ne same), stale_apart f order a b)

  stale_at :
      (h : ℕ) (order : List Element) (f : Element)
      → IsDistinct order
      → element h order ≡ some f
      → All (λ e. e.handle ≡ h → stale e.entry ≡ stale f.entry) order
  unfolding element
  stale_at h [] f d q = tt
  stale_at h (e ∷ order) f (a, d) q = elim (Bool-cases (e.handle == h)) [
    | inl t ↦
        let same : e.handle ≡ h = ground arith in
        let is_f : e ≡ f = some-injective e f (ground arith) in
        (
          λ _. ap (λ x. stale x.entry) is_f,
          subst (λ x. All (λ y. y.handle ≡ x → stale y.entry ≡ stale f.entry) order) same
              (stale_apart e order a (stale f.entry)),
        )
    | inr t ↦ (λ same. absurd (ground arith), stale_at h order f d (ground arith))
  ]

  stale_absent :
      (h : ℕ) (order : List Element)
      → element h order ≡ none
      → All (λ e. e.handle ≡ h → stale e.entry ≡ false) order
  unfolding element
  stale_absent h [] q = tt
  stale_absent h (e ∷ order) q =
      (λ same. absurd (ground arith), stale_absent h order (ground arith))

  -- What the loop keeps, of the pairs that it has still to visit.
  keeps : List (String × ℕ) → Element → Bool
  keeps todo e = not (stale e.entry && in_todo e.handle todo)

  select-unlink :
      (k : String) (h : ℕ) (todo : List (String × ℕ)) (order : List Element)
      → All (λ e. e.handle ≡ h → stale e.entry ≡ true) order
      → select (keeps todo) (unlink h order) ≡ select (keeps ((k, h) ∷ todo)) order
  unfolding keeps in_todo unlink
  select-unlink k h todo [] a = refl
  select-unlink k h todo (e ∷ order) (p, a) = ground (arith, p, select-unlink k h todo order a)

  select_same :
      (k : String) (h : ℕ) (todo : List (String × ℕ)) (order : List Element)
      → All (λ e. e.handle ≡ h → stale e.entry ≡ false) order
      → select (keeps todo) order ≡ select (keeps ((k, h) ∷ todo)) order
  unfolding keeps in_todo
  select_same k h todo [] a = refl
  select_same k h todo (e ∷ order) (p, a) = ground (arith, p, select_same k h todo order a)

  select_nil : (order : List Element) → select (keeps []) order ≡ order
  unfolding keeps in_todo
  select_nil [] = refl
  select_nil (e ∷ order) = ground (arith, select_nil order)

element-handle :
    (h : ℕ) (order : List Element) {e : Element} → element h order ≡ some e → e.handle ≡ h
unfolding element
element-handle h [] q = cc
element-handle h (f ∷ order) {e} q = elim (Bool-cases (f.handle == h)) [
  | inl t ↦ ground arith
  | inr t ↦ let q' : element h order ≡ some e = ground arith in element-handle h order q'
]

-- The pair is in the list, since its element is.
pending_here :
    (order : List Element) (p : String × ℕ) {e : Element}
    → IsPending order p
    → element p.1 order ≡ some e
    → handle_of p.0 order ≡ some p.1
pending_here order p (inl q) found = q
pending_here order p {e} (inr gone) found = absurd (none-ne-some e (sym gone ∙ found))

abbrev Swept : List (String × ℕ) → Cache → ℕ → ℕ → Cache × ℕ → Type 0
Swept todo d n now r =
    IsCoherent r.0
    × (r.0.order ≡ select (keeps (is_stale d now) todo) d.order)
    × (r.1 + length r.0.order ≡ n + length d.order)

module _ (k : String) (h : ℕ) (todo : List (String × ℕ)) (d : Cache) (n now : ℕ) where
  Swept-step :
      (s : Cache × ℕ)
      → cleanup_one (d, n) now k (element h d.order) ≡ s
      → Swept ((k, h) ∷ todo) d n now (cleanup_loop todo s now)
      → Swept ((k, h) ∷ todo) d n now (cleanup_loop ((k, h) ∷ todo) (d, n) now)
  unfolding cleanup_loop
  Swept-step s e r = subst (λ x. Swept ((k, h) ∷ todo) d n now (cleanup_loop todo x now)) (sym e) r

  -- A round that removes nothing.
  Swept-idle :
      (r : Cache × ℕ)
      → All (λ e. e.handle ≡ h → is_stale d now e.entry ≡ false) d.order
      → Swept todo d n now r
      → Swept ((k, h) ∷ todo) d n now r
  Swept-idle r none_stale (c', kept, count) =
      (c', kept ∙ select_same (is_stale d now) k h todo d.order none_stale, count)

  swept : Cache
  swept = record d { order = unlink h d.order; items = delete k d.items }

  -- A round that removes the element of the pair.
  Swept-removed :
      (r : Cache × ℕ)
      → IsDistinct d.order
      → handle_of k d.order ≡ some h
      → All (λ e. e.handle ≡ h → is_stale d now e.entry ≡ true) d.order
      → Swept todo swept (n + 1) now r
      → Swept ((k, h) ∷ todo) d n now r
  unfolding swept is_stale is_expired version_mismatch
  Swept-removed r distinct here all_stale (c', kept, count) = (
    c',
    kept ∙ select-unlink (is_stale d now) k h todo d.order all_stale,
    omega (arith, length-unlink k d.order distinct here),
  )

cleanup_loop-Swept :
    (todo : List (String × ℕ)) (d : Cache) (n now : ℕ)
    → IsCoherent d
    → All (IsPending d.order) todo
    → Swept todo d n now (cleanup_loop todo (d, n) now)
cleanup_loop-Swept [] d n now g a =
    unfold cleanup_loop in (g, sym (select_nil (is_stale d now) d.order), refl)
cleanup_loop-Swept ((k, h) ∷ todo) d n now g (p, a) = elim (Option-cases (element h d.order)) [
  | inl gone ↦
      Swept-step k h todo d n now (d, n) (unfold cleanup_one in rw gone)
        (Swept-idle k h todo d n now (cleanup_loop todo (d, n) now)
          (stale_absent (is_stale d now) h d.order gone) (cleanup_loop-Swept todo d n now g a))
  | inr (e, found) ↦
      let all = stale_at (is_stale d now) h d.order e g.distinct found in
      let here = pending_here d.order (k, h) p found in
      elim (Bool-cases (is_stale d now e.entry)) [
        | inr young ↦
            Swept-step k h todo d n now (d, n) (unfold cleanup_one in rw found (rw young))
              (Swept-idle k h todo d n now (cleanup_loop todo (d, n) now)
                (subst (λ b. All (λ x. x.handle ≡ h → is_stale d now x.entry ≡ b) d.order) young
                  all)
                (cleanup_loop-Swept todo d n now g a))
        | inl stale ↦
            Swept-step k h todo d n now (swept k h todo d n now, n + 1)
              (unfold cleanup_one swept in rw found (rw (stale, element-handle h d.order found)))
              (Swept-removed k h todo d n now
                (cleanup_loop todo (swept k h todo d n now, n + 1) now) g.distinct here
                (subst (λ b. All (λ x. x.handle ≡ h → is_stale d now x.entry ≡ b) d.order) stale
                  all)
                (cleanup_loop-Swept todo (swept k h todo d n now) (n + 1) now
                  (unfold swept in Agree-unlink g k h here)
                  (unfold swept in IsPending-unlink k d.order g.distinct here todo a)))
      ]
]

IsPending-listed :
    (order : List Element) (items : List (String × ℕ))
    → All (λ p. handle_of p.0 order ≡ some p.1) items
    → All (IsPending order) items
IsPending-listed order [] a = tt
IsPending-listed order (p ∷ items) (q, a) = (inl q, IsPending-listed order items a)

lookup-in_todo :
    (k : String) {h : ℕ} (items : List (String × ℕ))
    → lookup k items ≡ some h
    → in_todo h items ≡ true
unfolding lookup in_todo
lookup-in_todo k [] q = cc
lookup-in_todo k {h} ((j, i) ∷ items) q = elim (Bool-cases (str_eq j k)) [
  | inl t ↦ ground arith
  | inr t ↦
      let q' : lookup k items ≡ some h = ground arith in ground (arith, lookup-in_todo k items q')
]

lift_each :
    (e : Element) (order rest : List Element)
    → All (IsApart e) rest
    → All (λ x. handle_of x.key order ≡ some x.handle) rest
    → All (λ x. handle_of x.key (e ∷ order) ≡ some x.handle) rest
unfolding handle_of
lift_each e order [] a b = tt
lift_each e order (x ∷ rest) (p, a) (q, b) =
    (ground (arith, eq_iff e.key x.key), lift_each e order rest a b)

-- Every element is found under its key.
handle_of_each :
    (order : List Element)
    → IsDistinct order
    → All (λ e. handle_of e.key order ≡ some e.handle) order
handle_of_each [] d = tt
handle_of_each (e ∷ order) (a, d) = (
  unfold handle_of in rw ((eq_iff e.key e.key).1 refl),
  lift_each e order order a (handle_of_each order d),
)

in_todo_each :
    (items : List (String × ℕ)) (order rest : List Element)
    → ((k : String) → lookup k items ≡ handle_of k order)
    → All (λ e. handle_of e.key order ≡ some e.handle) rest
    → All (λ e. in_todo e.handle items ≡ true) rest
in_todo_each items order [] index a = tt
in_todo_each items order (e ∷ rest) index (p, a) =
    (lookup-in_todo e.key items (index e.key ∙ p), in_todo_each items order rest index a)

select-keeps :
    (stale : Entry → Bool) (items : List (String × ℕ)) (order : List Element)
    → All (λ e. in_todo e.handle items ≡ true) order
    → select (keeps stale items) order ≡ select (λ e. not (stale e.entry)) order
unfolding keeps
select-keeps stale items [] a = refl
select-keeps stale items (e ∷ order) (p, a) = ground (arith, p, select-keeps stale items order a)

-- `Cleanup` leaves a coherent cache coherent, keeps exactly the entries that are not stale, in their
-- order, and returns the number of those that it removed.
pub cleanup_lem :
    (c : Cache) (now : ℕ)
    → IsCoherent c
    → IsCoherent (cleanup c now).0
      × ((cleanup c now).0.order ≡ select (λ e. not (is_stale c now e.entry)) c.order)
      × ((cleanup c now).1 + length (cleanup c now).0.order ≡ length c.order)
unfolding cleanup
cleanup_lem c now g =
    let (g', order_kept, count) =
      cleanup_loop-Swept c.items c 0 now g (IsPending-listed c.order c.items g.listed) in
    (
      g',
      order_kept
          ∙ select-keeps (is_stale c now) c.items c.order
              (in_todo_each c.items c.order c.order g.index (handle_of_each c.order g.distinct)),
      omega (arith, count),
    )
