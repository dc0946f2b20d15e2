-- ===== src/Executor/Parse/Distinct.antt =====
-- executor/parse.go: no collection is listed twice, or without a name.
use Prim.Native.String.{String}
use text.Mathlib.Text.{◌==◌ as str_eq}
use text.Mathlib.TextEquality.{eq_iff}
use qmdsr.Prelude.{
  ◌+◌, ◌≤◌, ◌≡◌, refl, sym, ◌∙◌, ◌⊎◌, inl, inr, Bool, true, false, ◌&&◌, ◌||◌, Option, none, some,
  List, [], ◌∷◌, ◌++◌, arith, ◌==◌, if◌then◌else◌, Bool-cases, length, exists, count,
}
use qmdsr.Prelude.Int.{ℤ}
use mathlib.Core.Path.{subst}
use mathlib.Core.Sum.{inl-ne-inr, inl-injective}
use qmdsr.Types.{CollectionInfo, IndexStatus}
use qmdsr.Executor.Parse.{Formats}
use qmdsr.Executor.Parse.Names.{
  has_name, named, add_name, on_last, number_after, set_files, set_mask, is_heading, read_list_line,
  read_list, parse_collection_list_text, read_status_line, read_status, parse_status_text,
}

-- Every collection has a name, and no two have the same.
pub record IsNamed (cols : List CollectionInfo) : Type 0 where
  pub some_name : count (has_name "") cols ≡ 0
  pub once : (name : String) → count (has_name name) cols ≤ 1

count_last :
    (p : CollectionInfo → Bool) (cols : List CollectionInfo) (c : CollectionInfo)
    → count p (cols ++ (c ∷ [])) ≡ count p cols + (if p c then 1 else 0)
count_last p [] c = ground arith
count_last p (d ∷ cols) c = ground (arith, count_last p cols c)

count-exists :
    (p : CollectionInfo → Bool) (cols : List CollectionInfo)
    → exists p cols ≡ false
    → count p cols ≡ 0
count-exists p [] h = refl
count-exists p (c ∷ cols) h = ground (arith, h, count-exists p cols)

by_if :
    {A : Type 0} (P : A → Type 0) (b : Bool) {x y : A}
    → P x
    → (b ≡ false → P y)
    → P (if b then x else y)
by_if P true hx hy = hx
by_if P false hx hy = hy refl

count-named :
    (name n : String) (cols : List CollectionInfo)
    → exists (has_name name) cols ≡ false
    → count (has_name n) cols ≤ 1
    → count (has_name n) (cols ++ (named name ∷ [])) ≤ 1
unfolding has_name
count-named name n cols new once = elim (Bool-cases (str_eq name n)) [
  | inl same ↦
      let none_before : count (has_name n) cols ≡ 0 =
        subst (λ x. count (has_name x) cols ≡ 0) ((eq_iff name n).0 same)
          (count-exists (has_name name) cols new) in
      ground (arith, count_last (has_name n) cols (named name), none_before)
  | inr other ↦ ground (arith, count_last (has_name n) cols (named name), other, once)
]

named_last :
    (name : String) (cols : List CollectionInfo)
    → IsNamed cols
    → str_eq name "" ≡ false
    → count (has_name "") (cols ++ (named name ∷ [])) ≡ 0
unfolding has_name
named_last name cols k some_name =
    ground (arith, count_last (has_name "") cols (named name), k.some_name, some_name)

add_name-IsNamed :
    (name : String) (cols : List CollectionInfo) → IsNamed cols → IsNamed (add_name name cols)
unfolding add_name
add_name-IsNamed name cols k =
    by_if (λ x. IsNamed x) (str_eq name "") k
      (λ some_name.
        by_if (λ x. IsNamed x) (exists (has_name name) cols) k
          (λ new. record {
            some_name = named_last name cols k some_name;
            once = λ n. count-named name n cols new (k.once n);
          }))

count-on_last :
    (p : CollectionInfo → Bool) (g : CollectionInfo → CollectionInfo) (cols : List CollectionInfo)
    → ((c : CollectionInfo) → p (g c) ≡ p c)
    → count p (on_last g cols) ≡ count p cols
unfolding on_last
count-on_last p g [] same = refl
count-on_last p g (c ∷ []) same = rw (same c) refl
count-on_last p g (c ∷ d ∷ cols) same = ground (arith, count-on_last p g (d ∷ cols) same)

on_last-IsNamed :
    (g : CollectionInfo → CollectionInfo) (cols : List CollectionInfo)
    → ((name : String) (c : CollectionInfo) → has_name name (g c) ≡ has_name name c)
    → IsNamed cols
    → IsNamed (on_last g cols)
on_last-IsNamed g cols same k = record {
  some_name = count-on_last (has_name "") g cols (same "") ∙ k.some_name;
  once = λ name. omega (arith, count-on_last (has_name name) g cols (same name), k.once name);
}

module _ (f : Formats) where
  set_files-IsNamed :
      (line : String) (cols : List CollectionInfo) → IsNamed cols → IsNamed (set_files f line cols)
  unfolding set_files
  set_files-IsNamed line cols k =
      elim (number_after f line "Files:")
        as (λ o.
          IsNamed (elim o [ none ↦ cols | some n ↦ on_last (λ c. record c { files = n }) cols ])) [
            | none ↦ k
            | some n ↦ on_last-IsNamed _ cols (same_name n) k
          ]
    where
      same_name :
          (n : ℤ) (name : String) (c : CollectionInfo)
          → has_name name (record c { files = n }) ≡ has_name name c
      same_name n name c = unfold has_name in refl

  set_mask-IsNamed :
      (line : String) (cols : List CollectionInfo) → IsNamed cols → IsNamed (set_mask f line cols)
  unfolding set_mask has_name
  set_mask-IsNamed line cols k = on_last-IsNamed _ cols (λ name c. refl) k

  read_list_line-IsNamed :
      (raw : String) (cols : List CollectionInfo)
      → IsNamed cols
      → IsNamed (read_list_line f raw cols)
  unfolding read_list_line
  read_list_line-IsNamed raw cols k =
      let line = f.trim raw in
      by_if (λ x. IsNamed x) (str_eq line "" || f.has_prefix line "Collections") k
        (λ _.
          by_if (λ x. IsNamed x) (is_heading f line) (add_name-IsNamed _ cols k)
            (λ _.
              by_if (λ x. IsNamed x) (f.has_prefix line "qmd://" && f.contains line "/")
                (add_name-IsNamed _ cols k)
                (λ _.
                  by_if (λ x. IsNamed x) (f.has_prefix line "Pattern:")
                    (set_mask-IsNamed line cols k)
                    (λ _.
                      by_if (λ x. IsNamed x) (f.has_prefix line "Files:")
                        (set_files-IsNamed line cols k) (λ _. k)))))

  read_list-IsNamed :
      (lines : List String) (cols : List CollectionInfo)
      → IsNamed cols
      → IsNamed (read_list f lines cols)
  unfolding read_list
  read_list-IsNamed [] cols k = k
  read_list-IsNamed (raw ∷ lines) cols k =
      read_list-IsNamed lines _ (read_list_line-IsNamed raw cols k)

  read_status_line-IsNamed :
      (raw : String) (cols : List CollectionInfo) (vectors : Option ℤ)
      → IsNamed cols
      → IsNamed (read_status_line f raw (cols, vectors)).0
  unfolding read_status_line
  read_status_line-IsNamed raw cols vectors k =
      let line = f.trim raw in
      by_if (λ (x : List CollectionInfo × Option ℤ). IsNamed x.0) (str_eq line "") k
        (λ _.
          by_if (λ (x : List CollectionInfo × Option ℤ). IsNamed x.0) (f.has_prefix line "Vectors:")
            k
            (λ _.
              by_if (λ (x : List CollectionInfo × Option ℤ). IsNamed x.0) (is_heading f line)
                (add_name-IsNamed _ cols k)
                (λ _.
                  by_if (λ (x : List CollectionInfo × Option ℤ). IsNamed x.0)
                    (f.has_prefix line "Files:") (set_files-IsNamed line cols k) (λ _. k))))

  read_status-IsNamed :
      (lines : List String) (cols : List CollectionInfo) (vectors : Option ℤ)
      → IsNamed cols
      → IsNamed (read_status f lines (cols, vectors)).0
  unfolding read_status
  read_status-IsNamed [] cols vectors k = k
  read_status-IsNamed (raw ∷ lines) cols vectors k =
      read_status-IsNamed lines _ _ (read_status_line-IsNamed raw cols vectors k)

  nothing-IsNamed : IsNamed []
  nothing-IsNamed = record { some_name = refl; once = λ name. omega arith }

  -- The collections that are read from a list, or from a status, as a text have names, and no two
  -- have the same; a list that is read has some collection.
  pub parse_text-IsNamed :
      (out : String)
      → ((cols : List CollectionInfo)
          → parse_collection_list_text f out ≡ inl cols
          → IsNamed cols × (1 ≤ length cols))
        × ((st : IndexStatus) → parse_status_text f out ≡ inl st → IsNamed st.collections)
  unfolding parse_collection_list_text parse_status_text
  parse_text-IsNamed out =
      let listed = read_list f (f.lines out) [] in
      let k = read_list-IsNamed (f.lines out) [] nothing-IsNamed in
      (
        λ cols q. elim (Bool-cases (length listed == 0)) [
          | inl empty ↦ absurd (inl-ne-inr (sym (rw empty at q)))
          | inr some_listed ↦
              subst (λ x. IsNamed x × (1 ≤ length x))
                (inl-injective listed cols (rw some_listed at q)) (k, ground (arith, some_listed))
        ],
        λ st q.
            of_vectors (read_status f (f.lines out) ([], none)).1
              (read_status-IsNamed (f.lines out) [] none nothing-IsNamed) q,
      )
    where
      of_vectors :
          {cols : List CollectionInfo} (vectors : Option ℤ) {st : IndexStatus}
          → IsNamed cols
          → Path
              (IndexStatus ⊎ String)
              (elim vectors [
                | none ↦ inr "vectors line not found"
                | some v ↦ inl (record { collections = cols; vectors = v; raw = "" })
              ])
              (inl st)
          → IsNamed st.collections
      of_vectors none k q = absurd (inl-ne-inr (sym q))
      of_vectors (some v) {st} k q = subst (λ x. IsNamed x.collections) (inl-injective _ st q) k
