-- ===== src/Api/Fetch/Budget.antt =====
-- api/core.go: what is read of the documents keeps within the budget of bytes, and nothing is lost.
use Prim.Native.String.{String}
use qmdsr.Prelude.{
  ℕ, ◌+◌, ◌-◌, ◌≤◌, min, ◌≡◌, refl, ◌⊎◌, inl, inr, Bool, true, false, List, [], ◌∷◌, map, arith,
  ltb, Bool-cases, length, take, All, count, count_hit, count_miss, length-take,
}
use Prim.Native.String.{len}
use qmdsr.Types.{SearchResult, Document}
use qmdsr.Api.Format.{Printer}
use qmdsr.Api.Fetch.{
  SearchAndGetCoreRequest, GetOutcome, max_get_docs, max_get_bytes, targets_of, read_outcomes,
  fetch,
}

abbrev pub total_bytes : List Document → ℕ
total_bytes [] = 0
total_bytes (d ∷ ds) = len d.content + total_bytes ds

abbrev pub is_failure : GetOutcome → Bool
is_failure (uri, inl content) = false
is_failure (uri, inr err) = true

add_within : (a : ℕ) {b r : ℕ} → b ≤ r - a → a ≤ r → a + b ≤ r
add_within a h l = omega (arith, h, l)

length-targets_of :
    (p : Printer) (hits : List SearchResult) → length (targets_of p hits) ≤ length hits
unfolding targets_of
length-targets_of p [] = omega arith
length-targets_of p (hit ∷ hits) = let h = length-targets_of p hits in ground (arith, h)

module _ (get : String → String ⊎ String) where
  abbrev pub fails : String → Bool
  fails uri = is_failure (uri, get uri)

  -- Each target is read, truncated or has failed, and the bytes read are within what remained.
  pub record IsRead (remaining : ℕ) (uris : List String) (docs : List Document)
      (truncated : List String) : Type 0 where
    pub bounded : total_bytes docs ≤ remaining
    pub complete : length docs + length truncated + count fails uris ≡ length uris
    pub true_content : All (λ d. get d.file ≡ inl d.content) docs
    pub readable : All (λ uri. fails uri ≡ false) truncated

  Reads : List String → Type 0
  Reads uris =
      (remaining : ℕ)
      → let out = read_outcomes remaining (map (λ uri. (uri, get uri)) uris) in
        IsRead remaining uris out.0 out.1

  read_outcomes_one :
      (uri : String) (uris : List String) (answer : String ⊎ String) (remaining : ℕ)
      → Reads uris
      → get uri ≡ answer
      → let out = read_outcomes remaining ((uri, answer) ∷ map (λ uri. (uri, get uri)) uris) in
        IsRead remaining (uri ∷ uris) out.0 out.1
  unfolding read_outcomes Reads
  read_outcomes_one uri uris (inr err) remaining reads q =
      let k = reads remaining in
      let fail : fails uri ≡ true = rw q refl in
      record {
        bounded = k.bounded;
        complete = omega (arith, k.complete, count_hit fails uri uris fail);
        true_content = k.true_content;
        readable = k.readable;
      }
  read_outcomes_one uri uris (inl content) remaining reads q =
      let fine : fails uri ≡ false = rw q refl in
      let uncounted = count_miss fails uri uris fine in
      elim (Bool-cases (ltb remaining (len content))) [
        | inl cut ↦
            let k = reads remaining in
            rw cut (record {
              bounded = k.bounded;
              complete = omega (arith, k.complete, uncounted);
              true_content = k.true_content;
              readable = (fine, k.readable);
            })
        | inr fits ↦
            let k = reads (remaining - len content) in
            rw fits (record {
              bounded = add_within (len content) k.bounded (ground arith);
              complete = omega (arith, k.complete, uncounted);
              true_content = (q, k.true_content);
              readable = k.readable;
            })
      ]

  read_outcomes-IsRead : (uris : List String) → Reads uris
  unfolding read_outcomes Reads
  read_outcomes-IsRead [] remaining = record {
    bounded = omega arith;
    complete = omega arith;
    true_content = tt;
    readable = tt;
  }
  read_outcomes-IsRead (uri ∷ uris) remaining =
      read_outcomes_one uri uris (get uri) remaining (read_outcomes-IsRead uris) refl

  -- No more documents are read than the request allows, and together they have no more bytes than it
  -- allows. Each target is read, with the content that the backend has of it, or is named as
  -- truncated, or its reading fails; a truncated one can be read.
  pub fetch_lem :
      (p : Printer) (req : SearchAndGetCoreRequest) (hits : List SearchResult)
      → let (docs, truncated) = fetch p get req hits in
        let targets = targets_of p (take (min (max_get_docs req) (length hits)) hits) in
        (total_bytes docs ≤ max_get_bytes req)
        × (length docs ≤ max_get_docs req)
        × (length docs + length truncated + count fails targets ≡ length targets)
        × All (λ d. get d.file ≡ inl d.content) docs
        × All (λ uri. fails uri ≡ false) truncated
  unfolding fetch Reads
  fetch_lem p req hits =
      let limit = min (max_get_docs req) (length hits) in
      let targets = targets_of p (take limit hits) in
      let k = read_outcomes-IsRead targets (max_get_bytes req) in
      (
        k.bounded,
        omega (arith, k.complete, length-targets_of p (take limit hits), length-take limit hits),
        k.complete,
        k.true_content,
        k.readable,
      )
