-- ===== src/Api/Health/Reports.antt =====
-- api/core.go: the answer about health names every component, and is not healthy under overload.
use Prim.Native.String.{String}
use text.Mathlib.Text.{◌==◌ as str_eq}
use text.Mathlib.TextEquality.{eq_iff}
use qmdsr.Prelude.{
  ℕ, ◌≡◌, refl, sym, ap, ◌∙◌, ◌≢◌, ◌⊎◌, inl, inr, Bool, true, false, Option, none, some, List, [],
  ◌∷◌, ◌++◌, arith, if◌then◌else◌, Bool-cases, exists,
}
use mathlib.Core.Bool.{true≢false}
use mathlib.Core.Path.{subst}
use qmdsr.Heartbeat
use qmdsr.Heartbeat.{ComponentHealth, SystemHealthTracker, Components, get_health}
use qmdsr.Api.Health.{
  ComponentReport, HealthResponse, names_of, report_components, with_cpu, build_health_response,
}

abbrev pub is_some : {A : Type 0} → Option A → Bool
is_some none = false
is_some (some a) = true

abbrev pub is_known : String → Components → Bool
is_known name cs = is_some (Heartbeat.find name cs)

abbrev pub reports : String → List ComponentReport → Bool
reports name = exists (λ r. str_eq r.name name)

names_of_known :
    (name : String) (cs : Components) → exists (λ n. str_eq n name) (names_of cs) ≡ is_known name cs
unfolding Heartbeat.find
names_of_known name [] = refl
names_of_known name ((n, c) ∷ cs) = ground (arith, names_of_known name cs)

reported :
    (n name : String) (o : Option ComponentHealth) (rest : List ComponentReport)
    → ((str_eq n name ≡ true) × (is_some o ≡ true)) ⊎ (reports name rest ≡ true)
    → reports name (elim o [
      | none ↦ rest
      | some c ↦ record { name = n; status = c.level_str; message = c.message } ∷ rest
    ])
      ≡ true
reported n name none rest (inl (same, known)) = absurd (true≢false (sym known))
reported n name none rest (inr h) = h
reported n name (some c) rest (inl (same, known)) = rw same refl
reported n name (some c) rest (inr h) = ground (arith, h)

report_components-known :
    (name : String) (cs : Components) (names : List String)
    → is_known name cs ≡ true
    → exists (λ n. str_eq n name) names ≡ true
    → reports name (report_components cs names) ≡ true
unfolding report_components
report_components-known name cs [] known h = absurd (true≢false (sym h))
report_components-known name cs (n ∷ names) known h =
    reported n name (Heartbeat.find n cs) (report_components cs names)
      (elim (Bool-cases (str_eq n name)) [
        | inl same ↦
            inl (same, subst (λ x. is_known x cs ≡ true) (sym ((eq_iff n name).0 same)) known)
        | inr other ↦ inr (report_components-known name cs names known (rw other at h))
      ])

reports-append :
    (name : String) (xs ys : List ComponentReport)
    → reports name xs ≡ true
    → reports name (xs ++ ys) ≡ true
reports-append name [] ys h = absurd (true≢false (sym h))
reports-append name (x ∷ xs) ys h = ground (arith, h, reports-append name xs ys)

with_cpu-reports :
    (equal_fold : String → String → Bool) (critical overloaded : Bool) (resp : HealthResponse)
    (name : String)
    → reports name resp.components ≡ true
    → reports name (with_cpu equal_fold critical overloaded resp).components ≡ true
unfolding with_cpu
with_cpu-reports equal_fold true overloaded resp name h = reports-append name resp.components _ h
with_cpu-reports equal_fold false true resp name h = reports-append name resp.components _ h
with_cpu-reports equal_fold false false resp name h = h

never_healthy :
    (equal_fold : String → String → Bool) (status : String)
    → equal_fold "healthy" "healthy" ≡ true
    → (if equal_fold status "healthy" then "degraded" else status) ≢ "healthy"
never_healthy equal_fold status self = elim (Bool-cases (equal_fold status "healthy")) [
  | inl same ↦ rw same (λ e. true≢false (sym ((eq_iff "degraded" "healthy").1 e)))
  | inr other ↦
      rw other (λ e. true≢false (sym self ∙ ap (λ x. equal_fold x "healthy") (sym e) ∙ other))
]

with_cpu_status :
    (equal_fold : String → String → Bool) (critical overloaded : Bool) (resp : HealthResponse)
    → equal_fold "healthy" "healthy" ≡ true
    → let r = with_cpu equal_fold critical overloaded resp in
      (critical ≡ true → r.status ≡ "unhealthy")
      × (overloaded ≡ true → r.status ≢ "healthy")
      × (critical ≡ false → overloaded ≡ false → r.status ≡ resp.status)
unfolding with_cpu
with_cpu_status equal_fold true overloaded resp self = (
  λ _. refl,
  λ _ e. true≢false (sym ((eq_iff "unhealthy" "healthy").1 e)),
  λ c. absurd (true≢false c),
)
with_cpu_status equal_fold false true resp self = (
  λ c. absurd (true≢false (sym c)),
  λ _. never_healthy equal_fold resp.status self,
  λ _ o. absurd (true≢false o),
)
with_cpu_status equal_fold false false resp self =
    (λ c. absurd (true≢false (sym c)), λ o. absurd (true≢false (sym o)), λ _ _. refl)

-- If sorting keeps what is in a list and "healthy" equals itself: every component that is tracked is
-- reported. Under critical overload the status is "unhealthy", under overload it is not "healthy", and
-- without either it is the overall level.
pub build_health_response_lem :
    (sort : List String → List String) (equal_fold : String → String → Bool)
    (critical overloaded : Bool) (tracker : SystemHealthTracker) (now : ℕ)
    → ((p : String → Bool) (xs : List String) → exists p (sort xs) ≡ exists p xs)
    → equal_fold "healthy" "healthy" ≡ true
    → let r = build_health_response sort equal_fold critical overloaded tracker now in
      ((name : String) → is_known name tracker.components ≡ true → reports name r.components ≡ true)
      × (critical ≡ true → r.status ≡ "unhealthy")
      × (overloaded ≡ true → r.status ≢ "healthy")
      × (critical ≡ false → overloaded ≡ false → r.status ≡ (get_health tracker now).overall_str)
unfolding build_health_response with_cpu get_health
build_health_response_lem sort equal_fold critical overloaded tracker now kept self =
    let cs = tracker.components in
    let named : (name : String)
        → is_known name cs ≡ true
        → reports name (report_components cs (sort (names_of cs))) ≡ true =
      λ name known.
        report_components-known name cs (sort (names_of cs)) known
          (kept (λ n. str_eq n name) (names_of cs) ∙ names_of_known name cs ∙ known) in
    let resp : HealthResponse = record {
      status = (get_health tracker now).overall_str;
      mode =
          if str_eq (get_health tracker now).mode ""
          then "normal"
          else (get_health tracker now).mode;
      uptime_sec = (get_health tracker now).uptime_sec;
      components = report_components cs (sort (names_of cs));
    } in
    let status = with_cpu_status equal_fold critical overloaded resp self in
    (
      λ name known. with_cpu-reports equal_fold critical overloaded resp name (named name known),
      status.0,
      status.1,
      status.2,
    )
