-- ===== src/Llm/Failover.antt =====
-- Which provider's answer `LlmRouter::complete` of crates/forge-llm/src/lib.rs returns.
use forge_os.Prelude.{
  ℕ, suc, ◌≡◌, refl, sym, subst, ap, ◌∙◌, Text, text_eq, false, Option, none, some, List, [], ◌∷◌,
  ◌++◌, append_assoc, append-nil, Result, ok, err, if◌then◌else◌, All, Bool-cases, Result-cases,
  inl, inr,
}
use forge_os.Llm.{
  LlmError, all_failed, CompletionRequest, CompletionResponse, LlmRouter, Weather, is_open,
  record_failure, next_request_id, combined, error_line, failover, complete, complete_with,
}

abbrev pub Distinct : List Text → Type 0
Distinct [] = Unit
Distinct (p ∷ ps) = All (λ q. text_eq p q ≡ false) ps × Distinct ps

module _ (w : Weather) (req : CompletionRequest) where
  -- The first answer among the providers whose breakers are closed when the call begins.
  abbrev pub first_answer : LlmRouter → List Text → ℕ → Option CompletionResponse
  first_answer r [] i = none
  first_answer r (p ∷ ps) i =
      let rest = first_answer r ps (suc i) in
      if is_open (w.read_at i) p r
      then rest
      else elim (w.answer i req) [ ok resp ↦ some resp | err _ ↦ rest ]

  -- The errors of the providers whose breakers are closed when the call begins.
  abbrev pub error_lines : LlmRouter → List Text → ℕ → List Text
  error_lines r [] i = []
  error_lines r (p ∷ ps) i =
      let rest = error_lines r ps (suc i) in
      if is_open (w.read_at i) p r
      then rest
      else elim (w.answer i req) [ ok resp ↦ rest | err e ↦ error_line p e ∷ rest ]

  abbrev pub verdict : Option CompletionResponse → List Text → Result LlmError CompletionResponse
  verdict (some resp) lines = ok resp
  verdict none lines = err (all_failed (combined lines))

  abbrev Agree : List Text → LlmRouter → LlmRouter → Type 0
  Agree ps r r₀ = All (λ q. r.breakers q ≡ r₀.breakers q) ps

  record_failure-Agree :
      (p : Text) (now : ℕ) (ps : List Text) (r r₀ : LlmRouter)
      → All (λ q. text_eq p q ≡ false) ps
      → Agree ps r r₀
      → Agree ps (record_failure now p r) r₀
  unfolding record_failure
  record_failure-Agree p now [] r r₀ d h = tt
  record_failure-Agree p now (q ∷ ps) r r₀ d h =
      (rw d.0 h.0, record_failure-Agree p now ps r r₀ d.1 h.1)

  is_open-Agree :
      (now : ℕ) (p : Text) (r r₀ : LlmRouter)
      → r.breakers p ≡ r₀.breakers p
      → is_open now p r ≡ is_open now p r₀
  unfolding is_open
  is_open-Agree now p r r₀ e = rw e refl

  failover-verdict :
      (id : Text) (ps : List Text) (i : ℕ) (errs : List Text) (r r₀ : LlmRouter)
      → Distinct ps
      → Agree ps r r₀
      → (failover w id req ps i errs r).0
        ≡ verdict (first_answer r₀ ps i) (errs ++ error_lines r₀ ps i)
  unfolding failover
  failover-verdict id [] i errs r r₀ d h =
      ap (λ l. err (all_failed (combined l))) (sym (append-nil errs))
  failover-verdict id (p ∷ ps) i errs r r₀ d h = elim (Bool-cases (is_open (w.read_at i) p r₀)) [
    | inl skip ↦
        rw (is_open-Agree (w.read_at i) p r r₀ h.0, skip)
          (failover-verdict id ps (suc i) errs r r₀ d.1 h.1)
    | inr call ↦ elim (Result-cases (w.answer i req)) [
      | inl (resp, good) ↦ rw (is_open-Agree (w.read_at i) p r r₀ h.0, call, good) refl
      | inr (e, bad) ↦
          let r' = record_failure (w.noted_at i) p r in
          rw (is_open-Agree (w.read_at i) p r r₀ h.0, call, bad)
            (failover-verdict id ps (suc i) (errs ++ error_line p e ∷ []) r' r₀ d.1
                (record_failure-Agree p (w.noted_at i) ps r r₀ d.0 h.1)
              ∙ ap (verdict (first_answer r₀ ps (suc i)))
                  (append_assoc errs (error_line p e ∷ []) (error_lines r₀ ps (suc i))))
    ]
  ]

  Agree-refl : (ps : List Text) (r : LlmRouter) → Agree ps r r
  Agree-refl [] r = tt
  Agree-refl (p ∷ ps) r = (refl, Agree-refl ps r)

  -- For one or more providers with distinct names, a call's result is the first answer that a
  -- provider with a closed breaker gives, in their order. If none gives any, the call fails with
  -- the errors of all that were asked. What fails during the call changes neither.
  pub complete_first :
      (r : LlmRouter) (p : Text) (ps : List Text)
      → r.providers ≡ p ∷ ps
      → Distinct (p ∷ ps)
      → (complete w req r).0 ≡ verdict (first_answer r (p ∷ ps) 0) (error_lines r (p ∷ ps) 0)
  unfolding complete complete_with next_request_id
  complete_first r p ps e d =
      subst
        (λ l.
          (complete_with w req r l).0
          ≡ verdict (first_answer r (p ∷ ps) 0) (error_lines r (p ∷ ps) 0))
        (sym e)
        (failover-verdict (next_request_id req.mission_id r).0 (p ∷ ps) 0 []
          (next_request_id req.mission_id r).1 r d (Agree-refl (p ∷ ps) r))
