-- ===== src/Llm/Cost.antt =====
-- The cost accounting of crates/forge-llm/src/lib.rs, over any sequence of calls.
use forge_os.Prelude.{
  ℕ, suc, ◌+◌, ◌%◌, ◌≡◌, refl, ap, ◌∙◌, Text, text_eq, text_eq_iff, Bool, false, none, some, List,
  [], ◌∷◌, ◌++◌, Result, ok, err, if◌then◌else◌, Bool-cases, Option-cases, Result-cases, inl, inr,
  arith,
}
use forge_os.Llm.{
  MissionLlmCost, no_cost, add, CompletionRequest, CompletionResponse, LlmRouter, LlmError, Weather,
  is_open, record_failure, record_success, next_request_id, drain_mission_cost, error_line, charge,
  failover, complete, complete_with, unwrap_or, new,
}

-- The calls of a router, the newest first, with what each met.
abbrev pub Calls : Type 0
Calls = List (Weather × CompletionRequest)

unfoldable pub serve : Calls → LlmRouter → LlmRouter
serve [] r = r
serve ((w, req) ∷ cs) r = (complete w req (serve cs r)).1

-- The test whether a request is for a mission.
abbrev pub is_for : Text → CompletionRequest → Bool
is_for m req = elim req.mission_id [ none ↦ false | some k ↦ text_eq k m ]

-- What one result adds to a sum.
abbrev pub plus :
    (CompletionResponse → ℕ) → Text → CompletionRequest → Result LlmError CompletionResponse → ℕ → ℕ
plus f m req (ok resp) n = if is_for m req then n + f resp else n
plus f m req (err _) n = n

-- What the successful calls for a mission count, by the given measure of an answer.
abbrev pub spent : (CompletionResponse → ℕ) → Text → Calls → LlmRouter → ℕ
spent f m [] r = 0
spent f m ((w, req) ∷ cs) r = plus f m req (complete w req (serve cs r)).0 (spent f m cs r)

-- The bucket of a mission after an answer to a request.
abbrev bucket : Text → LlmRouter → MissionLlmCost
bucket m r = unwrap_or no_cost (r.costs m)

abbrev billed :
    Text → CompletionRequest → Result LlmError CompletionResponse → MissionLlmCost → MissionLlmCost
billed m req (ok resp) b = if is_for m req then add b resp else b
billed m req (err _) b = b

charge-billed :
    (m : Text) (req : CompletionRequest) (resp : CompletionResponse) (r : LlmRouter)
    → bucket m (charge req.mission_id resp r) ≡ billed m req (ok resp) (bucket m r)
unfolding charge
charge-billed m req resp r = elim (Option-cases req.mission_id) [
  | inl free ↦ rw free refl
  | inr (k, given) ↦ elim (Bool-cases (text_eq k m)) [
    | inl same ↦ rw given (rw same (ap (λ q. add (bucket q r) resp) ((text_eq_iff k m).0 same)))
    | inr other ↦ rw given (rw other refl)
  ]
]

failover-billed :
    (m : Text) (w : Weather) (id : Text) (req : CompletionRequest) (ps : List Text) (i : ℕ)
    (errs : List Text) (r : LlmRouter)
    → bucket m (failover w id req ps i errs r).1
      ≡ billed m req (failover w id req ps i errs r).0 (bucket m r)
unfolding failover record_success record_failure
failover-billed m w id req [] i errs r = refl
failover-billed m w id req (p ∷ ps) i errs r = elim (Bool-cases (is_open (w.read_at i) p r)) [
  | inl skip ↦ rw skip (failover-billed m w id req ps (suc i) errs r)
  | inr call ↦ elim (Result-cases (w.answer i req)) [
    | inl (resp, good) ↦ rw call (rw good (charge-billed m req resp (record_success p r)))
    | inr (e, bad) ↦ rw call (
        rw bad (
          failover-billed m w id req ps (suc i) (errs ++ error_line p e ∷ [])
            (record_failure (w.noted_at i) p r)))
  ]
]

complete-billed :
    (m : Text) (w : Weather) (req : CompletionRequest) (r : LlmRouter) (ps : List Text)
    → bucket m (complete_with w req r ps).1 ≡ billed m req (complete_with w req r ps).0 (bucket m r)
unfolding complete_with next_request_id
complete-billed m w req r [] = refl
complete-billed m w req r (p ∷ ps) =
    failover-billed m w (next_request_id req.mission_id r).0 req (p ∷ ps) 0 []
      (next_request_id req.mission_id r).1

-- The counter of a bucket that a measure of the answers belongs to.
pub record IsCounter (f : CompletionResponse → ℕ) (get : MissionLlmCost → ℕ) : Type 0 where
  pub starts : get no_cost ≡ 0
  pub counts :
      (b : MissionLlmCost) (resp : CompletionResponse)
      → get (add b resp) ≡ (get b + f resp) % 18446744073709551616

wrap :
    (a b : ℕ)
    → (a % 18446744073709551616 + b) % 18446744073709551616 ≡ (a + b) % 18446744073709551616
wrap a b = omega arith

billed-plus :
    (f : CompletionResponse → ℕ) (get : MissionLlmCost → ℕ)
    → IsCounter f get
    → (m : Text) (req : CompletionRequest) (res : Result LlmError CompletionResponse)
      (b : MissionLlmCost) (n : ℕ)
    → get b ≡ n % 18446744073709551616
    → get (billed m req res b) ≡ plus f m req res n % 18446744073709551616
billed-plus f get is m req (err _) b n e = e
billed-plus f get is m req (ok resp) b n e = elim (Bool-cases (is_for m req)) [
  | inl mine ↦ rw mine (is.counts b resp ∙ rw e (wrap n (f resp)))
  | inr other ↦ rw other e
]

serve-spent :
    (f : CompletionResponse → ℕ) (get : MissionLlmCost → ℕ)
    → IsCounter f get
    → (m : Text) (ps : List Text) (cs : Calls)
    → get (bucket m (serve cs (new ps))) ≡ spent f m cs (new ps) % 18446744073709551616
unfolding serve complete
serve-spent f get is m ps [] = is.starts
serve-spent f get is m ps ((w, req) ∷ cs) =
    let r = serve cs (new ps) in
    ap get (complete-billed m w req r r.providers)
    ∙ billed-plus f get is m req (complete_with w req r r.providers).0 (bucket m r)
        (spent f m cs (new ps)) (serve-spent f get is m ps cs)

add-calls :
    (b : MissionLlmCost) (a : CompletionResponse)
    → (add b a).calls ≡ (b.calls + 1) % 18446744073709551616
unfolding add
add-calls b a = refl

add-prompt_tokens :
    (b : MissionLlmCost) (a : CompletionResponse)
    → (add b a).prompt_tokens ≡ (b.prompt_tokens + a.prompt_tokens) % 18446744073709551616
unfolding add
add-prompt_tokens b a = refl

add-completion_tokens :
    (b : MissionLlmCost) (a : CompletionResponse)
    → (add b a).completion_tokens
      ≡ (b.completion_tokens + a.completion_tokens) % 18446744073709551616
unfolding add
add-completion_tokens b a = refl

add-latency_ms :
    (b : MissionLlmCost) (a : CompletionResponse)
    → (add b a).total_latency_ms ≡ (b.total_latency_ms + a.latency_ms) % 18446744073709551616
unfolding add
add-latency_ms b a = refl

-- After any sequence of calls on a fresh router, draining a mission gives the number of the
-- successful calls made for it and the sums of their tokens and times, each modulo 2 ^ 64. What
-- failed, what other missions used and what was asked for no mission is not in it. A second drain
-- gives nothing.
pub drain_mission_cost-spent :
    (m : Text) (ps : List Text) (cs : Calls)
    → let (r', cost) = drain_mission_cost m (serve cs (new ps)) in
      (unwrap_or no_cost cost ≡ record {
        calls = spent (λ _. 1) m cs (new ps) % 18446744073709551616;
        prompt_tokens = spent (λ a. a.prompt_tokens) m cs (new ps) % 18446744073709551616;
        completion_tokens = spent (λ a. a.completion_tokens) m cs (new ps) % 18446744073709551616;
        total_latency_ms = spent (λ a. a.latency_ms) m cs (new ps) % 18446744073709551616;
      })
      × ((drain_mission_cost m r').1 ≡ none)
unfolding drain_mission_cost
drain_mission_cost-spent m ps cs =
    let one =
      serve-spent (λ _. 1) (λ b. b.calls) (record { starts = refl; counts = add-calls }) m ps cs in
    let two =
      serve-spent (λ a. a.prompt_tokens) (λ b. b.prompt_tokens)
        (record { starts = refl; counts = add-prompt_tokens }) m ps cs in
    let three =
      serve-spent (λ a. a.completion_tokens) (λ b. b.completion_tokens)
        (record { starts = refl; counts = add-completion_tokens }) m ps cs in
    let four =
      serve-spent (λ a. a.latency_ms) (λ b. b.total_latency_ms)
        (record { starts = refl; counts = add-latency_ms }) m ps cs in
    (
      (λ i. record {
        calls = one i;
        prompt_tokens = two i;
        completion_tokens = three i;
        total_latency_ms = four i;
      }),
      rw ((text_eq_iff m m).1 refl) refl,
    )
