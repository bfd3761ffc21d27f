-- ===== src/Llm.antt =====
-- crates/forge-llm/src/lib.rs: the router over the configured providers, with its circuit breakers
-- and the cost buckets of the missions. The clock, in milliseconds, and the providers' answers are
-- arguments. A map keyed by names is a function on names.
pub mod Trips
pub mod Failover
pub mod Cost
use forge_os.Prelude.{
  ℕ, suc, ◌+◌, ◌%◌, Text, text, text_eq, decimal, Bool, true, false, Option, none, some, List, [],
  ◌∷◌, ◌++◌, Result, ok, err, ltb, leb, if◌then◌else◌,
}

pub data LlmError : Type 0 where
  http : Text → LlmError
  all_failed : Text → LlmError
  no_providers : LlmError
  invalid_response : Text → LlmError
  provider : Text → LlmError

unfoldable pub llm_error_display : LlmError → Text
llm_error_display (http e) = text "http error: " ++ e
llm_error_display (all_failed e) = text "all providers failed; last error: " ++ e
llm_error_display no_providers = text "no providers configured"
llm_error_display (invalid_response e) = text "invalid response: " ++ e
llm_error_display (provider e) = text "provider error: " ++ e

pub record ChatMessage : Type 0 where
  pub role : Text
  pub content : Text

-- The temperature is passed on as its 32 bits.
pub record CompletionRequest : Type 0 where
  pub model : Text
  pub messages : List ChatMessage
  pub temperature : Option ℕ
  pub max_tokens : Option ℕ
  pub json_mode : Bool
  pub mission_id : Option Text

pub record CompletionResponse : Type 0 where
  pub content : Text
  pub prompt_tokens : ℕ
  pub completion_tokens : ℕ
  pub provider : Text
  pub model : Text
  pub latency_ms : ℕ

-- A call of the event sink.
pub data SinkCall : Type 0 where
  on_request : (request_id provider model : Text) (mission_id : Option Text) → SinkCall
  on_response :
      (request_id provider model : Text) (mission_id : Option Text)
      (prompt_tokens completion_tokens latency_ms : ℕ)
      → SinkCall
  on_failure : (request_id provider model : Text) (mission_id : Option Text) (e : Text) → SinkCall

pub record MissionLlmCost : Type 0 where
  pub calls : ℕ
  pub prompt_tokens : ℕ
  pub completion_tokens : ℕ
  pub total_latency_ms : ℕ

-- `fetch_add` of an `AtomicU64`, which wraps around.
abbrev pub fetch_add : ℕ → ℕ → ℕ
fetch_add a b = (a + b) % 18446744073709551616

abbrev pub no_cost : MissionLlmCost
no_cost = record { calls = 0; prompt_tokens = 0; completion_tokens = 0; total_latency_ms = 0 }

unfoldable pub add : MissionLlmCost → CompletionResponse → MissionLlmCost
add b resp = record {
  calls = fetch_add b.calls 1;
  prompt_tokens = fetch_add b.prompt_tokens resp.prompt_tokens;
  completion_tokens = fetch_add b.completion_tokens resp.completion_tokens;
  total_latency_ms = fetch_add b.total_latency_ms resp.latency_ms;
}

-- A `u32` counts the failures.
pub record Breaker : Type 0 where
  pub open_until : Option ℕ
  pub consecutive_failures : ℕ

abbrev pub closed : Breaker
closed = record { open_until = none; consecutive_failures = 0 }

pub record LlmRouter : Type 0 where
  pub providers : List Text
  pub has_sink : Bool
  pub breakers : Text → Option Breaker
  pub costs : Text → Option MissionLlmCost
  pub request_seq : ℕ

abbrev pub new : List Text → LlmRouter
new providers = record {
  providers = providers;
  has_sink = false;
  breakers = λ _. none;
  costs = λ _. none;
  request_seq = 0;
}

-- `DashMap::insert`.
abbrev pub put {ℓ} : {A : Type ℓ} → Text → A → (Text → Option A) → Text → Option A
put key v m k = if text_eq key k then some v else m k

-- `DashMap::remove`.
abbrev pub delete {ℓ} : {A : Type ℓ} → Text → (Text → Option A) → Text → Option A
delete key m k = if text_eq key k then none else m k

abbrev pub unwrap_or {ℓ} : {A : Type ℓ} → A → Option A → A
unwrap_or d none = d
unwrap_or d (some x) = x

unfoldable pub next_request_id : Option Text → LlmRouter → Text × LlmRouter
next_request_id mission_id r =
    let n = fetch_add r.request_seq 1 in
    (
      elim mission_id [ some m ↦ m ++ text ":" ++ decimal n | none ↦ text "free:" ++ decimal n ],
      record r { request_seq = fetch_add r.request_seq 1 },
    )

unfoldable pub drain_mission_cost : Text → LlmRouter → LlmRouter × Option MissionLlmCost
drain_mission_cost mission_id r =
    (record r { costs = delete mission_id r.costs }, r.costs mission_id)

-- The test of one breaker at an instant.
abbrev pub is_open_at : ℕ → Breaker → Bool
is_open_at now b = elim b.open_until [ none ↦ false | some t ↦ ltb now t ]

unfoldable pub is_open : ℕ → Text → LlmRouter → Bool
is_open now name r = is_open_at now (unwrap_or closed (r.breakers name))

unfoldable pub record_success : Text → LlmRouter → LlmRouter
record_success name r = record r { breakers = put name closed r.breakers }

-- One more failure of a provider.
unfoldable pub trip : ℕ → Breaker → Breaker
trip now b =
    let n = (b.consecutive_failures + 1) % 4294967296 in
    if leb 3 n
    then record { open_until = some (now + 30000); consecutive_failures = n }
    else record b { consecutive_failures = n }

unfoldable pub record_failure : ℕ → Text → LlmRouter → LlmRouter
record_failure now name r = record r {
  breakers = put name (trip now (unwrap_or closed (r.breakers name))) r.breakers;
}

-- What a call meets at the provider of each place: when its breaker is read, when a failure of it
-- is noted, and what it answers.
pub record Weather : Type 0 where
  pub read_at : ℕ → ℕ
  pub noted_at : ℕ → ℕ
  pub answer : ℕ → CompletionRequest → Result LlmError CompletionResponse

-- The cost of a successful call, for the mission that it is for.
unfoldable pub charge : Option Text → CompletionResponse → LlmRouter → LlmRouter
charge none resp r = r
charge (some m) resp r = record r {
  costs = put m (add (unwrap_or no_cost (r.costs m)) resp) r.costs;
}

-- `all_errs.join(" | ")`
unfoldable pub join : List Text → Text
join [] = []
join (x ∷ []) = x
join (x ∷ y ∷ ys) = x ++ text " | " ++ join (y ∷ ys)

unfoldable pub combined : List Text → Text
combined [] = text "no attempt made"
combined (x ∷ xs) = join (x ∷ xs)

abbrev pub Routed : Type 0
Routed = Result LlmError CompletionResponse × LlmRouter × List SinkCall

abbrev pub error_line : Text → LlmError → Text
error_line p e = text "[" ++ p ++ text "] " ++ llm_error_display e

-- The loop over the providers, from a place on.
unfoldable pub failover :
    Weather → Text → CompletionRequest → List Text → ℕ → List Text → LlmRouter → Routed
failover w id req [] i errs r = (err (all_failed (combined errs)), r, [])
failover w id req (p ∷ ps) i errs r =
    let skip = failover w id req ps (suc i) errs r in
    let asked = on_request id p req.model req.mission_id in
    if is_open (w.read_at i) p r then skip else elim (w.answer i req) [
      | ok resp ↦ (
        ok resp,
        charge req.mission_id resp (record_success p r),
        asked
            ∷ on_response id resp.provider resp.model req.mission_id resp.prompt_tokens
                resp.completion_tokens resp.latency_ms
            ∷ [],
      )
      | err e ↦
          let failed = on_failure id p req.model req.mission_id (llm_error_display e) in
          let (result, r', more) =
            failover w id req ps (suc i) (errs ++ error_line p e ∷ [])
              (record_failure (w.noted_at i) p r) in
          (result, r', asked ∷ failed ∷ more)
    ]

-- `complete` on the given providers.
unfoldable pub complete_with : Weather → CompletionRequest → LlmRouter → List Text → Routed
unfolding next_request_id failover
complete_with w req r [] = (err no_providers, r, [])
complete_with w req r (p ∷ ps) =
    let (id, r') = next_request_id req.mission_id r in
    let (result, r'', calls) = failover w id req (p ∷ ps) 0 [] r' in
    (result, r'', if r.has_sink then calls else [])

unfoldable pub complete : Weather → CompletionRequest → LlmRouter → Routed
unfolding complete_with
complete w req r = complete_with w req r r.providers
