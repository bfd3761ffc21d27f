-- ===== src/Tests/Llm.antt =====
-- Calls of the LLM router of crates/forge-llm.
use forge_os.Prelude.{
  ◌≡◌, refl, Text, text, text_eq, false, ◌&&◌, some, none, List, [], ◌∷◌, ok, err, arith,
  if◌then◌else◌, ◌==◌, leb, ltb, ◌+◌, ◌%◌,
}
use forge_os.Llm.{
  Weather, CompletionRequest, CompletionResponse, http, new, complete, complete_with, failover,
  is_open, charge, add, record_success, record_failure, trip, next_request_id, drain_mission_cost,
  no_cost, unwrap_or,
}
use forge_os.Llm.Trips.{Answers, replay, streak, newest, is_open-streak}
use forge_os.Llm.Failover.{verdict, first_answer, error_lines, complete_first}
use forge_os.Llm.Cost.{Calls, serve, spent, drain_mission_cost-spent}

abbrev names : List Text
names = text "openai" ∷ text "ollama" ∷ []

abbrev three_failures : Answers
three_failures =
    (text "openai", some 900)
    ∷ (text "ollama", none)
    ∷ (text "openai", some 500)
    ∷ (text "openai", some 100)
    ∷ []

is_open-streak_example : is_open 30899 (text "openai") (replay three_failures (new names)) ≡ (
    leb 3 (streak (text "openai") three_failures)
    && ltb 30899 (newest (text "openai") three_failures + 30000))
is_open-streak_example = is_open-streak (text "openai") names three_failures 30899 (omega arith)

abbrev request : CompletionRequest
request = record {
  model = text "m";
  messages = [];
  temperature = none;
  max_tokens = none;
  json_mode = false;
  mission_id = some (text "7");
}

abbrev response : CompletionResponse
response = record {
  content = text "hi";
  prompt_tokens = 3;
  completion_tokens = 4;
  provider = text "ollama";
  model = text "m";
  latency_ms = 5;
}

-- The first provider fails and the second answers.
abbrev weather : Weather
weather = record {
  read_at = λ _. 0;
  noted_at = λ _. 0;
  answer = λ i req. if i == 0 then err (http (text "down")) else ok response;
}

routed : Unit {0}
unfolding complete complete_with failover is_open charge add record_success record_failure trip
    next_request_id drain_mission_cost serve text_eq
routed = tt

second_answers : (complete weather request (new names)).0 ≡ ok response
unfolding routed
second_answers = refl

names_differ : text_eq (text "openai") (text "ollama") ≡ false
unfolding text_eq
names_differ = refl

complete_first_example :
    (complete weather request (new names)).0
    ≡ verdict weather request
        (first_answer weather request (new names) names 0)
        (error_lines weather request (new names) names 0)
complete_first_example =
    complete_first weather request (new names) (text "openai") (text "ollama" ∷ []) refl
      ((names_differ, tt), (tt, tt))

abbrev two_calls : Calls
two_calls = (weather, request) ∷ (weather, request) ∷ []

two_calls_cost :
    (drain_mission_cost (text "7") (serve two_calls (new names))).1
    ≡ some (record { calls = 2; prompt_tokens = 6; completion_tokens = 8; total_latency_ms = 10 })
unfolding routed
two_calls_cost = refl

drain_mission_cost-spent_example :
    let (r', cost) = drain_mission_cost (text "7") (serve two_calls (new names)) in
    (unwrap_or no_cost cost ≡ record {
      calls = spent (λ _. 1) (text "7") two_calls (new names) % 18446744073709551616;
      prompt_tokens =
          spent (λ a. a.prompt_tokens) (text "7") two_calls (new names) % 18446744073709551616;
      completion_tokens =
          spent (λ a. a.completion_tokens) (text "7") two_calls (new names) % 18446744073709551616;
      total_latency_ms =
          spent (λ a. a.latency_ms) (text "7") two_calls (new names) % 18446744073709551616;
    })
    × ((drain_mission_cost (text "7") r').1 ≡ none)
drain_mission_cost-spent_example = drain_mission_cost-spent (text "7") names two_calls
