-- ===== src/Tests/Mcp.antt =====
-- A client of crates/forge-mcp/src/client.rs with three callers.
use forge_os.Prelude.{ℕ, text, ◌≡◌, refl, none, some, List, [], ◌∷◌, arith}
use forge_os.Mcp.{
  number, ClientStep, asks, waits_too_long, gets_noise, gets_response, gets_closed, JsonRpcResponse,
  value, timeout, write_error, fails_to_write, writes, fail_write, time_out, is_notification,
  end_call, end_calls, id_u64, get_response, client_step, client_steps,
}
use forge_os.Mcp.Matched.{IsMatched, new_client, client_steps-IsMatched}

opened : Unit {0}
unfolding is_notification fail_write time_out end_call end_calls id_u64 get_response client_step
    client_steps
opened = tt

abbrev answer : ℕ → ℕ → JsonRpcResponse ℕ
answer id v = record { id = some id; result = some v; error = none; method = none }

-- The second is answered first, the first too late, and its answer comes after its end. The server
-- closes before the third has been written.
abbrev history : List (ClientStep ℕ)
history =
    asks
    ∷ asks
    ∷ asks
    ∷ writes 1
    ∷ writes 2
    ∷ gets_noise
    ∷ gets_response (answer 2 20)
    ∷ waits_too_long 1
    ∷ gets_response (answer 1 10)
    ∷ gets_response (answer 2 21)
    ∷ gets_closed
    ∷ fails_to_write 3 (text "pipe")
    ∷ []

client_steps-IsMatched_example :
    IsMatched
      (λ v. number (some v))
      history
      (client_steps (λ v. number (some v)) history new_client)
client_steps-IsMatched_example = client_steps-IsMatched (λ v. number (some v)) history (omega arith)

ends_in_turn :
    (client_steps (λ v. number (some v)) history new_client).ends
    ≡ (2, value 20) ∷ (1, timeout) ∷ (3, write_error (text "pipe")) ∷ []
unfolding opened
ends_in_turn = refl
