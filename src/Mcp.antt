-- ===== src/Mcp.antt =====
-- crates/forge-mcp/src/client.rs: the requests of one `McpClient` in flight, the frames that its pump
-- task reads, and the ends of the callers, as steps of one history. `V` is the JSON value type of
-- serde_json and `shape_of` tells what one of them is.
pub mod Once
pub mod Matched
use forge_os.Skills.Version.{parse_u64}
use forge_os.Prelude.{
  ℕ, ◌+◌, ◌%◌, ◌==◌, Text, Bool, true, false, not, ◌&&◌, Option, none, some, List, [], ◌∷◌, ◌++◌,
  set_remove, mem, map, if◌then◌else◌,
}

pub record JsonRpcErrorObj (V : Type 0) : Type 0 where
  pub code : ℕ
  pub message : Text
  pub details : Option V  -- `data`

pub record JsonRpcResponse (V : Type 0) : Type 0 where
  pub id : Option V
  pub result : Option V
  pub error : Option (JsonRpcErrorObj V)
  pub method : Option Text

-- What a caller gets.
pub data CallEnd (V : Type 0) : Type 0 where
  value : V → CallEnd V
  null : CallEnd V
  rpc : JsonRpcErrorObj V → CallEnd V
  write_error : Text → CallEnd V
  timeout : CallEnd V
  server_closed : CallEnd V

-- `next_id`, the keys of `pending`, the callers that still write their request, and what the callers
-- get so far: of those that write, what waits for them in their channel.
pub record Client (V : Type 0) : Type 0 where
  pub next_id : ℕ
  pub pending : List ℕ
  pub writing : List ℕ
  pub ends : List (ℕ × CallEnd V)

-- A caller asks; its write works or fails, or it has waited too long; the pump gets a frame that is no JSON,
-- a response, or the end of the server.
pub data ClientStep (V : Type 0) : Type 0 where
  asks : ClientStep V
  writes : ℕ → ClientStep V
  fails_to_write : ℕ → Text → ClientStep V
  waits_too_long : ℕ → ClientStep V
  gets_noise : ClientStep V
  gets_response : JsonRpcResponse V → ClientStep V
  gets_closed : ClientStep V

abbrev is_null : {A : Type 0} → Option A → Bool
is_null none = true
is_null (some _) = false

unfoldable pub is_notification : {V : Type 0} → JsonRpcResponse V → Bool
is_notification r = is_null r.id && not (is_null r.method)

-- The caller with this id, if there is one still, gets its end.
unfoldable pub end_call : {V : Type 0} → ℕ → CallEnd V → Client V → Client V
end_call id o c =
    if mem id c.pending
    then record c { pending = set_remove id c.pending; ends = c.ends ++ (id, o) ∷ [] }
    else c

-- A caller whose write fails returns the error, whatever waits in its channel.
abbrev pub replace_end : {V : Type 0} → ℕ → CallEnd V → List (ℕ × CallEnd V) → List (ℕ × CallEnd V)
replace_end id o = map (λ a. if a.0 == id then (id, o) else a)

abbrev pub end_or_replace : {V : Type 0} → ℕ → CallEnd V → Client V → Client V
end_or_replace id o c =
    if mem id c.pending then end_call id o c else record c { ends = replace_end id o c.ends }

abbrev pub written : {V : Type 0} → ℕ → Client V → Client V
written id c = record c { writing = set_remove id c.writing }

unfoldable pub fail_write : {V : Type 0} → ℕ → Text → Client V → Client V
fail_write id e c = if mem id c.writing then written id (end_or_replace id (write_error e) c) else c

-- The wait begins after the write.
unfoldable pub time_out : {V : Type 0} → ℕ → Client V → Client V
time_out id c = if mem id c.writing then c else end_call id timeout c

unfoldable pub end_calls : {V : Type 0} → List ℕ → CallEnd V → Client V → Client V
unfolding end_call
end_calls [] o c = c
end_calls (id ∷ ids) o c = end_calls ids o (end_call id o c)

abbrev pub result_of : {V : Type 0} → Option V → CallEnd V
result_of none = null
result_of (some v) = value v

abbrev pub end_of : {V : Type 0} → JsonRpcResponse V → CallEnd V
end_of r = elim r.error [ some e ↦ rpc e | none ↦ result_of r.result ]

-- What `Value` is to `id_u64`: a number with its `as_u64`, a string, or something else.
pub data IdShape : Type 0 where
  number : Option ℕ → IdShape
  string : Text → IdShape
  other : IdShape

module _ {V : Type 0} (shape_of : V → IdShape) where
  unfoldable pub id_u64 : JsonRpcResponse V → Option ℕ
  unfolding parse_u64
  id_u64 r = elim r.id [
    | none ↦ none
    | some v ↦ elim (shape_of v) [ number n ↦ n | string s ↦ parse_u64 s | other ↦ none ]
  ]

  unfoldable pub get_response : JsonRpcResponse V → Client V → Client V
  unfolding is_notification id_u64 end_call
  get_response r c = elim (is_notification r) [
    | true ↦ c
    | false ↦ elim (id_u64 r) [ none ↦ c | some id ↦ end_call id (end_of r) c ]
  ]

  -- A `u64` counter wraps.
  unfoldable pub client_step : ClientStep V → Client V → Client V
  unfolding get_response end_calls fail_write time_out
  client_step asks c =
      let id = (c.next_id + 1) % 18446744073709551616 in
      record c { next_id = id; pending = c.pending ++ id ∷ []; writing = c.writing ++ id ∷ [] }
  client_step (writes id) c = written id c
  client_step (fails_to_write id e) c = fail_write id e c
  client_step (waits_too_long id) c = time_out id c
  client_step gets_noise c = c
  client_step (gets_response r) c = get_response r c
  client_step gets_closed c = end_calls c.pending server_closed c

  unfoldable pub client_steps : List (ClientStep V) → Client V → Client V
  unfolding client_step
  client_steps [] c = c
  client_steps (s ∷ ss) c = client_steps ss (client_step s c)
