-- ===== src/Mcp/Matched.antt =====
-- Each end of a call in crates/forge-mcp/src/client.rs has its cause.
use forge_os.Prelude.{
  ◌==◌, Text, ℕ, suc, ◌+◌, ◌≤◌, ◌<◌, ◌≡◌, refl, sym, ◌∙◌, subst, false, some, List, [], ◌∷◌, ◌++◌,
  mem, length, All, All-append, ◌⊎◌, inl, inr, arith, Bool-cases, Option-cases, append_assoc,
  append-nil,
}
use forge_os.Mcp.{
  IdShape, Client, CallEnd, ClientStep, asks, fails_to_write, waits_too_long, gets_noise,
  gets_response, gets_closed, writes, replace_end, fail_write, time_out, end_call, end_calls,
  end_of, get_response, is_notification, id_u64, client_step, client_steps, server_closed,
  write_error, timeout, JsonRpcResponse,
}
use forge_os.Mcp.Once.{EndsOnce, client_step-EndsOnce, end_calls_all}

abbrev pub new_client : {V : Type 0} → Client V
new_client = record { next_id = 0; pending = []; writing = []; ends = [] }

module _ {V : Type 0} where
  end_call-next_id : (id : ℕ) (o : CallEnd V) (c : Client V) → (end_call id o c).next_id ≡ c.next_id
  unfolding end_call
  end_call-next_id id o c = elim (Bool-cases (mem id c.pending)) [
    | inl there ↦ rw (there, end_call) refl
    | inr gone ↦ rw (gone, end_call) refl
  ]

  end_calls-next_id :
      (ids : List ℕ) (o : CallEnd V) (c : Client V) → (end_calls ids o c).next_id ≡ c.next_id
  unfolding end_calls
  end_calls-next_id [] o c = refl
  end_calls-next_id (id ∷ ids) o c =
      end_calls-next_id ids o (end_call id o c) ∙ end_call-next_id id o c

  fail_write-next_id : (id : ℕ) (e : Text) (c : Client V) → (fail_write id e c).next_id ≡ c.next_id
  unfolding fail_write
  fail_write-next_id id e c = elim (Bool-cases (mem id c.writing)) [
    | inr over ↦ rw (over, fail_write) refl
    | inl busy ↦ elim (Bool-cases (mem id c.pending)) [
      | inl there ↦ rw (busy, fail_write) (rw there (end_call-next_id id (write_error e) c))
      | inr gone ↦ rw (busy, fail_write) (rw gone refl)
    ]
  ]

  time_out-next_id : (id : ℕ) (c : Client V) → (time_out id c).next_id ≡ c.next_id
  unfolding time_out
  time_out-next_id id c = elim (Bool-cases (mem id c.writing)) [
    | inl busy ↦ rw (busy, time_out) refl
    | inr over ↦ rw (over, time_out) (end_call-next_id id timeout c)
  ]

  module _ (P : ℕ × CallEnd V → Type 0) where
    end_call-ends :
        (id : ℕ) (o : CallEnd V) (c : Client V)
        → P (id, o)
        → All P c.ends
        → All P (end_call id o c).ends
    unfolding end_call
    end_call-ends id o c new old = elim (Bool-cases (mem id c.pending)) [
      | inl there ↦ rw (there, end_call) (All-append P c.ends ((id, o) ∷ []) old (new, tt))
      | inr gone ↦ rw (gone, end_call) old
    ]

    All-replace_end :
        (id : ℕ) (o : CallEnd V) (ends : List (ℕ × CallEnd V))
        → P (id, o)
        → All P ends
        → All P (replace_end id o ends)
    All-replace_end id o [] new old = tt
    All-replace_end id o (a ∷ ends) new old = elim (Bool-cases (a.0 == id)) [
      | inl same ↦ rw same (new, All-replace_end id o ends new old.1)
      | inr other ↦ rw other (old.0, All-replace_end id o ends new old.1)
    ]

    fail_write-ends :
        (id : ℕ) (e : Text) (c : Client V)
        → P (id, write_error e)
        → All P c.ends
        → All P (fail_write id e c).ends
    unfolding fail_write
    fail_write-ends id e c new old = elim (Bool-cases (mem id c.writing)) [
      | inr over ↦ rw (over, fail_write) old
      | inl busy ↦ elim (Bool-cases (mem id c.pending)) [
        | inl there ↦ rw (busy, fail_write) (rw there (end_call-ends id (write_error e) c new old))
        | inr gone ↦
            rw (busy, fail_write) (rw gone (All-replace_end id (write_error e) c.ends new old))
      ]
    ]

    time_out-ends :
        (id : ℕ) (c : Client V) → P (id, timeout) → All P c.ends → All P (time_out id c).ends
    unfolding time_out
    time_out-ends id c new old = elim (Bool-cases (mem id c.writing)) [
      | inl busy ↦ rw (busy, time_out) old
      | inr over ↦ rw (over, time_out) (end_call-ends id timeout c new old)
    ]

    end_calls-ends :
        (ids : List ℕ) (o : CallEnd V) (c : Client V)
        → ((id : ℕ) → P (id, o))
        → All P c.ends
        → All P (end_calls ids o c).ends
    unfolding end_calls
    end_calls-ends [] o c new old = old
    end_calls-ends (id ∷ ids) o c new old =
        end_calls-ends ids o (end_call id o c) new (end_call-ends id o c (new id) old)

module _ {V : Type 0} (shape_of : V → IdShape) where
  -- The step gives the caller `id` the end `o`.
  abbrev pub Causes : ClientStep V → ℕ × CallEnd V → Type 0
  Causes asks a = ⊥
  Causes (writes id) a = ⊥
  Causes (fails_to_write id e) a = a ≡ (id, write_error e)
  Causes (waits_too_long id) a = a ≡ (id, timeout)
  Causes gets_noise a = ⊥
  Causes (gets_response r) a = (id_u64 shape_of r ≡ some a.0) × (a.1 ≡ end_of r)
  Causes gets_closed a = a.1 ≡ server_closed

  abbrev pub Caused : List (ClientStep V) → ℕ × CallEnd V → Type 0
  Caused [] a = ⊥
  Caused (s ∷ ss) a = Causes s a ⊎ Caused ss a

  Caused-more :
      (ss ts : List (ClientStep V)) (a : ℕ × CallEnd V) → Caused ss a → Caused (ss ++ ts) a
  Caused-more [] ts a h = absurd h
  Caused-more (s ∷ ss) ts a (inl now) = inl now
  Caused-more (s ∷ ss) ts a (inr later) = inr (Caused-more ss ts a later)

  Caused-last :
      (ss : List (ClientStep V)) (s : ClientStep V) (a : ℕ × CallEnd V)
      → Causes s a
      → Caused (ss ++ s ∷ []) a
  Caused-last [] s a h = inl h
  Caused-last (x ∷ ss) s a h = inr (Caused-last ss s a h)

  All_more :
      (ss ts : List (ClientStep V)) (ends : List (ℕ × CallEnd V))
      → All (Caused ss) ends
      → All (Caused (ss ++ ts)) ends
  All_more ss ts [] h = tt
  All_more ss ts (a ∷ ends) h = (Caused-more ss ts a h.0, All_more ss ts ends h.1)

  client_step-Caused :
      (ss : List (ClientStep V)) (s : ClientStep V) (c : Client V)
      → All (Caused ss) c.ends
      → All (Caused (ss ++ s ∷ [])) (client_step shape_of s c).ends
  unfolding client_step get_response
  client_step-Caused ss asks c h = All_more ss (asks ∷ []) c.ends h
  client_step-Caused ss (writes id) c h = All_more ss (writes id ∷ []) c.ends h
  client_step-Caused ss (fails_to_write id e) c h =
      fail_write-ends (Caused (ss ++ fails_to_write id e ∷ [])) id e c
        (Caused-last ss (fails_to_write id e) (id, write_error e) refl) (All_more ss _ c.ends h)
  client_step-Caused ss (waits_too_long id) c h =
      time_out-ends (Caused (ss ++ waits_too_long id ∷ [])) id c
        (Caused-last ss (waits_too_long id) (id, timeout) refl) (All_more ss _ c.ends h)
  client_step-Caused ss gets_noise c h = All_more ss (gets_noise ∷ []) c.ends h
  client_step-Caused ss (gets_response r) c h =
      let more = All_more ss (gets_response r ∷ []) c.ends h in
      elim (Bool-cases (is_notification r)) [
        | inl note ↦ rw (note, get_response) more
        | inr answer ↦ elim (Option-cases (id_u64 shape_of r)) [
          | inl e ↦ rw (answer, get_response) (rw e more)
          | inr (id, e) ↦
              rw (answer, get_response)
                (rw e (
                  end_call-ends (Caused (ss ++ gets_response r ∷ [])) id (end_of r) c
                    (Caused-last ss (gets_response r) (id, end_of r) (e, refl)) more))
        ]
      ]
  client_step-Caused ss gets_closed c h =
      end_calls-ends (Caused (ss ++ gets_closed ∷ [])) c.pending server_closed c
        (λ id. Caused-last ss gets_closed (id, server_closed) refl) (All_more ss _ c.ends h)

  get_response-next_id :
      (r : JsonRpcResponse V) (c : Client V) → (get_response shape_of r c).next_id ≡ c.next_id
  unfolding get_response
  get_response-next_id r c = elim (Bool-cases (is_notification r)) [
    | inl note ↦ rw (note, get_response) refl
    | inr answer ↦ elim (Option-cases (id_u64 shape_of r)) [
      | inl e ↦ rw (answer, get_response) (rw e refl)
      | inr (id, e) ↦ rw (answer, get_response) (rw e (end_call-next_id id (end_of r) c))
    ]
  ]

  client_step-next_id :
      (s : ClientStep V) (c : Client V)
      → suc c.next_id < 18446744073709551616
      → (client_step shape_of s c).next_id ≤ suc c.next_id
  unfolding client_step
  client_step-next_id asks c small = omega (arith, small)
  client_step-next_id (writes id) c small = omega arith
  client_step-next_id (fails_to_write id e) c small = omega (arith, fail_write-next_id id e c)
  client_step-next_id (waits_too_long id) c small = omega (arith, time_out-next_id id c)
  client_step-next_id gets_noise c small = omega arith
  client_step-next_id (gets_response r) c small = omega (arith, get_response-next_id r c)
  client_step-next_id gets_closed c small =
      omega (arith, end_calls-next_id c.pending server_closed c)

  pub record IsMatched (ss : List (ClientStep V)) (c : Client V) : Type 0 where
    pub once : EndsOnce c
    pub caused : All (Caused ss) c.ends
    pub closes : (k : ℕ) → mem k (client_step shape_of gets_closed c).pending ≡ false

  closes_all : (c : Client V) (k : ℕ) → mem k (client_step shape_of gets_closed c).pending ≡ false
  unfolding client_step
  closes_all c k = end_calls_all server_closed c k

  steps_after :
      (before ss : List (ClientStep V)) (c : Client V)
      → EndsOnce c
      → All (Caused before) c.ends
      → c.next_id + length ss < 18446744073709551616
      → IsMatched (before ++ ss) (client_steps shape_of ss c)
  unfolding client_steps
  steps_after before [] c once caused small = record {
    once = once;
    caused = subst (λ l. All (Caused l) c.ends) (sym (append-nil before)) caused;
    closes = closes_all c;
  }
  steps_after before (s ∷ ss) c once caused small =
      let one : suc c.next_id < 18446744073709551616 = omega (arith, small) in
      subst (λ l. IsMatched l (client_steps shape_of ss (client_step shape_of s c)))
        (append_assoc before (s ∷ []) ss)
        (steps_after (before ++ s ∷ []) ss (client_step shape_of s c)
          (client_step-EndsOnce shape_of s c once one) (client_step-Caused before s c caused)
          (omega (arith, small, client_step-next_id s c one)))

-- In any history of fewer than 2^64 - 1 steps of a new client: each id that was given out, from 1 to
-- `next_id`, is that of just one pending request or of just one end, which waits in the channel as
-- long as the caller still writes; no other id is anywhere. Each end comes from a step of the
-- history: from a response with that id, with what this response says, from a failed write or a
-- timeout of that caller, or from the end of the server. And when the server closes, nothing is
-- pending any more.
pub client_steps-IsMatched :
    {V : Type 0} (shape_of : V → IdShape) (ss : List (ClientStep V))
    → length ss < 18446744073709551615
    → IsMatched shape_of ss (client_steps shape_of ss new_client)
client_steps-IsMatched shape_of ss small =
    steps_after shape_of [] ss new_client (λ k. ground arith) tt (omega (arith, small))
