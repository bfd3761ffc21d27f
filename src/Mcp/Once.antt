-- ===== src/Mcp/Once.antt =====
-- Each request of crates/forge-mcp/src/client.rs has one end at most.
use forge_os.Prelude.{
  ap, ◌∙◌, Text, ℕ, suc, ◌+◌, ◌%◌, ◌≤◌, ◌<◌, ◌==◌, ◌≡◌, refl, subst, Bool, true, false, ◌&&◌, List,
  [], ◌∷◌, ◌++◌, set_remove, mem-set_remove, mem, count_if, leb, if◌then◌else◌, arith, Bool-cases,
  Option-cases, inl, inr,
}
use forge_os.Mcp.{
  IdShape, Client, CallEnd, ClientStep, asks, fails_to_write, waits_too_long, gets_noise,
  gets_response, gets_closed, writes, replace_end, fail_write, time_out, end_call, end_calls,
  end_of, get_response, is_notification, id_u64, client_step, server_closed, write_error, timeout,
  JsonRpcResponse,
}

abbrev pub in_flight : ℕ → List ℕ → ℕ
in_flight k = count_if (λ i. i == k)

abbrev pub ended : {V : Type 0} → ℕ → List (ℕ × CallEnd V) → ℕ
ended k = count_if (λ a. a.0 == k)

count_if-concat :
    {A : Type 0} (p : A → Bool) (xs : List A) (y : A)
    → count_if p (xs ++ y ∷ []) ≡ count_if p xs + (if p y then 1 else 0)
count_if-concat p [] y = ground arith
count_if-concat p (x ∷ xs) y = ground (arith, count_if-concat p xs y)

in_flight-mem : (k : ℕ) (xs : List ℕ) → mem k xs ≡ true → 1 ≤ in_flight k xs
in_flight-mem k [] h = absurd (ground (arith, h))
in_flight-mem k (x ∷ xs) h = elim (Bool-cases (x == k)) [
  | inl same ↦ ground (arith, same)
  | inr other ↦ ground (arith, other, h, in_flight-mem k xs)
]

in_flight-set_remove :
    (k id : ℕ) (xs : List ℕ)
    → in_flight k (set_remove id xs) ≡ (if id == k then 0 else in_flight k xs)
in_flight-set_remove k id [] = ground arith
in_flight-set_remove k id (x ∷ xs) = ground (arith, in_flight-set_remove k id xs)

-- The ids from 1 to `next_id` stand for one call each, which is in flight or has its end.
abbrev pub asked : ℕ → ℕ → ℕ
asked k n = if leb 1 k && leb k n then 1 else 0

abbrev pub EndsOnce : {V : Type 0} → Client V → Type 0
EndsOnce c = (k : ℕ) → in_flight k c.pending + ended k c.ends ≡ asked k c.next_id

asked-le : (k n : ℕ) → asked k n ≤ 1
asked-le k n = ground arith

module _ {V : Type 0} where
  pub end_call-EndsOnce :
      (id : ℕ) (o : CallEnd V) (c : Client V) → EndsOnce c → EndsOnce (end_call id o c)
  unfolding end_call
  end_call-EndsOnce id o c h k = elim (Bool-cases (mem id c.pending)) [
    | inr gone ↦ rw (gone, end_call) (h k)
    | inl there ↦
        let removed = in_flight-set_remove k id c.pending in
        let added = count_if-concat (λ a. a.0 == k) c.ends (id, o) in
        let one = in_flight-mem id c.pending there in
        let most = asked-le id c.next_id in
        rw (there, end_call)
          (elim (Bool-cases (id == k)) [
            | inl same ↦
                let e : id ≡ k = ground (arith, same) in
                let one' : 1 ≤ in_flight k c.pending =
                  subst (λ x. 1 ≤ in_flight x c.pending) e one in
                ground (arith, removed, added, same, one', h k, asked-le k c.next_id)
            | inr other ↦ ground (arith, removed, added, other, h k)
          ])
  ]

  ended-replace_end :
      (k id : ℕ) (o : CallEnd V) (ends : List (ℕ × CallEnd V))
      → ended k (replace_end id o ends) ≡ ended k ends
  ended-replace_end k id o [] = refl
  ended-replace_end k id o (a ∷ ends) = elim (Bool-cases (a.0 == id)) [
    | inl same ↦ ground (arith, same, ended-replace_end k id o ends)
    | inr other ↦ ground (arith, other, ended-replace_end k id o ends)
  ]

  fail_write-EndsOnce :
      (id : ℕ) (e : Text) (c : Client V) → EndsOnce c → EndsOnce (fail_write id e c)
  unfolding fail_write
  fail_write-EndsOnce id e c h = elim (Bool-cases (mem id c.writing)) [
    | inr over ↦ rw (over, fail_write) h
    | inl busy ↦ elim (Bool-cases (mem id c.pending)) [
      | inl there ↦ rw (busy, fail_write) (rw there (end_call-EndsOnce id (write_error e) c h))
      | inr gone ↦
          rw (busy, fail_write)
            (rw gone (λ k.
              ap (λ n. in_flight k c.pending + n) (ended-replace_end k id (write_error e) c.ends)
              ∙ h k))
    ]
  ]

  time_out-EndsOnce : (id : ℕ) (c : Client V) → EndsOnce c → EndsOnce (time_out id c)
  unfolding time_out
  time_out-EndsOnce id c h = elim (Bool-cases (mem id c.writing)) [
    | inl busy ↦ rw (busy, time_out) h
    | inr over ↦ rw (over, time_out) (end_call-EndsOnce id timeout c h)
  ]

  end_calls-EndsOnce :
      (ids : List ℕ) (o : CallEnd V) (c : Client V) → EndsOnce c → EndsOnce (end_calls ids o c)
  unfolding end_calls
  end_calls-EndsOnce [] o c h = h
  end_calls-EndsOnce (id ∷ ids) o c h =
      end_calls-EndsOnce ids o (end_call id o c) (end_call-EndsOnce id o c h)

  end_call-mem :
      (id : ℕ) (o : CallEnd V) (c : Client V) (k : ℕ)
      → mem k (end_call id o c).pending ≡ true
      → (mem k c.pending ≡ true) × ((id == k) ≡ false)
  unfolding end_call
  end_call-mem id o c k h = elim (Bool-cases (mem id c.pending)) [
    | inl there ↦
        let h' : mem k (set_remove id c.pending) ≡ true = rw (there, end_call) at h in
        let removed = mem-set_remove id k c.pending in
        elim (Bool-cases (id == k)) [
          | inl same ↦ absurd (ground (arith, h', removed, same))
          | inr other ↦ (ground (arith, h', removed, other), other)
        ]
    | inr gone ↦
        let h' : mem k c.pending ≡ true = rw (gone, end_call) at h in
        elim (Bool-cases (id == k)) [
          | inr other ↦ (h', other)
          | inl same ↦
              let e : id ≡ k = ground (arith, same) in
              absurd (let g = subst (λ x. mem x c.pending ≡ false) e gone in ground (arith, g, h'))
        ]
  ]

  -- After all of them have ended, nobody waits.
  end_calls-mem :
      (ids : List ℕ) (o : CallEnd V) (c : Client V) (k : ℕ)
      → mem k (end_calls ids o c).pending ≡ true
      → (mem k c.pending ≡ true) × (mem k ids ≡ false)
  unfolding end_calls
  end_calls-mem [] o c k h = (h, refl)
  end_calls-mem (id ∷ ids) o c k h =
      let (before, rest) = end_calls-mem ids o (end_call id o c) k h in
      let (here, differ) = end_call-mem id o c k before in (here, ground (arith, differ, rest))

  pub end_calls_all :
      (o : CallEnd V) (c : Client V) (k : ℕ) → mem k (end_calls c.pending o c).pending ≡ false
  end_calls_all o c k = elim (Bool-cases (mem k (end_calls c.pending o c).pending)) [
    | inr none_left ↦ none_left
    | inl left ↦
        let (before, gone) = end_calls-mem c.pending o c k left in
        absurd (ground (arith, before, gone))
  ]

module _ {V : Type 0} (shape_of : V → IdShape) where
  get_response-EndsOnce :
      (r : JsonRpcResponse V) (c : Client V) → EndsOnce c → EndsOnce (get_response shape_of r c)
  unfolding get_response
  get_response-EndsOnce r c h = elim (Bool-cases (is_notification r)) [
    | inl note ↦ rw (note, get_response) h
    | inr answer ↦ elim (Option-cases (id_u64 shape_of r)) [
      | inl e ↦ rw (answer, get_response) (rw e h)
      | inr (id, e) ↦ rw (answer, get_response) (rw e (end_call-EndsOnce id (end_of r) c h))
    ]
  ]

  pub client_step-EndsOnce :
      (s : ClientStep V) (c : Client V)
      → EndsOnce c
      → suc c.next_id < 18446744073709551616
      → EndsOnce (client_step shape_of s c)
  unfolding client_step
  client_step-EndsOnce asks c h small = λ k.
      let id : (c.next_id + 1) % 18446744073709551616 ≡ suc c.next_id = omega (arith, small) in
      let added = count_if-concat (λ i. i == k) c.pending (suc c.next_id) in
      rw id (ground (arith, added, h k))
  client_step-EndsOnce (writes id) c h small = h
  client_step-EndsOnce (fails_to_write id e) c h small = fail_write-EndsOnce id e c h
  client_step-EndsOnce (waits_too_long id) c h small = time_out-EndsOnce id c h
  client_step-EndsOnce gets_noise c h small = h
  client_step-EndsOnce (gets_response r) c h small = get_response-EndsOnce r c h
  client_step-EndsOnce gets_closed c h small = end_calls-EndsOnce c.pending server_closed c h
