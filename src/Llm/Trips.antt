-- ===== src/Llm/Trips.antt =====
-- The circuit breakers of crates/forge-llm/src/lib.rs, after any sequence of answers.
use forge_os.Prelude.{
  ℕ, suc, ◌+◌, ◌%◌, ◌<◌, ◌≤◌, ◌≡◌, refl, Text, text_eq, true, false, ◌&&◌, Option, none, some, List,
  [], ◌∷◌, ltb, leb, if◌then◌else◌, length, text_eq_iff, ap, ◌∙◌, arith, Bool-cases, inl, inr,
}
use forge_os.Llm.{
  Breaker, LlmRouter, new, closed, unwrap_or, is_open, record_success, record_failure, trip,
}

-- The answers of the providers, the newest first: a provider's success, or its failure at a time.
abbrev pub Answers : Type 0
Answers = List (Text × Option ℕ)

unfoldable pub replay : Answers → LlmRouter → LlmRouter
replay [] r = r
replay ((name, none) ∷ h) r = record_success name (replay h r)
replay ((name, some now) ∷ h) r = record_failure now name (replay h r)

-- How many failures of the provider there are since its last success.
abbrev pub streak : Text → Answers → ℕ
streak name [] = 0
streak name ((p, a) ∷ h) =
    let rest = streak name h in
    if text_eq p name then (elim a [ none ↦ 0 | some _ ↦ suc rest ]) else rest

-- The time of the provider's newest failure.
abbrev pub newest : Text → Answers → ℕ
newest name [] = 0
newest name ((p, a) ∷ h) =
    let rest = newest name h in
    if text_eq p name then (elim a [ none ↦ 0 | some now ↦ now ]) else rest

abbrev breaker_of : Text → LlmRouter → Breaker
breaker_of name r = unwrap_or closed (r.breakers name)

abbrev expected : Text → Answers → Breaker
expected name h =
    if leb 3 (streak name h)
    then record { open_until = some (newest name h + 30000); consecutive_failures = streak name h }
    else record { open_until = none; consecutive_failures = streak name h }

streak-le : (name : Text) (h : Answers) → streak name h ≤ length h
streak-le name [] = omega arith
streak-le name ((p, none) ∷ h) = ground (arith, streak-le name h)
streak-le name ((p, some now) ∷ h) = ground (arith, streak-le name h)

-- `n + 1` does not wrap around.
suc-lt : (n : ℕ) → suc n < 4294967296 → (n + 1) % 4294967296 ≡ suc n
suc-lt n lt = omega (arith, lt)

trip-expected :
    (name : Text) (now : ℕ) (h : Answers)
    → suc (streak name h) < 4294967296
    → trip now (expected name h) ≡ (
        if leb 3 (suc (streak name h))
        then record { open_until = some (now + 30000); consecutive_failures = suc (streak name h) }
        else record { open_until = none; consecutive_failures = suc (streak name h) })
unfolding trip
trip-expected name now h lt = elim (Bool-cases (leb 3 (streak name h))) [
  | inl many ↦
      let more : leb 3 (suc (streak name h)) ≡ true = ground (arith, many) in
      rw many (rw (suc-lt (streak name h) lt) (rw more refl))
  | inr few ↦ rw few (rw (suc-lt (streak name h) lt) refl)
]

record_failure-trip :
    (name p : Text) (now : ℕ) (r : LlmRouter)
    → text_eq p name ≡ true
    → breaker_of name (record_failure now p r) ≡ trip now (breaker_of name r)
unfolding record_failure
record_failure-trip name p now r same =
    rw same (ap (λ q. trip now (breaker_of q r)) ((text_eq_iff p name).0 same))

record_failure-other :
    (name p : Text) (now : ℕ) (r : LlmRouter)
    → text_eq p name ≡ false
    → breaker_of name (record_failure now p r) ≡ breaker_of name r
unfolding record_failure
record_failure-other name p now r other = rw other refl

replay-expected :
    (name : Text) (ps : List Text) (h : Answers)
    → length h < 4294967296
    → breaker_of name (replay h (new ps)) ≡ expected name h
unfolding replay record_success
replay-expected name ps [] lt = refl
replay-expected name ps ((p, none) ∷ h) lt = elim (Bool-cases (text_eq p name)) [
  | inl same ↦ rw same refl
  | inr other ↦ rw other (replay-expected name ps h (omega arith))
]
replay-expected name ps ((p, some now) ∷ h) lt = elim (Bool-cases (text_eq p name)) [
  | inl same ↦
      let lt' : suc (streak name h) < 4294967296 = omega (arith, streak-le name h, lt) in
      rw same (
        record_failure-trip name p now (replay h (new ps)) same
        ∙ ap (trip now) (replay-expected name ps h (omega arith))
        ∙ trip-expected name now h lt')
  | inr other ↦ rw other (
      record_failure-other name p now (replay h (new ps)) other
      ∙ replay-expected name ps h (omega arith))
]

-- After any sequence of answers shorter than the range of the counter, a provider is passed over
-- exactly if its last three answers or more were failures, whatever others answered between them,
-- and the newest of them is less than 30 seconds ago.
pub is_open-streak :
    (name : Text) (ps : List Text) (h : Answers) (now : ℕ)
    → length h < 4294967296
    → is_open now name (replay h (new ps))
      ≡ (leb 3 (streak name h) && ltb now (newest name h + 30000))
unfolding is_open
is_open-streak name ps h now lt =
    rw (replay-expected name ps h lt) (elim (Bool-cases (leb 3 (streak name h))) [
      | inl many ↦ rw many refl
      | inr few ↦ rw few refl
    ])
