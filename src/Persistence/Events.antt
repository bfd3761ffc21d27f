-- ===== src/Persistence/Events.antt =====
-- `SqliteEventStore` of crates/forge-persistence/src/sqlite.rs and `EventBus` of
-- crates/forge-events/src/lib.rs. The payload is the event itself: its JSON is read back by the
-- serde_json crate as it was written. The broadcast to subscribers is best effort and left out.
use forge_os.Prelude.{
  ℕ, suc, ◌≤◌, ◌<◌, ◌≡◌, refl, sym, ap, ◌∙◌, Text, text_eq, Bool, true, Option, none, some, List,
  [], ◌∷◌, ◌++◌, append_assoc, append-nil, ltb, take, keep_if, arith, All, Bool-cases, inl, inr,
}
use forge_os.Domain.Event.{ForgeEvent, EventEnvelope}
use forge_os.Domain.Event.Aggregate.{aggregate_id}

-- The rows by ascending `seq`, which is the next id of AUTOINCREMENT.
pub record EventStore : Type 0 where
  pub rows : List EventEnvelope
  pub next_seq : ℕ

abbrev pub envelope : ℕ → ℕ → ForgeEvent → EventEnvelope
envelope seq ts event = record { seq = seq; ts = ts; event = event }

unfoldable pub append : ForgeEvent → ℕ → EventStore → EventStore × ℕ
append event ts st = (
  record { rows = st.rows ++ envelope st.next_seq ts event ∷ []; next_seq = suc st.next_seq },
  st.next_seq,
)

-- `since.map(|e| e.0).unwrap_or(0)`
abbrev pub cutoff : Option ℕ → ℕ
cutoff none = 0
cutoff (some seq) = seq

unfoldable pub read_since : Option ℕ → EventStore → List EventEnvelope
read_since since st = take 5000 (keep_if (λ e. ltb (cutoff since) e.seq) st.rows)

unfoldable pub read_for_aggregate : (ℕ → Text) → Text → EventStore → List EventEnvelope
read_for_aggregate uuid_display id st =
    keep_if (λ e. text_eq (aggregate_id uuid_display e.event) id) st.rows

unfoldable pub publish : ℕ → ForgeEvent → EventStore → EventStore × EventEnvelope
unfolding append
publish ts event st = let (st', seq) = append event ts st in (st', envelope seq ts event)

unfoldable pub replay_since : Option ℕ → EventStore → List EventEnvelope
unfolding read_since
replay_since since st = read_since since st

-- Events published one after the other, each at its time.
unfoldable pub publish_all : List (ℕ × ForgeEvent) → EventStore → EventStore × List EventEnvelope
publish_all [] st = (st, [])
publish_all ((ts, e) ∷ es) st =
    let (st', env) = publish ts e st in let (st'', envs) = publish_all es st' in (st'', env ∷ envs)

keep_if-append :
    {A : Type 0} (p : A → Bool) (xs ys : List A)
    → keep_if p (xs ++ ys) ≡ keep_if p xs ++ keep_if p ys
keep_if-append p [] ys = refl
keep_if-append p (x ∷ xs) ys = elim (Bool-cases (p x)) [
  | inl hit ↦ rw hit (ap (λ l. x ∷ l) (keep_if-append p xs ys))
  | inr miss ↦ rw miss (keep_if-append p xs ys)
]

keep_if-old :
    (k : ℕ) (rows : List EventEnvelope)
    → All (λ e. e.seq ≤ k) rows
    → keep_if (λ e. ltb k e.seq) rows ≡ []
keep_if-old k [] h = refl
keep_if-old k (e ∷ rows) h = ground (arith, keep_if-old k rows h.1, h.0)

publish_all-new :
    (k : ℕ) (es : List (ℕ × ForgeEvent)) (st : EventStore)
    → k < st.next_seq
    → ((publish_all es st).0.rows ≡ st.rows ++ (publish_all es st).1)
      × (keep_if (λ e. ltb k e.seq) (publish_all es st).1 ≡ (publish_all es st).1)
unfolding publish_all publish append
publish_all-new k [] st lt = (sym (append-nil st.rows), refl)
publish_all-new k ((ts, e) ∷ es) st lt =
    let (st', env) = publish ts e st in
    let (more, new) = publish_all-new k es st' (omega arith) in
    let hit : ltb k st.next_seq ≡ true = ground (arith, lt) in
    (more ∙ append_assoc st.rows (env ∷ []) (publish_all es st').1, rw hit (ap (λ l. env ∷ l) new))

-- A reader that has seen the log up to some sequence number catches up: what it replays since
-- then is what was published after, in order, and nothing else, except that it gets no more than
-- the first 5000 of it.
pub replay_since-publish_all :
    (k : ℕ) (es : List (ℕ × ForgeEvent)) (st : EventStore)
    → All (λ e. e.seq ≤ k) st.rows
    → k < st.next_seq
    → replay_since (some k) (publish_all es st).0 ≡ take 5000 (publish_all es st).1
unfolding replay_since read_since
replay_since-publish_all k es st old lt =
    let (rows, new) = publish_all-new k es st lt in
    ap (take 5000) (
      ap (keep_if (λ e. ltb k e.seq)) rows
      ∙ keep_if-append (λ e. ltb k e.seq) st.rows (publish_all es st).1
      ∙ ap (λ l. l ++ keep_if (λ e. ltb k e.seq) (publish_all es st).1) (keep_if-old k st.rows old)
      ∙ new)
