-- ===== src/Promotion/View.antt =====
-- src/omegahive/promotion/view.py: the human view over the promotions.
use omegahive.Base.{
  ℕ, zero, suc, String, Bool, true, false, Option, none, some, List, [], ◌∷◌, is_met, eqb, ◌==◌,
  if◌then◌else◌, ◌>>=◌, length, keep, sort_by,
}
use omegahive.Events.Envelope.{EventType, promotion_created, same_type, Uuid, Event}
use omegahive.Events.Json.{get_text}
use omegahive.Promotion.Rules.{uuid_eq, Severity, severity}

-- `by_id`: the last event of an id, which is the one that `{e.event_id: e for e in events}` keeps.
unfoldable pub by_id : List Event → Uuid → Option Event
by_id [] u = none
by_id (e ∷ es) u = elim (by_id es u) [
  | some later ↦ some later
  | none ↦ if eqb e.event_id u then some e else none
]

abbrev pub id_in : Uuid → List Uuid → Bool
id_in u seen = is_met eqb u seen

abbrev pub seq_before : Option ℕ → List ℕ → List ℕ
seq_before none chain = chain
seq_before (some k) chain = k ∷ chain

-- The cause of an event, where it is known.
abbrev pub cause_of : List Event → Event → Option Event
cause_of events e = e.causation_id >>= λ u. by_id events u

-- The events of the `while` loop of `_caused_by_chain`, on fuel: `none` is a loop that goes on.
unfoldable pub causes : ℕ → List Event → Option Event → List Uuid → Option (List Event)
unfolding is_met by_id
causes zero events cur seen = none
causes (suc n) events none seen = some []
causes (suc n) events (some e) seen = elim (id_in e.event_id seen) [
  | true ↦ some []
  | false ↦ causes n events (cause_of events e) (e.event_id ∷ seen) >>= λ es. some (e ∷ es)
]

unfoldable pub seqs_of : List Event → List ℕ
seqs_of [] = []
seqs_of (e ∷ es) = seq_before e.seq (seqs_of es)

-- `_caused_by_chain`, with fuel for each event and one more.
unfoldable pub caused_by_chain : Event → List Event → Option (List ℕ)
unfolding causes seqs_of
caused_by_chain src events =
    causes (suc (suc (length events))) events (some src) [] >>= λ es. some (seqs_of es)

-- `span` holds the same two numbers as `first_event_seq` and `last_event_seq`.
pub record ThreadDigest : Type 0 where
  pub correlation_id : Uuid
  pub event_count : ℕ
  pub first_seq : ℕ
  pub last_seq : ℕ

abbrev in_thread : Uuid → Event → Bool
in_thread u e = uuid_eq e.correlation_id (some u)

abbrev last_of : ℕ → List ℕ → ℕ
last_of k [] = k
last_of k (j ∷ js) = last_of j js

abbrev digest_over : Uuid → ℕ → List ℕ → Option ThreadDigest
digest_over u n [] = none
digest_over u n (k ∷ ks) =
    some (record { correlation_id = u; event_count = n; first_seq = k; last_seq = last_of k ks })

-- `_digest`
unfoldable pub digest : Event → List Event → Option ThreadDigest
unfolding seqs_of
digest src events = src.correlation_id >>= λ u.
    let thread = keep (in_thread u) events in
    digest_over u (length thread) (sort_by (λ k. k) (seqs_of thread))

pub record HumanItem : Type 0 where
  pub promotion_seq : Option ℕ
  pub rule_id : String
  pub severity_of : Severity
  pub ref_event_seq : Option ℕ
  pub ref_event_type : Option EventType
  pub task_id : Option String
  pub caused_by : List ℕ
  pub thread : Option ThreadDigest

-- `UUID(text)`, which is Python's; `none` is its ValueError.
abbrev pub ParseUuid : Type 0
ParseUuid = String → Option Uuid

abbrev pub chain_of : List Event → Option Event → Option (List ℕ)
chain_of events none = some []
chain_of events (some src) = caused_by_chain src events

abbrev digest_of : String → List Event → Option Event → Option ThreadDigest
digest_of rule events none = none
digest_of rule events (some src) = if rule == "thread_too_long" then digest src events else none

abbrev pub the_item : List Event → Event → String → Uuid → List ℕ → HumanItem
the_item events p rule u chain =
    let src = by_id events u in
    record {
      promotion_seq = p.seq;
      rule_id = rule;
      severity_of = severity rule;
      ref_event_seq = src >>= λ e. e.seq;
      ref_event_type = src >>= λ e. some e.event_type;
      task_id = p.task_id;
      caused_by = chain;
      thread = digest_of rule events src;
    }

-- The item of one promotion; `none` is an exception.
unfoldable pub item_of : ParseUuid → List Event → Event → Option HumanItem
unfolding by_id caused_by_chain digest severity
item_of parse events p = get_text "rule_id" p.payload >>= λ rule.
    get_text "ref_event" p.payload >>= λ ref. parse ref >>= λ u.
    chain_of events (by_id events u) >>= λ chain. some (the_item events p rule u chain)

-- The loop of `human_view` over the events, at two tiers.
unfoldable pub items_over : ParseUuid → List Event → List Event → Option (List HumanItem)
unfolding item_of
items_over parse events [] = some []
items_over parse events (p ∷ ps) =
    if same_type p.event_type promotion_created
    then (item_of parse events p >>= λ i. items_over parse events ps >>= λ is. some (i ∷ is))
    else items_over parse events ps

pub data Shown : Type 0 where
  all_events : List Event → Shown
  promoted : List HumanItem → Shown

-- `human_view`
unfoldable pub human_view : ParseUuid → List Event → ℕ → Option Shown
unfolding items_over
human_view parse events tiers =
    if eqb tiers 1
    then some (all_events events)
    else items_over parse events events >>= λ items. some (promoted items)
