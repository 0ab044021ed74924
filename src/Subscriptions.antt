-- ===== src/Subscriptions.antt =====
-- Subscriptions to the events of a ledger (internal/subscriptions/manager.go). The channel to the
-- subscriber is a list of at most 100 events. While `Subscribe` replays, nobody takes an event from the
-- channel, since the caller gets it only when `Subscribe` returns. Redis, the cancellation of the context and logging are left out.
use fincore_ledger.Prelude.{
  ℕ, zero, suc, ◌+◌, ByteString, Bool, false, Option, none, some, List, [], ◌∷◌, ◌++◌, ◌==◌, ◌||◌,
  not, ltb, str_eq, any, filter, is_empty, length, if◌then◌else◌,
}
use fincore_ledger.Storage.Records.{LogEventRecord}
use fincore_ledger.Storage.World.{Act, EventNotification, Result, ok, err, attempt, done, ◌>>=◌}
use fincore_ledger.Storage.Pages.{precedes, list_log_events, get_log_event}

abbrev pub subscription_buffer_size : ℕ
subscription_buffer_size = 100

abbrev pub max_replay_events : ℕ
max_replay_events = 100000

unfoldable pub should_include : ℕ → List ℕ → Bool
should_include event_type types = is_empty types || any (λ t. event_type == t) types

pub record Progress : Type 0 where
  pub replayed : ℕ
  pub replayed_ids : List ByteString
  pub high_water_mark : ByteString
  pub channel : List LogEventRecord

-- How a replay stands: it goes on, it has been given up, or it waits for room in the channel.
pub data Replay : Type 0 where
  goes_on : Progress → Replay
  too_many waits : Replay

unfoldable pub note : LogEventRecord → Progress → Progress
note e p = record p {
  replayed = p.replayed + 1;
  replayed_ids = e.event_id ∷ p.replayed_ids;
  high_water_mark = if precedes p.high_water_mark e.event_id then e.event_id else p.high_water_mark;
}

unfoldable pub send : LogEventRecord → Progress → Replay
send e p =
    if ltb (length p.channel) subscription_buffer_size
    then goes_on (record p { channel = p.channel ++ (e ∷ []) })
    else waits

unfoldable pub replay_one : List ℕ → LogEventRecord → Progress → Replay
replay_one types e p =
    if ltb max_replay_events (p.replayed + 1)
    then too_many
    else if should_include e.event_type types
    then send e (note e p)
    else goes_on (note e p)

-- The loop over the events of a page.
unfoldable pub replay_all : List ℕ → List LogEventRecord → Replay → Replay
replay_all types [] r = r
replay_all types (e ∷ es) (goes_on p) = replay_all types es (replay_one types e p)
replay_all types (e ∷ es) too_many = too_many
replay_all types (e ∷ es) waits = waits

-- The loop over the pages of the log, on fuel.
unfoldable pub replay_pages : ℕ → ByteString → List ℕ → ByteString → Replay → Act Replay
replay_pages zero ledger_id types token r = done r
replay_pages (suc fuel) ledger_id types token (goes_on p) = do
  page ← list_log_events ledger_id 100 token
  let r = replay_all types page.items (goes_on p)
  let rest = replay_pages fuel ledger_id types page.next_token r
  if is_empty page.next_token then done r else rest
replay_pages (suc fuel) ledger_id types token too_many = done too_many
replay_pages (suc fuel) ledger_id types token waits = done waits

abbrev pub at_start : Progress
at_start = record { replayed = 0; replayed_ids = []; high_water_mark = []; channel = [] }

-- The replay of `Subscribe`, from the event that the subscriber names.
unfoldable pub replay_from : ℕ → ByteString → List ℕ → ByteString → Act Replay
replay_from fuel ledger_id types from_event_id =
    let replay = replay_pages fuel ledger_id types from_event_id (goes_on at_start) in
    if is_empty from_event_id then done (goes_on at_start) else replay

-- A subscription behind the replay; the set of replayed events is absent once it has been cleared.
pub record Live : Type 0 where
  pub replayed_ids : Option (List ByteString)
  pub high_water_mark : ByteString
  pub channel : List LogEventRecord
  pub dropped : ℕ

unfoldable pub go_live : ByteString → Progress → Live
go_live from_event_id p = record {
  replayed_ids = if is_empty from_event_id then none else some p.replayed_ids;
  high_water_mark = p.high_water_mark;
  channel = p.channel;
  dropped = 0;
}

-- The send that does not wait: an event that finds the channel full is dropped.
unfoldable pub offer : LogEventRecord → Live → Live
offer e s =
    if ltb (length s.channel) subscription_buffer_size
    then record s { channel = s.channel ++ (e ∷ []) }
    else record s { dropped = s.dropped + 1 }

unfoldable pub offer_found : Result LogEventRecord → Live → Live
offer_found (ok e) s = offer e s
offer_found (err x) s = s

-- `handleNotification`
unfoldable pub handle_notification : List ℕ → EventNotification → Live → Act Live
handle_notification types n s =
    let found = attempt (get_log_event n.ledger_id n.event_id) >>= λ r. done (offer_found r s) in
    if should_include n.event_type types then found else done s

unfoldable pub forget : ByteString → Live → Live
forget id s = elim (s.replayed_ids) [
  | none ↦ s
  | some ids ↦ record s { replayed_ids = some (filter (λ i. not (str_eq i id)) ids) }
]

unfoldable pub was_replayed : ByteString → Option (List ByteString) → Bool
was_replayed id none = false
was_replayed id (some ids) = any (str_eq id) ids

-- Past the high-water mark the set is cleared.
unfoldable pub pass_mark : ByteString → Live → Live
pass_mark id s = if precedes s.high_water_mark id then record s { replayed_ids = none } else s

-- One message of the loop of a subscription.
unfoldable pub on_message : List ℕ → EventNotification → Live → Act Live
on_message types n s =
    if was_replayed n.event_id s.replayed_ids
    then done (forget n.event_id s)
    else handle_notification types n (pass_mark n.event_id s)
