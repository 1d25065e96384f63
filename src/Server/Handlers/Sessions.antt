-- ===== src/Server/Handlers/Sessions.antt =====
-- The invariant of a session of server/runtime_server.c.
use x_remote_runtime.Prelude.{
  ℕ, ◌+◌, ◌^◌, ◌<◌, ◌≡◌, ◌∙◌, arith, Option, none, some, length, Option-cases, inl, inr,
}
use x_remote_runtime.Server.Table.{Table, find, new_slot, remove, update, next_id}
use x_remote_runtime.Server.Table.Laws.{
  IsDistinct, IsBelow, length-remove, length-update, length-new_slot, remove-IsDistinct,
  remove-IsBelow, update-IsDistinct, update-IsBelow, new_slot-IsDistinct, new_slot-IsBelow,
  IsBelow-find, IsBelow-mono,
}
use x_remote_runtime.Server.Session.{
  ServerSession, Allocation, EventEntry, TransferEntry, max_allocs, max_streams, max_events,
  max_transfers, World, Response,
}

-- A table of fixed capacity whose ids are distinct, nonzero, and below the next one.
pub record IsTable {A : Type 0} (capacity next : ℕ) (t : Table A) : Type 0 where
  pub distinct : IsDistinct t
  pub below : IsBelow next t
  pub full_length : length t ≡ capacity
  pub positive : 0 < next

pub record IsValid (s : ServerSession) : Type 0 where
  pub allocations : IsTable max_allocs s.next_alloc_id s.allocations
  pub streams : IsTable max_streams s.next_stream_id s.streams
  pub events : IsTable max_events s.next_event_id s.events
  pub transfers : IsTable max_transfers s.next_transfer_id s.transfers

-- No id counter is about to wrap.
pub record HasIds (s : ServerSession) : Type 0 where
  pub alloc : s.next_alloc_id + 1 < 2 ^ 64
  pub stream : s.next_stream_id + 1 < 2 ^ 64
  pub event : s.next_event_id + 1 < 2 ^ 64
  pub transfer : s.next_transfer_id + 1 < 2 ^ 64

module _ {A : Type 0} {capacity next : ℕ} (t : Table A) (v : IsTable capacity next t) where
  pub remove-IsTable : (i : ℕ) → IsTable capacity next (remove i t)
  remove-IsTable i = record {
    distinct = remove-IsDistinct i t v.distinct;
    below = remove-IsBelow i next t v.below;
    full_length = length-remove i t ∙ v.full_length;
    positive = v.positive;
  }

  pub update-IsTable : (i : ℕ) (f : A → A) → IsTable capacity next (update i f t)
  update-IsTable i f = record {
    distinct = update-IsDistinct i f t v.distinct;
    below = update-IsBelow i next f t v.below;
    full_length = length-update i f t ∙ v.full_length;
    positive = v.positive;
  }

  -- The next id is not in the table.
  pub find_next : find next t ≡ none
  find_next = IsBelow-find next next t v.below (omega arith)

  pub new_slot-IsTable :
      (a : A) {t' : Table A}
      → next + 1 < 2 ^ 64
      → new_slot next a t ≡ some t'
      → IsTable capacity (next_id next) t'
  new_slot-IsTable a {t'} room e =
      let n' : next_id next ≡ next + 1 = omega arith in
      record {
        distinct = new_slot-IsDistinct next a t find_next v.distinct e;
        below = rw n' (
            new_slot-IsBelow next (next + 1) a t v.positive (omega arith)
              (IsBelow-mono next (next + 1) t (omega arith) v.below) e);
        full_length = length-new_slot next a t e ∙ v.full_length;
        positive = omega arith;
      }

-- A handler's outcome whose session is valid.
abbrev pub IsValidAfter : World × Response → Type 0
IsValidAfter r = IsValid r.0.session

-- A handler that looks something up: what it does when it is missing, and when it is there.
pub IsValid-found :
    {A : Type 0} (r : World × Response) {s : ServerSession} (o : Option A)
    → IsValid s
    → (o ≡ none → r.0.session ≡ s)
    → ((a : A) → o ≡ some a → IsValidAfter r)
    → IsValidAfter r
IsValid-found r o v missing found = elim (Option-cases o) [
  | inl e ↦ rw (missing e) v
  | inr (a, e) ↦ found a e
]

-- A handler that leaves the session alone.
pub IsValid-same :
    (r : World × Response) {s : ServerSession} → IsValid s → r.0.session ≡ s → IsValidAfter r
IsValid-same r v e = rw e v

module _ {s : ServerSession} (v : IsValid s) {n : ℕ} where
  pub with_allocations-IsValid :
      {t : Table Allocation}
      → IsTable max_allocs n t
      → IsValid (record s { allocations = t; next_alloc_id = n })
  with_allocations-IsValid h = record {
    allocations = h;
    streams = v.streams;
    events = v.events;
    transfers = v.transfers;
  }

  pub with_streams-IsValid :
      {t : Table ℕ}
      → IsTable max_streams n t
      → IsValid (record s { streams = t; next_stream_id = n })
  with_streams-IsValid h = record {
    allocations = v.allocations;
    streams = h;
    events = v.events;
    transfers = v.transfers;
  }

  pub with_events-IsValid :
      {t : Table EventEntry}
      → IsTable max_events n t
      → IsValid (record s { events = t; next_event_id = n })
  with_events-IsValid h = record {
    allocations = v.allocations;
    streams = v.streams;
    events = h;
    transfers = v.transfers;
  }

  pub with_transfers-IsValid :
      {t : Table TransferEntry}
      → IsTable max_transfers n t
      → IsValid (record s { transfers = t; next_transfer_id = n })
  with_transfers-IsValid h = record {
    allocations = v.allocations;
    streams = v.streams;
    events = v.events;
    transfers = h;
  }
