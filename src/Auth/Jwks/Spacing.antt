-- ===== src/Auth/Jwks/Spacing.antt =====
-- How often the issuer is asked. Requests overlap: `get_key` tests the cache, waits for the response
-- of its fetch, and other requests run in between; the tests and the ends of fetches are events in
-- the order in which they happen.
use contract_change_intel.Prelude.{
  ℕ, zero, suc, ◌+◌, ◌≤◌, ◌<◌, Text, List, [], ◌∷◌, Option, none, some, true, ◌≡◌, refl, arith, All,
  Pairwise, inl, inr, Bool-cases, Option-cases, if◌then◌else◌,
}
use contract_change_intel.Auth.Jwks.{
  Entry, Cache, Times, Fetch, fetched, unknown_kid_refresh, response_keys, stale, store_keys,
}

-- The tests of a `get_key` with the clock at each, and the end of the longest waiting fetch with the
-- clock behind it.
pub data Event (Key : Type 0) : Type 0 where
  tests : ℕ → ℕ → Text → Event Key
  answers : ℕ → Option (List (Entry Key)) → Event Key

-- The client: how many fetches wait for a response, and the cache.
pub record Client (Key : Type 0) : Type 0 where
  pub waiting : ℕ
  pub cache : Cache Key

-- What an event leaves in a log: a request to the issuer, or the keys of a response stored.
pub data Note : Type 0 where
  sent : ℕ → Note
  stored : ℕ → Note

-- The clock does not go back, from `lo` on.
abbrev pub Ticks : {Key : Type 0} → ℕ → List (Event Key) → Type 0
Ticks lo [] = Unit
Ticks lo (tests at_expiry at_refresh kid ∷ events) =
    (lo ≤ at_expiry) × (at_expiry ≤ at_refresh) × Ticks at_refresh events
Ticks lo (answers now response ∷ events) = (lo ≤ now) × Ticks now events

abbrev pub add_note : Option Note → List Note → List Note
add_note none log = log
add_note (some note) log = note ∷ log

-- A request comes more than 30 seconds behind the keys that were stored before it.
abbrev pub IsSpaced : Note → Note → Type 0
IsSpaced (stored a) (sent b) = a + unknown_kid_refresh < b
IsSpaced _ _ = Unit

abbrev pub clock : ℕ → ℕ → Times
clock at_expiry at_refresh = record {
  at_expiry = at_expiry;
  at_refresh = at_refresh;
  at_fetched = at_refresh;
}

abbrev pub note_of : Fetch → Option Note
note_of (fetched t) = some (stored t)
note_of _ = none

all_sent : (b : ℕ) (log : List Note) → All (IsSpaced (sent b)) log
all_sent b [] = tt
all_sent b (note ∷ log) = (tt, all_sent b log)

module _ {Key : Type 0} (cache_age : ℕ) where
  -- The tests of `get_key`; a fetch begins behind them.
  abbrev pub test : ℕ → Cache Key → ℕ → ℕ → Text → Option Note × Client Key
  test waiting cache at_expiry at_refresh kid =
      if stale cache_age cache (clock at_expiry at_refresh) kid
      then (some (sent at_refresh), record { waiting = suc waiting; cache = cache })
      else (none, record { waiting = waiting; cache = cache })

  -- The end of a `_fetch`, if one is waiting.
  abbrev pub answer : ℕ → Cache Key → ℕ → Option (List (Text × Key)) → Option Note × Client Key
  answer zero cache now keys = (none, record { waiting = zero; cache = cache })
  answer (suc n) cache now keys = (
    note_of (store_keys cache (clock now now) keys).0,
    record { waiting = n; cache = (store_keys cache (clock now now) keys).1 },
  )

  abbrev pub on_event : Client Key → Event Key → Option Note × Client Key
  on_event client (tests at_expiry at_refresh kid) =
      test client.waiting client.cache at_expiry at_refresh kid
  on_event client (answers now response) =
      answer client.waiting client.cache now (response_keys response)

  unfoldable pub log_of : Client Key → List (Event Key) → List Note
  log_of client [] = []
  log_of client (event ∷ events) =
      add_note (on_event client event).0 (log_of (on_event client event).1 events)

  module _ (long : unknown_kid_refresh ≤ cache_age) where
    stale-late :
        (cache : Cache Key) (times : Times) (kid : Text) (t : ℕ)
        → cache.fetched_at ≡ some t
        → times.at_expiry ≤ times.at_refresh
        → stale cache_age cache times kid ≡ true
        → t + unknown_kid_refresh < times.at_refresh
    stale-late cache times kid t e h s =
        let k : stale cache_age (record cache { fetched_at = some t }) times kid ≡ true =
          rw e at s in
        ground (arith, k, h, long)

    -- Requests behind keys that were stored at `a`, or behind newer ones.
    log_of-late :
        (a t lo waiting : ℕ) (cache : Cache Key) (events : List (Event Key))
        → cache.fetched_at ≡ some t
        → a ≤ t
        → t ≤ lo
        → Ticks lo events
        → All (IsSpaced (stored a)) (log_of (record { waiting = waiting; cache = cache }) events)
    unfolding log_of
    log_of-late a t lo waiting cache [] e at tl ticks = tt
    log_of-late a t lo waiting cache (tests x y kid ∷ events) e at tl (h1, h2, ticks) =
        elim (Bool-cases (stale cache_age cache (clock x y) kid)) [
          | inl s ↦
              let late = stale-late cache (clock x y) kid t e h2 s in
              rw s (
                omega (arith, late, at),
                log_of-late a t y (suc waiting) cache events e at (omega (arith, h1, h2, tl)) ticks,
              )
          | inr s ↦
              rw s (log_of-late a t y waiting cache events e at (omega (arith, h1, h2, tl)) ticks)
        ]
    log_of-late a t lo zero cache (answers now response ∷ events) e at tl (h, ticks) =
        log_of-late a t now zero cache events e at (omega (arith, h, tl)) ticks
    log_of-late a t lo (suc n) cache (answers now response ∷ events) e at tl (h, ticks) =
        elim (Option-cases (response_keys response)) [
          | inl z ↦ rw z (log_of-late a t now n cache events e at (omega (arith, h, tl)) ticks)
          | inr (keys, z) ↦ rw z (
            tt,
            log_of-late a now now n (record { keys = keys; fetched_at = some now }) events refl
                (omega (arith, h, tl, at)) (omega arith) ticks,
          )
        ]

    log_of-Pairwise :
        (lo waiting : ℕ) (cache : Cache Key) (events : List (Event Key))
        → Ticks lo events
        → Pairwise IsSpaced (log_of (record { waiting = waiting; cache = cache }) events)
    unfolding log_of
    log_of-Pairwise lo waiting cache [] ticks = tt
    log_of-Pairwise lo waiting cache (tests x y kid ∷ events) (h1, h2, ticks) =
        elim (Bool-cases (stale cache_age cache (clock x y) kid)) [
          | inl s ↦ rw s (all_sent y _, log_of-Pairwise y (suc waiting) cache events ticks)
          | inr s ↦ rw s (log_of-Pairwise y waiting cache events ticks)
        ]
    log_of-Pairwise lo zero cache (answers now response ∷ events) (h, ticks) =
        log_of-Pairwise now zero cache events ticks
    log_of-Pairwise lo (suc n) cache (answers now response ∷ events) (h, ticks) =
        elim (Option-cases (response_keys response)) [
          | inl z ↦ rw z (log_of-Pairwise now n cache events ticks)
          | inr (keys, z) ↦
              let new : Cache Key = record { keys = keys; fetched_at = some now } in
              rw z (
                log_of-late now now now n new events refl (omega arith) (omega arith) ticks,
                log_of-Pairwise now n new events ticks,
              )
        ]

    -- Where keys are cached for 30 seconds or longer and the clock does not go back, each request to
    -- the issuer is sent more than 30 seconds after any keys that were stored before it, whatever ids
    -- are asked for, whatever the issuer answers and however the calls overlap.
    pub log_of-IsSpaced :
        (client : Client Key) (lo : ℕ) (events : List (Event Key))
        → Ticks lo events
        → Pairwise IsSpaced (log_of client events)
    log_of-IsSpaced client lo events ticks =
        log_of-Pairwise lo client.waiting client.cache events ticks
