-- ===== src/Indexer/Replay.antt =====
-- The indexer against the services: what an event does to the positions.
use soro_lend.Prelude.{
  ◌≡◌, refl, Option, none, some, List, [], ◌∷◌, ◌++◌, arith, Bool-cases, if◌then◌else◌, inl, inr, ℕ,
}
use soro_lend.Prelude.Int.{ℤ, pos, ◌-ℤ◌, ltb_ℤ}
use soro_lend.Text.{codes}
use soro_lend.Text.Decimal.{bigint}
use soro_lend.Text.Decimal.RoundTrip.{bigint-to_text}
use soro_lend.Runtime.{Result, ok, err}
use soro_lend.Schema.{Asset}
use soro_lend.Store.{Env, Db, active_asset}
use soro_lend.Lending.{supply, credited}
use soro_lend.Indexer.{
  IndexedEvent, Report, reduced, handle_supply_event, supply_indexed, kept, process_event,
  process_events,
}
use soro_lend.Indexer.Poll.{last_block, index_events}

-- For an active asset, a supply event, with its own copy of the code, leaves the database that
-- LendingService.supply leaves for the same user, asset and amount, also for a new user, and also
-- where the calls throw.
pub handle_supply_event-supply :
    (E : Env) (event : IndexedEvent) (db : Db E) {a : Asset}
    → active_asset E event.asset db ≡ some a
    → (handle_supply_event E event db).1 ≡ (supply E event.user event.asset event.amount db).1
unfolding handle_supply_event supply_indexed supply credited
handle_supply_event-supply E event db asset = ground arith

zero_text : bigint (codes "0") ≡ some (pos 0)
unfolding bigint
zero_text = refl

-- The text that `reduced` prints is read back by `BigInt` as the difference, or as 0 where the balance
-- is below the amount.
pub bigint-reduced :
    (current x : ℤ)
    → bigint (reduced current x) ≡ some (if ltb_ℤ current x then pos 0 else current -ℤ x)
unfolding reduced
bigint-reduced current x = elim (Bool-cases (ltb_ℤ current x)) [
  | inl short ↦ rw short zero_text
  | inr covered ↦ rw covered (bigint-to_text (current -ℤ x))
]

kept-append :
    (E : Env) (r : Result (Option Report)) (xs ys : List Report)
    → kept E r (xs ++ ys) ≡ kept E r xs ++ ys
kept-append E (ok (some report)) xs ys = refl
kept-append E (ok none) xs ys = refl
kept-append E (err e) xs ys = refl

-- A batch may be cut anywhere: the reports of the parts follow one another, and the second part
-- starts from the database that the first part leaves, events that throw included.
pub process_events-append :
    (E : Env) (xs ys : List IndexedEvent) (db : Db E)
    → let (first, db') = process_events E xs db in
      let (second, db'') = process_events E ys db' in
      process_events E (xs ++ ys) db ≡ (first ++ second, db'')
unfolding process_events
process_events-append E [] ys db = refl
process_events-append E (x ∷ xs) ys db =
    rw (process_events-append E xs ys (process_event E x db).1, kept-append)

last_block-append :
    (block : ℕ) (events : List IndexedEvent) (event : IndexedEvent)
    → last_block block (events ++ event ∷ []) ≡ event.block_number
unfolding last_block
last_block-append block [] event = refl
last_block-append block (e ∷ events) event = last_block-append e.block_number events event

-- A poll that fetched events continues from the block of the last one, after handling all of them.
pub index_events_resume :
    (E : Env) (block : ℕ) (events : List IndexedEvent) (event : IndexedEvent) (db : Db E)
    → let (reports, db') = process_events E (events ++ event ∷ []) db in
      index_events E block (events ++ event ∷ []) db ≡ (event.block_number, reports, db')
unfolding index_events
index_events_resume E block events event db = rw (last_block-append block events event)
