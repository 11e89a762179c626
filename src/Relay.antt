-- ===== src/Relay.antt =====
-- The deadlines of `poll_loop` of relay/src/relay/relay.rs, in seconds: what one round of the loop does at a
-- time, given whether `poll` returned an event.
pub mod Deadlines
use harmony_os_reverse_tethe.Prelude.{
  ℕ, ◌+◌, ◌-◌, ◌*◌, min, Bool, true, false, not, ◌&&◌, leb, ltb, if◌then◌else◌,
}

abbrev pub cleaning_interval_seconds : ℕ
cleaning_interval_seconds = 5

abbrev pub stats_interval_seconds : ℕ
stats_interval_seconds = 5 * 60

pub record Schedule : Type 0 where
  pub next_cleaning_deadline : ℕ
  pub next_stats_deadline : ℕ

unfoldable pub start : ℕ → Schedule
start now = record {
  next_cleaning_deadline = now + cleaning_interval_seconds;
  next_stats_deadline = now + stats_interval_seconds;
}

-- How long `poll` waits at most. The difference stops at 0, as `max(0, ..)` does.
unfoldable pub timeout_seconds : Schedule → ℕ → ℕ
timeout_seconds s now = min s.next_cleaning_deadline s.next_stats_deadline - now

-- What a round does: clean up, log, run the handlers.
pub record Round : Type 0 where
  pub schedule : Schedule
  pub cleans : Bool
  pub logs : Bool
  pub runs_handlers : Bool

unfoldable pub next_deadline : Bool → ℕ → ℕ → ℕ → ℕ
next_deadline due deadline now interval = if due then now + interval else deadline

unfoldable pub round : Schedule → ℕ → Bool → Round
unfolding next_deadline
round s now no_events =
    let cleans = leb s.next_cleaning_deadline now in
    let cleaning = next_deadline cleans s.next_cleaning_deadline now cleaning_interval_seconds in
    let logs = leb s.next_stats_deadline now in
    let stats = next_deadline logs s.next_stats_deadline now stats_interval_seconds in
    record {
      schedule = record { next_cleaning_deadline = cleaning; next_stats_deadline = stats };
      cleans = cleans;
      logs = logs;
      runs_handlers = not (no_events && ltb now cleaning && ltb now stats);
    }
