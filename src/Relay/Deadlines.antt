-- ===== src/Relay/Deadlines.antt =====
-- The deadlines of the poll loop are kept.
use harmony_os_reverse_tethe.Prelude.{ℕ, ◌+◌, ◌≤◌, ◌<◌, ◌≡◌, ◌⊎◌, ◌↔◌, Bool, true, not, arith}
use harmony_os_reverse_tethe.Relay.{
  Schedule, timeout_seconds, round, cleaning_interval_seconds, stats_interval_seconds,
}

-- No deadline is further away than its interval.
pub record IsValid (s : Schedule) (now : ℕ) : Type 0 where
  pub cleaning : s.next_cleaning_deadline ≤ now + cleaning_interval_seconds
  pub stats : s.next_stats_deadline ≤ now + stats_interval_seconds

-- On a clock that does not go back, from a valid schedule: a round at `now` cleans up exactly where that is due,
-- runs the handlers exactly where there is an event, and leaves valid deadlines, both of them later than `now`. The next
-- `poll` reads the clock again, at `asked`: it waits for at most a cleaning interval, and neither past the next cleaning
-- nor past the next statistics; where neither is due yet it waits exactly until the earlier one, and else not at all.
pub round-IsValid :
    (s : Schedule) (last now asked : ℕ) (no_events : Bool)
    → IsValid s last
    → last ≤ now
    → now ≤ asked
    → let r = round s now no_events in
      let wait = timeout_seconds r.schedule asked in
      ((r.cleans ≡ true) ↔ (s.next_cleaning_deadline ≤ now))
      × (r.runs_handlers ≡ not no_events)
      × IsValid r.schedule now
      × (now < r.schedule.next_cleaning_deadline)
      × (now < r.schedule.next_stats_deadline)
      × (wait ≤ cleaning_interval_seconds)
      × (asked < r.schedule.next_cleaning_deadline
          → asked < r.schedule.next_stats_deadline
          → (asked + wait ≤ r.schedule.next_cleaning_deadline)
            × (asked + wait ≤ r.schedule.next_stats_deadline)
            × ((asked + wait ≡ r.schedule.next_cleaning_deadline)
                ⊎ (asked + wait ≡ r.schedule.next_stats_deadline)))
      × ((r.schedule.next_cleaning_deadline ≤ asked) ⊎ (r.schedule.next_stats_deadline ≤ asked)
          → wait ≡ 0)
unfolding round timeout_seconds
round-IsValid s last now asked no_events v h k = ground arith
