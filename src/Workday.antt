-- ===== src/Workday.antt =====
-- workday.go: the calendar of workdays. A time is the local clock's nanoseconds since the first of
-- January of the year 1, in a zone whose offset never changes, so that a day has 24 hours.
pub mod Days
pub mod Passes
pub mod Years
