-- ===== src/Api.antt =====
-- The server of the inspection results (services/api): the rows it keeps, how a result is saved, and
-- how the saved results are handed to the MES.
pub mod Rows
pub mod Save
pub mod Watchdog
pub mod Queue
pub mod Alarm
pub mod Inspections
pub mod Lots
pub mod Retention
