-- ===== src/Lib.antt =====
-- The inspection pipeline of the tube line: cameras and sensors on an edge computer, a server that
-- stores the results, and a plant MES that reads them.
--
-- The parts and their files:
--
-- Spool (services/vision/worker/spool.py): the directory in which the edge worker keeps results
--   while the server cannot be reached. Names has the texts (`_safe_token`, `_oldest_key`, names of
--   files, paths of keys), Store the files and `enqueue`, `save_image`, `_enforce_cap`, and Flush
--   `flush` with what it calls. The state is the record Spool: a list of files for each directory,
--   the settings and the counters. The server is a state of any type that the two functions handed
--   to `flush` may change. A record Disk says which calls of the operating system fail.
-- Live (services/api/core/live.py): the relay between the screens that watch a camera and its
--   worker. The state is a dictionary of cameras; one function for each operation, and `serve` for
--   them as requests, in any order. The lock of the code makes each operation one step, and the upload
--   of a frame, which takes it twice, also two.
-- Tower (services/vision/fieldio/tower.py): lamps and buzzer. The state has the level of each pin
--   and whether the timer of a buzz is armed; the timer's end is an event like the cycles.
-- Trigger (services/vision/acquisition/trigger.py): Files for new files in a directory, Gpio for the
--   proximity sensor, Vision for the trigger on the preview of the camera. The measures of
--   pictures, which are numpy and OpenCV code, are parameters, and what a sensor or camera answers
--   is an input.
-- Api (services/api/core/inspection_service.py, core/training.py, db/models.py, mes/adapter.py and
--   packages/shared-types): Rows has the tables and keys, Save the transaction that stores a result
--   and stages it for the MES. Other transactions are functions on the tables, at the two places
--   where they can come between. A result of the worker reaches `save_inspection` through `flush`,
--   whose server it is.
--   Watchdog has the link to the MES (mes/adapter.py, mes/transport.py, mes/watchdog.py): a row is
--   staged or sent, a review stages it again, and the watchdog retries the rows that are not linked.
--   Queue is the queue of results that could not be saved (core/local_queue.py), Alarm the
--   counters of NG verdicts (ws/alarm.py), Inspections the two requests that bring results
--   (routers/inspection.py): the answer of a post goes back to `flush` and to the worker, and Lots
--   the summary of a lot. Retention is the clean-up of stored pictures (core/retention.py), a list
--   of pictures with their directories.
-- Mes (services/mes/mes_app): Records has the quality records and `upsert_record`, Intake the poll of
--   the interface table with `autostart_work_orders`, both of intake.py, and Production the sums of
--   production.py. The interface table is the one that Api stages rows in. What other transactions
--   and AIVIS do during a poll is a function or a list each, and which accesses fail is a flag each.
--   WorkOrders and Logistics are the requests of routers/orders.py and routers/logistics.py on lists of
--   rows, Numbers the numbers that rows are given (common.py), Kpi the figures of a month (kpi.py). A commit
--   of a work order writes the columns that were changed on the row as it is by then, and others may
--   come between the accesses of a request: WorkOrders/Commit, and Started for the orders that a poll
--   starts.
-- Verdict (services/vision/verdict/combine.py): the verdict from length and surface, in a mode.
-- Worker (services/vision/worker): Client has client.py, where httpx is a record of functions on the
--   state of a server; Orders the order that the worker inspects for and its changes; Images the
--   upload of the pictures of a cycle (services/vision/imaging/save.py); Results the rows
--   (services/vision/pipeline.py, services/vision/multi/batch.py); State the state of a worker,
--   and Cycle the cycles of runner.py, which use Tower, Trigger and Spool: `run_once` and
--   `_run_once_single`, `_batch`, `_count` are in Cycle/Modes; Loop the loop of `run`, over
--   the rounds that come. The image code answers with values that are parameters of a cycle.
-- Archive (services/vision/imaging/archive.py): the second copy of each picture on the NAS. The state has
--   the files of the NAS and of the spool, the queue and the counters; `submit` and a round of the loop
--   are steps, and a record World says what each of them meets.
-- Examples: tests on concrete inputs, and each theorem applied at one.
--
-- Numbers: times are whole milliseconds, microseconds or hundredths of a second, shares are
-- ten-thousandths, as each file says; Python's integers have no bound, so none is modelled. Loops
-- are recursion on lists. Fuel is used four times: for the waits of Worker/Client, with two rounds for
-- each second of the time allowed and one more, enough since a round sleeps for half a second or
-- more; for the digits of n, with n + 1 rounds, enough since the number shrinks in each; for the
-- free name of `enqueue`, with as many rounds as there are files, and for the free number of `next_no`,
-- with as many as the column has texts, both enough since the names of the rounds differ.
--
-- Not modelled: logging, HTTP and its routers, SQL beyond look-up and insert, image processing,
-- the screens, and deployment. Directories hold only the files that the code writes; tmp/ is empty
-- between two operations.
pub mod Prelude
pub mod Spool
pub mod Live
pub mod Tower
pub mod Trigger
pub mod Api
pub mod Mes
pub mod Archive
pub mod Verdict
pub mod Worker
pub mod Examples
