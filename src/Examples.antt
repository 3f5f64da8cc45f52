-- ===== src/Examples.antt =====
-- Tests on concrete inputs, and the theorems applied at some, by the part of the program.
mod Spool
mod Live
mod Devices
mod Api
mod Mes
mod Worker
mod Server
mod Office
mod Nas
mod Lots
