-- ===== src/SimpleHttp/Tests.antt =====
-- Runs of the models of simple_http at concrete inputs, and its theorems at such inputs.
mod Threads
mod Texts
mod Rounds
mod Servers
