-- ===== src/Tests.antt =====
-- Runs of the definitions on concrete inputs: text and JSON (Text), the configuration, commands and
-- mail (Service), what goes to the modem and comes from it
-- (Modem), the server and its database (Server), profiles, templates and tables (Tables), the readings
-- of the device, directories and connections (Readings), and the threads (Threads).
mod Text
mod Service
mod Modem
mod Server
mod Tables
mod Readings
mod Threads
