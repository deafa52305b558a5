-- ===== src/Tests.antt =====
-- Runs of the modelled code at concrete inputs: the theorems applied to them, and tests.
mod Boards
mod Trees
mod Clocks
mod Queues
mod Words
mod Workers
mod Comm
mod Servo
mod Pools
mod Sensors
mod Reactive
mod Frames
mod Logbook
