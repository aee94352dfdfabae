-- ===== src/Broker/Examples.antt =====
-- Concrete runs of the scheduler: app/backend/broker.py.
mod Scheduling
mod Work
mod Routes
