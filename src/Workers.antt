-- ===== src/Workers.antt =====
-- ragent/workers: the process that consumes the stage queues.
pub mod Consumer
