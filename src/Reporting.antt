-- ===== src/Reporting.antt =====
-- Reporting: internal/reporting. The exports that administrators request, and the worker that
-- generates their files. The generator of the XLSX and PDF files is an argument.
pub mod Export
pub mod Worker
