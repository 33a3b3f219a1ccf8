-- ===== src/Logging.antt =====
-- pysoa/common/logging.py: the censoring of logged dictionaries, the packets of
-- SyslogHandler, and the context of log records.
pub mod SensitiveFields
pub mod Censor
pub mod Syslog
pub mod Context
