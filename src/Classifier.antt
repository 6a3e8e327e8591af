-- ===== src/Classifier.antt =====
-- classifier.py: the severity and the title of a log line.
pub mod Words
pub mod Services
pub mod Rules
pub mod Seriema
pub mod Veredas
pub mod Lines
pub mod Severities
pub mod Titles
