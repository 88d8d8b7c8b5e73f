-- ===== src/Extraction/Context.antt =====
-- What of a conversation the provider is given, and the controls that patterns find in it:
-- telecom_extraction/context.py (src/saas_platform/modules). Matching a pattern and replacing its matches
-- is of Python's `re`: `search` gives the text of the first match, `sub` the text with every match replaced.
pub mod Patterns
pub mod Selection
pub mod Controls
pub mod Request
pub mod Newest
pub mod Found
pub mod Loop
pub mod Fits
