-- ===== src/Url.antt =====
-- What the router uses of Python's `str(int)` and `urllib.parse.urlparse`: the host name and the
-- port of a URL. A port that is no number below 65536 raises `ValueError` when it is read.
pub mod Decimal
pub mod Parse
mod Tests
pub mod Roundtrip
