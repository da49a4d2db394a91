-- ===== src/Correlation/Window.antt =====
-- What `window_seconds` of `app/detection/correlation.py` reads.
use siem_lite.Text.Chars.{Text}
